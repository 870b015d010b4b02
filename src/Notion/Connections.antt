-- ===== src/Notion/Connections.antt =====
-- trackr_app/notion.py: `save_connection` and `create_offer_database`. The payload's tokens are
-- encrypted already.
use summer_intern.Prelude.{
  ℕ, not, ◌&&◌, Option, none, some, List, [], ◌∷◌, ◌++◌, String, ◌==◌, nat_eq, string_eq,
  if◌then◌else◌, update_where, delete_where, fresh_id,
}
use summer_intern.Model.{Db, Time, pending, is_failed, idle, ready, NotionConnection, NotionSync}
use summer_intern.Preferences.Reconcile.{connection_of}
use summer_intern.Durable.Enqueue.{same_option}
use summer_intern.Durable.Creation.{save_connection_row}

-- What the service answers to `exchange_code`.
pub record TokenPayload : Type 0 where
  pub access_token_encrypted : String
  pub refresh_token_encrypted : Option String
  pub workspace_id : Option String
  pub workspace_name : Option String

abbrev pub drop_syncs : ℕ → List NotionSync → List NotionSync
drop_syncs connection_id rows =
    delete_where (λ (s : NotionSync). s.connection_id == connection_id) rows

-- Failed pages get a new budget.
abbrev pub revive_syncs : ℕ → List NotionSync → List NotionSync
revive_syncs connection_id rows =
    update_where (λ (s : NotionSync). s.connection_id == connection_id && is_failed s.status)
      (λ s. record s { status = pending; attempts = 0; next_attempt_at = none; last_error = none })
      rows

abbrev pub with_tokens : TokenPayload → NotionConnection → NotionConnection
with_tokens payload c = record c {
  access_token_encrypted = payload.access_token_encrypted;
  refresh_token_encrypted = payload.refresh_token_encrypted;
  workspace_id = payload.workspace_id;
  workspace_name = payload.workspace_name;
  last_error = none;
}

-- Another workspace starts over.
abbrev pub forgotten : NotionConnection → NotionConnection
forgotten c = record c {
  database_id = none;
  data_source_id = none;
  setup_status = idle;
  parent_page_id = none;
}

abbrev pub new_connection : ℕ → ℕ → Time → NotionConnection
new_connection id user_id now = record {
  id = id;
  user_id = user_id;
  access_token_encrypted = "";
  refresh_token_encrypted = none;
  workspace_id = none;
  workspace_name = none;
  database_id = none;
  data_source_id = none;
  last_error = none;
  connected_at = now;
  setup_status = idle;
  parent_page_id = none;
}

abbrev pub store_connection : Time → ℕ → TokenPayload → Option NotionConnection → Db → Db
store_connection now user_id payload none db =
    let c =
      new_connection (fresh_id (λ (d : NotionConnection). d.id) db.notion_connections) user_id
        now in
    record db {
      notion_connections = db.notion_connections ++ with_tokens payload c ∷ [];
      notion_syncs = revive_syncs c.id db.notion_syncs;
    }
store_connection now user_id payload (some c) db =
    let moved = not (same_option c.workspace_id payload.workspace_id) in
    let kept = if moved then drop_syncs c.id db.notion_syncs else db.notion_syncs in
    save_connection_row (with_tokens payload (if moved then forgotten c else c))
      (record db { notion_syncs = revive_syncs c.id kept })

unfoldable pub save_connection : Time → ℕ → TokenPayload → Db → Db
save_connection now user_id payload db =
    store_connection now user_id payload (connection_of user_id db) db

-- What `create_remote_database` returned.
unfoldable pub create_offer_database : NotionConnection → String → String → String → Db → Db
create_offer_database c parent_page_id database_id source_id db =
    save_connection_row
      (record c {
        database_id = some database_id;
        data_source_id = some source_id;
        last_error = none;
        setup_status = ready;
        parent_page_id = some parent_page_id;
      })
      (record db { notion_syncs = drop_syncs c.id db.notion_syncs })
