-- ===== src/Web/Pages.antt =====
-- trackr_app/main.py: the routes of an account's Notion pages. The signature of the OAuth state is a
-- parameter, and so are the answers of the service.
use summer_intern.Prelude.{
  ℕ, ◌+◌, Bool, true, false, not, ◌&&◌, ◌||◌, Option, none, some, [], ◌∷◌, ◌++◌, String, ◌==◌,
  nat_eq, string_eq, ltb, is_some, is_none, if◌then◌else◌, find, first_where, delete_where,
}
use summer_intern.Model.{
  Db, Time, minutes, done, is_processing, SetupStatus, pending, creating, ready, uncertain, User,
  UserSession, OauthNonce, NotionConnection, NotionSync, DurableJob, job_key_eq, creation,
  match_user, matching, notion_create, Payload,
}
use summer_intern.Security.{Crypto}
use summer_intern.Sessions.{valid_session}
use summer_intern.Passwords.{user_key}
use summer_intern.Preferences.Reconcile.{connection_of}
use summer_intern.Durable.Enqueue.{job_key, enqueue_job}
use summer_intern.Durable.Batch.{is_running, save_durable}
use summer_intern.Durable.Creation.{baseline_payload, save_connection_row}
use summer_intern.Notion.Connections.{TokenPayload, save_connection}
use summer_intern.Web.Access.{Reply, redirects, http_error, Request, Handler}

-- `notion_available` of the settings, and whether the runtime's tables are there.
pub record Feature : Type 0 where
  pub notion_available : Bool
  pub has_runtime : Bool

-- `require_runtime` raises 503.
abbrev pub with_runtime : Feature → Db → Db × Reply → Db × Reply
with_runtime feature db run = if feature.has_runtime then run else (db, http_error 503)

abbrev pub add_nonce : Crypto → Time → String → ℕ → ℕ → Db → Db
add_nonce crypto now nonce user_id session_id db = record db {
  oauth_nonces =
      db.oauth_nonces
      ++ record {
        token_hash = crypto.token_hash nonce;
        user_id = user_id;
        session_id = session_id;
        expires_at = now + minutes 10;
      }
        ∷ [];
}

-- A session that has just expired raises in the source.
abbrev pub nonce_for : Crypto → Time → String → ℕ → Option UserSession → Db → Db × Reply
nonce_for crypto now nonce user_id none db = (db, http_error 500)
nonce_for crypto now nonce user_id (some s) db = (
  add_nonce crypto now nonce user_id s.id db,
  redirects "https://api.notion.com/v1/oauth/authorize",
)

module _ (crypto : Crypto) (feature : Feature) (request : Request) where
  abbrev pub session_now : Db → Option UserSession
  session_now db = valid_session crypto request.checked_at request.cookie db

  unfoldable pub notion_connect : String → Handler
  unfolding valid_session
  notion_connect nonce user db =
      if feature.notion_available
      then with_runtime feature db (nonce_for crypto request.now nonce user.id (session_now db) db)
      else (db, redirects "/dashboard")

  -- A nonce is good once, for the account and the session that asked for it, for ten minutes.
  abbrev pub is_nonce : ℕ → UserSession → String → OauthNonce → Bool
  is_nonce user_id s nonce n =
      n.token_hash == crypto.token_hash nonce
      && n.user_id == user_id
      && n.session_id == s.id
      && ltb request.now n.expires_at

  abbrev pub spend : ℕ → UserSession → String → Db → Db
  spend user_id s nonce db = record db {
    oauth_nonces = delete_where (is_nonce user_id s nonce) db.oauth_nonces;
  }

  -- `exchange_code`: the payload, or none where the request fails.
  abbrev pub connect_account : Option TokenPayload → Option User → Db → Db × Reply
  connect_account none account db = (db, redirects "/dashboard")
  connect_account (some payload) none db = (db, http_error 403)
  connect_account (some payload) (some u) db =
      if u.is_active
      then (save_connection request.now u.id payload db, redirects "/notion/setup")
      else (db, http_error 403)

  abbrev pub callback_in :
      (Db → Db) → Option TokenPayload → Bool → String → User → Option UserSession → Db → Db × Reply
  callback_in others payload cancelled nonce user none db = (db, http_error 500)
  callback_in others payload cancelled nonce user (some s) db =
      let spent = spend user.id s nonce db in
      let later = others spent in
      if is_none (first_where (is_nonce user.id s nonce) db.oauth_nonces)
      then (spent, http_error 400)
      else if not feature.notion_available || cancelled
      then (spent, redirects "/dashboard")
      else connect_account payload (find user_key user.id later.users) later

  -- The state that the signature carries, if it holds: the account and the nonce. `cancelled` is
  -- `error or not code`; `others` is what others commit during the exchange.
  unfoldable pub notion_callback :
      (Db → Db) → Option TokenPayload → Bool → Option (ℕ × String) → Handler
  unfolding valid_session save_connection
  notion_callback others payload cancelled none user db = (db, http_error 400)
  notion_callback others payload cancelled (some (user_id, nonce)) user db =
      if user_id == user.id
      then with_runtime feature db
          (callback_in others payload cancelled nonce user (session_now db) db)
      else (db, http_error 403)

-- `setup_status in ('pending', 'creating', 'uncertain')`.
abbrev pub is_creating : SetupStatus → Bool
is_creating pending = true
is_creating creating = true
is_creating uncertain = true
is_creating _ = false

abbrev pub creation_payload : ℕ → ℕ → String → Payload
creation_payload connection_id user_id page_id = record {
  user_id = some user_id;
  offer_id = none;
  connection_id = some connection_id;
  parent_page_id = some page_id;
  baseline = false;
  reconcile = false;
  offers_phase = false;
  updated = false;
}

module _ (feature : Feature) (now : Time) (others : Db → Db) where
  abbrev pub request_creation : String → User → NotionConnection → Db → Db × Reply
  request_creation page_id u c db = (
    enqueue_job now (creation c.id) notion_create (creation_payload c.id u.id page_id) false (
        save_connection_row (record c { setup_status = pending; parent_page_id = some page_id })
          db),
    redirects "/notion/setup",
  )

  abbrev pub create_for : String → Option User → Option NotionConnection → Db → Db × Reply
  create_for page_id none connection db = (db, http_error 403)
  create_for page_id (some u) none db =
      if not u.is_active
      then (db, http_error 403)
      else if not feature.notion_available
      then (db, redirects "/dashboard")
      else (db, redirects "/notion/connect")
  create_for page_id (some u) (some c) db =
      if not u.is_active
      then (db, http_error 403)
      else if not feature.notion_available || is_some c.data_source_id
      then (db, redirects "/dashboard")
      else if is_creating c.setup_status
      then (db, redirects "/notion/setup")
      else with_runtime feature db (request_creation page_id u c db)

  unfoldable pub notion_create_page : String → Handler
  unfolding enqueue_job
  notion_create_page page_id user db =
      let db' = others db in
      create_for page_id (find user_key user.id db'.users) (connection_of user.id db') db'

  abbrev pub disconnect : Option NotionConnection → Db → Db
  disconnect none db = db
  disconnect (some c) db = record db {
    notion_syncs = delete_where (λ (s : NotionSync). s.connection_id == c.id) db.notion_syncs;
    notion_connections =
        delete_where (λ (d : NotionConnection). d.id == c.id) db.notion_connections;
  }

  unfoldable pub notion_disconnect : Handler
  notion_disconnect user db =
      let db' = others db in (disconnect (connection_of user.id db') db', redirects "/dashboard")

abbrev pub failed_recovery : Reply
failed_recovery = redirects "/notion/setup?message=Unable to verify this database."

abbrev pub recovered_connection : String → String → NotionConnection → NotionConnection
recovered_connection database_id source_id c = record c {
  database_id = some database_id;
  data_source_id = some source_id;
  setup_status = ready;
  last_error = none;
}

abbrev pub end_creation : Time → Option DurableJob → Db → Db
end_creation now none db = db
end_creation now (some job) db =
    save_durable (record job { status = done; completed_at = some now; lease_until = none }) db

abbrev pub is_in_progress : Time → Option DurableJob → Bool
is_in_progress now none = false
is_in_progress now (some job) = is_processing job.status && is_running now job.lease_until

module _ (feature : Feature) (now : Time) (others meanwhile : Db → Db) where
  -- After the check of the database: the account and the connection must still be as they were.
  abbrev pub recover_into :
      NotionConnection → String × String → Option User → Option NotionConnection → Db → Db × Reply
  recover_into before (database_id, source_id) (some u) (some c) db =
      if not u.is_active || not (c.access_token_encrypted == before.access_token_encrypted)
      then (db, failed_recovery)
      else (
        enqueue_job now (match_user u.id) matching (baseline_payload u.id) false (
            end_creation now (find job_key (creation before.id) db.durable_jobs)
              (save_connection_row (recovered_connection database_id source_id c) db)),
        redirects "/dashboard",
      )
  recover_into before found _ _ db = (db, failed_recovery)

  -- `recover_database`: the identities of the database and its source, or none where it raises.
  abbrev pub recover_checked : Option (String × String) → ℕ → NotionConnection → Db → Db × Reply
  recover_checked none user_id c db = (db, failed_recovery)
  recover_checked (some found) user_id c db =
      recover_into c found (find user_key user_id db.users)
        (find (λ (d : NotionConnection). d.id) c.id db.notion_connections) db

  abbrev pub recover_for :
      Option (String × String) → Option User → Option NotionConnection → Db → Db × Reply
  recover_for found (some u) (some c) db =
      if not u.is_active || not feature.notion_available
      then (db, http_error 403)
      else with_runtime feature db (
          if is_in_progress now (find job_key (creation c.id) db.durable_jobs)
          then (db, http_error 409)
          else recover_checked found u.id c (meanwhile db))
  recover_for found _ _ db = (db, http_error 403)

  unfoldable pub notion_recover : Option (String × String) → Handler
  unfolding enqueue_job
  notion_recover found user db =
      let db' = others db in
      recover_for found (find user_key user.id db'.users) (connection_of user.id db') db'
