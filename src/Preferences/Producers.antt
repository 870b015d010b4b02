-- ===== src/Preferences/Producers.antt =====
-- trackr_app/preferences.py: `queue_new_offer` and `queue_notion_update`.
use summer_intern.Prelude.{
  ℕ, Bool, false, not, ◌&&◌, Option, none, some, List, [], ◌∷◌, ◌++◌, String, ◌==◌, nat_eq, is_some,
  if◌then◌else◌, map, select, sort_by, find, save, fresh_id,
}
use summer_intern.Model.{
  Db, Time, Date, pending, is_active_preference, User, Preference, Offer, UserOffer, NotionSync,
}
use summer_intern.Preferences.Matching.{offer_matches, offer_is_open}
use summer_intern.Preferences.Reconcile.{
  delivery_id, connection_of, ready_connection, find_sync, add_sync, new_match, is_matched,
}
use summer_intern.Durable.Matching.{preference_of, new_delivery}

-- The page is queued unless it is known.
abbrev pub queue_page : Option ℕ → ℕ → List NotionSync → List NotionSync
queue_page none offer_id rows = rows
queue_page (some c) offer_id rows =
    if is_some (find_sync c offer_id rows) then rows else add_sync c offer_id rows

module _ (season : String) (now : Time) (today : Date) (offer : Offer) where
  unfoldable pub wants_new : Option User → Option Preference → Db → Bool
  wants_new (some u) (some p) db =
      u.is_active
      && is_active_preference p.status
      && offer_is_open season today offer db
      && offer_matches season today offer p db
      && not (is_matched p.user_id offer.id db)
  wants_new _ _ db = false

  abbrev pub add_alert : Option Preference → Db → Db
  add_alert none db = db
  add_alert (some p) db = record db {
    user_offers =
        db.user_offers
        ++ new_match (fresh_id (λ (m : UserOffer). m.id) db.user_offers) p.user_id offer.id false
            now
          ∷ [];
    deliveries =
        db.deliveries
        ++ new_delivery (fresh_id delivery_id db.deliveries) p.user_id offer.id p.delivery_mode now
          ∷ [];
    notion_syncs =
        queue_page (ready_connection (connection_of p.user_id db)) offer.id db.notion_syncs;
  }

  -- An account that is missing raises in the source; its preference goes with it.
  unfoldable pub queue_each : List ℕ → Db → Db
  unfolding wants_new
  queue_each [] db = db
  queue_each (user_id ∷ ids) db =
      let pref = preference_of user_id db in
      queue_each ids (
        if wants_new (find (λ (u : User). u.id) user_id db.users) pref db
        then add_alert pref db
        else db)

  unfoldable pub queue_new_offer : Db → Db
  unfolding queue_each
  queue_new_offer db =
      queue_each
        (sort_by (λ n. n)
          (map (λ (p : Preference). p.user_id)
            (select (λ (p : Preference). is_active_preference p.status) db.preferences)))
        db

-- A page that is there is sent again, with a new budget of attempts.
abbrev pub renew_page : Option NotionSync → ℕ → ℕ → List NotionSync → List NotionSync
renew_page none connection_id offer_id rows = add_sync connection_id offer_id rows
renew_page (some s) connection_id offer_id rows =
    save (λ (t : NotionSync). t.id) (record s { status = pending; attempts = 0 }) rows

abbrev pub update_page : Option ℕ → ℕ → List NotionSync → List NotionSync
update_page none offer_id rows = rows
update_page (some c) offer_id rows = renew_page (find_sync c offer_id rows) c offer_id rows

abbrev pub is_active_owner : Option User → Option Preference → Bool
is_active_owner (some u) (some p) = u.is_active
is_active_owner _ _ = false

unfoldable pub update_each : Offer → List UserOffer → Db → Db
update_each offer [] db = db
update_each offer (m ∷ ms) db = update_each offer ms (
    if is_active_owner (find (λ (u : User). u.id) m.user_id db.users) (preference_of m.user_id db)
    then record db {
      notion_syncs =
          update_page (ready_connection (connection_of m.user_id db)) offer.id db.notion_syncs;
    }
    else db)

unfoldable pub queue_notion_update : Offer → Db → Db
unfolding update_each
queue_notion_update offer db =
    update_each offer (select (λ (m : UserOffer). m.offer_id == offer.id) db.user_offers) db
