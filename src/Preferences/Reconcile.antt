-- ===== src/Preferences/Reconcile.antt =====
-- trackr_app/preferences.py, `reconcile_delivery` and `activate_preference`: what becomes of the
-- unfinished alerts of an account.
use summer_intern.Prelude.{
  ℕ, String, Bool, true, false, not, ◌&&◌, ◌||◌, Option, none, some, List, [], ◌∷◌, ◌++◌, ◌==◌,
  nat_eq, leb, is_some, if◌then◌else◌, map, any, select, find, save, first_where, fresh_id, length,
}
use summer_intern.Model.{
  Db, Time, Date, Status, pending, failed, cancelled, is_unfinished, is_failed, is_cancelled,
  is_sent, Mode, mode_eq, Preference, active, Offer, UserOffer, Delivery, NotionConnection,
  NotionSync, DurableJob, job_key_eq, receipt,
}
use summer_intern.Preferences.Matching.{offer_matches, offer_is_open, matching_offers}

abbrev pub delivery_id : Delivery → ℕ
delivery_id d = d.id

abbrev pub save_delivery : Delivery → Db → Db
save_delivery d db = record db { deliveries = save delivery_id d db.deliveries }

abbrev pub cancel : Delivery → Delivery
cancel d = record d { status = cancelled; processing_started_at = none }

abbrev pub retry_status : ℕ → Status
retry_status attempts = if leb 5 attempts then failed else pending

-- `status in ("pending", "processing", "failed", "cancelled")`.
abbrev pub is_open_alert : Status → Bool
is_open_alert s = is_unfinished s || is_failed s || is_cancelled s

-- The unique columns (user_id, offer_id, mode).
abbrev pub is_for : ℕ → ℕ → Mode → Delivery → Bool
is_for user_id offer_id mode d = d.user_id == user_id && d.offer_id == offer_id && d.mode == mode

-- A new row in the account's mode, which keeps the attempts of the one it replaces.
abbrev pub replacement : ℕ → Time → Mode → Delivery → Delivery
replacement id now mode item = record {
  id = id;
  user_id = item.user_id;
  offer_id = item.offer_id;
  mode = mode;
  status = if is_failed item.status then failed else pending;
  attempts = item.attempts;
  provider_message_id = none;
  last_error = none;
  sent_at = none;
  processing_started_at = none;
  created_at = now;
  next_attempt_at = none;
}

-- A delivery that was sent, or the receipt of one that was purged.
unfoldable pub was_sent : ℕ → ℕ → Db → Bool
was_sent user_id offer_id db =
    any (λ (d : Delivery). d.user_id == user_id && d.offer_id == offer_id && is_sent d.status)
      db.deliveries
    || is_some (find (λ (j : DurableJob). j.key) (receipt user_id offer_id) db.durable_jobs)

module _ (season : String) (now : Time) (today : Date) (p : Preference) where
  -- The offer exists, is open and matches.
  abbrev pub is_wanted : Option Offer → Db → Bool
  is_wanted none db = false
  is_wanted (some o) db = offer_is_open season today o db && offer_matches season today o p db

  -- The row in the account's mode: added, revived if it was cancelled, or left as it is.
  unfoldable pub revive_target : Delivery → Option Delivery → List Delivery → List Delivery
  revive_target item none rows =
      rows ++ replacement (fresh_id delivery_id rows) now p.delivery_mode item ∷ []
  revive_target item (some t) rows =
      if is_cancelled t.status
      then save delivery_id (record t { status = retry_status t.attempts }) rows
      else rows

  unfoldable pub change_mode : Delivery → List Delivery → List Delivery
  unfolding revive_target
  change_mode item rows =
      let rows' = save delivery_id (cancel item) rows in
      revive_target item (first_where (is_for item.user_id item.offer_id p.delivery_mode) rows')
        rows'

  -- The body that `reconcile_delivery` and the loop of `activate_preference` share; `sent` is
  -- whether the account was sent this offer before.
  unfoldable pub reconcile_item : Bool → Delivery → Db → Db
  unfolding change_mode
  reconcile_item sent item db = record db {
    deliveries =
        if not (is_open_alert item.status)
        then db.deliveries
        else if sent || not (is_wanted (find (λ (o : Offer). o.id) item.offer_id db.offers) db)
        then save delivery_id (cancel item) db.deliveries
        else if not (item.mode == p.delivery_mode)
        then change_mode item db.deliveries
        else if is_cancelled item.status
        then save delivery_id
            (record item { status = retry_status item.attempts; next_attempt_at = none })
            db.deliveries
        else db.deliveries;
  }

  unfoldable pub reconcile_delivery : Delivery → Db → Db
  unfolding reconcile_item was_sent
  reconcile_delivery item db = reconcile_item (was_sent item.user_id item.offer_id db) item db

  -- The loop of `activate_preference` over the account's deliveries; `sent` is read before it.
  unfoldable pub reconcile_each : (ℕ → Bool) → List ℕ → Db → Db
  unfolding reconcile_item
  reconcile_each sent [] db = db
  reconcile_each sent (id ∷ ids) db =
      reconcile_each sent ids (elim (find delivery_id id db.deliveries) [
        | none ↦ db
        | some item ↦ reconcile_item (sent item.offer_id) item db
      ])

abbrev pub connection_of : ℕ → Db → Option NotionConnection
connection_of user_id db =
    first_where (λ (c : NotionConnection). c.user_id == user_id) db.notion_connections

-- `user.notion and user.notion.data_source_id`: the connection's identity.
abbrev pub ready_connection : Option NotionConnection → Option ℕ
ready_connection none = none
ready_connection (some c) = if is_some c.data_source_id then some c.id else none

abbrev pub new_sync : ℕ → ℕ → ℕ → NotionSync
new_sync id connection_id offer_id = record {
  id = id;
  connection_id = connection_id;
  offer_id = offer_id;
  status = pending;
  notion_page_id = none;
  attempts = 0;
  last_error = none;
  synced_at = none;
  next_attempt_at = none;
}

abbrev pub find_sync : ℕ → ℕ → List NotionSync → Option NotionSync
find_sync connection_id offer_id rows =
    first_where (λ (s : NotionSync). s.connection_id == connection_id && s.offer_id == offer_id)
      rows

abbrev pub add_sync : ℕ → ℕ → List NotionSync → List NotionSync
add_sync connection_id offer_id rows =
    rows ++ new_sync (fresh_id (λ (s : NotionSync). s.id) rows) connection_id offer_id ∷ []

-- The page of an offer is queued, or revived if it was cancelled.
unfoldable pub queue_sync : Option ℕ → ℕ → List NotionSync → List NotionSync
queue_sync none offer_id rows = rows
queue_sync (some c) offer_id rows = elim (find_sync c offer_id rows) [
  | none ↦ add_sync c offer_id rows
  | some s ↦
      if is_cancelled s.status
      then save (λ (t : NotionSync). t.id) (record s { status = retry_status s.attempts }) rows
      else rows
]

abbrev pub new_match : ℕ → ℕ → ℕ → Bool → Time → UserOffer
new_match id user_id offer_id baseline now = record {
  id = id;
  user_id = user_id;
  offer_id = offer_id;
  baseline = baseline;
  matched_at = now;
}

abbrev pub is_matched : ℕ → ℕ → Db → Bool
is_matched user_id offer_id db =
    any (λ (m : UserOffer). m.user_id == user_id && m.offer_id == offer_id) db.user_offers

-- `db.add(UserOffer(...))` where the account has no match for the offer yet.
abbrev pub add_match : ℕ → ℕ → Bool → Time → Db → List UserOffer
add_match user_id offer_id baseline now db =
    if is_matched user_id offer_id db
    then db.user_offers
    else db.user_offers
      ++ new_match (fresh_id (λ (m : UserOffer). m.id) db.user_offers) user_id offer_id baseline now
        ∷ []

-- The second loop of `activate_preference`: existing matches are a baseline, and get no email.
unfoldable pub record_baseline : Time → Preference → List Offer → Db → Db
unfolding queue_sync
record_baseline now p [] db = db
record_baseline now p (o ∷ os) db = record_baseline now p os (record db {
  user_offers = add_match p.user_id o.id true now db;
  notion_syncs = queue_sync (ready_connection (connection_of p.user_id db)) o.id db.notion_syncs;
})

-- `activate_preference` without a deferred job: the state and the count of matching offers.
unfoldable pub activate_preference : String → Time → Date → Preference → Db → Db × ℕ
unfolding reconcile_each record_baseline matching_offers was_sent
activate_preference season now today p db =
    let p' = record p { status = active; activated_at = some now } in
    let db' = record db { preferences = save (λ (q : Preference). q.id) p' db.preferences } in
    let mine = map delivery_id (select (λ (d : Delivery). d.user_id == p.user_id) db'.deliveries) in
    let reconciled =
      reconcile_each season now today p' (λ offer_id. was_sent p.user_id offer_id db') mine db' in
    let offers = matching_offers season today p' reconciled in
    (record_baseline now p' offers reconciled, length offers)
