-- ===== src/Workers/Turns.antt =====
-- trackr_app/workers.py: the body of the loops of `process_immediate_alerts` and `process_digests`,
-- one account's turn.
use summer_intern.Prelude.{
  ℕ, Bool, ◌&&◌, Option, none, some, List, [], ◌∷◌, String, ◌==◌, nat_eq, ltb, if◌then◌else◌, map,
  any, find, save,
}
use summer_intern.Model.{
  Db, Time, Date, is_unfinished, immediate, daily_digest, mode_eq, is_active_preference, User,
  Preference, Delivery,
}
use summer_intern.Preferences.Reconcile.{delivery_id}
use summer_intern.Preferences.Digest.{Zones, digest_is_due}
use summer_intern.Durable.Matching.{preference_of}
use summer_intern.Workers.Claims.{
  claim_each, eligible_each, locked_user, pending_of, is_deliverable,
}
use summer_intern.Workers.Group.{
  Label, at_once, digest_of, SendResult, Alerted, send_group, defer_group,
}

-- Where a turn raises: before its rows are read, before its claims are committed, after the email.
pub data Fault : Type 0 where
  no_fault : Fault
  fails_reading fails_claiming fails_completing : String → Fault

-- The handler where it raises at this point, and the work elsewhere.
unfoldable pub on_reading : Fault → Alerted → Alerted → Alerted
on_reading (fails_reading error) handled run = handled
on_reading _ handled run = run

unfoldable pub on_claiming : Fault → (String → Alerted) → Alerted → Alerted
on_claiming (fails_claiming error) handled run = handled error
on_claiming _ handled run = run

unfoldable pub on_completing : Fault → (String → Alerted) → Alerted → Alerted
on_completing (fails_completing error) handled run = handled error
on_completing _ handled run = run

-- What the world decides during a turn: the times of its statements, what others commit before it
-- and during the email, whether the account's row is free, what `send_email` answers, and a fault.
pub record Turn : Type 0 where
  pub paged_at : Time
  pub before : Db → Db
  pub is_free : Bool
  pub now : Time
  pub today : Date
  pub meanwhile : Db → Db
  pub answer : SendResult
  pub completed_at : Time
  pub deferred_at : Time
  pub fault : Fault

abbrev pub silent : Db → Alerted
silent db = record { db = db; messages = []; count = 0 }

-- The rows that the transaction claims, and the state with the claims and the cancelled rows.
unfoldable pub claim_group : String → Turn → User → List Delivery → Db → List Delivery × Db
unfolding eligible_each claim_each is_deliverable
claim_group season turn user rows db =
    let fits = is_deliverable season turn.now turn.today user (preference_of user.id db) db in
    let eligible = eligible_each fits rows db in claim_each turn.now eligible.0 eligible.1

-- The email of a turn, and the handler where the completion raises.
unfoldable pub sent_group : Turn → Label → User → List ℕ → List Delivery → Db → Alerted
unfolding send_group defer_group on_completing
sent_group turn label user ids claimed db =
    let run = send_group turn.meanwhile turn.answer turn.completed_at label user claimed db in
    on_completing turn.fault
      (λ error. record run {
        db = defer_group turn.deferred_at error ids (turn.meanwhile db);
        count = 0;
      })
      run

-- Nothing is sent where nothing is claimed.
abbrev pub send_claimed : Turn → Label → User → List ℕ → List Delivery → Db → Alerted
send_claimed turn label user ids [] db = silent db
send_claimed turn label user ids (d ∷ ds) db = sent_group turn label user ids (d ∷ ds) db

abbrev pub ids_of : List Delivery → List ℕ
ids_of rows = map delivery_id rows

module _ (season : String) (turn : Turn) where
  abbrev pub put_back : List Delivery → Db → String → Alerted
  put_back rows db error = silent (defer_group turn.deferred_at error (ids_of rows) db)

  abbrev pub alert_rows : User → List Delivery → Db → Alerted
  alert_rows user rows db =
      let group = claim_group season turn user rows db in
      on_claiming turn.fault (put_back rows db)
        (send_claimed turn at_once user (ids_of rows) group.0 group.1)

  abbrev pub alert_locked : Option User → ℕ → Db → Alerted
  alert_locked none user_id db = silent db
  alert_locked (some user) user_id db =
      alert_rows user (pending_of immediate turn.now user_id db) db

  unfoldable pub alert_user : ℕ → Db → Alerted
  unfolding claim_group sent_group pending_of locked_user defer_group on_reading on_claiming
  alert_user user_id db =
      let db' = turn.before db in
      on_reading turn.fault (silent db')
        (alert_locked (locked_user turn.is_free turn.now user_id db') user_id db')

  -- The digest of the day is over where nothing of it remains to be tried.
  abbrev pub is_remaining : ℕ → Delivery → Bool
  is_remaining user_id d =
      d.user_id == user_id && d.mode == daily_digest && is_unfinished d.status && ltb d.attempts 5

  abbrev pub date_digest : Date → Option Preference → Db → Db
  date_digest date none db = db
  date_digest date (some p) db = record db {
    preferences =
        save (λ (q : Preference). q.id) (record p { last_digest_date = some date }) db.preferences;
  }

  unfoldable pub count_digest : Date → ℕ → Preference → Alerted → Alerted
  count_digest date user_id p run =
      if ltb 0 run.count
      then record run {
        db =
            if any (is_remaining user_id) run.db.deliveries
            then run.db
            else date_digest date (find (λ (q : Preference). q.id) p.id run.db.preferences) run.db;
        count = 1;
      }
      else run

  -- A zone that is not known raises after the claims.
  abbrev pub digest_in : Option (Date × ℕ) → User → Preference → List Delivery → Db → Alerted
  digest_in none user p rows db = put_back rows db "ZoneInfoNotFoundError"
  digest_in (some (date, time)) user p rows db =
      let group = claim_group season turn user rows db in
      count_digest date user.id p
        (send_claimed turn (digest_of date) user (ids_of rows) group.0 group.1)

  abbrev pub digest_rows : Option (Date × ℕ) → User → Preference → List Delivery → Db → Alerted
  digest_rows local user p rows db =
      on_claiming turn.fault (put_back rows db) (digest_in local user p rows db)

  abbrev pub is_digest_due : Zones → User → Preference → Bool
  is_digest_due zones user p =
      user.is_active
      && is_active_preference p.status
      && p.delivery_mode == daily_digest
      && digest_is_due zones p turn.now

  abbrev pub digest_locked : Zones → Option User → Option Preference → ℕ → Db → Alerted
  digest_locked zones none pref user_id db = silent db
  digest_locked zones (some user) none user_id db = silent db
  digest_locked zones (some user) (some p) user_id db =
      if is_digest_due zones user p
      then digest_rows (zones p.timezone turn.now) user p
          (pending_of daily_digest turn.now user_id db) db
      else silent db

  unfoldable pub digest_user : Zones → ℕ → Db → Alerted
  unfolding claim_group sent_group pending_of locked_user defer_group on_reading on_claiming
      count_digest digest_is_due
  digest_user zones user_id db =
      let db' = turn.before db in
      on_reading turn.fault (silent db') (
        digest_locked zones (locked_user turn.is_free turn.now user_id db')
          (preference_of user_id db') user_id db')
