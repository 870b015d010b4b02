-- ===== src/Workers/Tries.antt =====
-- trackr_app/workers.py: an account's turn keeps the budget of attempts.
use summer_intern.Prelude.{
  ℕ, ◌≡◌, refl, String, ◌&&◌, Option, none, some, List, [], ◌∷◌, ◌==◌, nat_eq, All, find, any,
  All-select, All-take, All-sort_by, select, sort_by, ltb, Bool-cases, inl, inr,
}
use summer_intern.Model.{
  Db, Time, Date, Mode, mode_eq, immediate, daily_digest, User, Preference, Delivery,
}
use summer_intern.Preferences.Matching.{is_empty}
use summer_intern.Preferences.Reconcile.{delivery_id}
use summer_intern.Preferences.Digest.{Zones}
use summer_intern.Durable.Matching.{preference_of}
use summer_intern.Workers.Claims.{
  is_claimable, eligible_each, pending_of, locked_user, is_deliverable,
}
use summer_intern.Workers.Group.{
  Label, at_once, digest_of, Alerted, defer_group, send_group, offers_of, claims_of, has_account,
}
use summer_intern.Workers.Turns.{
  Turn, claim_group, sent_group, send_claimed, silent, put_back, alert_locked, alert_user,
  date_digest, count_digest, digest_in, digest_locked, digest_user, is_digest_due, is_remaining,
  ids_of,
}
use summer_intern.Workers.Faults.{on_reading-Holds, on_claiming-Holds, on_completing-Holds}
use summer_intern.Workers.Budget.{
  AlertWithin, AlertsWithin, claim_each-Within, eligible_each-Within, complete_each-Within,
  defer_group-Within,
}

pending_of-Within :
    (mode : Mode) (now : Time) (user_id : ℕ) (db : Db)
    → AlertsWithin db
    → All AlertWithin (pending_of mode now user_id db)
unfolding pending_of
pending_of-Within mode now user_id db h =
    let rows =
      select (λ (d : Delivery). d.user_id == user_id && d.mode == mode && is_claimable now d)
        db.deliveries in
    All-take AlertWithin 100 (sort_by delivery_id rows)
      (All-sort_by AlertWithin delivery_id rows (All-select AlertWithin _ db.deliveries h))

abbrev pub IsFairTurn : Turn → Type 0
IsFairTurn turn =
    ((db : Db) → AlertsWithin db → AlertsWithin (turn.before db))
    × ((db : Db) → AlertsWithin db → AlertsWithin (turn.meanwhile db))

abbrev pub EndsWithin : Alerted → Type 0
EndsWithin run = AlertsWithin run.db

module _ (season : String) (turn : Turn) (fair : IsFairTurn turn) where
  send_group-Within :
      (label : Label) (user : User) (claimed : List Delivery) (db : Db)
      → AlertsWithin db
      → EndsWithin (send_group turn.meanwhile turn.answer turn.completed_at label user claimed db)
  unfolding send_group
  send_group-Within label user claimed db h =
      let account = find (λ (u : User). u.id) user.id (turn.meanwhile db).users in
      let done =
        complete_each-Within turn.completed_at (has_account account) turn.answer (claims_of claimed)
          (turn.meanwhile db) (fair.1 db h) in
      elim (Bool-cases (is_empty (offers_of db claimed))) [
        | inl gone ↦ rw gone h
        | inr kept ↦ rw kept done
      ]

  send_claimed-Within :
      (label : Label) (user : User) (ids : List ℕ) (claimed : List Delivery) (db : Db)
      → AlertsWithin db
      → EndsWithin (send_claimed turn label user ids claimed db)
  unfolding sent_group
  send_claimed-Within label user ids [] db h = h
  send_claimed-Within label user ids (d ∷ ds) db h =
      let run = send_group turn.meanwhile turn.answer turn.completed_at label user (d ∷ ds) db in
      on_completing-Holds EndsWithin run turn.fault
        (λ error. record run {
          db = defer_group turn.deferred_at error ids (turn.meanwhile db);
          count = 0;
        })
        (λ error. defer_group-Within turn.deferred_at error ids (turn.meanwhile db) (fair.1 db h))
        (send_group-Within label user (d ∷ ds) db h)

  claim_group-Within :
      (user : User) (rows : List Delivery) (db : Db)
      → All AlertWithin rows
      → AlertsWithin db
      → AlertsWithin (claim_group season turn user rows db).1
  unfolding claim_group
  claim_group-Within user rows db ws h =
      let fits = is_deliverable season turn.now turn.today user (preference_of user.id db) db in
      let left = eligible_each fits rows db in
      claim_each-Within turn.now left.0 left.1 (eligible_each-Within fits rows db ws h)

  put_back-Within :
      (rows : List Delivery) (db : Db) (error : String)
      → AlertsWithin db
      → EndsWithin (put_back season turn rows db error)
  put_back-Within rows db error h = defer_group-Within turn.deferred_at error (ids_of rows) db h

  alert_locked-Within :
      (found : Option User) (user_id : ℕ) (db : Db)
      → AlertsWithin db
      → EndsWithin (alert_locked season turn found user_id db)
  alert_locked-Within none user_id db h = h
  alert_locked-Within (some user) user_id db h =
      let rows = pending_of immediate turn.now user_id db in
      let group = claim_group season turn user rows db in
      on_claiming-Holds EndsWithin (send_claimed turn at_once user (ids_of rows) group.0 group.1)
        turn.fault (put_back season turn rows db) (λ error. put_back-Within rows db error h)
        (send_claimed-Within at_once user (ids_of rows) group.0 group.1
          (claim_group-Within user rows db (pending_of-Within immediate turn.now user_id db h) h))

  pub alert_user-Within :
      (user_id : ℕ) (db : Db) → AlertsWithin db → EndsWithin (alert_user season turn user_id db)
  unfolding alert_user
  alert_user-Within user_id db h =
      let before = turn.before db in
      let found = locked_user turn.is_free turn.now user_id before in
      on_reading-Holds EndsWithin (alert_locked season turn found user_id before) turn.fault
        (silent before) (fair.0 db h) (alert_locked-Within found user_id before (fair.0 db h))

  date_digest_deliveries :
      (date : Date) (found : Option Preference) (db : Db)
      → (date_digest season turn date found db).deliveries ≡ db.deliveries
  date_digest_deliveries date none db = refl
  date_digest_deliveries date (some p) db = refl

  count_digest-Within :
      (date : Date) (user_id : ℕ) (p : Preference) (run : Alerted)
      → EndsWithin run
      → EndsWithin (count_digest season turn date user_id p run)
  unfolding count_digest
  count_digest-Within date user_id p run h = elim (Bool-cases (ltb 0 run.count)) [
    | inr nothing ↦ rw nothing h
    | inl some_sent ↦ elim (Bool-cases (any (is_remaining season turn user_id) run.db.deliveries)) [
      | inl more ↦ rw (some_sent, more) h
      | inr over ↦
          rw
            (
              some_sent,
              over,
              date_digest_deliveries date (find (λ (q : Preference). q.id) p.id run.db.preferences)
                  run.db,
            )
            h
    ]
  ]

  digest_in-Within :
      (local : Option (Date × ℕ)) (user : User) (p : Preference) (rows : List Delivery) (db : Db)
      → All AlertWithin rows
      → AlertsWithin db
      → EndsWithin (digest_in season turn local user p rows db)
  digest_in-Within none user p rows db ws h = put_back-Within rows db "ZoneInfoNotFoundError" h
  digest_in-Within (some (date, time)) user p rows db ws h =
      let group = claim_group season turn user rows db in
      count_digest-Within date user.id p
        (send_claimed turn (digest_of date) user (ids_of rows) group.0 group.1)
        (send_claimed-Within (digest_of date) user (ids_of rows) group.0 group.1
          (claim_group-Within user rows db ws h))

  digest_locked-Within :
      (zones : Zones) (found : Option User) (pref : Option Preference) (user_id : ℕ) (db : Db)
      → AlertsWithin db
      → EndsWithin (digest_locked season turn zones found pref user_id db)
  digest_locked-Within zones none pref user_id db h = h
  digest_locked-Within zones (some user) none user_id db h = h
  digest_locked-Within zones (some user) (some p) user_id db h =
      let rows = pending_of daily_digest turn.now user_id db in
      elim (Bool-cases (is_digest_due season turn zones user p)) [
        | inr early ↦ rw early h
        | inl due ↦ rw due (
            on_claiming-Holds EndsWithin
              (digest_in season turn (zones p.timezone turn.now) user p rows db) turn.fault
              (put_back season turn rows db) (λ error. put_back-Within rows db error h)
              (digest_in-Within (zones p.timezone turn.now) user p rows db
                (pending_of-Within daily_digest turn.now user_id db h) h))
      ]

  pub digest_user-Within :
      (zones : Zones) (user_id : ℕ) (db : Db)
      → AlertsWithin db
      → EndsWithin (digest_user season turn zones user_id db)
  unfolding digest_user
  digest_user-Within zones user_id db h =
      let before = turn.before db in
      let found = locked_user turn.is_free turn.now user_id before in
      let pref = preference_of user_id before in
      on_reading-Holds EndsWithin (digest_locked season turn zones found pref user_id before)
        turn.fault (silent before) (fair.0 db h)
        (digest_locked-Within zones found pref user_id before (fair.0 db h))
