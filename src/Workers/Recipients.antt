-- ===== src/Workers/Recipients.antt =====
-- trackr_app/workers.py: whom the two loops send an email.
use summer_intern.Prelude.{
  ℕ, ◌≡◌, refl, sym, ap, ◌∙◌, String, Bool, Option, none, some, nat_eq, ltb, find, find-key, arith,
  All, AreUnique, Bool-cases, inl, inr,
}
use summer_intern.Model.{Db, Time, Date, mode_eq, immediate, daily_digest, User, Preference}
use summer_intern.Preferences.Reconcile.{delivery_id}
use summer_intern.Preferences.Digest.{Zones}
use summer_intern.Durable.Matching.{preference_of}
use summer_intern.Workers.Claims.{pending_of, locked_user}
use summer_intern.Workers.Group.{at_once, digest_of, Alerted}
use summer_intern.Workers.Turns.{
  Turn, claim_group, send_claimed, ids_of, silent, put_back, alert_locked, alert_user, digest_in,
  digest_locked, digest_user, is_digest_due, count_digest,
}
use summer_intern.Workers.Faults.{on_reading-Holds, on_claiming-Holds}
use summer_intern.Workers.Permits.{IsAllowed, committed, committed-Rows, claimed_group-Allowed}

locked_user-found :
    (free : Bool) (now : Time) (user_id : ℕ) (db : Db) (user : User)
    → locked_user free now user_id db ≡ some user
    → find (λ (u : User). u.id) user_id db.users ≡ some user
unfolding locked_user
locked_user-found free now user_id db user h = ground (arith, h)

module _ (season : String) (turn : Turn) (db : Db)
    (unique : AreUnique delivery_id db.deliveries) where
  alert_permits :
      (found : Option User) (user_id : ℕ)
      → ((user : User) → found ≡ some user → find (λ (u : User). u.id) user_id db.users ≡ some user)
      → All
          (IsAllowed season turn immediate db)
          (alert_locked season turn found user_id db).messages
  alert_permits none user_id known = tt
  alert_permits (some user) user_id known =
      let there = known user refl in
      let at : user.id ≡ user_id = find-key (λ (u : User). u.id) user_id db.users user there in
      let rows = pending_of immediate turn.now user_id db in
      let group = committed season turn immediate user db in
      on_claiming-Holds (λ a. All (IsAllowed season turn immediate db) a.messages)
        (send_claimed turn at_once user (ids_of rows) (claim_group season turn user rows db).0
          (claim_group season turn user rows db).1)
        turn.fault (put_back season turn rows db) (λ error. tt)
        (rw (sym at) (
          claimed_group-Allowed season turn immediate at_once user db
            (ids_of (pending_of immediate turn.now user.id db)) group.0
            (ap (λ n. find (λ (u : User). u.id) n db.users) at ∙ there)
            (committed-Rows season turn immediate user db unique)))

  counted_messages :
      (date : Date) (user_id : ℕ) (p : Preference) (run : Alerted)
      → (count_digest season turn date user_id p run).messages ≡ run.messages
  unfolding count_digest
  counted_messages date user_id p run = elim (Bool-cases (ltb 0 run.count)) [
    | inl some_sent ↦ rw some_sent refl
    | inr nothing ↦ rw nothing refl
  ]

  digest_permits :
      (local : Option (Date × ℕ)) (user : User) (p : Preference)
      → find (λ (u : User). u.id) user.id db.users ≡ some user
      → All
          (IsAllowed season turn daily_digest db)
          (digest_in season turn local user p
            (pending_of daily_digest turn.now user.id db)
            db).messages
  digest_permits none user p there = tt
  digest_permits (some (date, time)) user p there =
      let ids = ids_of (pending_of daily_digest turn.now user.id db) in
      let group = committed season turn daily_digest user db in
      rw
        (counted_messages date user.id p
          (send_claimed turn (digest_of date) user ids group.0 group.1))
        (claimed_group-Allowed season turn daily_digest (digest_of date) user db ids group.0 there
          (committed-Rows season turn daily_digest user db unique))

  digest_locked-Allowed :
      (zones : Zones) (found : Option User) (pref : Option Preference) (user_id : ℕ)
      → ((user : User) → found ≡ some user → find (λ (u : User). u.id) user_id db.users ≡ some user)
      → All
          (IsAllowed season turn daily_digest db)
          (digest_locked season turn zones found pref user_id db).messages
  digest_locked-Allowed zones none pref user_id known = tt
  digest_locked-Allowed zones (some user) none user_id known = tt
  digest_locked-Allowed zones (some user) (some p) user_id known =
      let there = known user refl in
      let at : user.id ≡ user_id = find-key (λ (u : User). u.id) user_id db.users user there in
      let local = zones p.timezone turn.now in
      elim (Bool-cases (is_digest_due season turn zones user p)) [
        | inr early ↦ rw early tt
        | inl due ↦
            rw (due, sym at)
              (on_claiming-Holds (λ a. All (IsAllowed season turn daily_digest db) a.messages)
                (digest_in season turn local user p (pending_of daily_digest turn.now user.id db)
                  db)
                turn.fault (put_back season turn (pending_of daily_digest turn.now user.id db) db)
                (λ error. tt)
                (digest_permits local user p
                  (ap (λ n. find (λ (u : User). u.id) n db.users) at ∙ there)))
      ]

-- An alert or a digest is sent only to the address of an active account whose preference is active
-- in the email's mode, after its rows were committed as claimed, with an attempt counted, by this
-- very turn, and each offer of it is open and matches the preference; the email is rendered from
-- the offers of these rows and no others. The identities of the rows are unique.
pub turn_permits :
    (season : String) (zones : Zones) (turn : Turn) (user_id : ℕ) (db : Db)
    → AreUnique delivery_id (turn.before db).deliveries
    → All
        (IsAllowed season turn immediate (turn.before db))
        (alert_user season turn user_id db).messages
      × All
          (IsAllowed season turn daily_digest (turn.before db))
          (digest_user season turn zones user_id db).messages
unfolding alert_user digest_user
turn_permits season zones turn user_id db unique =
    let db' = turn.before db in
    let found = locked_user turn.is_free turn.now user_id db' in
    (
      on_reading-Holds (λ a. All (IsAllowed season turn immediate db') a.messages)
          (alert_locked season turn found user_id db') turn.fault (silent db') tt
          (alert_permits season turn db' unique found user_id
            (locked_user-found turn.is_free turn.now user_id db')),
      on_reading-Holds (λ a. All (IsAllowed season turn daily_digest db') a.messages)
          (digest_locked season turn zones found (preference_of user_id db') user_id db') turn.fault
          (silent db') tt
          (digest_locked-Allowed season turn db' unique zones found (preference_of user_id db')
            user_id (locked_user-found turn.is_free turn.now user_id db')),
    )
