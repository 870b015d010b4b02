-- ===== src/AuthMail/Budget.antt =====
-- How often an email is attempted: `attempts` stays at most five through every transaction.
use summer_intern.Prelude.{
  ℕ, String, ◌≤◌, ◌<◌, Bool, true, false, Option, none, some, ◌≡◌, List, arith, All, All-save,
  find-All, Bool-cases, Option-cases, inl, inr, find, save, leb, nat_eq,
}
use summer_intern.Model.{Db, Time, cancelled, is_pending, User, Invitation, AuthMail}
use summer_intern.Security.{Crypto}
use summer_intern.Maintenance.{completed}
use summer_intern.AuthMail.Jobs.{
  Locked, missing, invalid, held, is_withdrawn, owns, locked, add_token, find_invitation,
}
use summer_intern.AuthMail.Attempt.{
  Prepared, declined, refused, claimed, Verified, broken, unreadable, withdrawn, cleared, Attempt,
  exhausted, claim_of, settled, settle, admit, prepare_held, prepare, verify_held, verify,
  finish_held, finish, after_verify, after_prepare, process_auth_mail,
}

-- At most five attempts, and one is left while the job is pending.
abbrev pub WithinBudget : AuthMail → Type 0
WithinBudget job = (job.attempts ≤ 5) × (is_pending job.status ≡ true → job.attempts < 5)

abbrev pub AllWithinBudget : Db → Type 0
AllWithinBudget db = All WithinBudget db.auth_mail

-- Of the state that a first transaction commits; a refusal commits none.
abbrev pub PreparedWithin : Prepared → Type 0
PreparedWithin (declined db) = AllWithinBudget db
PreparedWithin refused = Unit
PreparedWithin (claimed db attempt) = AllWithinBudget db × (attempt ≤ 5)

abbrev pub VerifiedWithin : Verified → Type 0
VerifiedWithin (withdrawn db) = AllWithinBudget db
VerifiedWithin _ = Unit

abbrev HeldWithin : Locked → Type 0
HeldWithin (held job user) = WithinBudget job
HeldWithin _ = Unit

pub save_job-Within :
    (job : AuthMail) (rows : List AuthMail)
    → WithinBudget job
    → All WithinBudget rows
    → All WithinBudget (save (λ (j : AuthMail). j.id) job rows)
save_job-Within job rows w h = All-save (λ (j : AuthMail). j.id) WithinBudget job rows w h

find-Within :
    (id : ℕ) (rows : List AuthMail) (job : AuthMail)
    → All WithinBudget rows
    → find (λ (j : AuthMail). j.id) id rows ≡ some job
    → WithinBudget job
find-Within id rows job h e = find-All (λ (j : AuthMail). j.id) WithinBudget id rows job h e

owns-attempt :
    (now : Time) (attempt : ℕ) (job : AuthMail)
    → owns now attempt job ≡ true
    → job.attempts ≡ attempt
unfolding owns
owns-attempt now attempt job h = ground arith

module _ (crypto : Crypto) where
  admit-Within :
      (now : Time) (raw : String) (job : AuthMail) (user : Option User)
      (invitation : Option Invitation) (db : Db)
      → WithinBudget job
      → AllWithinBudget db
      → PreparedWithin (admit crypto now raw job user invitation db)
  unfolding admit add_token
  admit-Within now raw job none invitation db w h =
      save_job-Within (record job { status = cancelled }) db.auth_mail (w.0, λ e. cc) h
  admit-Within now raw job (some user) invitation db w h =
      elim (Bool-cases (is_withdrawn now job (some user) invitation)) [
        | inl e ↦
            rw e (save_job-Within (record job { status = cancelled }) db.auth_mail (ground arith) h)
        | inr e ↦ rw e (elim (Bool-cases (leb 5 job.attempts)) [
          | inl full ↦ rw full (save_job-Within (exhausted job) db.auth_mail (ground arith) h)
          | inr room ↦
              rw room
                (save_job-Within (claim_of now job) db.auth_mail (ground arith) h, ground arith)
        ])
      ]

  locked-Within : (id : ℕ) (db : Db) → AllWithinBudget db → HeldWithin (locked crypto id db)
  unfolding locked
  locked-Within id db h = elim (Option-cases (find (λ (j : AuthMail). j.id) id db.auth_mail)) [
    | inl e ↦ rw e tt
    | inr (job, e) ↦ rw e (elim (Option-cases (crypto.decrypt job.email_encrypted)) [
      | inl d ↦ rw d tt
      | inr (email, d) ↦ rw d (find-Within id db.auth_mail job h e)
    ])
  ]

  prepare_held-Within :
      (now : Time) (raw : String) (found : Locked) (db : Db)
      → HeldWithin found
      → AllWithinBudget db
      → PreparedWithin (prepare_held crypto now raw found db)
  unfolding prepare_held
  prepare_held-Within now raw missing db w h = h
  prepare_held-Within now raw invalid db w h = tt
  prepare_held-Within now raw (held job user) db w h =
      ground (arith, admit-Within now raw job user (find_invitation job.invitation_id db) db w h)

  -- The first transaction leaves every job within its budget, and a claim's number is at most five.
  pub prepare-Within :
      (now : Time) (raw : String) (id : ℕ) (db : Db)
      → AllWithinBudget db
      → PreparedWithin (prepare crypto now raw id db)
  unfolding prepare
  prepare-Within now raw id db h =
      prepare_held-Within now raw (locked crypto id db) db (locked-Within id db h) h

  verify_held-Within :
      (now later : Time) (attempt : ℕ) (raw : String) (found : Locked) (db : Db)
      → HeldWithin found
      → AllWithinBudget db
      → VerifiedWithin (verify_held crypto now later attempt raw found db)
  unfolding verify_held
  verify_held-Within now later attempt raw missing db w h = tt
  verify_held-Within now later attempt raw invalid db w h = tt
  verify_held-Within now later attempt raw (held job none) db w h =
      ground (arith, save_job-Within (record job { status = cancelled }) db.auth_mail)
  verify_held-Within now later attempt raw (held job (some user)) db w h =
      ground (arith, save_job-Within (record job { status = cancelled }) db.auth_mail)

  pub verify-Within :
      (now later : Time) (attempt : ℕ) (raw : String) (id : ℕ) (db : Db)
      → AllWithinBudget db
      → VerifiedWithin (verify crypto now later attempt raw id db)
  unfolding verify
  verify-Within now later attempt raw id db h =
      verify_held-Within now later attempt raw (locked crypto id db) db (locked-Within id db h) h

module _ (crypto : Crypto) (runtime_available : Bool) where
  pub auth_mail-settle :
      (later : Time) (attempt : ℕ) (failure : Option String) (invitation : Option Invitation)
      (job : AuthMail) (db : Db)
      → (settle crypto runtime_available later attempt failure invitation job db).auth_mail
        ≡ save (λ (j : AuthMail). j.id) job db.auth_mail
  unfolding settle completed
  auth_mail-settle later attempt failure invitation job db = ground arith

  settled-Within :
      (later : Time) (attempt : ℕ) (over : Bool) (failure : Option String) (job : AuthMail)
      → job.attempts ≡ attempt
      → WithinBudget job
      → WithinBudget (settled later attempt over failure job)
  settled-Within later attempt true failure job e w = ground arith
  settled-Within later attempt false none job e w = ground arith
  settled-Within later attempt false (some error) job e w = ground arith

  finish_held-Within :
      (now later : Time) (attempt : ℕ) (failure : Option String) (found : Locked) (db : Db)
      → HeldWithin found
      → AllWithinBudget db
      → AllWithinBudget (finish_held crypto runtime_available now later attempt failure found db).0
  unfolding finish_held
  finish_held-Within now later attempt failure missing db w h = h
  finish_held-Within now later attempt failure invalid db w h = h
  finish_held-Within now later attempt failure (held job user) db w h =
      let invitation = find_invitation job.invitation_id db in
      let over = is_withdrawn later job user invitation in
      elim (Bool-cases (owns now attempt job)) [
        | inl own ↦ rw own (
            rw auth_mail-settle (
              save_job-Within (settled later attempt over failure job) db.auth_mail
                (settled-Within later attempt over failure job (owns-attempt now attempt job own) w)
                h))
        | inr other ↦ rw other h
      ]

  pub finish-Within :
      (now later : Time) (attempt : ℕ) (failure : Option String) (id : ℕ) (db : Db)
      → AllWithinBudget db
      → AllWithinBudget (finish crypto runtime_available now later attempt failure id db).0
  unfolding finish
  finish-Within now later attempt failure id db h =
      finish_held-Within now later attempt failure (locked crypto id db) db
        (locked-Within crypto id db h) h

-- Others keep every job within its budget between the transactions.
pub record Fair (world : Attempt) : Type 0 where
  pub before_verify : (db : Db) → AllWithinBudget db → AllWithinBudget (world.before_verify db)
  pub before_finish : (db : Db) → AllWithinBudget db → AllWithinBudget (world.before_finish db)

module _ (crypto : Crypto) (runtime_available : Bool) (world : Attempt) (fair : Fair world) where
  after_verify-Within :
      (attempt id : ℕ) (db : Db) (v : Verified)
      → VerifiedWithin v
      → AllWithinBudget db
      → AllWithinBudget (after_verify crypto runtime_available world attempt id db v).db
  unfolding after_verify
  after_verify-Within attempt id db broken w h = h
  after_verify-Within attempt id db unreadable w h = h
  after_verify-Within attempt id db (withdrawn db') w h = w
  after_verify-Within attempt id db (cleared message kind) w h =
      let before = fair.before_finish db h in
      let done =
        finish-Within crypto runtime_available world.prepared_at world.finished_at attempt
          world.failure id (world.before_finish db) before in
      elim (Bool-cases world.fails_finishing) [
        | inl raises ↦ rw raises before
        | inr calm ↦ rw calm done
      ]

  after_prepare-Within :
      (id : ℕ) (db : Db) (p : Prepared)
      → PreparedWithin p
      → AllWithinBudget db
      → AllWithinBudget (after_prepare crypto runtime_available world id db p).db
  unfolding after_prepare
  after_prepare-Within id db (declined db') w h = w
  after_prepare-Within id db refused w h = h
  after_prepare-Within id db (claimed db' attempt) w h =
      let h' = fair.before_verify db' w.0 in
      let done =
        after_verify-Within attempt id (world.before_verify db')
          (verify crypto world.prepared_at world.verified_at attempt world.raw id
            (world.before_verify db'))
          (verify-Within crypto world.prepared_at world.verified_at attempt world.raw id
            (world.before_verify db') h')
          h' in
      elim (Bool-cases world.fails_verifying) [
        | inl raises ↦ rw raises h'
        | inr calm ↦ rw calm done
      ]

  -- A whole call of `process_auth_mail`, whatever the sender answers and however others interleave
  -- within their budgets, leaves every job with at most five attempts, and a pending one with one
  -- left.
  pub process_auth_mail-Within :
      (id : ℕ) (db : Db)
      → AllWithinBudget db
      → AllWithinBudget (process_auth_mail crypto runtime_available world id db).db
  unfolding process_auth_mail
  process_auth_mail-Within id db h =
      let done =
        after_prepare-Within id db (prepare crypto world.prepared_at world.raw id db)
          (prepare-Within crypto world.prepared_at world.raw id db h) h in
      elim (Bool-cases world.fails_preparing) [ inl raises ↦ rw raises h | inr calm ↦ rw calm done ]
