-- ===== src/AuthMail/Leases.antt =====
-- Who may work on a job: a fresh claim excludes others, and an attempt that lost it changes nothing.
use summer_intern.Prelude.{
  ◌⊎◌, ◌≤◌, inl, inr, Bool-cases, leb, is_some, ℕ, ◌+◌, ◌<◌, Bool, true, false, Option, none, some,
  String, ◌≡◌, refl, arith, find, find-save, find-key, nat_eq, string_eq,
}
use summer_intern.Model.{Db, Time, User, AuthMail, cancelled, sent, pending, failed, is_sent}
use summer_intern.Operations.{next_retry}
use summer_intern.Security.{Crypto}
use summer_intern.AuthMail.Jobs.{
  lease, held, owns, locked, add_token, is_withdrawn, find_invitation,
}
use summer_intern.AuthMail.Attempt.{
  declined, claimed, claim_of, settled, prepare_held, prepare, finish_held, finish,
}
use summer_intern.AuthMail.Budget.{auth_mail-settle}
use summer_intern.AuthMail.Claims.{IsClaim, prepare-IsClaim}

module _ (crypto : Crypto) (now : Time) (raw : String) (id : ℕ) (db db' : Db) (attempt : ℕ)
    (claim : IsClaim crypto now raw id db db' attempt) where
  open claim use {job, user, email}

  found_after : find (λ (j : AuthMail). j.id) id db'.auth_mail ≡ some (claim_of now job)
  unfolding add_token
  found_after = rw (claim.written) (
      rw find-save (
        rw (claim.found, find-key (λ (j : AuthMail). j.id) id db.auth_mail job claim.found)
          (ground arith)))

  users_after : db'.users ≡ db.users
  unfolding add_token
  users_after = rw (claim.written)

  pub locked_after : locked crypto id db' ≡ held (claim_of now job) (some user)
  unfolding locked add_token
  locked_after = rw (found_after, claim.readable, users_after, claim.account)

id-settled :
    (later : Time) (attempt : ℕ) (over : Bool) (failure : Option String) (job : AuthMail)
    → (settled later attempt over failure job).id ≡ job.id
id-settled later attempt true failure job = refl
id-settled later attempt false none job = refl
id-settled later attempt false (some error) job = refl

-- While a claim's lease runs, another call for the same job changes nothing and sends nothing.
pub claim_excludes :
    (crypto : Crypto) (now later : Time) (raw raw' : String) (id : ℕ) (db db' : Db) (attempt : ℕ)
    → prepare crypto now raw id db ≡ claimed db' attempt
    → later < now + lease
    → prepare crypto later raw' id db' ≡ declined db'
unfolding prepare prepare_held
claim_excludes crypto now later raw raw' id db db' attempt h early =
    let claim = prepare-IsClaim crypto now raw id db db' attempt h in
    rw (locked_after crypto now raw id db db' attempt claim) (ground arith)

-- A delivery whose job was taken over, finished or revoked in the meantime writes nothing.
pub finish_foreign :
    (crypto : Crypto) (runtime_available : Bool) (now later : Time) (attempt : ℕ)
    (failure : Option String) (id : ℕ) (db : Db) (job : AuthMail) (user : Option User)
    → locked crypto id db ≡ held job user
    → owns now attempt job ≡ false
    → finish crypto runtime_available now later attempt failure id db ≡ (db, some false)
unfolding finish finish_held
finish_foreign crypto runtime_available now later attempt failure id db job user h lost =
    rw h (rw lost)

-- The row of a job that its delivery still owns.
finished_row :
    (crypto : Crypto) (runtime_available : Bool) (now later : Time) (attempt : ℕ)
    (failure : Option String) (id : ℕ) (db : Db) (job : AuthMail) (user : Option User)
    → locked crypto id db ≡ held job user
    → find (λ (j : AuthMail). j.id) id db.auth_mail ≡ some job
    → owns now attempt job ≡ true
    → find
        (λ (j : AuthMail). j.id)
        id
        (finish crypto runtime_available now later attempt failure id db).0.auth_mail
      ≡ some (
          settled later attempt
            (is_withdrawn later job user (find_invitation job.invitation_id db))
            failure
            job)
unfolding finish finish_held
finished_row crypto runtime_available now later attempt failure id db job user h found own =
    let invitation = find_invitation job.invitation_id db in
    let over = is_withdrawn later job user invitation in
    rw h (
      rw own (
        rw auth_mail-settle (
          rw find-save (
            rw
              (
                found,
                id-settled later attempt over failure job,
                find-key (λ (j : AuthMail). j.id) id db.auth_mail job found,
              )
              (ground arith)))))

-- The outcome of a delivery in the job's row: it is given up, and cancelled where the request was
-- withdrawn, sent where the sender succeeded, pending with a delay where it failed and an attempt
-- is left, and failed otherwise.
abbrev pub IsOutcome : Time → ℕ → Bool → Option String → AuthMail → Type 0
IsOutcome later attempt over failure r =
    (r.processing_started_at ≡ none)
    × (((over ≡ true) × (r.status ≡ cancelled))
        ⊎ (((over ≡ false) × (failure ≡ none) × (r.status ≡ sent) × (r.next_attempt_at ≡ none))
            ⊎ (((over ≡ false)
                  × (is_some failure ≡ true)
                  × (attempt < 5)
                  × (r.status ≡ pending)
                  × (r.last_error ≡ failure)
                  × (r.next_attempt_at ≡ some (next_retry later attempt)))
                ⊎ ((over ≡ false)
                    × (is_some failure ≡ true)
                    × (5 ≤ attempt)
                    × (r.status ≡ failed)
                    × (r.last_error ≡ failure)))))

settled-Outcome :
    (later : Time) (attempt : ℕ) (over : Bool) (failure : Option String) (job : AuthMail)
    → IsOutcome later attempt over failure (settled later attempt over failure job)
settled-Outcome later attempt true failure job = (refl, inl (refl, refl))
settled-Outcome later attempt false none job = (refl, inr (inl (refl, refl, refl, refl)))
settled-Outcome later attempt false (some error) job = elim (Bool-cases (leb 5 attempt)) [
  | inl last ↦ (refl, inr (inr (inr (refl, refl, ground (arith, last), rw last refl, refl))))
  | inr left ↦ (refl, inr (inr (inl (refl, refl, ground (arith, left), rw left refl, refl, refl))))
]

-- A delivery that still owns its job gives it up with its outcome: cancelled where the request was
-- withdrawn; otherwise sent where the sender succeeded; otherwise, with the sender's error, pending
-- until `next_retry` of an attempt below the fifth, and failed at the fifth. It reports whether the
-- email was sent.
pub finish_owned :
    (crypto : Crypto) (runtime_available : Bool) (now later : Time) (attempt : ℕ)
    (failure : Option String) (id : ℕ) (db : Db) (job : AuthMail) (user : Option User)
    → locked crypto id db ≡ held job user
    → find (λ (j : AuthMail). j.id) id db.auth_mail ≡ some job
    → owns now attempt job ≡ true
    → (let over = is_withdrawn later job user (find_invitation job.invitation_id db) in
        let run = finish crypto runtime_available now later attempt failure id db in
        (r : AuthMail) × (find (λ (j : AuthMail). j.id) id run.0.auth_mail ≡ some r)
        × IsOutcome later attempt over failure r
        × (run.1 ≡ some (is_sent r.status)))
unfolding finish finish_held
finish_owned crypto runtime_available now later attempt failure id db job user h found own =
    let over = is_withdrawn later job user (find_invitation job.invitation_id db) in
    (
      settled later attempt over failure job,
      finished_row crypto runtime_available now later attempt failure id db job user h found own,
      settled-Outcome later attempt over failure job,
      rw h (rw own refl),
    )
