-- ===== src/AuthMail/Queue.antt =====
-- trackr_app/auth_mail.py, `process_auth_queue`: the jobs of one pass, their calls, and what is
-- written where a call raises.
use summer_intern.Prelude.{
  ℕ, ◌+◌, Bool, false, not, ◌&&◌, ◌||◌, Option, none, some, List, [], ◌∷◌, ◌++◌, String, ◌==◌,
  nat_eq, leb, is_some, is_none, opt_beq, if◌then◌else◌, map, select, take, sort_by, find,
  update_where,
}
use summer_intern.Model.{
  Db, Time, pending, failed, is_pending, is_unfinished, is_processing, Invitation, AuthMail,
}
use summer_intern.Operations.{next_retry}
use summer_intern.Security.{Crypto}
use summer_intern.AuthMail.Jobs.{lease, is_later}
use summer_intern.AuthMail.Attempt.{
  Message, Attempt, Run, returned, raised_invalid_token, raised_other, process_auth_mail,
}

-- A comparison with NULL is not true in SQL.
abbrev pub started_before : Time → Option Time → Bool
started_before now none = false
started_before now (some t) = leb (t + lease) now

abbrev pub is_due : Time → AuthMail → Bool
is_due now job =
    (is_pending job.status
      || is_processing job.status && started_before now job.processing_started_at)
    && not (is_later now job.next_attempt_at)

-- Public requests before invitations, each by identity, a hundred at most.
unfoldable pub due_jobs : Time → Db → List ℕ
due_jobs now db =
    let due = select (is_due now) db.auth_mail in
    let public_first =
      sort_by (λ (j : AuthMail). j.id) (select (λ j. is_none j.invitation_id) due)
      ++ sort_by (λ (j : AuthMail). j.id) (select (λ j. is_some j.invitation_id) due) in
    map (λ (j : AuthMail). j.id) (take 100 public_first)

-- The address does not decrypt: the job fails for good, and with it an open invitation.
unfoldable pub fail_unreadable : ℕ → Db → Db
fail_unreadable job_id db =
    let rows =
      update_where (λ (j : AuthMail). j.id == job_id && is_unfinished j.status)
        (λ j. record j {
          status = failed;
          last_error = some "InvalidToken";
          processing_started_at = none;
        })
        db.auth_mail in
    let invitation_id : Option ℕ = elim (find (λ (j : AuthMail). j.id) job_id db.auth_mail) [
      | none ↦ none
      | some job ↦ job.invitation_id
    ] in
    record db {
      auth_mail = rows;
      invitations =
          update_where
            (λ (i : Invitation).
              opt_beq invitation_id i.id
              && is_none i.accepted_at
              && is_unfinished i.delivery_status)
            (λ i. record i { delivery_status = failed; last_error = some "InvalidToken" })
            db.invitations;
    }

-- Any other exception: only a job that is still pending is put back, for an hour at most.
unfoldable pub defer_job : Time → String → ℕ → Db → Db
defer_job now error job_id db = record db {
  auth_mail =
      update_where (λ (j : AuthMail). j.id == job_id && is_pending j.status)
        (λ j. record j {
          attempts = j.attempts + 1;
          status = if leb 4 j.attempts then failed else pending;
          last_error = some error;
          next_attempt_at = some (next_retry now 5);
        })
        db.auth_mail;
}

-- What the world decides during a pass, for each job: whether the deadline has come, its call, the
-- error's name, the time of the handler, and whether the handler's own statement fails.
pub record Pass : Type 0 where
  pub expired : ℕ → Bool
  pub attempt : ℕ → Attempt
  pub error : ℕ → String
  pub deferred_at : ℕ → Time
  pub defer_fails : ℕ → Bool

-- The state, the messages so far, and the count of sent jobs.
pub record Progress : Type 0 where
  pub db : Db
  pub messages : List Message
  pub count : ℕ

module _ (crypto : Crypto) (runtime_available : Bool) (pass : Pass) where
  unfoldable pub after_call : ℕ → Progress → Run → Progress
  after_call id before run = record {
    db = elim run.ending [
      | returned _ ↦ run.db
      | raised_invalid_token ↦ fail_unreadable id run.db
      | raised_other ↦
          if pass.defer_fails id
          then run.db
          else defer_job (pass.deferred_at id) (pass.error id) id run.db
    ];
    messages = before.messages ++ run.messages;
    count = elim run.ending [
      | returned sent ↦ if sent then before.count + 1 else before.count
      | raised_invalid_token ↦ before.count
      | raised_other ↦ before.count
    ];
  }

  unfoldable pub run_jobs : List ℕ → Progress → Progress
  unfolding after_call
  run_jobs [] before = before
  run_jobs (id ∷ ids) before =
      let rest = run_jobs ids (
        after_call id before
          (process_auth_mail crypto runtime_available (pass.attempt id) id before.db)) in
      if pass.expired id then before else rest

  unfoldable pub process_auth_queue : Time → Db → Progress
  unfolding due_jobs run_jobs
  process_auth_queue now db =
      run_jobs (due_jobs now db) (record { db = db; messages = []; count = 0 })
