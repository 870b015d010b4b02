-- ===== src/Durable/Jobs.antt =====
-- trackr_app/durable.py, `process_jobs` for the kind 'match': which jobs are due, the call of each,
-- and what is written where a call raises. A commit that itself fails is not modelled.
use summer_intern.Prelude.{
  ℕ, ◌+◌, Bool, true, ◌&&◌, ◌||◌, Option, none, some, List, [], ◌∷◌, String, string_eq, leb,
  opt_beq, if◌then◌else◌, map, select, take, sort_by, find,
}
use summer_intern.Model.{
  Db, Time, Date, pending, failed, is_pending, is_processing, is_unfinished, is_matching,
  is_creation, DurableJob, JobKey, job_key_eq,
}
use summer_intern.Operations.{next_retry}
use summer_intern.Durable.Enqueue.{job_key}
use summer_intern.Durable.Batch.{
  Claimed, vanished, idle, claimed, claim_match, run_batch, save_durable, released,
}

abbrev pub is_reached : Time → Option Time → Bool
is_reached now none = true
is_reached now (some t) = leb t now

abbrev pub is_due_job : Time → DurableJob → Bool
is_due_job now job =
    is_matching job.kind
    && is_unfinished job.status
    && is_reached now job.lease_until
    && is_reached now job.next_attempt_at

-- By creation, then by key in the database's order of texts: a hundred at most.
unfoldable pub due_matches : (JobKey → ℕ) → Time → Db → List JobKey
due_matches order now db = map job_key (
    take 100 (
      sort_by (λ (j : DurableJob). j.created_at)
        (sort_by (λ (j : DurableJob). order j.key) (select (is_due_job now) db.durable_jobs))))

-- The next try, or the end of them.
abbrev pub retried : Time → String → DurableJob → DurableJob
retried now error job = record job {
  status = if leb 5 job.attempts then failed else pending;
  last_error = some error;
  next_attempt_at = some (next_retry now job.attempts);
}

-- The handler: `claim` is the token of the call's claim, if it came to one.
unfoldable pub after_failure : Time → String → Option String → DurableJob → DurableJob
after_failure now error (some token) job =
    if opt_beq job.lease_token token
    then (if is_processing job.status then retried now error (released job) else released job)
    else job
after_failure now error none job =
    if is_pending job.status
    then retried now error (record job {
      attempts =
          if is_matching job.kind || is_creation job.kind then job.attempts + 1 else job.attempts;
      lease_until = none;
    })
    else job

unfoldable pub handle : Time → String → Option String → Option DurableJob → Db → Db
unfolding after_failure
handle now error claim none db = db
handle now error claim (some job) db = save_durable (after_failure now error claim job) db

-- Whether a call raises, with the error's code.
pub data Outcome : Type 0 where
  works : Outcome
  fails_before_claim fails_after_claim : String → Outcome

-- What the world decides during one call: the new token, the times of its transactions, what others
-- commit in between, and whether it raises.
pub record Call : Type 0 where
  pub token : String
  pub claimed_at : Time
  pub before_work : Db → Db
  pub worked_at : Time
  pub today : Date
  pub outcome : Outcome
  pub before_handler : Db → Db
  pub handled_at : Time

module _ (season : String) where
  abbrev pub handled : Call → String → Option String → JobKey → Db → Db
  handled call error claim key db =
      let db' = call.before_handler db in
      handle call.handled_at error claim (find job_key key db'.durable_jobs) db'

  unfoldable pub work : Call → Outcome → JobKey → DurableJob → Db → Db × ℕ
  unfolding handle run_batch
  work call works key job db =
      run_batch season call.worked_at call.today call.token key job (call.before_work db)
  work call (fails_after_claim error) key job db = (handled call error (some call.token) key db, 0)
  work call (fails_before_claim error) key job db = (handled call error (some call.token) key db, 0)

  unfoldable pub after_claim : Call → JobKey → Db → Claimed → Db × ℕ
  unfolding work
  after_claim call key db vanished = (handled call "AttributeError" none key db, 0)
  after_claim call key db (idle db') = (db', 0)
  after_claim call key db (claimed db' job) = work call call.outcome key job db'

  unfoldable pub process_match : Call → Outcome → JobKey → Db → Db × ℕ
  unfolding after_claim claim_match
  process_match call (fails_before_claim error) key db = (handled call error none key db, 0)
  process_match call _ key db =
      after_claim call key db (claim_match call.claimed_at call.token key db)

  -- The loop of `process_jobs`, with the deadline and the calls as the world decides them.
  unfoldable pub run_matches : (JobKey → Bool) → (JobKey → Call) → List JobKey → Db → ℕ → Db × ℕ
  unfolding process_match
  run_matches expired calls [] db count = (db, count)
  run_matches expired calls (key ∷ keys) db count =
      let call = calls key in
      let result = process_match call call.outcome key db in
      let rest = run_matches expired calls keys result.0 (count + result.1) in
      if expired key then (db, count) else rest

  unfoldable pub process_match_jobs :
      (JobKey → ℕ) → (JobKey → Bool) → (JobKey → Call) → Time → Db → Db × ℕ
  unfolding run_matches due_matches
  process_match_jobs order expired calls now db =
      run_matches expired calls (due_matches order now db) db 0
