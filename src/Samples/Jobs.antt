-- ===== src/Samples/Jobs.antt =====
-- Runs of the durable jobs of trackr_app/durable.py.
use summer_intern.Prelude.{
  ◌⊎◌, List, [], ◌∷◌, ◌≡◌, ◌≤◌, ◌<◌, ◌+◌, ℕ, String, refl, arith, Bool, true, false, Option, none,
  some, List, [], ◌∷◌, find, contains, nat_eq, ◌⊎◌,
}
use summer_intern.Model.{Db, job_key_eq, match_offer, matching, Payload, DurableJob, done}
use summer_intern.Durable.Enqueue.{job_key, enqueue_job}
use summer_intern.Durable.Matching.{match_pairs}
use summer_intern.Durable.Batch.{
  claimed, idle, claim_match, claimed_match, save_durable, end_found, advanced, released, run_batch,
  batch_ids,
}
use summer_intern.Durable.Jobs.{Call, fails_after_claim, handle, process_match_jobs}
use summer_intern.Durable.Leases.{requested, supersede_excludes, superseded_restarts, generation}
use summer_intern.Durable.Failures.{failure_spares_generation}
use summer_intern.Durable.Ends.{Round, call_each, job_ends}
use summer_intern.Durable.Advances.{table_of, IsFinished, IsMoved, run_batch_advances}
use summer_intern.Durable.Alerts.{alerts, allowance, match_pairs_alert_once}
use summer_intern.Durable.Attempts.{AllWithinTries}
use summer_intern.Durable.Passes.{FairCall, process_match_jobs-Within}
use summer_intern.Samples.{match_db, offer_job, offer_payload}

abbrev running_db : Db
running_db = save_durable (claimed_match 10 "t" offer_job) match_db

claim_example : claim_match 10 "t" (match_offer 3) match_db ≡ claimed running_db offer_job
unfolding claim_match find
claim_example = refl

abbrev update_payload : Payload
update_payload = record offer_payload { updated = true }

supersede_excludes_example :
    claim_match 100 "u" (match_offer 3) (
      requested
        (match_offer 3)
        ((50, matching, update_payload, true) ∷ (60, matching, update_payload, false) ∷ [])
        running_db)
    ≡ idle (
        requested
          (match_offer 3)
          ((50, matching, update_payload, true) ∷ (60, matching, update_payload, false) ∷ [])
          running_db)
supersede_excludes_example =
    supersede_excludes 10 100 "t" "u" (match_offer 3)
      ((50, matching, update_payload, true) ∷ (60, matching, update_payload, false) ∷ []) match_db
      running_db offer_job claim_example (omega arith)

superseded_restarts_example :
    find job_key
      (match_offer 3)
      (end_found "t"
        (advanced 60 (1 ∷ []))
        (find job_key
          (match_offer 3)
          (enqueue_job 50 (match_offer 3) matching update_payload true running_db).durable_jobs)
        (enqueue_job 50 (match_offer 3) matching update_payload true running_db)).durable_jobs
    ≡ some (record offer_job { payload = update_payload })
superseded_restarts_example =
    superseded_restarts 10 50 "t" (match_offer 3) match_db running_db offer_job matching
      update_payload true (advanced 60 (1 ∷ [])) claim_example

failure_spares_generation_example :
    find job_key
      (match_offer 3)
      (handle 60 "OperationalError"
        (some "t")
        (find job_key
          (match_offer 3)
          (enqueue_job 50 (match_offer 3) matching update_payload true running_db).durable_jobs)
        (enqueue_job 50 (match_offer 3) matching update_payload true running_db)).durable_jobs
    ≡ some (released (generation 10 "t" matching update_payload offer_job))
failure_spares_generation_example =
    failure_spares_generation 10 50 60 "t" "OperationalError" (match_offer 3) match_db running_db
      offer_job matching update_payload true claim_example

match_pairs_alert_once_example :
    alerts 1 3 (match_pairs "2026" 20 0 offer_payload 8 ((1, 3) ∷ (1, 3) ∷ []) match_db)
      + allowance 1 3 (match_pairs "2026" 20 0 offer_payload 8 ((1, 3) ∷ (1, 3) ∷ []) match_db)
    ≤ 1
match_pairs_alert_once_example =
    match_pairs_alert_once "2026" 20 0 offer_payload 8 ((1, 3) ∷ (1, 3) ∷ []) 1 3 match_db

-- The first time the pair gets its alert.
alert_example :
    alerts 1 3 (match_pairs "2026" 20 0 offer_payload 8 ((1, 3) ∷ (1, 3) ∷ []) match_db) ≡ 1
unfolding match_pairs find summer_intern.Prelude.first_where
    summer_intern.Preferences.Matching.offer_is_open summer_intern.Common.Dates.dates_are_open
    summer_intern.Preferences.Matching.offer_matches
alert_example = refl

run_batch_advances_example :
    (r : DurableJob) × (find job_key
        (match_offer 3)
        (run_batch "2026" 20 0 "t" (match_offer 3) offer_job running_db).0.durable_jobs
      ≡ some r)
    × (IsFinished 20 0 (table_of offer_payload running_db) r
        ⊎ IsMoved 0 (batch_ids offer_payload 0 running_db) (table_of offer_payload running_db) r)
unfolding find summer_intern.Prelude.save
run_batch_advances_example =
    run_batch_advances "2026" 20 0 "t" (match_offer 3) offer_job (claimed_match 10 "t" offer_job)
      running_db refl refl refl

-- One account is above the cursor: two calls are enough.
abbrev two_rounds : List Round
two_rounds = ("t", 10, 20, 0) ∷ ("u", 30, 40, 0) ∷ []

job_ends_example :
    (r : DurableJob) × (find job_key
        (match_offer 3)
        (call_each "2026" (match_offer 3) two_rounds match_db).durable_jobs
      ≡ some r)
    × (r.status ≡ done)
unfolding find
job_ends_example =
    job_ends "2026" (match_offer 3) two_rounds match_db offer_job refl refl refl (omega arith) refl
      (omega arith)

abbrev failing_call : Call
failing_call = record {
  token = "t";
  claimed_at = 10;
  before_work = λ db. db;
  worked_at = 20;
  today = 0;
  outcome = fails_after_claim "OperationalError";
  before_handler = λ db. db;
  handled_at = 30;
}

failing_call-Fair : FairCall failing_call
failing_call-Fair = record { before_work = λ db h. h; before_handler = λ db h. h }

match_db-Within : AllWithinTries match_db
match_db-Within = ((omega arith, λ p. omega arith), tt)

process_match_jobs-Within_example :
    AllWithinTries
      (process_match_jobs "2026" (λ key. 0) (λ key. false) (λ key. failing_call) 10 match_db).0
process_match_jobs-Within_example =
    process_match_jobs-Within "2026" (λ key. 0) (λ key. false) (λ key. failing_call)
      (λ key. failing_call-Fair) 10 match_db match_db-Within
