-- ===== src/Durable/Refinement.antt =====
-- trackr_app/durable.py, `create_notion`: its transactions implement the abstract machine.
use summer_intern.Prelude.{
  ℕ, ◌+◌, ◌≡◌, ◌≤◌, refl, ap, ◌∙◌, String, Bool, true, false, ◌&&◌, ◌||◌, Option, none, some, List,
  [], ◌∷◌, nat_eq, string_eq, if◌then◌else◌, find, arith, Bool-cases, inl, inr, opt_beq, leb,
}
use summer_intern.Model.{
  Db, Time, Status, pending, is_pending, is_processing, is_matching, is_creation, User,
  NotionConnection, Payload, DurableJob, JobKey, job_key_eq, matching, creation,
}
use summer_intern.Durable.Enqueue.{job_key}
use summer_intern.Durable.Batch.{save_durable}
use summer_intern.Durable.Jobs.{handle, after_failure}
use summer_intern.Durable.Creation.{
  Remote, created, refused, claim_creation, user_of, connection_at, settle_creation, finish_found,
  finish_creation, ended_at, unleased, refusal_status, baseline_payload, save_connection_row,
  created_connection,
}
use summer_intern.Durable.Lifecycle.{
  Stage, waiting, settled, Advance, stays, calls_out, ends, stage_of, stage_found, stage_at,
  Transaction, claims, finishes, handles, happens, saved_row, saved_settles, settles, pending_waits,
  claim_found-Advances, enqueue_other,
}

refused_settles :
    (database_id : Option String) (rejected : Bool)
    → stage_of (refusal_status database_id rejected) ≡ settled
refused_settles database_id rejected = ground arith

settle_creation-settles :
    (now : Time) (remote : Remote) (u : Option User) (c : Option NotionConnection)
    (job : DurableJob) (n : ℕ) (db : Db)
    → find job_key (creation n) db.durable_jobs ≡ some job
    → stage_at (creation n) (settle_creation now remote u c job db) ≡ settled
unfolding settle_creation
settle_creation-settles now (created d s) none c job n db found =
    saved_settles (creation n) job (unleased (ended_at now Status.cancelled job)) db found refl refl
settle_creation-settles now (created d s) (some u) none job n db found =
    saved_settles (creation n) job (unleased (ended_at now Status.cancelled job)) db found refl refl
settle_creation-settles now (refused e d r) none c job n db found =
    saved_settles (creation n) job (unleased (ended_at now Status.cancelled job)) db found refl refl
settle_creation-settles now (refused e d r) (some u) none job n db found =
    saved_settles (creation n) job (unleased (ended_at now Status.cancelled job)) db found refl refl
settle_creation-settles now (created d s) (some u) (some c) job n db found =
    let finished = unleased (ended_at now Status.done job) in
    elim (Bool-cases u.is_active) [
      | inr inactive ↦ rw inactive (
          saved_settles (creation n) job (unleased (ended_at now Status.cancelled job)) db found
            refl refl)
      | inl active ↦ rw active (
          ap stage_found (
            enqueue_other now n u.id matching (baseline_payload u.id)
              (save_connection_row (created_connection d s c) (save_durable finished db)))
          ∙ saved_settles (creation n) job finished db found refl refl)
    ]
settle_creation-settles now (refused e d r) (some u) (some c) job n db found =
    elim (Bool-cases u.is_active) [
      | inr inactive ↦ rw inactive (
          saved_settles (creation n) job (unleased (ended_at now Status.cancelled job)) db found
            refl refl)
      | inl active ↦ rw active (
          saved_settles (creation n) job
            (unleased (record job { status = refusal_status d r; last_error = some e })) db found
            refl (refused_settles d r))
    ]

finish_found-Advances :
    (now : Time) (token : String) (remote : Remote) (payload : Payload) (n : ℕ) (db : Db)
    (found : Option DurableJob)
    → find job_key (creation n) db.durable_jobs ≡ found
    → Advance
        (stage_found found)
        (stage_at (creation n) (finish_found now token remote payload found db))
        0
unfolding finish_found
finish_found-Advances now token remote payload n db none found = rw found (stays settled)
finish_found-Advances now token remote payload n db (some job) found =
    elim (Bool-cases (is_processing job.status && opt_beq job.lease_token token)) [
      | inr foreign ↦ rw (foreign, found) (stays (stage_of job.status))
      | inl own ↦ rw own (
          settles (stage_of job.status) _ (
            settle_creation-settles now remote (user_of payload.user_id db)
              (connection_at payload.connection_id db) job n db found))
    ]

retry_advances :
    (last : Bool) → Advance waiting (stage_of (if last then Status.failed else pending)) 0
retry_advances true = ends waiting
retry_advances false = stays waiting

after_failure-Advances :
    (now : Time) (error : String) (job : DurableJob)
    → Advance (stage_of job.status) (stage_of (after_failure now error none job).status) 0
unfolding after_failure
after_failure-Advances now error job = elim (Bool-cases (is_pending job.status)) [
  | inr later ↦ rw later (stays (stage_of job.status))
  | inl wanted ↦
      let more =
        if is_matching job.kind || is_creation job.kind then job.attempts + 1 else job.attempts in
      rw (wanted, pending_waits job.status wanted) (retry_advances (leb 5 more))
]

after_failure_key :
    (now : Time) (error : String) (job : DurableJob)
    → (after_failure now error none job).key ≡ job.key
unfolding after_failure
after_failure_key now error job = ground arith

handle-Advances :
    (now : Time) (error : String) (key : JobKey) (db : Db) (found : Option DurableJob)
    → find job_key key db.durable_jobs ≡ found
    → Advance (stage_found found) (stage_at key (handle now error none found db)) 0
unfolding handle
handle-Advances now error key db none found = rw found (stays settled)
handle-Advances now error key db (some job) found =
    rw
      (saved_row key job (after_failure now error none job) db found
        (after_failure_key now error job))
      (after_failure-Advances now error job)

-- Every transaction on a request for a database, of any process and at any time, is a step of the
-- abstract machine: it calls the remote service only if it takes the request out of the queue, and
-- no transaction but a producer's puts a request back that was taken out.
pub creation_refines :
    (event : Transaction) (n : ℕ) (db : Db)
    → Advance
        (stage_at (creation n) db)
        (stage_at (creation n) (happens event (creation n) db).0)
        (happens event (creation n) db).1
unfolding happens claim_creation finish_creation
creation_refines (claims now token) n db =
    claim_found-Advances now token (creation n) db (find job_key (creation n) db.durable_jobs) refl
creation_refines (finishes now token remote payload) n db =
    finish_found-Advances now token remote payload n db (find job_key (creation n) db.durable_jobs)
      refl
creation_refines (handles now error) n db =
    handle-Advances now error (creation n) db (find job_key (creation n) db.durable_jobs) refl

-- The calls of a sequence of transactions.
unfoldable pub calls_of : List Transaction → JobKey → Db → ℕ
unfolding happens
calls_of [] key db = 0
calls_of (event ∷ events) key db =
    (happens event key db).1 + calls_of events key (happens event key db).0

abbrev pub calls_left : Stage → ℕ
calls_left waiting = 1
calls_left _ = 0

step_left : (s t : Stage) (made : ℕ) → Advance s t made → made + calls_left t ≤ calls_left s
step_left _ _ _ (stays s) = omega arith
step_left _ _ _ calls_out = omega arith
step_left _ _ _ (ends s) = omega arith

-- However the transactions of any processes on one request interleave: the remote service is called
-- at most once for it, and not at all if it does not wait.
pub creation_calls_once :
    (events : List Transaction) (n : ℕ) (db : Db)
    → calls_of events (creation n) db ≤ calls_left (stage_at (creation n) db)
unfolding calls_of
creation_calls_once [] n db = omega arith
creation_calls_once (event ∷ events) n db = omega (
  arith,
  creation_calls_once events n (happens event (creation n) db).0,
  step_left (stage_at (creation n) db) (stage_at (creation n) (happens event (creation n) db).0)
      (happens event (creation n) db).1 (creation_refines event n db),
)
