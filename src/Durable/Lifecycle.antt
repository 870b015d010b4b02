-- ===== src/Durable/Lifecycle.antt =====
-- trackr_app/durable.py, `create_notion`: the life of one request for a database, as a machine of
-- three stages, and the transactions that implement it.
use summer_intern.Prelude.{
  ℕ, ◌≡◌, refl, ap, ◌∙◌, String, true, false, not, ◌||◌, Option, none, some, List, nat_eq,
  string_eq, ◌==◌, find, find-save, find-key, find-insert_new, insert_new, arith, Bool-cases,
  Option-cases, inl, inr, is_some,
}
use summer_intern.Model.{
  Db, Time, Status, pending, processing, is_pending, is_processing, User, NotionConnection, Payload,
  DurableJob, JobKey, JobKind, job_key_eq, job_key_beq_iff, match_user, creation,
}
use summer_intern.Durable.Enqueue.{job_key, enqueue_job, requeue_found, requeue, inserted}
use summer_intern.Durable.Batch.{is_running, save_durable}
use summer_intern.Durable.Jobs.{handle}
use summer_intern.Durable.Creation.{
  Remote, CreationClaim, raises, rests, calls, claim_for, claim_creation_found, claim_creation,
  mark_uncertain, interrupted, user_of, connection_at, finish_creation, ended_at, claimed_creation,
}

-- A request waits, has a remote call out, or is settled for good.
pub data Stage : Type 0 where
  waiting calling settled : Stage

-- The abstract machine, with the number of remote calls that a step makes: the only step with a
-- call takes a waiting request out of the queue, and no step puts it back.
pub data Advance : Stage → Stage → ℕ → Type 0 where
  stays : (s : Stage) → Advance s s 0
  calls_out : Advance waiting calling 1
  ends : (s : Stage) → Advance s settled 0

abbrev pub stage_of : Status → Stage
stage_of pending = waiting
stage_of processing = calling
stage_of _ = settled

-- A request that does not exist makes no call.
abbrev pub stage_found : Option DurableJob → Stage
stage_found none = settled
stage_found (some job) = stage_of job.status

abbrev pub stage_at : JobKey → Db → Stage
stage_at key db = stage_found (find job_key key db.durable_jobs)

-- The transactions on a request, by whatever process at whatever time.
pub data Transaction : Type 0 where
  claims : Time → String → Transaction
  finishes : Time → String → Remote → Payload → Transaction
  handles : Time → String → Transaction

abbrev pub claim_state : Db → CreationClaim → Db
claim_state db raises = db
claim_state db (rests db') = db'
claim_state db (calls db' payload request) = db'

abbrev pub claim_calls : CreationClaim → ℕ
claim_calls (calls db' payload request) = 1
claim_calls _ = 0

-- The new state and the number of remote calls.
unfoldable pub happens : Transaction → JobKey → Db → Db × ℕ
unfolding claim_creation finish_creation handle
happens (claims now token) key db =
    let claim = claim_creation now token key db in (claim_state db claim, claim_calls claim)
happens (finishes now token remote payload) key db =
    (finish_creation now token remote payload key db, 0)
happens (handles now error) key db =
    (handle now error none (find job_key key db.durable_jobs) db, 0)

pub saved_row :
    (key : JobKey) (row job : DurableJob) (db : Db)
    → find job_key key db.durable_jobs ≡ some row
    → job.key ≡ row.key
    → find job_key key (save_durable job db).durable_jobs ≡ some job
saved_row key row job db found same =
    let at : row.key ≡ key = find-key job_key key db.durable_jobs row found in
    find-save job_key job key db.durable_jobs
    ∙ rw (found, same, at) (ground (arith, job_key_beq_iff key key))

pub saved_settles :
    (key : JobKey) (row job : DurableJob) (db : Db)
    → find job_key key db.durable_jobs ≡ some row
    → job.key ≡ row.key
    → stage_of job.status ≡ settled
    → stage_at key (save_durable job db) ≡ settled
saved_settles key row job db found same over =
    ap stage_found (saved_row key row job db found same) ∙ over

pub settles : (s t : Stage) → t ≡ settled → Advance s t 0
settles s t e = rw e (ends s)

requeued_key :
    (kind : JobKind) (payload : Payload) (job : DurableJob)
    → (requeue kind payload false job).key ≡ job.key
unfolding requeue
requeued_key kind payload job = ground arith

-- The job of another key is left alone.
requeued_other :
    (n user_id : ℕ) (kind : JobKind) (payload : Payload) (found : Option DurableJob)
    (rows : List DurableJob)
    → ((job : DurableJob) → found ≡ some job → job.key ≡ match_user user_id)
    → find job_key (creation n) (requeue_found kind payload false found rows)
      ≡ find job_key (creation n) rows
unfolding requeue_found
requeued_other n user_id kind payload none rows at = refl
requeued_other n user_id kind payload (some job) rows at =
    find-save job_key (requeue kind payload false job) (creation n) rows
    ∙ rw (requeued_key kind payload job ∙ at job refl) refl

inserted_other :
    (now : Time) (n user_id : ℕ) (kind : JobKind) (payload : Payload) (rows : List DurableJob)
    → find job_key
        (creation n)
        (insert_new job_key (inserted now (match_user user_id) kind payload) rows)
      ≡ find job_key (creation n) rows
inserted_other now n user_id kind payload rows =
    find-insert_new job_key (creation n) (inserted now (match_user user_id) kind payload) rows
    ∙ elim (Option-cases (find job_key (creation n) rows)) [
      | inl gone ↦ rw gone refl
      | inr (job, there) ↦ rw there refl
    ]

pub enqueue_other :
    (now : Time) (n user_id : ℕ) (kind : JobKind) (payload : Payload) (db : Db)
    → find job_key
        (creation n)
        (enqueue_job now (match_user user_id) kind payload false db).durable_jobs
      ≡ find job_key (creation n) db.durable_jobs
unfolding enqueue_job
enqueue_other now n user_id kind payload db =
    let rows =
      insert_new job_key (inserted now (match_user user_id) kind payload) db.durable_jobs in
    requeued_other n user_id kind payload (find job_key (match_user user_id) rows) rows
      (λ job found. find-key job_key (match_user user_id) rows job found)
    ∙ inserted_other now n user_id kind payload db.durable_jobs

-- The first transaction, for a request that waits.
claim_for-Advances :
    (now : Time) (token : String) (u : Option User) (c : Option NotionConnection) (job : DurableJob)
    (key : JobKey) (db : Db)
    → find job_key key db.durable_jobs ≡ some job
    → Advance waiting
        (stage_at key (claim_state db (claim_for now token u c job db)))
        (claim_calls (claim_for now token u c job db))
unfolding claim_for
claim_for-Advances now token none c job key db found =
    settles waiting _ (saved_settles key job (ended_at now Status.cancelled job) db found refl refl)
claim_for-Advances now token (some u) none job key db found =
    settles waiting _ (saved_settles key job (ended_at now Status.cancelled job) db found refl refl)
claim_for-Advances now token (some u) (some c) job key db found =
    elim (Bool-cases (not u.is_active || not (c.user_id == u.id))) [
      | inl foreign ↦ rw foreign (
          settles waiting _
            (saved_settles key job (ended_at now Status.cancelled job) db found refl refl))
      | inr own ↦ elim (Bool-cases (is_some c.data_source_id)) [
        | inl has ↦
            rw (own, has)
              (settles waiting _
                (saved_settles key job (ended_at now Status.done job) db found refl refl))
        | inr lacks ↦
            rw (own, lacks)
              (rw (saved_row key job (claimed_creation now token job) db found refl) calls_out)
      ]
    ]

marked_jobs :
    (c : Option NotionConnection) (db : Db) → (mark_uncertain c db).durable_jobs ≡ db.durable_jobs
marked_jobs none db = refl
marked_jobs (some c) db = refl

pub pending_waits : (s : Status) → is_pending s ≡ true → stage_of s ≡ waiting
pending_waits s h = ground arith

pub claim_found-Advances :
    (now : Time) (token : String) (key : JobKey) (db : Db) (found : Option DurableJob)
    → find job_key key db.durable_jobs ≡ found
    → Advance
        (stage_found found)
        (stage_at key (claim_state db (claim_creation_found now token found db)))
        (claim_calls (claim_creation_found now token found db))
unfolding claim_creation_found
claim_found-Advances now token key db none found = rw found (stays settled)
claim_found-Advances now token key db (some job) found =
    let connection = connection_at job.payload.connection_id db in
    elim (Bool-cases (is_running now job.lease_until)) [
      | inl busy ↦ rw (busy, found) (stays (stage_of job.status))
      | inr free ↦ elim (Bool-cases (is_processing job.status)) [
        | inl lost ↦
            rw (free, lost)
              (settles (stage_of job.status) _ (
                ap (λ rows. stage_found (find job_key key rows))
                  (marked_jobs connection (save_durable (interrupted job) db))
                ∙ saved_settles key job (interrupted job) db found refl refl))
        | inr quiet ↦ elim (Bool-cases (is_pending job.status)) [
          | inr over ↦ rw (free, quiet, over, found) (stays (stage_of job.status))
          | inl wanted ↦
              rw (free, quiet, wanted, pending_waits job.status wanted)
                (claim_for-Advances now token (user_of job.payload.user_id db) connection job key db
                  found)
        ]
      ]
    ]
