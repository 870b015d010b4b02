-- ===== src/Durable/Failures.antt =====
-- trackr_app/durable.py, `process_jobs`: the failure of a batch that a producer superseded.
use summer_intern.Prelude.{
  ◌≡◌, ap, ◌∙◌, String, Bool, Option, some, string_eq, find, find-save, find-key, eq_iff, arith,
}
use summer_intern.Model.{
  Db, Time, DurableJob, JobKey, JobKind, Payload, job_key_eq, job_key_beq_iff,
}
use summer_intern.Durable.Enqueue.{job_key, enqueue_job}
use summer_intern.Durable.Batch.{claimed, claim_match, claimed_match, released}
use summer_intern.Durable.Jobs.{after_failure, handle}
use summer_intern.Durable.Leases.{claimed_row, enqueued_row, requeue-claimed, generation}

after_failure-superseded :
    (now later : Time) (error token : String) (kind : JobKind) (payload : Payload)
    (job : DurableJob)
    → after_failure later error (some token) (generation now token kind payload job)
      ≡ released (generation now token kind payload job)
unfolding after_failure
after_failure-superseded now later error token kind payload job = ground (arith, eq_iff token token)

handled_row :
    (later : Time) (error : String) (claim : Option String) (key : JobKey) (db : Db)
    (job : DurableJob)
    → find job_key key db.durable_jobs ≡ some job
    → (after_failure later error claim job).key ≡ job.key
    → find job_key key (handle later error claim (find job_key key db.durable_jobs) db).durable_jobs
      ≡ some (after_failure later error claim job)
unfolding handle
handled_row later error claim key db job found keeps =
    rw (found, handle)
      (rw (find-save job_key (after_failure later error claim job) key db.durable_jobs) (
        rw (found, keeps, find-key job_key key db.durable_jobs job found)
          (ground (arith, job_key_beq_iff key key))))

-- The exception of a batch that a producer superseded adds neither an attempt nor an error nor a
-- delay to the new generation: its handler only gives up the lease.
pub failure_spares_generation :
    (now t later : Time) (token error : String) (key : JobKey) (db db' : Db) (job : DurableJob)
    (kind : JobKind) (payload : Payload) (supersede : Bool)
    → claim_match now token key db ≡ claimed db' job
    → find job_key key
        (handle later error
          (some token)
          (find job_key key (enqueue_job t key kind payload supersede db').durable_jobs)
          (enqueue_job t key kind payload supersede db')).durable_jobs
      ≡ some (released (generation now token kind payload job))
failure_spares_generation now t later token error key db db' job kind payload supersede h =
    let there =
      enqueued_row t key kind payload supersede db' (claimed_match now token job)
        (claimed_row now token key db db' job h)
      ∙ ap some (requeue-claimed now token kind payload supersede job) in
    let spared = after_failure-superseded now later error token kind payload job in
    handled_row later error (some token) key (enqueue_job t key kind payload supersede db')
      (generation now token kind payload job) there (ap (λ (j : DurableJob). j.key) spared)
    ∙ ap some spared
