-- ===== src/Durable/Attempts.antt =====
-- trackr_app/durable.py, the attempts of jobs of matching.
use summer_intern.Prelude.{
  ℕ, ◌≡◌, ◌≤◌, ◌<◌, inl, inr, refl, String, Bool, true, false, not, ◌||◌, Option, none, some, List,
  [], ◌∷◌, nat_eq, string_eq, leb, if◌then◌else◌, find, insert_new, All, All-save, find-All,
  All-append, is_some, arith, Bool-cases,
}
use summer_intern.Model.{
  Db, Time, is_pending, is_unfinished, JobKind, Payload, DurableJob, JobKey, job_key_eq,
}
use summer_intern.Durable.Enqueue.{job_key, requeue, requeue_found, enqueue_job, inserted}
use summer_intern.Durable.Batch.{
  Claimed, vanished, idle, claimed, exhausted_match, claimed_match, save_durable, is_running,
  claim_found, end_found, end_batch, advanced, reconciled,
}
use summer_intern.Durable.Jobs.{after_failure, handle}

-- At most five attempts, and one is left while the job is pending.
abbrev pub WithinTries : DurableJob → Type 0
WithinTries job = (job.attempts ≤ 5) × (is_pending job.status ≡ true → job.attempts < 5)

abbrev pub AllWithinTries : Db → Type 0
AllWithinTries db = All WithinTries db.durable_jobs

pub requeue-Within :
    (kind : JobKind) (payload : Payload) (supersede : Bool) (job : DurableJob)
    → WithinTries job
    → WithinTries (requeue kind payload supersede job)
unfolding requeue
requeue-Within kind payload supersede job w = ground arith

after_failure-Within :
    (now : Time) (error : String) (claim : Option String) (job : DurableJob)
    → WithinTries job
    → WithinTries (after_failure now error claim job)
unfolding after_failure
after_failure-Within now error none job w = ground arith
after_failure-Within now error (some token) job w = ground arith

end_batch-Within :
    (token : String) (advance : DurableJob → DurableJob) (job : DurableJob)
    → WithinTries job
    → WithinTries (advance job)
    → WithinTries (end_batch token advance job)
unfolding end_batch
end_batch-Within token advance job w a = ground arith

pub advanced-Within :
    (now : Time) (ids : List ℕ) (job : DurableJob) → WithinTries (advanced now ids job)
advanced-Within now [] job = ground arith
advanced-Within now (n ∷ ns) job = ground arith

pub reconciled-Within :
    (payload : Payload) (ids : List ℕ) (job : DurableJob) → WithinTries (reconciled payload ids job)
reconciled-Within payload [] job = ground arith
reconciled-Within payload (n ∷ ns) job = ground arith

abbrev pub ClaimedWithin : Claimed → Type 0
ClaimedWithin vanished = Unit
ClaimedWithin (idle db) = AllWithinTries db
ClaimedWithin (claimed db job) = AllWithinTries db

claim_branch-Within :
    (busy spent : Bool) (job : DurableJob) (x y z : Db)
    → AllWithinTries x
    → AllWithinTries y
    → (spent ≡ false → AllWithinTries z)
    → ClaimedWithin (if busy then idle x else if spent then idle y else claimed z job)
claim_branch-Within true spent job x y z hx hy hz = hx
claim_branch-Within false true job x y z hx hy hz = hy
claim_branch-Within false false job x y z hx hy hz = hz refl

pub save-Within :
    (job : DurableJob) (db : Db)
    → WithinTries job
    → AllWithinTries db
    → AllWithinTries (save_durable job db)
save-Within job db w h = All-save job_key WithinTries job db.durable_jobs w h

pub claim_found-Within :
    (now : Time) (token : String) (found : Option DurableJob) (db : Db)
    → ((job : DurableJob) → found ≡ some job → WithinTries job)
    → AllWithinTries db
    → ClaimedWithin (claim_found now token found db)
unfolding claim_found
claim_found-Within now token none db w h = tt
claim_found-Within now token (some job) db w h =
    claim_branch-Within (not (is_unfinished job.status) || is_running now job.lease_until)
      (leb 5 job.attempts) job db (save_durable (exhausted_match job) db)
      (save_durable (claimed_match now token job) db) h
      (save-Within (exhausted_match job) db ((w job refl).0, λ p. absurd (cc)) h)
      (λ left.
        save-Within (claimed_match now token job) db (ground (arith, left), λ p. absurd (cc)) h)

pub found-Within :
    (key : JobKey) (db : Db) (job : DurableJob)
    → AllWithinTries db
    → find job_key key db.durable_jobs ≡ some job
    → WithinTries job
found-Within key db job h found = find-All job_key WithinTries key db.durable_jobs job h found

-- An operation that a table's row of the key goes through.
pub end_found-Within :
    (token : String) (advance : DurableJob → DurableJob) (found : Option DurableJob) (db : Db)
    → ((job : DurableJob) → found ≡ some job → WithinTries job)
    → ((job : DurableJob) → WithinTries (advance job))
    → AllWithinTries db
    → AllWithinTries (end_found token advance found db)
unfolding end_found
end_found-Within token advance none db w a h = h
end_found-Within token advance (some job) db w a h =
    save-Within (end_batch token advance job) db
      (end_batch-Within token advance job (w job refl) (a job)) h

pub handle-Within :
    (now : Time) (error : String) (claim : Option String) (found : Option DurableJob) (db : Db)
    → ((job : DurableJob) → found ≡ some job → WithinTries job)
    → AllWithinTries db
    → AllWithinTries (handle now error claim found db)
unfolding handle
handle-Within now error claim none db w h = h
handle-Within now error claim (some job) db w h =
    save-Within (after_failure now error claim job) db
      (after_failure-Within now error claim job (w job refl)) h

requeue_found-Within :
    (kind : JobKind) (payload : Payload) (supersede : Bool) (found : Option DurableJob)
    (rows : List DurableJob)
    → ((job : DurableJob) → found ≡ some job → WithinTries job)
    → All WithinTries rows
    → All WithinTries (requeue_found kind payload supersede found rows)
unfolding requeue_found
requeue_found-Within kind payload supersede none rows w h = h
requeue_found-Within kind payload supersede (some job) rows w h =
    All-save job_key WithinTries (requeue kind payload supersede job) rows
      (requeue-Within kind payload supersede job (w job refl)) h

inserted-Within :
    (row : DurableJob) (rows : List DurableJob)
    → WithinTries row
    → All WithinTries rows
    → All WithinTries (insert_new job_key row rows)
unfolding insert_new
inserted-Within row rows w h = elim (Bool-cases (is_some (find job_key row.key rows))) [
  | inl there ↦ rw there h
  | inr new ↦ rw new (All-append WithinTries rows (row ∷ []) h (w, tt))
]

-- A producer's request keeps the budget.
pub enqueue_job-Within :
    (now : Time) (key : JobKey) (kind : JobKind) (payload : Payload) (supersede : Bool) (db : Db)
    → AllWithinTries db
    → AllWithinTries (enqueue_job now key kind payload supersede db)
unfolding enqueue_job
enqueue_job-Within now key kind payload supersede db h =
    let row = inserted now key kind payload in
    let rows = insert_new job_key row db.durable_jobs in
    let inside = inserted-Within row db.durable_jobs (omega arith, λ p. omega arith) h in
    requeue_found-Within kind payload supersede (find job_key key rows) rows
      (λ job e. find-All job_key WithinTries key rows job inside e) inside
