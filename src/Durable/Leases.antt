-- ===== src/Durable/Leases.antt =====
-- trackr_app/durable.py, `match_batch` and `enqueue_job`: who holds a job, and what becomes of a
-- generation that a producer supersedes while its batch is running.
use summer_intern.Prelude.{
  ◌+◌, ◌≡◌, ◌<◌, ◌∙◌, ap, refl, sym, Bool, true, false, not, ◌&&◌, ◌||◌, Option, none, some, String,
  [], ◌∷◌, string_eq, eq_iff, if◌then◌else◌, find, save, find-save, find-key, leb, List, arith,
  insert_new,
}
use summer_intern.Model.{
  Db, Time, minutes, pending, is_matching, DurableJob, JobKey, JobKind, Payload, job_key_eq,
  job_key_beq_iff, is_processing, is_unfinished,
}
use summer_intern.Durable.Enqueue.{job_key, enqueue_job, requeue, inserted, requeue_found}
use summer_intern.Durable.Batch.{
  idle, claimed, claim_match, claim_found, claimed_match, end_found, end_batch, released,
  save_durable, exhausted_match, is_running,
}

taken_branch :
    (busy spent : Bool) (x y z db' : Db) (row job : DurableJob)
    → (if busy then idle x else if spent then idle y else claimed z row) ≡ claimed db' job
    → (row ≡ job) × (z ≡ db')
taken_branch true spent x y z db' row job h = absurd (cc)
taken_branch false true x y z db' row job h = absurd (cc)
taken_branch false false x y z db' row job h = (cc, cc)

claim_parts :
    (now : Time) (token : String) (found : Option DurableJob) (db db' : Db) (job : DurableJob)
    → claim_found now token found db ≡ claimed db' job
    → (found ≡ some job) × (save_durable (claimed_match now token job) db ≡ db')
unfolding claim_found
claim_parts now token none db db' job h = absurd (cc)
claim_parts now token (some row) db db' job h =
    let parts =
      taken_branch (not (is_unfinished row.status) || is_running now row.lease_until)
        (leb 5 row.attempts) db (save_durable (exhausted_match row) db)
        (save_durable (claimed_match now token row) db) db' row job h in
    (ap some parts.0, ap (λ j. save_durable (claimed_match now token j) db) (sym parts.0) ∙ parts.1)

-- The row of a job once it is claimed.
pub claimed_row :
    (now : Time) (token : String) (key : JobKey) (db db' : Db) (job : DurableJob)
    → claim_match now token key db ≡ claimed db' job
    → find job_key key db'.durable_jobs ≡ some (claimed_match now token job)
unfolding claim_match
claimed_row now token key db db' job h =
    let parts = claim_parts now token (find job_key key db.durable_jobs) db db' job h in
    rw (sym parts.1) (
      rw (find-save job_key (claimed_match now token job) key db.durable_jobs) (
        rw (parts.0, find-key job_key key db.durable_jobs job parts.0)
          (ground (arith, job_key_beq_iff key key))))

requeue_keeps :
    (kind : JobKind) (payload : Payload) (supersede : Bool) (job : DurableJob)
    → ((requeue kind payload supersede job).lease_until ≡ job.lease_until)
      × ((requeue kind payload supersede job).lease_token ≡ job.lease_token)
      × ((requeue kind payload supersede job).key ≡ job.key)
unfolding requeue
requeue_keeps kind payload supersede job = ground arith

insert_new-found :
    (row job : DurableJob) (rows : List DurableJob)
    → find job_key row.key rows ≡ some job
    → insert_new job_key row rows ≡ rows
unfolding insert_new
insert_new-found row job rows found = rw found refl

enqueue_row :
    (t : Time) (key : JobKey) (kind : JobKind) (payload : Payload) (supersede : Bool) (db : Db)
    (job : DurableJob)
    → find job_key key db.durable_jobs ≡ some job
    → (enqueue_job t key kind payload supersede db).durable_jobs
      ≡ save job_key (requeue kind payload supersede job) db.durable_jobs
unfolding enqueue_job requeue_found
enqueue_row t key kind payload supersede db job found =
    rw (insert_new-found (inserted t key kind payload) job db.durable_jobs found)
      (rw (found, requeue_found) refl)

-- The row of a job that a producer asks for again.
pub enqueued_row :
    (t : Time) (key : JobKey) (kind : JobKind) (payload : Payload) (supersede : Bool) (db : Db)
    (job : DurableJob)
    → find job_key key db.durable_jobs ≡ some job
    → find job_key key (enqueue_job t key kind payload supersede db).durable_jobs
      ≡ some (requeue kind payload supersede job)
enqueued_row t key kind payload supersede db job found =
    rw (enqueue_row t key kind payload supersede db job found) (
      rw (find-save job_key (requeue kind payload supersede job) key db.durable_jobs) (
        rw
          (
            (requeue_keeps kind payload supersede job).2,
            found,
            find-key job_key key db.durable_jobs job found,
          )
          (ground (arith, job_key_beq_iff key key))))

-- What a producer asks for: the time, the kind, the payload and whether it supersedes.
abbrev pub Asked : Type 0
Asked = Time × JobKind × Payload × Bool

-- Producers that ask for a job one after the other.
unfoldable pub requested : JobKey → List Asked → Db → Db
requested key [] db = db
requested key ((t, kind, payload, supersede) ∷ rest) db =
    requested key rest (enqueue_job t key kind payload supersede db)

claim_match-idle :
    (later : Time) (other : String) (key : JobKey) (db : Db) (row : DurableJob)
    → find job_key key db.durable_jobs ≡ some row
    → is_running later row.lease_until ≡ true
    → claim_match later other key db ≡ idle db
unfolding claim_match claim_found
claim_match-idle later other key db row found running = rw found (ground (arith, running))

requested_idle :
    (later : Time) (other : String) (key : JobKey) (requests : List Asked) (db : Db)
    (row : DurableJob)
    → find job_key key db.durable_jobs ≡ some row
    → is_running later row.lease_until ≡ true
    → claim_match later other key (requested key requests db) ≡ idle (requested key requests db)
unfolding requested
requested_idle later other key [] db row found running =
    claim_match-idle later other key db row found running
requested_idle later other key ((t, kind, payload, supersede) ∷ rest) db row found running =
    requested_idle later other key rest (enqueue_job t key kind payload supersede db)
      (requeue kind payload supersede row) (enqueued_row t key kind payload supersede db row found)
      (ap (is_running later) (requeue_keeps kind payload supersede row).0 ∙ running)

-- While the lease of a claim runs, the job cannot be claimed again, whether or not producers ask
-- for it anew in the meantime, and however often: the new generation waits for the end of the old
-- one.
pub supersede_excludes :
    (now later : Time) (token other : String) (key : JobKey) (requests : List Asked) (db db' : Db)
    (job : DurableJob)
    → claim_match now token key db ≡ claimed db' job
    → later < now + minutes 5
    → claim_match later other key (requested key requests db') ≡ idle (requested key requests db')
supersede_excludes now later token other key requests db db' job h early =
    requested_idle later other key requests db' (claimed_match now token job)
      (claimed_row now token key db db' job h) (ground (arith, early))

-- The new generation of a claimed job.
abbrev pub generation : Time → String → JobKind → Payload → DurableJob → DurableJob
generation now token kind payload job = record job {
  payload = record payload {
    updated = payload.updated || (is_matching kind && job.payload.updated);
  };
  status = pending;
  cursor = 0;
  attempts = 0;
  last_error = none;
  next_attempt_at = none;
  completed_at = none;
  lease_until = some (now + minutes 5);
  lease_token = some token;
}

or_true : (b : Bool) → (b || true) ≡ true
or_true true = refl
or_true false = refl

or_false : (b : Bool) → (b || false) ≡ b
or_false true = refl
or_false false = refl

requeue-claimed_by :
    (now : Time) (token : String) (kind : JobKind) (payload : Payload)
    (supersede matches was : Bool) (job : DurableJob)
    → is_matching kind ≡ matches
    → job.payload.updated ≡ was
    → requeue kind payload supersede (claimed_match now token job)
      ≡ generation now token kind payload job
unfolding requeue
requeue-claimed_by now token kind payload true true true job m u =
    rw (m, u) (rw (or_true payload.updated) refl)
requeue-claimed_by now token kind payload true true false job m u =
    rw (m, u) (rw (or_false payload.updated) refl)
requeue-claimed_by now token kind payload false true true job m u =
    rw (m, u) (rw (or_true payload.updated) refl)
requeue-claimed_by now token kind payload false true false job m u =
    rw (m, u) (rw (or_false payload.updated) refl)
requeue-claimed_by now token kind payload supersede false was job m u =
    rw m (rw (or_false payload.updated) refl)

pub requeue-claimed :
    (now : Time) (token : String) (kind : JobKind) (payload : Payload) (supersede : Bool)
    (job : DurableJob)
    → requeue kind payload supersede (claimed_match now token job)
      ≡ generation now token kind payload job
requeue-claimed now token kind payload supersede job =
    requeue-claimed_by now token kind payload supersede (is_matching kind) job.payload.updated job
      refl refl

end_batch-released :
    (token : String) (advance : DurableJob → DurableJob) (job : DurableJob)
    → is_processing job.status ≡ false
    → job.lease_token ≡ some token
    → end_batch token advance job ≡ released job
unfolding end_batch
end_batch-released token advance job lost own = rw (lost, own) (ground (arith, eq_iff token token))

-- The row after the end of a batch, if that keeps its key.
pub ended_row :
    (token : String) (key : JobKey) (advance : DurableJob → DurableJob) (db : Db) (job : DurableJob)
    → find job_key key db.durable_jobs ≡ some job
    → (end_batch token advance job).key ≡ job.key
    → find job_key key (end_found token advance (find job_key key db.durable_jobs) db).durable_jobs
      ≡ some (end_batch token advance job)
unfolding end_found
ended_row token key advance db job found keeps =
    rw (found, end_found)
      (rw (find-save job_key (end_batch token advance job) key db.durable_jobs) (
        rw (found, keeps, find-key job_key key db.durable_jobs job found)
          (ground (arith, job_key_beq_iff key key))))

-- A claim that a producer supersedes: its end gives up the lease and leaves the new generation
-- pending, from the first identity on and with the new payload's attempts unspent.
pub superseded_restarts :
    (now t : Time) (token : String) (key : JobKey) (db db' : Db) (job : DurableJob) (kind : JobKind)
    (payload : Payload) (supersede : Bool) (advance : DurableJob → DurableJob)
    → claim_match now token key db ≡ claimed db' job
    → find job_key key
        (end_found token advance
          (find job_key key (enqueue_job t key kind payload supersede db').durable_jobs)
          (enqueue_job t key kind payload supersede db')).durable_jobs
      ≡ some (record job {
        payload = record payload {
          updated = payload.updated || is_matching kind && job.payload.updated;
        };
        status = pending;
        cursor = 0;
        attempts = 0;
        last_error = none;
        next_attempt_at = none;
        completed_at = none;
        lease_until = none;
        lease_token = none;
      })
superseded_restarts now t token key db db' job kind payload supersede advance h =
    let row : DurableJob = generation now token kind payload job in
    let there : find job_key key (enqueue_job t key kind payload supersede db').durable_jobs
        ≡ some row =
      enqueued_row t key kind payload supersede db' (claimed_match now token job)
        (claimed_row now token key db db' job h)
      ∙ ap some (requeue-claimed now token kind payload supersede job) in
    let ends : end_batch token advance row ≡ released row =
      end_batch-released token advance row refl refl in
    ended_row token key advance (enqueue_job t key kind payload supersede db') row there
      (ap (λ (j : DurableJob). j.key) ends)
    ∙ ap some ends
