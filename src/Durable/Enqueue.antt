-- ===== src/Durable/Enqueue.antt =====
-- trackr_app/durable.py, `enqueue_job`. A payload is compared as the text of its sorted JSON; the
-- producers of one key give the same entries, so this is an equation of the entries.
use summer_intern.Prelude.{
  Bool, true, false, not, ◌&&◌, Option, none, some, List, nat_eq, string_eq, Eq, opt_beq, is_none,
  if◌then◌else◌, find, save, insert_new,
}
use summer_intern.Model.{
  Db, Time, pending, is_pending, is_unfinished, JobKind, is_matching, Payload, DurableJob, JobKey,
  job_key_eq,
}

abbrev pub job_key : DurableJob → JobKey
job_key job = job.key

abbrev pub same_option {ℓ} : {A : Type ℓ} ⦃e : Eq A⦄ → Option A → Option A → Bool
same_option o none = is_none o
same_option o (some a) = opt_beq o a

abbrev pub same_flag : Bool → Bool → Bool
same_flag true b = b
same_flag false b = not b

unfoldable pub same_payload : Payload → Payload → Bool
same_payload p q =
    same_option p.user_id q.user_id
    && same_option p.offer_id q.offer_id
    && same_option p.connection_id q.connection_id
    && same_option p.parent_page_id q.parent_page_id
    && same_flag p.baseline q.baseline
    && same_flag p.reconcile q.reconcile
    && same_flag p.offers_phase q.offers_phase
    && same_flag p.updated q.updated

-- The row that is inserted where the key is new.
abbrev pub inserted : Time → JobKey → JobKind → Payload → DurableJob
inserted now key kind payload = record {
  key = key;
  kind = kind;
  payload = payload;
  status = pending;
  attempts = 0;
  cursor = 0;
  lease_token = none;
  lease_until = none;
  next_attempt_at = none;
  last_error = none;
  created_at = now;
  completed_at = none;
}

-- A new generation of the job. The lease of the old one is kept: it must end or expire first.
abbrev pub restarted : Payload → DurableJob → DurableJob
restarted payload job = record job {
  payload = payload;
  status = pending;
  cursor = 0;
  attempts = 0;
  last_error = none;
  next_attempt_at = none;
  completed_at = none;
}

unfoldable pub requeue : JobKind → Payload → Bool → DurableJob → DurableJob
unfolding same_payload
requeue kind payload supersede job =
    if is_matching kind
      && (not supersede && (is_pending job.status && same_payload job.payload payload))
    then job
    else if is_matching kind && (is_unfinished job.status && job.payload.updated)
    then restarted (record payload { updated = true }) job
    else restarted payload job

unfoldable pub requeue_found :
    JobKind → Payload → Bool → Option DurableJob → List DurableJob → List DurableJob
unfolding requeue
requeue_found kind payload supersede none rows = rows
requeue_found kind payload supersede (some job) rows =
    save job_key (requeue kind payload supersede job) rows

unfoldable pub enqueue_job : Time → JobKey → JobKind → Payload → Bool → Db → Db
unfolding requeue_found
enqueue_job now key kind payload supersede db =
    let rows = insert_new job_key (inserted now key kind payload) db.durable_jobs in
    record db { durable_jobs = requeue_found kind payload supersede (find job_key key rows) rows }
