-- ===== src/Durable/Creations.antt =====
-- trackr_app/durable.py, `process_jobs` for the kind 'notion-create'.
use summer_intern.Prelude.{
  ℕ, ◌+◌, Bool, ◌&&◌, ◌++◌, none, List, [], ◌∷◌, String, if◌then◌else◌, map, select, take, sort_by,
  find,
}
use summer_intern.Model.{
  Db, Time, is_unfinished, is_creation, Payload, DurableJob, JobKey, job_key_eq,
}
use summer_intern.Durable.Enqueue.{job_key}
use summer_intern.Durable.Batch.{is_owner}
use summer_intern.Durable.Jobs.{is_reached, handle}
use summer_intern.Durable.Creation.{
  Remote, RemoteCall, CreationClaim, raises, rests, calls, claim_creation, finish_creation,
  remote_count,
}

abbrev pub is_due_creation : Time → DurableJob → Bool
is_due_creation now job =
    is_creation job.kind
    && is_unfinished job.status
    && is_reached now job.lease_until
    && is_reached now job.next_attempt_at

-- By creation, then by key in the database's order of texts: a hundred at most.
unfoldable pub due_creations : (JobKey → ℕ) → Time → Db → List JobKey
due_creations order now db = map job_key (
    take 100 (
      sort_by (λ (j : DurableJob). j.created_at)
        (sort_by (λ (j : DurableJob). order j.key) (select (is_due_creation now) db.durable_jobs))))

-- Where a call raises: nowhere, in its first transaction, or in its second one.
pub data CreationFault : Type 0 where
  no_fault : CreationFault
  fails_first fails_second : String → CreationFault

-- What the world decides during one call: the new token, the times, what others commit during the
-- remote call and before the handler, the remote answer, and a fault.
pub record CreationCall : Type 0 where
  pub token : String
  pub claimed_at : Time
  pub meanwhile : Db → Db
  pub remote : Remote
  pub finished_at : Time
  pub fault : CreationFault
  pub before_handler : Db → Db
  pub handled_at : Time

-- The state, the remote calls and the count.
pub record Created : Type 0 where
  pub db : Db
  pub remote_calls : List RemoteCall
  pub count : ℕ

abbrev pub failed_call : CreationCall → String → JobKey → Db → Db
failed_call call error key db =
    let db' = call.before_handler db in
    handle call.handled_at error none (find job_key key db'.durable_jobs) db'

-- After the remote call.
abbrev pub after_remote : CreationFault → CreationCall → JobKey → Payload → Db → Db × ℕ
after_remote (fails_second error) call key payload db = (failed_call call error key db, 0)
after_remote _ call key payload db = (
  finish_creation call.finished_at call.token call.remote payload key db,
  if is_owner call.token (find job_key key db.durable_jobs) then remote_count call.remote else 0,
)

unfoldable pub after_creation_claim : CreationCall → JobKey → Db → CreationClaim → Created
unfolding finish_creation handle
after_creation_claim call key db raises = record {
  db = failed_call call "AttributeError" key db;
  remote_calls = [];
  count = 0;
}
after_creation_claim call key db (rests db') = record { db = db'; remote_calls = []; count = 0 }
after_creation_claim call key db (calls db' payload request) =
    let done = after_remote call.fault call key payload (call.meanwhile db') in
    record { db = done.0; remote_calls = request ∷ []; count = done.1 }

unfoldable pub create_notion : CreationFault → CreationCall → JobKey → Db → Created
unfolding after_creation_claim claim_creation handle
create_notion (fails_first error) call key db = record {
  db = failed_call call error key db;
  remote_calls = [];
  count = 0;
}
create_notion _ call key db =
    after_creation_claim call key db (claim_creation call.claimed_at call.token key db)

unfoldable pub run_creations :
    (JobKey → Bool) → (JobKey → CreationCall) → List JobKey → Created → Created
unfolding create_notion
run_creations expired world [] before = before
run_creations expired world (key ∷ keys) before =
    let run = create_notion (world key).fault (world key) key before.db in
    let rest = run_creations expired world keys (record {
      db = run.db;
      remote_calls = before.remote_calls ++ run.remote_calls;
      count = before.count + run.count;
    }) in
    if expired key then before else rest

unfoldable pub process_creation_jobs :
    (JobKey → ℕ) → (JobKey → Bool) → (JobKey → CreationCall) → Time → Db → Created
unfolding run_creations due_creations
process_creation_jobs order expired world now db =
    run_creations expired world (due_creations order now db)
      (record { db = db; remote_calls = []; count = 0 })
