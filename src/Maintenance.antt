-- ===== src/Maintenance.antt =====
-- trackr_app/maintenance.py: the retention clock of completed rows.
use summer_intern.Prelude.{
  ℕ, String, Bool, not, none, some, false, ◌==◌, ◌++◌, [], ◌∷◌, is_some, find, update_where,
  if◌then◌else◌,
}
use summer_intern.Model.{
  Db, Time, done, Payload, DurableJob, JobKey, job_key_eq, retention, task_retention, retained,
}

abbrev pub no_payload : Payload
no_payload = record {
  user_id = none;
  offer_id = none;
  connection_id = none;
  parent_page_id = none;
  baseline = false;
  reconcile = false;
  offers_phase = false;
  updated = false;
}

-- A new row of `durable_jobs`, with the columns' defaults.
abbrev pub new_job : Time → JobKey → DurableJob
new_job now key = record {
  key = key;
  kind = retained;
  payload = no_payload;
  status = done;
  attempts = 0;
  cursor = 0;
  lease_token = none;
  lease_until = none;
  next_attempt_at = none;
  last_error = none;
  created_at = now;
  completed_at = some now;
}

-- `completed`: where the table `durable_jobs` exists, inserts the marker of a row, or restarts its
-- clock.
unfoldable pub completed : Bool → Time → String → ℕ → Db → Db
completed runtime_available now table id db =
    let key = retention table id in
    record db {
      durable_jobs =
          if not runtime_available
          then db.durable_jobs
          else if is_some (find (λ (j : DurableJob). j.key) key db.durable_jobs)
          then update_where (λ j. j.key == key) (λ j. record j { completed_at = some now })
              db.durable_jobs
          else db.durable_jobs ++ new_job now key ∷ [];
    }

-- The same for a task of the legacy adapter, which has a text as its key.
unfoldable pub completed_task : Bool → Time → String → Db → Db
completed_task runtime_available now key db =
    let marker = task_retention key in
    record db {
      durable_jobs =
          if not runtime_available
          then db.durable_jobs
          else if is_some (find (λ (j : DurableJob). j.key) marker db.durable_jobs)
          then update_where (λ j. j.key == marker) (λ j. record j { completed_at = some now })
              db.durable_jobs
          else db.durable_jobs ++ new_job now marker ∷ [];
    }
