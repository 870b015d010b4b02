-- ===== src/Durable/Creation.antt =====
-- trackr_app/durable.py, `create_notion`: two transactions around the call that creates the remote
-- database. The call's answer is an argument. A job's payload has both identities.
use summer_intern.Prelude.{
  ℕ, ◌+◌, Bool, true, false, not, ◌&&◌, ◌||◌, Option, none, some, String, ◌==◌, nat_eq, string_eq,
  opt_beq, is_some, is_none, if◌then◌else◌, find, save,
}
use summer_intern.Model.{
  Db, Time, minutes, Status, processing, failed, cancelled, uncertain, done, is_pending,
  is_processing, SetupStatus, creating, ready, User, NotionConnection, Payload, DurableJob, JobKey,
  job_key_eq, match_user, matching,
}
use summer_intern.Durable.Enqueue.{job_key, enqueue_job}
use summer_intern.Durable.Batch.{is_running, save_durable}

-- What `create_remote_database` returns or raises: an error has a code, the database if it was
-- created before the error, and whether the response's status is 400, 401, 403, 404 or 422.
pub data Remote : Type 0 where
  created : String → String → Remote
  refused : String → Option String → Bool → Remote

-- What the call is given: the encrypted token and the parent page.
pub record RemoteCall : Type 0 where
  pub access_token_encrypted : String
  pub parent_page_id : Option String

-- The first transaction: raises on a missing row, commits without a call, or calls.
pub data CreationClaim : Type 0 where
  raises : CreationClaim
  rests : Db → CreationClaim
  calls : Db → Payload → RemoteCall → CreationClaim

abbrev pub user_of : Option ℕ → Db → Option User
user_of none db = none
user_of (some id) db = find (λ (u : User). u.id) id db.users

abbrev pub connection_at : Option ℕ → Db → Option NotionConnection
connection_at none db = none
connection_at (some id) db = find (λ (c : NotionConnection). c.id) id db.notion_connections

abbrev pub save_connection_row : NotionConnection → Db → Db
save_connection_row c db = record db {
  notion_connections = save (λ (d : NotionConnection). d.id) c db.notion_connections;
}

-- The connection's setup is uncertain too.
abbrev pub mark_uncertain : Option NotionConnection → Db → Db
mark_uncertain none db = db
mark_uncertain (some c) db =
    save_connection_row (record c { setup_status = SetupStatus.uncertain }) db

abbrev pub interrupted : DurableJob → DurableJob
interrupted job = record job { status = uncertain; last_error = some "CreationInterrupted" }

abbrev pub ended_at : Time → Status → DurableJob → DurableJob
ended_at now status job = record job { status = status; completed_at = some now }

abbrev pub claimed_creation : Time → String → DurableJob → DurableJob
claimed_creation now token job = record job {
  status = processing;
  lease_token = some token;
  lease_until = some (now + minutes 5);
  attempts = job.attempts + 1;
}

module _ (now : Time) (token : String) where
  -- An active account with its own connection that has no database yet.
  unfoldable pub claim_for : Option User → Option NotionConnection → DurableJob → Db → CreationClaim
  claim_for (some u) (some c) job db =
      if not u.is_active || not (c.user_id == u.id)
      then rests (save_durable (ended_at now cancelled job) db)
      else if is_some c.data_source_id
      then rests (save_durable (ended_at now done job) db)
      else calls
          (save_connection_row (record c { setup_status = creating })
            (save_durable (claimed_creation now token job) db))
          job.payload
          (record {
            access_token_encrypted = c.access_token_encrypted;
            parent_page_id = job.payload.parent_page_id;
          })
  claim_for _ _ job db = rests (save_durable (ended_at now cancelled job) db)

  -- A call that did not come back is never repeated by itself.
  unfoldable pub claim_creation_found : Option DurableJob → Db → CreationClaim
  unfolding claim_for
  claim_creation_found none db = raises
  claim_creation_found (some job) db =
      let connection = connection_at job.payload.connection_id db in
      if is_running now job.lease_until
      then rests db
      else if is_processing job.status
      then rests (mark_uncertain connection (save_durable (interrupted job) db))
      else if not (is_pending job.status)
      then rests db
      else claim_for (user_of job.payload.user_id db) connection job db

  unfoldable pub claim_creation : JobKey → Db → CreationClaim
  unfolding claim_creation_found
  claim_creation key db = claim_creation_found (find job_key key db.durable_jobs) db

-- `{'user_id': user.id, 'baseline': True}`.
abbrev pub baseline_payload : ℕ → Payload
baseline_payload user_id = record {
  user_id = some user_id;
  offer_id = none;
  connection_id = none;
  parent_page_id = none;
  baseline = true;
  reconcile = false;
  offers_phase = false;
  updated = false;
}

-- `rejected`: a refusal that left no database behind.
abbrev pub refusal_status : Option String → Bool → Status
refusal_status database_id rejected = if rejected && is_none database_id then failed else uncertain

abbrev pub refusal_setup : Option String → Bool → SetupStatus
refusal_setup database_id rejected =
    if rejected && is_none database_id then SetupStatus.failed else SetupStatus.uncertain

abbrev pub refused_connection : String → Option String → Bool → NotionConnection → NotionConnection
refused_connection error database_id rejected c = record c {
  setup_status = refusal_setup database_id rejected;
  last_error = some error;
  database_id = if is_some database_id then database_id else c.database_id;
}

abbrev pub created_connection : String → String → NotionConnection → NotionConnection
created_connection database_id source_id c = record c {
  database_id = some database_id;
  data_source_id = some source_id;
  setup_status = ready;
  last_error = none;
}

abbrev pub unleased : DurableJob → DurableJob
unleased job = record job { lease_until = none }

module _ (now : Time) where
  unfoldable pub settle_creation :
      Remote → Option User → Option NotionConnection → DurableJob → Db → Db
  unfolding enqueue_job
  settle_creation (created database_id source_id) (some u) (some c) job db =
      if u.is_active
      then enqueue_job now (match_user u.id) matching (baseline_payload u.id) false (
          save_connection_row (created_connection database_id source_id c)
            (save_durable (unleased (ended_at now done job)) db))
      else save_durable (unleased (ended_at now cancelled job)) db
  settle_creation (refused error database_id rejected) (some u) (some c) job db =
      if u.is_active
      then save_connection_row (refused_connection error database_id rejected c) (
          save_durable
            (unleased (record job {
              status = refusal_status database_id rejected;
              last_error = some error;
            }))
            db)
      else save_durable (unleased (ended_at now cancelled job)) db
  settle_creation remote _ _ job db = save_durable (unleased (ended_at now cancelled job)) db

  -- The second transaction, with the payload that the first one read: only the call that still
  -- owns the job writes.
  unfoldable pub finish_found : String → Remote → Payload → Option DurableJob → Db → Db
  unfolding settle_creation
  finish_found token remote payload none db = db
  finish_found token remote payload (some job) db =
      if is_processing job.status && opt_beq job.lease_token token
      then settle_creation remote (user_of payload.user_id db)
          (connection_at payload.connection_id db) job db
      else db

  unfoldable pub finish_creation : String → Remote → Payload → JobKey → Db → Db
  unfolding finish_found
  finish_creation token remote payload key db =
      finish_found token remote payload (find job_key key db.durable_jobs) db

-- `int(not failure)`.
abbrev pub remote_count : Remote → ℕ
remote_count (created database_id source_id) = 1
remote_count (refused error database_id rejected) = 0
