-- ===== src/AdminJobs.antt =====
-- trackr_app/admin_jobs.py: the failed jobs of every queue, and the retry of one of them. A row's
-- identity is a number, or the key of a task or job.
use summer_intern.Prelude.{
  ℕ, Bool, true, false, ◌&&◌, Option, none, some, List, String, nat_eq, string_eq, ltb,
  if◌then◌else◌, map, select, take, sort_by, find, save,
}
use summer_intern.Model.{
  Db, Status, pending, failed, uncertain, is_failed, AuthMail, Invitation, Delivery, NotionSync,
  LegacyTask, DurableJob, JobKey, job_key_eq,
}

-- `MODELS`, with the identity of a row of each.
pub data Target : Type 0 where
  auth email invitation notion : ℕ → Target
  legacy : String → Target
  durable : JobKey → Target

-- The keys of `MODELS`.
pub data Kind : Type 0 where
  of_auth of_email of_invitation of_legacy of_notion of_durable : Kind

-- What is listed of a row, with its place in the order of identities.
pub record Listed : Type 0 where
  pub id : Target
  pub rank : ℕ
  pub status : Status
  pub attempts : ℕ
  pub error : Option String

abbrev pub needs_attention : Status → Bool
needs_attention failed = true
needs_attention uncertain = true
needs_attention _ = false

-- `identity > after`, if a cursor is given.
abbrev pub is_beyond : Option ℕ → Listed → Bool
is_beyond none r = true
is_beyond (some after) r = ltb after r.rank

-- The order of the database on the two kinds of text keys is a parameter.
module _ (task_order : String → ℕ) (job_order : JobKey → ℕ) where
  unfoldable pub listed_rows : Kind → Db → List Listed
  listed_rows of_auth db =
      map
        (λ (j : AuthMail). record {
          id = auth j.id;
          rank = j.id;
          status = j.status;
          attempts = j.attempts;
          error = j.last_error;
        })
        db.auth_mail
  listed_rows of_email db =
      map
        (λ (d : Delivery). record {
          id = email d.id;
          rank = d.id;
          status = d.status;
          attempts = d.attempts;
          error = d.last_error;
        })
        db.deliveries
  listed_rows of_invitation db =
      map
        (λ (i : Invitation). record {
          id = invitation i.id;
          rank = i.id;
          status = i.delivery_status;
          attempts = i.attempts;
          error = i.last_error;
        })
        db.invitations
  listed_rows of_legacy db =
      map
        (λ (t : LegacyTask). record {
          id = legacy t.key;
          rank = task_order t.key;
          status = t.status;
          attempts = t.attempts;
          error = t.last_error;
        })
        db.legacy_tasks
  listed_rows of_notion db =
      map
        (λ (s : NotionSync). record {
          id = notion s.id;
          rank = s.id;
          status = s.status;
          attempts = s.attempts;
          error = s.last_error;
        })
        db.notion_syncs
  listed_rows of_durable db =
      map
        (λ (j : DurableJob). record {
          id = durable j.key;
          rank = job_order j.key;
          status = j.status;
          attempts = j.attempts;
          error = j.last_error;
        })
        db.durable_jobs

  -- The next fifty beyond the cursor, which is given by its place.
  unfoldable pub failed_jobs : Kind → Option ℕ → Db → List Listed
  unfolding listed_rows
  failed_jobs kind after db = take 50 (
      sort_by (λ (r : Listed). r.rank)
        (select (λ r. needs_attention r.status && is_beyond after r) (listed_rows kind db)))

-- `retry` of one queue: none where it raises `ValueError`.
abbrev pub retry_mail : Option AuthMail → Db → Option Db
retry_mail none db = none
retry_mail (some j) db =
    if is_failed j.status
    then some (record db {
      auth_mail =
          save (λ (r : AuthMail). r.id)
            (record j { status = pending; attempts = 0; last_error = none; next_attempt_at = none })
            db.auth_mail;
    })
    else none

abbrev pub retry_delivery : Option Delivery → Db → Option Db
retry_delivery none db = none
retry_delivery (some d) db =
    if is_failed d.status
    then some (record db {
      deliveries =
          save (λ (r : Delivery). r.id)
            (record d { status = pending; attempts = 0; last_error = none; next_attempt_at = none })
            db.deliveries;
    })
    else none

abbrev pub retry_invitation : Option Invitation → Db → Option Db
retry_invitation none db = none
retry_invitation (some i) db =
    if is_failed i.delivery_status
    then some (record db {
      invitations =
          save (λ (r : Invitation). r.id)
            (record i {
              delivery_status = pending;
              attempts = 0;
              last_error = none;
              next_attempt_at = none;
            })
            db.invitations;
    })
    else none

abbrev pub retry_sync : Option NotionSync → Db → Option Db
retry_sync none db = none
retry_sync (some s) db =
    if is_failed s.status
    then some (record db {
      notion_syncs =
          save (λ (r : NotionSync). r.id)
            (record s { status = pending; attempts = 0; last_error = none; next_attempt_at = none })
            db.notion_syncs;
    })
    else none

abbrev pub retry_task : Option LegacyTask → Db → Option Db
retry_task none db = none
retry_task (some t) db =
    if is_failed t.status
    then some (record db {
      legacy_tasks =
          save (λ (r : LegacyTask). r.key)
            (record t { status = pending; attempts = 0; last_error = none; next_attempt_at = none })
            db.legacy_tasks;
    })
    else none

-- A job's lease goes too.
abbrev pub retry_durable : Option DurableJob → Db → Option Db
retry_durable none db = none
retry_durable (some j) db =
    if is_failed j.status
    then some (record db {
      durable_jobs =
          save (λ (r : DurableJob). r.key)
            (record j {
              status = pending;
              attempts = 0;
              last_error = none;
              next_attempt_at = none;
              lease_until = none;
              lease_token = none;
            })
            db.durable_jobs;
    })
    else none

unfoldable pub retry : Target → Db → Option Db
retry (auth id) db = retry_mail (find (λ (r : AuthMail). r.id) id db.auth_mail) db
retry (email id) db = retry_delivery (find (λ (r : Delivery). r.id) id db.deliveries) db
retry (invitation id) db = retry_invitation (find (λ (r : Invitation). r.id) id db.invitations) db
retry (notion id) db = retry_sync (find (λ (r : NotionSync). r.id) id db.notion_syncs) db
retry (legacy key) db = retry_task (find (λ (r : LegacyTask). r.key) key db.legacy_tasks) db
retry (durable key) db = retry_durable (find (λ (r : DurableJob). r.key) key db.durable_jobs) db
