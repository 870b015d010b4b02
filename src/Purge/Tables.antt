-- ===== src/Purge/Tables.antt =====
-- trackr_app/maintenance.py, the rest of `purge`: expired access, leases, pages, completed rows and
-- finished jobs. The order of texts is a parameter, where a batch is taken in it.
use summer_intern.Prelude.{
  ℕ, ◌+◌, Bool, true, false, not, ◌&&◌, none, some, List, [], ◌∷◌, String, ◌==◌, nat_eq, string_eq,
  ltb, is_some, map, select, take, sort_by, contains, find, delete_where,
}
use summer_intern.Model.{
  Db, Time, days, Status, synced, done, cancelled, is_sent, MagicLink, PasswordToken, UserSession,
  OauthNonce, WorkerState, active, named, gate, NotionSync, AuthMail, LegacyTask, DurableJob,
  JobKey, JobKind, job_key_eq, retention, task_retention, retained,
}
use summer_intern.Maintenance.{completed, completed_task}
use summer_intern.Durable.Enqueue.{job_key}
use summer_intern.Purge.{is_old, purge_deliveries}

-- `expires_at < utcnow() - 7 days`.
abbrev pub is_bygone : Time → Time → Bool
is_bygone now expires_at = ltb (expires_at + days 7) now

abbrev pub batch_of : ℕ → List ℕ → List ℕ
batch_of batch ids = take batch (sort_by (λ n. n) ids)

-- A batch of each table of access.
unfoldable pub purge_links : Time → ℕ → List MagicLink → List MagicLink
purge_links now batch rows =
    let ids =
      batch_of batch
        (map (λ (l : MagicLink). l.id) (select (λ l. is_bygone now l.expires_at) rows)) in
    delete_where (λ (l : MagicLink). contains ids l.id) rows

unfoldable pub purge_tokens : Time → ℕ → List PasswordToken → List PasswordToken
purge_tokens now batch rows =
    let ids =
      batch_of batch
        (map (λ (t : PasswordToken). t.id) (select (λ t. is_bygone now t.expires_at) rows)) in
    delete_where (λ (t : PasswordToken). contains ids t.id) rows

unfoldable pub purge_sessions : Time → ℕ → List UserSession → List UserSession
purge_sessions now batch rows =
    let ids =
      batch_of batch
        (map (λ (s : UserSession). s.id) (select (λ s. is_bygone now s.expires_at) rows)) in
    delete_where (λ (s : UserSession). contains ids s.id) rows

unfoldable pub purge_nonces : (String → ℕ) → Time → ℕ → List OauthNonce → List OauthNonce
purge_nonces order now batch rows =
    let hashes = take batch (
      sort_by order
        (map (λ (n : OauthNonce). n.token_hash) (select (λ n. is_bygone now n.expires_at) rows))) in
    delete_where (λ (n : OauthNonce). contains hashes n.token_hash) rows

-- The rows of workers that died: 'runtime/active/...' and a start a week ago.
abbrev pub is_abandoned : Time → WorkerState → Bool
is_abandoned now s = elim s.key [
  | active worker ↦ elim s.last_success_at [ none ↦ false | some t ↦ is_bygone now t ]
  | gate ↦ false
  | named name ↦ false
]

abbrev pub is_synced : Status → Bool
is_synced synced = true
is_synced _ = false

unfoldable pub purge_syncs : Time → ℕ → List NotionSync → List NotionSync
purge_syncs now batch rows =
    let ids = batch_of batch (
      map (λ (s : NotionSync). s.id)
        (select (λ s. is_synced s.status && is_old now s.synced_at) rows)) in
    delete_where (λ (s : NotionSync). contains ids s.id) rows

-- A completed row without a marker gets one now.
abbrev pub has_marker : JobKey → Db → Bool
has_marker key db = is_some (find job_key key db.durable_jobs)

unfoldable pub mark_mail : Time → List ℕ → Db → Db
unfolding completed
mark_mail now [] db = db
mark_mail now (id ∷ ids) db = mark_mail now ids (completed true now "auth_mail" id db)

unfoldable pub mark_tasks : Time → List String → Db → Db
unfolding completed_task
mark_tasks now [] db = db
mark_tasks now (key ∷ keys) db = mark_tasks now keys (completed_task true now key db)

-- The row of an old marker is deleted if it is still 'sent', and the marker in any case.
abbrev pub drop_mail : DurableJob → Db → Db
drop_mail marker db = elim marker.key [
  | retention table id ↦ record db {
    auth_mail = delete_where (λ (j : AuthMail). j.id == id && is_sent j.status) db.auth_mail;
    durable_jobs = delete_where (λ (j : DurableJob). j.key == marker.key) db.durable_jobs;
  }
  | _ ↦ db
]

abbrev pub drop_task : DurableJob → Db → Db
drop_task marker db = elim marker.key [
  | task_retention key ↦ record db {
    legacy_tasks =
        delete_where (λ (t : LegacyTask). t.key == key && is_sent t.status) db.legacy_tasks;
    durable_jobs = delete_where (λ (j : DurableJob). j.key == marker.key) db.durable_jobs;
  }
  | _ ↦ db
]

unfoldable pub drop_each : (DurableJob → Db → Db) → List DurableJob → Db → Db
drop_each drop [] db = db
drop_each drop (marker ∷ markers) db = drop_each drop markers (drop marker db)

abbrev pub is_mail_marker : JobKey → Bool
is_mail_marker (retention table id) = table == "auth_mail"
is_mail_marker _ = false

abbrev pub is_task_marker : JobKey → Bool
is_task_marker (task_retention key) = true
is_task_marker _ = false

abbrev pub old_markers : (JobKey → Bool) → Time → ℕ → Db → List DurableJob
old_markers kind now batch db =
    take batch
      (select (λ (j : DurableJob). kind j.key && is_old now j.completed_at) db.durable_jobs)

unfoldable pub purge_mail : Time → ℕ → Db → Db
unfolding mark_mail drop_each
purge_mail now batch db =
    let unmarked = batch_of batch (
      map (λ (j : AuthMail). j.id)
        (select
          (λ (j : AuthMail). is_sent j.status && not (has_marker (retention "auth_mail" j.id) db))
          db.auth_mail)) in
    let marked = mark_mail now unmarked db in
    drop_each drop_mail (old_markers is_mail_marker now batch marked) marked

unfoldable pub purge_tasks : (String → ℕ) → Time → ℕ → Db → Db
unfolding mark_tasks drop_each
purge_tasks order now batch db =
    let unmarked = take batch (
      sort_by order (
        map (λ (t : LegacyTask). t.key)
          (select
            (λ (t : LegacyTask). is_sent t.status && not (has_marker (task_retention t.key) db))
            db.legacy_tasks))) in
    let marked = mark_tasks now unmarked db in
    drop_each drop_task (old_markers is_task_marker now batch marked) marked

-- `status in ('done', 'cancelled')`.
abbrev pub is_finished : Status → Bool
is_finished done = true
is_finished cancelled = true
is_finished _ = false

abbrev pub is_retention : JobKind → Bool
is_retention retained = true
is_retention _ = false

unfoldable pub purge_jobs : Time → ℕ → Db → Db
purge_jobs now batch db =
    let keys = map job_key (
      take batch (
        select
          (λ (j : DurableJob).
            is_finished j.status && not (is_retention j.kind) && is_old now j.completed_at)
          db.durable_jobs)) in
    record db {
      durable_jobs = delete_where (λ (j : DurableJob). contains keys j.key) db.durable_jobs;
    }

-- The whole of `purge`, without its counts; the times of its statements are one.
unfoldable pub purge : (String → ℕ) → Time → ℕ → Db → Db
unfolding purge_links purge_tokens purge_sessions purge_nonces purge_syncs purge_deliveries
    purge_mail purge_tasks purge_jobs
purge order now batch db =
    let access : Db = record db {
      magic_links = purge_links now batch db.magic_links;
      password_tokens = purge_tokens now batch db.password_tokens;
      user_sessions = purge_sessions now batch db.user_sessions;
      oauth_nonces = purge_nonces order now batch db.oauth_nonces;
      worker_states = delete_where (is_abandoned now) db.worker_states;
    } in
    let alerts = purge_deliveries now batch access in
    let pages : Db = record alerts { notion_syncs = purge_syncs now batch alerts.notion_syncs } in
    purge_jobs now batch (purge_tasks order now batch (purge_mail now batch pages))
