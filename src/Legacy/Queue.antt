-- ===== src/Legacy/Queue.antt =====
-- trackr_app/legacy.py: `enqueue`, and the two transactions of `process_tasks` on a task.
use Prim.Native.String.{◌++◌ as append}
use summer_intern.Prelude.{
  ℕ, ◌+◌, ◌-◌, Bool, not, ◌&&◌, ◌||◌, Option, none, some, List, String, ◌==◌, nat_eq, string_eq,
  leb, opt_beq, or_else, is_some, if◌then◌else◌, map, select, take, sort_by, find, first_where,
  save, insert_new,
}
use summer_intern.Model.{
  Db, Time, minutes, pending, processing, failed, cancelled, sent, is_processing, is_unfinished,
  User, LegacyTask, named,
}
use summer_intern.Operations.{next_retry, lock_state}
use summer_intern.Maintenance.{completed_task}
use summer_intern.Durable.Jobs.{is_reached}

-- `LEGACY_NOTION_ENABLED` and `LEGACY_EMAIL_ENABLED`.
pub record Switches : Type 0 where
  pub notion_enabled : Bool
  pub email_enabled : Bool

abbrev pub task_key : LegacyTask → String
task_key t = t.key

abbrev pub save_task : LegacyTask → Db → Db
save_task t db = record db { legacy_tasks = save task_key t db.legacy_tasks }

abbrev pub new_task : String → String → String → String → String → Time → LegacyTask
new_task key source channel recipient payload now = record {
  key = key;
  source = source;
  channel = channel;
  recipient = recipient;
  payload = payload;
  status = pending;
  attempts = 0;
  last_error = none;
  next_attempt_at = none;
  created_at = now;
}

-- The parts of the identity; an email of any source is one.
abbrev pub identity_of : String → String → String → String → String → String
identity_of source channel recipient url force =
    append (if channel == "email" then "legacy-email" else source) (
      append "|" (
        append channel
          (append "|" (append recipient (append "|" (append url (append "|" force)))))))

-- A page's task follows its payload, and keeps an outstanding lease or delay.
abbrev pub repay : String → String → Option LegacyTask → Db → Db
repay channel payload none db = db
repay channel payload (some t) db =
    if channel == "notion" && not (t.payload == payload)
    then save_task (record t { payload = payload; status = pending; attempts = 0 }) db
    else db

-- `enqueue`, with the canonical address and the JSON text of the payload.
unfoldable pub enqueue_task :
    (String → String) → Time → String → String → String → String → String → String → Db → Db
enqueue_task sha256 now source channel recipient url payload force db =
    let key = sha256 (identity_of source channel recipient url force) in
    let rows =
      insert_new task_key (new_task key source channel recipient payload now) db.legacy_tasks in
    repay channel payload (find task_key key rows) (record db { legacy_tasks = rows })

abbrev pub is_due_task : Time → LegacyTask → Bool
is_due_task now t = is_unfinished t.status && is_reached now t.next_attempt_at

-- By creation, then by key: a hundred at most.
unfoldable pub due_tasks : (String → ℕ) → Time → String → Db → List String
due_tasks order now source db = map task_key (
    take 100 (
      sort_by (λ (t : LegacyTask). t.created_at)
        (sort_by (λ (t : LegacyTask). order t.key)
          (select (λ (t : LegacyTask). t.source == source && is_due_task now t) db.legacy_tasks))))

-- What the adapter does with a claimed task.
pub record TaskCall : Type 0 where
  pub key : String
  pub channel : String
  pub recipient : String
  pub payload : String

-- The first transaction: it ends the turn with or without an error, or claims the task.
pub data TaskClaim : Type 0 where
  passes : Db → ℕ → TaskClaim
  runs : Db → Time → TaskCall → TaskClaim

abbrev pub exhausted_task : LegacyTask → LegacyTask
exhausted_task t = record t {
  status = failed;
  last_error = or_else t.last_error (some "LegacyLeaseExhausted");
}

abbrev pub claimed_task : Time → LegacyTask → LegacyTask
claimed_task now t = record t {
  status = processing;
  next_attempt_at = some (now + minutes 5);
  attempts = t.attempts + 1;
}

abbrev pub call_of : LegacyTask → TaskCall
call_of t = record {
  key = t.key;
  channel = t.channel;
  recipient = t.recipient;
  payload = t.payload;
}

-- An address with an account belongs to the platform's emails.
abbrev pub is_migrated : LegacyTask → Db → Bool
is_migrated t db = is_some (first_where (λ (u : User). u.email == t.recipient) db.users)

module _ (switches : Switches) (now : Time) where
  unfoldable pub claim_task : Option LegacyTask → Db → TaskClaim
  claim_task none db = passes db 0
  claim_task (some t) db =
      if leb 5 t.attempts
      then passes (save_task (exhausted_task t) db) 1
      else if t.channel == "email" && (is_migrated t db || not switches.email_enabled)
      then passes (save_task (record t { status = cancelled }) db) 0
      else if t.channel == "notion" && not switches.notion_enabled
      then passes db 0
      else runs (save_task (claimed_task now t) db) (now + minutes 5) (call_of t)

abbrev pub is_fatal : String → Bool
is_fatal error = error == "JSONDecodeError" || error == "KeyError"

abbrev pub failed_task : Time → String → LegacyTask → LegacyTask
failed_task now error t = record t {
  status = if leb 5 t.attempts || is_fatal error then failed else pending;
  last_error = some error;
  next_attempt_at = some (next_retry now t.attempts);
}

abbrev pub sent_task : LegacyTask → LegacyTask
sent_task t = record t {
  status = sent;
  last_error = none;
  next_attempt_at = none;
  attempts = t.attempts - 1;
}

-- The claim of this lease, with the payload that was worked on.
abbrev pub is_leased_task : TaskCall → Time → LegacyTask → Bool
is_leased_task call lease t =
    t.key == call.key
    && (is_processing t.status && opt_beq t.next_attempt_at lease && t.payload == call.payload)

module _ (runtime_available : Bool) (now : Time) (failure : Option String) where
  abbrev pub settle_task : Option LegacyTask → Db → Db
  settle_task none db = db
  settle_task (some t) db = elim failure [
    | some error ↦ save_task (failed_task now error t) db
    | none ↦ completed_task runtime_available now t.key (save_task (sent_task t) db)
  ]

  unfoldable pub finish_task : String → TaskCall → Time → Db → Db
  unfolding completed_task lock_state
  finish_task source call lease db =
      let locked = lock_state (named (append "legacy/" source)) db in
      settle_task (first_where (is_leased_task call lease) locked.legacy_tasks) locked
