-- ===== src/Legacy/Turns.antt =====
-- trackr_app/legacy.py: the loop of `process_tasks`, and `cancel_legacy_notion_window`.
use Prim.Native.String.{◌++◌ as append}
use summer_intern.Prelude.{
  ℕ, ◌+◌, Bool, ◌&&◌, Option, none, some, List, [], ◌∷◌, String, ◌==◌, nat_eq, string_eq, leb,
  if◌then◌else◌, select, first_where, update_where, length,
}
use summer_intern.Model.{Db, Time, cancelled, is_pending, LegacyTask, named}
use summer_intern.Operations.{lock_state}
use summer_intern.Legacy.Queue.{
  Switches, TaskCall, TaskClaim, passes, runs, is_due_task, due_tasks, claim_task, finish_task,
}

-- What the world decides during a task's turn: the times, what others commit, the adapter's error,
-- and whether a transaction raises, which rolls it back.
pub record TaskTurn : Type 0 where
  pub before : Db → Db
  pub now : Time
  pub raises_first : Bool
  pub meanwhile : Db → Db
  pub failure : Option String
  pub raises_second : Bool
  pub finished_at : Time

-- The state, the claimed calls, of which an error may stop one before the adapter, and the count of
-- errors.
pub record Tasks : Type 0 where
  pub db : Db
  pub calls : List TaskCall
  pub errors : ℕ

module _ (switches : Switches) (runtime_available : Bool) (source : String) where
  abbrev pub error_count : Option String → ℕ
  error_count none = 0
  error_count (some error) = 1

  abbrev pub after_task : TaskTurn → TaskClaim → Tasks → Tasks
  after_task turn (passes db n) before = record before { db = db; errors = before.errors + n }
  after_task turn (runs db lease call) before =
      let later = turn.meanwhile db in
      let failed_calls = before.errors + error_count turn.failure in
      if turn.raises_second
      then record { db = later; calls = call ∷ before.calls; errors = failed_calls + 1 }
      else record {
        db = finish_task runtime_available turn.finished_at turn.failure source call lease later;
        calls = call ∷ before.calls;
        errors = failed_calls;
      }

  unfoldable pub process_task : TaskTurn → String → Tasks → Tasks
  unfolding claim_task finish_task lock_state
  process_task turn key before =
      let db = turn.before before.db in
      let locked = lock_state (named (append "legacy/" source)) db in
      let task =
        first_where (λ (t : LegacyTask). t.key == key && is_due_task turn.now t)
          locked.legacy_tasks in
      let run = after_task turn (claim_task switches turn.now task locked) before in
      if turn.raises_first then record before { db = db; errors = before.errors + 1 } else run

  -- The loop, with the deadline and the turns as the world decides them; the last call comes first.
  unfoldable pub run_tasks : (String → Bool) → (String → TaskTurn) → List String → Tasks → Tasks
  unfolding process_task
  run_tasks expired turns [] before = before
  run_tasks expired turns (key ∷ keys) before =
      let rest = run_tasks expired turns keys (process_task (turns key) key before) in
      if expired key then before else rest

  unfoldable pub process_tasks :
      (String → ℕ) → (String → Bool) → (String → TaskTurn) → Time → Db → Tasks
  unfolding run_tasks due_tasks
  process_tasks order expired turns now db =
      run_tasks expired turns (due_tasks order now source db)
        (record { db = db; calls = []; errors = 0 })

-- `cancel_legacy_notion_window`: the tasks of a window of time, counted, and cancelled if `apply`.
abbrev pub is_in_window : Time → Time → LegacyTask → Bool
is_in_window start end t =
    t.channel == "notion" && is_pending t.status && leb start t.created_at && leb t.created_at end

unfoldable pub cancel_legacy_notion_window : Time → Time → Bool → Db → Db × ℕ
cancel_legacy_notion_window start end apply db = (
  if apply
      then record db {
        legacy_tasks =
            update_where (is_in_window start end)
              (λ t. record t {
                status = cancelled;
                last_error = some "remediated_duplicate_run";
                next_attempt_at = none;
              })
              db.legacy_tasks;
      }
      else db,
  length (select (is_in_window start end) db.legacy_tasks),
)
