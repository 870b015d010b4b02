-- ===== src/Runtime/Migration.antt =====
-- scripts/migrate_coordinated.py, `migrate`: the gate is closed, the workers drain, the schema
-- changes, and the gate is opened whatever happened in between.
use summer_intern.Prelude.{
  ℕ, Bool, true, false, Option, none, some, List, [], ◌∷◌, String, ◌==◌, ltb, is_some, nat_eq,
  if◌then◌else◌, length, select, update_where,
}
use summer_intern.Model.{Db, Time, WorkerState, StateKey, gate, active, state_key_eq}
use summer_intern.Operations.{lock_state}
use summer_intern.Runtime.Leases.{gate_error}

abbrev pub set_gate : Option String → Db → Db
set_gate error db = record db {
  worker_states =
      update_where (λ (s : WorkerState). s.key == gate) (λ s. record s { last_error = error })
        db.worker_states;
}

-- The first transaction: none where the gate is closed already.
unfoldable pub pause : String → Db → Option Db
unfolding lock_state gate_error
pause label db =
    let locked = lock_state gate db in
    if is_some (gate_error locked) then none else some (set_gate (some label) locked)

-- `last_success_at > now`.
abbrev pub is_after : Time → Option Time → Bool
is_after now none = false
is_after now (some t) = ltb now t

-- `key.startswith('runtime/active/')`.
abbrev pub is_lease : StateKey → Bool
is_lease (active _) = true
is_lease _ = false

unfoldable pub active_workers : Time → Db → ℕ
active_workers now db = length (
    select (λ (s : WorkerState). if is_lease s.key then is_after now s.last_success_at else false)
      db.worker_states)

-- The `finally`.
unfoldable pub resume : Db → Db
unfolding lock_state
resume db = set_gate none (lock_state gate db)

-- One round of waiting: the time of the count, whether the deadline has come by then, and what
-- others commit before the next round.
pub record Poll : Type 0 where
  pub now : Time
  pub late : Bool
  pub others : Db → Db

pub data Drained : Type 0 where
  drained : Db → Drained
  timed_out : Db → Drained

-- The waiting loop, over the rounds that the deadline leaves.
unfoldable pub drain : List Poll → Db → Drained
unfolding active_workers
drain [] db = timed_out db
drain (p ∷ ps) db =
    let rest = drain ps (p.others db) in
    if active_workers p.now db == 0 then drained db else if p.late then timed_out db else rest

pub data Migrated : Type 0 where
  already_paused did_not_drain migration_failed migrated : Migrated

-- `migrate_call` is none where the migration raises, and its transaction is rolled back.
unfoldable pub after_change : Db → Option Db → Db × Migrated
unfolding resume
after_change quiet none = (resume quiet, migration_failed)
after_change quiet (some changed) = (resume changed, migrated)

unfoldable pub after_drain : (Db → Option Db) → Drained → Db × Migrated
unfolding after_change
after_drain migrate_call (timed_out db) = (resume db, did_not_drain)
after_drain migrate_call (drained db) = after_change db (migrate_call db)

unfoldable pub after_pause : List Poll → (Db → Option Db) → Db → Option Db → Db × Migrated
unfolding drain after_drain
after_pause polls migrate_call db none = (db, already_paused)
after_pause polls migrate_call db (some closed) = after_drain migrate_call (drain polls closed)

unfoldable pub migrate : String → List Poll → (Db → Option Db) → Db → Db × Migrated
unfolding pause after_pause
migrate label polls migrate_call db = after_pause polls migrate_call db (pause label db)
