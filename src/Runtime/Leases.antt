-- ===== src/Runtime/Leases.antt =====
-- trackr_app/runtime.py: each running worker holds a row, which it gives back when it ends.
use summer_intern.Prelude.{
  ◌+◌, Bool, not, ◌&&◌, Option, none, some, [], ◌∷◌, ◌++◌, String, ◌==◌, is_some, if◌then◌else◌,
  delete_where,
}
use summer_intern.Model.{Db, Time, minutes, WorkerState, StateKey, gate, active, state_key_eq}
use summer_intern.Operations.{lock_state, state_of}

abbrev pub worker_key : WorkerState → StateKey
worker_key s = s.key

abbrev pub error_of : Option WorkerState → Option String
error_of none = none
error_of (some s) = s.last_error

-- `gate.last_error`.
unfoldable pub gate_error : Db → Option String
unfolding state_of
gate_error db = error_of (state_of gate db)

abbrev pub lease_row : Time → String → WorkerState
lease_row now identity = record {
  key = active identity;
  last_success_at = some (now + minutes 5);
  last_error = none;
}

-- The start of `invocation`: it raises and rolls back, or commits a lease.
pub data Entry : Type 0 where
  incompatible paused : Entry
  entered : Db → Entry

-- `checked` is whether the schema is checked in this environment, `compatible` what the check says.
unfoldable pub enter : Bool → Bool → Time → String → Db → Entry
unfolding lock_state gate_error
enter checked compatible now identity db =
    let locked = lock_state gate db in
    if checked && not compatible
    then incompatible
    else if is_some (gate_error locked)
    then paused
    else entered
        (record locked { worker_states = locked.worker_states ++ lease_row now identity ∷ [] })

-- The `finally` of `invocation`.
unfoldable pub leave : String → Db → Db
leave identity db = record db {
  worker_states = delete_where (λ (s : WorkerState). s.key == active identity) db.worker_states;
}

-- `guarded`: the body's result, or none where it was not called. A nested call takes no lease.
unfoldable pub guarded {ℓ} :
    {A : Type ℓ} → Bool → Bool → Bool → Time → String → (Db → Db × A) → Db → Db × Option A
unfolding enter leave
guarded nested checked compatible now identity body db =
    if nested
    then (let (db', a) = body db in (db', some a))
    else elim (enter checked compatible now identity db) [
      | incompatible ↦ (db, none)
      | paused ↦ (db, none)
      | entered db' ↦ (let (db'', a) = body db' in (leave identity db'', some a))
    ]
