-- ===== src/Operations.antt =====
-- trackr_app/operations.py: the state rows of the workers and the delay before a retry.
pub mod Backoff
use summer_intern.Prelude.{
  ℕ, ◌+◌, ◌^◌, min, Option, none, some, true, insert_new, find, if◌then◌else◌,
}
use summer_intern.Model.{Db, Time, minutes, WorkerState, StateKey, state_key_eq}

-- `utcnow() + timedelta(minutes=min(60, 2 ** attempts))`.
unfoldable pub next_retry : Time → ℕ → Time
next_retry now attempts = now + minutes (min 60 (2 ^ attempts))

-- The row of a key, inserted first where it is missing.
unfoldable pub lock_state : StateKey → Db → Db
lock_state key db = record db {
  worker_states =
      insert_new (λ s. s.key) (record { key = key; last_success_at = none; last_error = none })
        db.worker_states;
}

unfoldable pub state_of : StateKey → Db → Option WorkerState
state_of key db = find (λ s. s.key) key db.worker_states
