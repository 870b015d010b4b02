-- ===== src/Runtime/System.antt =====
-- The workers and the migrations of a deployment as a step relation over the shared tables. Each
-- step is a transaction of trackr_app/runtime.py or scripts/migrate_coordinated.py; a worker's own
-- work leaves the row of `worker_states` for the gate alone and adds no live lease, though it may
-- write the other rows or delete leases as `purge` does; and time passes.
use summer_intern.Prelude.{
  ℕ, ◌+◌, ◌≡◌, ◌≤◌, Bool, true, false, some, List, ◌∷◌, String, ◌==◌, nat_eq, update_where,
}
use summer_intern.Model.{Db, Time, gate}
use summer_intern.Operations.{state_of}
use summer_intern.Runtime.Leases.{enter, entered, leave}
use summer_intern.Runtime.Migration.{pause, active_workers, resume}

-- A run of `migrate` between its first and its last transaction.
pub record Migration : Type 0 where
  pub id : ℕ
  pub migrating : Bool

pub record System : Type 0 where
  pub db : Db
  pub clock : Time
  pub migrations : List Migration

pub data Step (s : System) : System → Type 0 where
  tick : (n : ℕ) → Step s (record s { clock = s.clock + n })
  enters :
      (checked compatible : Bool) (identity : String) (db : Db)
      → enter checked compatible s.clock identity s.db ≡ entered db
      → Step s (record s { db = db })
  leaves : (identity : String) → Step s (record s { db = leave identity s.db })
  works :
      (db : Db)
      → state_of gate db ≡ state_of gate s.db
      → ((now : Time) → active_workers now db ≤ active_workers now s.db)
      → Step s (record s { db = db })
  pauses :
      (id : ℕ) (label : String) (db : Db)
      → pause label s.db ≡ some db
      → Step s
          (record s { db = db; migrations = record { id = id; migrating = false } ∷ s.migrations })
  starts :
      (id : ℕ)
      → active_workers s.clock s.db ≡ 0
      → Step s (record s {
        migrations =
            update_where
              (λ (m : Migration). m.id == id)
              (λ m. record m { migrating = true })
              s.migrations;
      })
  ends :
      (m : Migration) (rest : List Migration)
      → s.migrations ≡ m ∷ rest
      → Step s (record s { db = resume s.db; migrations = rest })

pub data Reach (s : System) : System → Type 0 where
  here : Reach s s
  next : {t u : System} → Reach s t → Step t u → Reach s u
