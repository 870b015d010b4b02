-- ===== src/Samples/Deployment.antt =====
-- Runs of the gate, the limits, the snapshots' leases and the delays.
use summer_intern.Prelude.{
  ◌≡◌, ◌≤◌, ◌<◌, ◌+◌, ◌↔◌, ℕ, String, refl, arith, Bool, true, false, Option, none, some, List, [],
  ◌∷◌, All, is_some, eq_iff,
}
use summer_intern.Model.{Db, empty_db, gate}
use summer_intern.Runtime.Leases.{gate_error}
use summer_intern.Runtime.Migration.{Poll, pause, migrate, set_gate, migrated, already_paused}
use summer_intern.Runtime.System.{System, Reach, here, next, pauses, starts}
use summer_intern.Runtime.Safety.{IsSafe, free, IsMigrated, Reach-IsSafe, migrate_reopens}
use summer_intern.Forms.{part, replayed, handle_http, max_form_bytes}
use summer_intern.Forms.Bound.{body_of, handle_http_bound}
use summer_intern.Sources.{reserve, owned, new_snapshot, lease_snapshot}
use summer_intern.Sources.Fencing.{reserve_fences, reserve_excludes}
use summer_intern.Limits.{
  Budget, Digest, password, email, ip, allow, count_of, refund_password_login,
}
use summer_intern.Limits.Quota.{AreDistinct, HasRoom, allow_exact, refund_restores}

abbrev idle_system : System
idle_system = record { db = empty_db; clock = 0; migrations = [] }

abbrev closed_db : Db
closed_db = record empty_db {
  worker_states = record { key = gate; last_success_at = none; last_error = some "migration" } ∷ [];
}

abbrev migrating_system : System
migrating_system = record {
  db = closed_db;
  clock = 0;
  migrations = record { id = 1; migrating = true } ∷ [];
}

reaches_example : Reach idle_system migrating_system
unfolding pause summer_intern.Prelude.find summer_intern.Prelude.insert_new
    summer_intern.Prelude.update_where summer_intern.Runtime.Migration.active_workers
reaches_example = next (next here (pauses 1 "migration" closed_db refl)) (starts 1 refl)

idle_example : gate_error empty_db ≡ none
unfolding gate_error summer_intern.Prelude.find
idle_example = refl

Reach-IsSafe_example : IsSafe migrating_system
Reach-IsSafe_example = Reach-IsSafe reaches_example (free refl idle_example)

abbrev one_poll : Poll
one_poll = record { now = 5; late = false; others = λ db. db }

migrate_reopens_example :
    (is_some (gate_error empty_db) ≡ true
      → migrate "migration" (one_poll ∷ []) (λ db. some db) empty_db ≡ (empty_db, already_paused))
    × (gate_error empty_db ≡ none
        → gate_error (migrate "migration" (one_poll ∷ []) (λ db. some db) empty_db).0 ≡ none)
    × ((migrate "migration" (one_poll ∷ []) (λ db. some db) empty_db).1 ≡ migrated
        → IsMigrated
            (λ db. some db)
            (one_poll ∷ [])
            (migrate "migration" (one_poll ∷ []) (λ db. some db) empty_db).0)
migrate_reopens_example = migrate_reopens "migration" (one_poll ∷ []) (λ db. some db) empty_db

migrate_example : (migrate "migration" (one_poll ∷ []) (λ db. some db) empty_db).1 ≡ migrated
unfolding migrate summer_intern.Prelude.find summer_intern.Prelude.insert_new
    summer_intern.Prelude.update_where
migrate_example = refl

abbrev leased_db : Db
leased_db = record empty_db { source_snapshots = lease_snapshot 10 "a" (new_snapshot "uk") ∷ [] }

reserve_example : reserve 10 "a" "uk" empty_db ≡ (leased_db, some (1, "a"))
unfolding reserve summer_intern.Prelude.find summer_intern.Prelude.insert_new
    summer_intern.Prelude.save
reserve_example = refl

reserve_given : (reserve 10 "a" "uk" empty_db).1 ≡ some (1, "a")
unfolding reserve summer_intern.Prelude.find summer_intern.Prelude.insert_new
reserve_given = refl

reserve_excludes_example : (reserve 100 "b" "uk" (reserve 10 "a" "uk" empty_db).0).1 ≡ none
reserve_excludes_example =
    reserve_excludes 10 100 "a" "b" "uk" empty_db (1, "a") reserve_given (omega arith)

owned_example : owned "uk" (1, "a") leased_db ≡ some (lease_snapshot 10 "a" (new_snapshot "uk"))
unfolding owned summer_intern.Prelude.find
owned_example = refl

late_example : (reserve 300000010 "b" "uk" leased_db).1 ≡ some (2, "b")
unfolding reserve summer_intern.Prelude.find summer_intern.Prelude.insert_new
late_example = refl

reserve_fences_example :
    (owned "uk" (2, "b") (reserve 300000010 "b" "uk" leased_db).0
      ≡ some (lease_snapshot 300000010 "b" (lease_snapshot 10 "a" (new_snapshot "uk"))))
    × (owned "uk" (1, "a") (reserve 300000010 "b" "uk" leased_db).0 ≡ none)
reserve_fences_example =
    reserve_fences 300000010 "b" "uk" leased_db (2, "b") (1, "a")
      (lease_snapshot 10 "a" (new_snapshot "uk")) owned_example late_example

abbrev test_digest : Digest
test_digest namespace email value bucket = "e"
test_digest namespace ip value bucket = "i"
test_digest namespace _ value bucket = "o"

abbrev two_budgets : List Budget
two_budgets =
    record { scope = email; value = "ada"; window = 900; maximum = 5 }
    ∷ record { scope = ip; value = "::1"; window = 900; maximum = 20 }
    ∷ []

two_budgets-AreDistinct : AreDistinct test_digest password 0 two_budgets
two_budgets-AreDistinct = (((λ e. cc ((eq_iff "i" "e").1 e)), tt), (tt, tt))

allow_exact_example :
    ((allow test_digest password 0 two_budgets empty_db).1 ≡ true)
    ↔ All (HasRoom test_digest password 0 []) two_budgets
allow_exact_example =
    allow_exact test_digest password 0 two_budgets empty_db two_budgets-AreDistinct

refund_restores_example :
    count_of "e" (
      refund_password_login
        (allow test_digest password 0 two_budgets empty_db).2
        (allow test_digest password 0 two_budgets empty_db).0.auth_limits)
    ≡ count_of "e" []
refund_restores_example = refund_restores test_digest password 0 two_budgets empty_db "e" tt

form_example :
    handle_http true (part (1 ∷ 2 ∷ []) true ∷ part (3 ∷ []) false ∷ []) ≡ replayed (1 ∷ 2 ∷ 3 ∷ [])
unfolding handle_http
form_example = refl

handle_http_bound_example :
    (1 ∷ 2 ∷ 3 ∷ [] ≡ body_of (part (1 ∷ 2 ∷ []) true ∷ part (3 ∷ []) false ∷ []))
    × (3 ≤ max_form_bytes)
handle_http_bound_example =
    handle_http_bound (part (1 ∷ 2 ∷ []) true ∷ part (3 ∷ []) false ∷ []) (1 ∷ 2 ∷ 3 ∷ [])
      form_example
