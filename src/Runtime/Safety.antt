-- ===== src/Runtime/Safety.antt =====
-- The gate keeps migrations apart from one another and from the workers that hold a lease.
use summer_intern.Prelude.{
  ℕ, ◌+◌, ◌≡◌, refl, Bool, true, false, Option, none, some, List, [], ◌∷◌, String, ◌==◌, nat_eq,
  inl, inr, ap, ◌∙◌, is_some, arith, if◌then◌else◌, length, select, any, nat_beq_iff, update_where,
  delete_where, insert_new, find-insert_new, find-append, find-update_at, find-delete_at,
  Bool-cases,
}
use summer_intern.Model.{Db, Time, WorkerState, gate, active, state_key_eq}
use summer_intern.Operations.{lock_state, state_of}
use summer_intern.Runtime.Leases.{
  error_of, worker_key, gate_error, lease_row, enter, entered, leave,
}
use summer_intern.Runtime.Migration.{
  set_gate, pause, is_after, is_lease, active_workers, resume, Poll, drain, Drained, drained,
  timed_out, after_change, after_drain, after_pause, migrate, already_paused, migrated,
}
use summer_intern.Runtime.System.{
  Migration, System, Step, tick, enters, leaves, works, pauses, starts, ends, Reach, here, next,
}

abbrev blank : WorkerState
blank = record { key = gate; last_success_at = none; last_error = none }

gate_error-lock_state : (db : Db) → gate_error (lock_state gate db) ≡ gate_error db
unfolding gate_error lock_state
gate_error-lock_state db = ground (arith, find-insert_new worker_key gate blank db.worker_states)

gate_error-enter :
    (checked compatible : Bool) (now : Time) (identity : String) (db db' : Db)
    → enter checked compatible now identity db ≡ entered db'
    → (gate_error db ≡ none) × (gate_error db' ≡ none)
unfolding enter gate_error
gate_error-enter checked compatible now identity db db' h = ground (
  arith,
  gate_error-lock_state db,
  find-append worker_key gate (lock_state gate db).worker_states (lease_row now identity),
)

gate_error-leave : (identity : String) (db : Db) → gate_error (leave identity db) ≡ gate_error db
unfolding gate_error leave
gate_error-leave identity db =
    ground (arith, find-delete_at worker_key (active identity) gate db.worker_states)

gate_error-set_gate :
    (error : Option String) (db : Db) → gate_error (set_gate error (lock_state gate db)) ≡ error
unfolding gate_error lock_state
gate_error-set_gate error db = ground (
  arith,
  find-insert_new worker_key gate blank db.worker_states,
  find-update_at worker_key gate gate (λ s. record s { last_error = error })
      (insert_new worker_key blank db.worker_states) (λ s. refl),
)

gate_error-pause :
    (label : String) (db db' : Db)
    → pause label db ≡ some db'
    → (gate_error db ≡ none) × (gate_error db' ≡ some label)
unfolding pause
gate_error-pause label db db' h =
    ground (arith, gate_error-lock_state db, gate_error-set_gate (some label) db)

live_later :
    (now : Time) (n : ℕ) (rows : List WorkerState)
    → length (
        select
          (λ (s : WorkerState). if is_lease s.key then is_after now s.last_success_at else false)
          rows)
      ≡ 0
    → length (
        select
          (λ (s : WorkerState).
            if is_lease s.key then is_after (now + n) s.last_success_at else false)
          rows)
      ≡ 0
live_later now n [] h = refl
live_later now n (s ∷ rows) h = ground (arith, live_later now n rows)

live_delete :
    (p q : WorkerState → Bool) (rows : List WorkerState)
    → length (select p rows) ≡ 0
    → length (select p (delete_where q rows)) ≡ 0
unfolding delete_where
live_delete p q [] h = refl
live_delete p q (s ∷ rows) h = ground (arith, live_delete p q rows)

gate_error-same :
    (db before : Db) → state_of gate db ≡ state_of gate before → gate_error db ≡ gate_error before
unfolding gate_error
gate_error-same db before h = ap error_of h

-- Nobody migrates and the gate is open, or one migration holds the gate closed, and once it has
-- started no worker's lease is running.
pub data IsSafe (s : System) : Type 0 where
  free : s.migrations ≡ [] → gate_error s.db ≡ none → IsSafe s
  held :
      (m : Migration)
      → s.migrations ≡ m ∷ []
      → is_some (gate_error s.db) ≡ true
      → (m.migrating ≡ true → active_workers s.clock s.db ≡ 0)
      → IsSafe s

Step-IsSafe : {s t : System} → Step s t → IsSafe s → IsSafe t
unfolding active_workers
Step-IsSafe (tick n) (free e g) = free e g
Step-IsSafe {s} (tick n) (held m e g q) =
    held m e g (λ on. live_later s.clock n s.db.worker_states (q on))
Step-IsSafe {s} (enters checked compatible identity db h) (free e g) =
    free e (gate_error-enter checked compatible s.clock identity s.db db h).1
Step-IsSafe {s} (enters checked compatible identity db h) (held m e g q) =
    absurd (cc (g, (gate_error-enter checked compatible s.clock identity s.db db h).0))
Step-IsSafe {s} (leaves identity) (free e g) = free e (gate_error-leave identity s.db ∙ g)
Step-IsSafe {s} (leaves identity) (held m e g q) =
    held m e (rw (gate_error-leave identity s.db) g)
      (λ on. unfold leave in live_delete _ _ s.db.worker_states (q on))
Step-IsSafe {s} (works db h fewer) (free e g) = free e (gate_error-same db s.db h ∙ g)
Step-IsSafe {s} (works db h fewer) (held m e g q) =
    held m e (ap is_some (gate_error-same db s.db h) ∙ g) (λ on. omega (arith, q on, fewer s.clock))
Step-IsSafe {s} (pauses id label db h) (free e g) =
    held (record { id = id; migrating = false })
      (ap (λ l. record { id = id; migrating = false } ∷ l) e)
      (ap is_some (gate_error-pause label s.db db h).1) (λ on. cc)
Step-IsSafe {s} (pauses id label db h) (held m e g q) =
    absurd (cc (g, (gate_error-pause label s.db db h).0))
Step-IsSafe {s} (starts id h) (free e g) = free (unfold update_where in rw e) g
Step-IsSafe {s} (starts id h) (held m e g q) =
    held (if m.id == id then record m { migrating = true } else m) (unfold update_where in rw e) g
      (λ _. h)
Step-IsSafe {s} (ends m rest h) (free e g) = absurd (cc (h, e))
Step-IsSafe {s} (ends m rest h) (held m' e g q) =
    free (cc (h, e)) (unfold resume in gate_error-set_gate none s.db)

-- In every state that a deployment can reach from an open gate with nobody migrating, at most one
-- migration is between its first and last transaction, the gate is closed meanwhile, and once its
-- schema change has started no worker holds a running lease, however long it takes and whatever the
-- workers try.
pub Reach-IsSafe : {start now : System} → Reach start now → IsSafe start → IsSafe now
Reach-IsSafe here safe = safe
Reach-IsSafe (next before step) safe = Step-IsSafe step (Reach-IsSafe before safe)

-- The loop ends well only after a count of no live worker.
drained_quiet :
    (ps : List Poll) (db db' : Db)
    → drain ps db ≡ drained db'
    → (now : Time) × (any (λ (p : Poll). p.now == now) ps ≡ true) × (active_workers now db' ≡ 0)
unfolding drain
drained_quiet [] db db' h = cc
drained_quiet (p ∷ ps) db db' h = elim (Bool-cases (active_workers p.now db == 0)) [
  | inl quiet ↦
      (let same : drained db ≡ drained db' = rw (quiet, drain) at h in
        (p.now, ground (arith, nat_beq_iff p.now p.now), ground (arith, same)))
  | inr busy ↦ elim (Bool-cases p.late) [
    | inl late ↦ absurd (cc (rw (busy, late, drain) at h))
    | inr early ↦
        let (now, round, q) = drained_quiet ps (p.others db) db' (rw (busy, early, drain) at h) in
        (now, ground (arith, round), q)
  ]
]

gate_error-resume : (db : Db) → gate_error (resume db) ≡ none
unfolding resume
gate_error-resume db = gate_error-set_gate none db

pause_open :
    (label : String) (db : Db) → gate_error db ≡ none → (db' : Db) × (pause label db ≡ some db')
unfolding pause
pause_open label db open_gate =
    (set_gate (some label) (lock_state gate db), rw (gate_error-lock_state db, open_gate))

pause_closed : (label : String) (db : Db) → is_some (gate_error db) ≡ true → pause label db ≡ none
unfolding pause
pause_closed label db h = rw (gate_error-lock_state db, h)

module _ (migrate_call : Db → Option Db) where
  change_reopens : (quiet : Db) (o : Option Db) → gate_error (after_change quiet o).0 ≡ none
  unfolding after_change
  change_reopens quiet none = gate_error-resume quiet
  change_reopens quiet (some changed) = gate_error-resume changed

  drain_reopens : (d : Drained) → gate_error (after_drain migrate_call d).0 ≡ none
  unfolding after_drain
  drain_reopens (timed_out db) = gate_error-resume db
  drain_reopens (drained db) = change_reopens db (migrate_call db)

  -- What a reported success rests on.
  pub record IsMigrated (polls : List Poll) (after : Db) : Type 0 where
    pub quiet : Db
    pub changed : Db
    pub now : Time
    pub round : any (λ (p : Poll). p.now == now) polls ≡ true
    pub no_workers : active_workers now quiet ≡ 0
    pub change : migrate_call quiet ≡ some changed
    pub result : after ≡ resume changed

  changed_of :
      (polls : List Poll) (quiet : Db) (now : Time) (o : Option Db)
      → any (λ (p : Poll). p.now == now) polls ≡ true
      → active_workers now quiet ≡ 0
      → migrate_call quiet ≡ o
      → (after_change quiet o).1 ≡ migrated
      → IsMigrated polls (after_change quiet o).0
  unfolding after_change
  changed_of polls quiet now none r q e h = absurd (cc)
  changed_of polls quiet now (some changed) r q e h = record {
    quiet = quiet;
    changed = changed;
    now = now;
    round = r;
    no_workers = q;
    change = e;
    result = refl;
  }

  drained_of :
      (polls : List Poll) (closed : Db) (d : Drained)
      → drain polls closed ≡ d
      → (after_drain migrate_call d).1 ≡ migrated
      → IsMigrated polls (after_drain migrate_call d).0
  unfolding after_drain
  drained_of polls closed (timed_out db) e h = absurd (cc)
  drained_of polls closed (drained db) e h =
      let (now, r, q) = drained_quiet polls closed db e in
      changed_of polls db now (migrate_call db) r q refl h

  paused_of :
      (polls : List Poll) (db : Db) (o : Option Db)
      → (after_pause polls migrate_call db o).1 ≡ migrated
      → IsMigrated polls (after_pause polls migrate_call db o).0
  unfolding after_pause
  paused_of polls db none h = absurd (cc)
  paused_of polls db (some closed) h = drained_of polls closed (drain polls closed) refl h

-- A run of `migrate` that finds the gate closed changes nothing; one that finds it open leaves it
-- open, whether the workers drained or not and whether the schema change raised or not; and it
-- reports success only if the change was made to a state in which no worker was live at the time of
-- one of its rounds of waiting.
pub migrate_reopens :
    (label : String) (polls : List Poll) (migrate_call : Db → Option Db) (db : Db)
    → (is_some (gate_error db) ≡ true → migrate label polls migrate_call db ≡ (db, already_paused))
      × (gate_error db ≡ none → gate_error (migrate label polls migrate_call db).0 ≡ none)
      × ((migrate label polls migrate_call db).1 ≡ migrated
          → IsMigrated migrate_call polls (migrate label polls migrate_call db).0)
unfolding migrate
migrate_reopens label polls migrate_call db = (
  λ h. rw (pause_closed label db h),
  λ h.
      let (closed, e) = pause_open label db h in
      rw e (drain_reopens migrate_call (drain polls closed)),
  λ h. paused_of migrate_call polls db (pause label db) h,
)
