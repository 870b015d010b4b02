-- ===== src/Collection/Tracker.antt =====
-- trackr_app/scraper.py, `scrape_all`: one tracker's claim, snapshot and handler, and the loop over the
-- trackers. Whether `claim` is bound when the handler runs is part of the state, as in the source.
use summer_intern.Prelude.{
  ℕ, ◌+◌, Bool, not, ◌&&◌, Option, none, some, List, [], ◌∷◌, String, string_eq, is_some,
  if◌then◌else◌, map, select, save,
}
use Prim.Native.String.{◌++◌ as append}
use summer_intern.Model.{Db, Time, WorkerState, StateKey, state_key_eq, SourceSnapshot}
use summer_intern.Operations.{lock_state, state_of}
use summer_intern.Sources.{Claim, reserve, owned, snapshot_key}
use summer_intern.Preferences.Matching.{is_empty}
use summer_intern.Collection.Items.{Item, Tracker, Rendering, Applied, backfill, apply_items}
use summer_intern.Collection.Missing.{is_tracked, miss_each, enqueue_each}

-- What `scrape_open_programmes` and the checks make of the source's answer: an error, or the items
-- of a snapshot, whether it is complete, and its JSON text.
pub data Acquired : Type 0 where
  broken : String → Acquired
  snapshot_of : List Item → Bool → String → Acquired

-- What the world decides for a tracker: the new lease token, the times, what others commit during
-- the request, its answer, and an error of the database before the claim or after the request.
pub record Collector : Type 0 where
  pub token : String
  pub reserved_at : Time
  pub reserve_error : Option String
  pub meanwhile : Db → Db
  pub acquired : Acquired
  pub apply_error : Option String
  pub applied_at : Time

abbrev pub save_snapshot : SourceSnapshot → Db → Db
save_snapshot s db = record db { source_snapshots = save snapshot_key s db.source_snapshots }

abbrev pub save_state : WorkerState → Db → Db
save_state s db = record db { worker_states = save (λ (w : WorkerState). w.key) s db.worker_states }

abbrev pub mark_state : (WorkerState → WorkerState) → Option WorkerState → Db → Db
mark_state mark none db = db
mark_state mark (some s) db = save_state (mark s) db

-- `lock_state(db, key)` and the write of the row's columns.
abbrev pub write_state : StateKey → (WorkerState → WorkerState) → Db → Db
write_state key mark db =
    let locked = lock_state key db in mark_state mark (state_of key locked) locked

-- The snapshot's tables: the items, the sources that are missing, and the jobs.
unfoldable pub apply_snapshot : Rendering → Tracker → Time → List Item → Db → Applied
unfolding backfill apply_items miss_each enqueue_each
apply_snapshot rendering tracker now items db =
    let filled = backfill tracker.current db.offers db in
    let shown =
      apply_items rendering tracker now items
        (record { db = filled; changed = []; created = 0; updated = 0; closed = 0 }) in
    let open_sources = select (is_tracked rendering tracker) shown.db.offer_sources in
    let missed =
      miss_each rendering tracker (map (λ (i : Item). i.canonical_url) items) open_sources shown in
    record missed { db = enqueue_each rendering now missed.changed missed.db }

-- The counts over the trackers, and whether `claim` is bound, and to what.
pub record Totals : Type 0 where
  pub db : Db
  pub created : ℕ
  pub updated : ℕ
  pub closed : ℕ
  pub failed_trackers : ℕ
  pub claim : Option (Option Claim)

module _ (rendering : Rendering) where
  abbrev pub finish_snapshot : Time → String → SourceSnapshot → Db → Db
  finish_snapshot now payload snapshot db =
      save_snapshot
        (record snapshot {
          payload = some payload;
          updated_at = some now;
          lease_until = none;
          last_error = none;
        })
        db

  abbrev pub succeed : Time → WorkerState → WorkerState
  succeed now s = record s { last_success_at = some now; last_error = none }

  abbrev pub fail_with : String → WorkerState → WorkerState
  fail_with error s = record s { last_error = some error }

  -- The handler, with the claim that is in scope; none where reading it raises.
  abbrev pub record_failure : String → String → Option SourceSnapshot → Bool → Totals → Totals
  record_failure key error none claimed before = if claimed then before else record before {
    db = write_state (StateKey.named (append "source/" key)) (fail_with error) before.db;
    failed_trackers = before.failed_trackers + 1;
  }
  record_failure key error (some s) claimed before = record before {
    db =
        write_state (StateKey.named (append "source/" key)) (fail_with error)
          (save_snapshot (record s { lease_until = none; last_error = some error }) before.db);
    failed_trackers = before.failed_trackers + 1;
  }

  abbrev pub owned_claim : String → Option Claim → Db → Option SourceSnapshot
  owned_claim key none db = none
  owned_claim key (some claim) db = owned (append "platform/" key) claim db

  abbrev pub handle_tracker : String → String → Totals → Option Totals
  handle_tracker key error before = elim before.claim [
    | none ↦ none
    | some claim ↦
        some (record_failure key error (owned_claim key claim before.db) (is_some claim) before)
  ]

  abbrev pub apply_owned :
      Tracker
      → String
      → Collector
      → List Item
      → String
      → Claim
      → Option SourceSnapshot
      → Totals
      → Option Totals
  apply_owned tracker key world items payload claim none before = some before
  apply_owned tracker key world items payload claim (some snapshot) before =
      let locked = lock_state (StateKey.named "scrape-lock") before.db in
      let run = apply_snapshot rendering tracker world.applied_at items locked in
      some (record before {
        db =
            write_state (StateKey.named (append "source/" key)) (succeed world.applied_at)
              (finish_snapshot world.applied_at payload snapshot run.db);
        created = before.created + run.created;
        updated = before.updated + run.updated;
        closed = before.closed + run.closed;
      })

  -- After the request: an error, an incomplete snapshot and an empty one that is not known to be
  -- complete go to the handler; a claim that was replaced is left.
  abbrev pub apply_acquired :
      Tracker → String → Collector → Claim → Acquired → Totals → Option Totals
  apply_acquired tracker key world claim (broken error) before = handle_tracker key error before
  apply_acquired tracker key world claim (snapshot_of items complete payload) before =
      let snapshot = owned (append "platform/" key) claim before.db in
      elim world.apply_error [
        | some error ↦ handle_tracker key error before
        | none ↦
            if is_some snapshot && is_empty items && not complete
            then handle_tracker key "RuntimeError" before
            else apply_owned tracker key world items payload claim snapshot before
      ]

  abbrev pub after_reserve : Tracker → String → Collector → Option Claim → Totals → Option Totals
  after_reserve tracker key world none before = some before
  after_reserve tracker key world (some claim) before =
      apply_acquired tracker key world claim world.acquired
        (record before { db = world.meanwhile before.db })

  -- One tracker; none where the handler itself raises, which ends the whole run.
  unfoldable pub collect_tracker : Tracker → String → Collector → Totals → Option Totals
  unfolding reserve owned apply_snapshot lock_state state_of
  collect_tracker tracker key world before = elim world.reserve_error [
    | some error ↦ handle_tracker key error before
    | none ↦
        let reserved = reserve world.reserved_at world.token (append "platform/" key) before.db in
        after_reserve tracker key world reserved.1
          (record before { db = reserved.0; claim = some reserved.1 })
  ]

  abbrev pub collect_then : (Totals → Option Totals) → Option Totals → Option Totals
  collect_then rest none = none
  collect_then rest (some totals) = rest totals

  -- The loop, as far as the deadline allows; `claim` outlives a turn of it.
  unfoldable pub collect_all : List (Tracker × String × Collector) → Totals → Option Totals
  unfolding collect_tracker
  collect_all [] before = some before
  collect_all ((tracker, key, world) ∷ rest) before =
      collect_then (collect_all rest) (collect_tracker tracker key world before)

abbrev pub scrape_all : Rendering → List (Tracker × String × Collector) → Db → Option Totals
scrape_all rendering trackers db =
    collect_all rendering trackers
      (record { db = db; created = 0; updated = 0; closed = 0; failed_trackers = 0; claim = none })
