-- ===== src/Sources.antt =====
-- trackr_app/sources.py: the lease of a source's snapshot.
pub mod Fencing
use summer_intern.Prelude.{
  ℕ, ◌+◌, Bool, true, false, ◌&&◌, Option, none, some, List, String, ◌==◌, nat_eq, string_eq, ltb,
  opt_beq, if◌then◌else◌, find, save, insert_new,
}
use summer_intern.Model.{Db, Time, minutes, SourceSnapshot}

-- (generation, lease token).
abbrev pub Claim : Type 0
Claim = ℕ × String

abbrev pub snapshot_key : SourceSnapshot → String
snapshot_key s = s.key

abbrev pub new_snapshot : String → SourceSnapshot
new_snapshot key = record {
  key = key;
  generation = 0;
  lease_token = none;
  lease_until = none;
  payload = none;
  updated_at = none;
  last_error = none;
}

abbrev pub is_leased : Time → Option Time → Bool
is_leased now none = false
is_leased now (some t) = ltb now t

abbrev pub lease_snapshot : Time → String → SourceSnapshot → SourceSnapshot
lease_snapshot now token s = record s {
  generation = s.generation + 1;
  lease_token = some token;
  lease_until = some (now + minutes 5);
}

-- `reserve`, with the new token.
unfoldable pub reserve : Time → String → String → Db → Db × Option Claim
reserve now token key db =
    let rows = insert_new snapshot_key (new_snapshot key) db.source_snapshots in
    elim (find snapshot_key key rows) [
      | none ↦ (record db { source_snapshots = rows }, none)
      | some s ↦
          if is_leased now s.lease_until then (record db { source_snapshots = rows }, none) else (
            record db { source_snapshots = save snapshot_key (lease_snapshot now token s) rows },
            some (s.generation + 1, token),
          )
    ]

-- `owned`.
unfoldable pub owned : String → Claim → Db → Option SourceSnapshot
owned key claim db = elim (find snapshot_key key db.source_snapshots) [
  | none ↦ none
  | some s ↦ if s.generation == claim.0 && opt_beq s.lease_token claim.1 then some s else none
]
