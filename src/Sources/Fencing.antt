-- ===== src/Sources/Fencing.antt =====
-- A claim on a source is owned until the next one, and never again.
use summer_intern.Prelude.{
  ◌+◌, ◌<◌, ◌≡◌, none, some, String, nat_eq, string_eq, eq_iff, arith, find, find-save,
  find-insert_new, find-key, insert_new, Option-cases, Bool-cases, inl, inr,
}
use summer_intern.Model.{Db, Time, minutes, SourceSnapshot}
use summer_intern.Sources.{
  Claim, snapshot_key, new_snapshot, lease_snapshot, is_leased, reserve, owned,
}

-- The row of a source, or the one that `reserve` inserts for it.
row_of : String → Db → SourceSnapshot
row_of key db = elim (find snapshot_key key db.source_snapshots) [
  | none ↦ new_snapshot key
  | some s ↦ s
]

find-row_of :
    (key : String) (db : Db)
    → find snapshot_key key (insert_new snapshot_key (new_snapshot key) db.source_snapshots)
      ≡ some (row_of key db)
unfolding row_of
find-row_of key db = rw find-insert_new (ground (arith, eq_iff key key))

key-row_of : (key : String) (db : Db) → (row_of key db).key ≡ key
unfolding row_of
key-row_of key db = elim (Option-cases (find snapshot_key key db.source_snapshots)) [
  | inl e ↦ rw (e, row_of)
  | inr (s, e) ↦ rw (e, row_of) (find-key snapshot_key key db.source_snapshots s e)
]

-- Whether a claim is given, and what it writes.
reserve_lem :
    (now : Time) (token key : String) (db : Db) (claim : Claim)
    → (reserve now token key db).1 ≡ some claim
    → (claim ≡ ((row_of key db).generation + 1, token))
      × (find snapshot_key key (reserve now token key db).0.source_snapshots
          ≡ some (lease_snapshot now token (row_of key db)))
unfolding reserve
reserve_lem now token key db claim h =
    elim (Bool-cases (is_leased now (row_of key db).lease_until)) [
      | inl taken ↦ absurd (cc (rw (find-row_of key db, reserve, taken) at h))
      | inr free ↦
          let given = rw (find-row_of key db, reserve, free) at h in
          rw (find-row_of key db, reserve, free)
            (
              ground arith,
              rw find-save
                  (rw (find-row_of key db, key-row_of key db) (ground (arith, eq_iff key key))),
            )
    ]

-- What an owned claim says of the row.
owned_lem :
    (key : String) (claim : Claim) (db : Db) (s : SourceSnapshot)
    → owned key claim db ≡ some s
    → (row_of key db ≡ s) × (s.generation ≡ claim.0)
unfolding owned row_of
owned_lem key (generation, token) db s h = ground (arith, eq_iff token token)

-- A successful claim is owned, and the claim that was owned before is fenced off.
pub reserve_fences :
    (now : Time) (token key : String) (db : Db) (claim old : Claim) (s : SourceSnapshot)
    → owned key old db ≡ some s
    → (reserve now token key db).1 ≡ some claim
    → (owned key claim (reserve now token key db).0 ≡ some (lease_snapshot now token s))
      × (owned key old (reserve now token key db).0 ≡ none)
unfolding owned
reserve_fences now token key db claim old s held given =
    let (is_claim, found) = reserve_lem now token key db claim given in
    let (row, generation) = owned_lem key old db s held in
    rw (found, is_claim, row, owned) (ground (arith, eq_iff token token))

-- While a claim's lease runs, no other worker is given one.
pub reserve_excludes :
    (now later : Time) (token token' key : String) (db : Db) (claim : Claim)
    → (reserve now token key db).1 ≡ some claim
    → later < now + minutes 5
    → (reserve later token' key (reserve now token key db).0).1 ≡ none
unfolding reserve row_of
reserve_excludes now later token token' key db claim given early =
    let after = (reserve now token key db).0 in
    let (is_claim, found) = reserve_lem now token key db claim given in
    let row : row_of key after ≡ lease_snapshot now token (row_of key db) = rw (found, row_of) in
    rw (find-row_of key after, row, reserve) (ground arith)
