-- ===== src/Prelude/Table.antt =====
-- A database table as the list of its rows in the order of insertion, with SQL's statements on it.
use Prim.Native.Nat.{ℕ, suc, max}
use mathlib.Core.Path.{◌≡◌, refl}
use mathlib.Core.Bool.{Bool, true, false, ◌&&◌}
use mathlib.Core.Option
use mathlib.Core.Option.{Option, none, some}
use mathlib.Core.List.{List, [], ◌∷◌, ◌++◌}
use native.Mathlib.Omega.{arith}
use summer_intern.Prelude.Tests.{Eq, ◌==◌, if◌then◌else◌, is_some}
use summer_intern.Prelude.Lists.{All, All-weaken}

module _ {R : Type 0} where
  -- `UPDATE ... WHERE p`, and `DELETE ... WHERE p`.
  unfoldable pub update_where : (R → Bool) → (R → R) → List R → List R
  update_where p f [] = []
  update_where p f (r ∷ rs) = (if p r then f r else r) ∷ update_where p f rs

  unfoldable pub delete_where : (R → Bool) → List R → List R
  delete_where p [] = []
  delete_where p (r ∷ rs) = let rest = delete_where p rs in if p r then rest else r ∷ rest

  -- `SELECT ... WHERE p LIMIT 1`.
  unfoldable pub first_where : (R → Bool) → List R → Option R
  first_where p [] = none
  first_where p (r ∷ rs) = if p r then some r else first_where p rs

  -- A new integer primary key.
  unfoldable pub fresh_id : (R → ℕ) → List R → ℕ
  fresh_id id [] = 1
  fresh_id id (r ∷ rs) = max (suc (id r)) (fresh_id id rs)

  pub All-update_where :
      (P : R → Type 0) (p : R → Bool) (f : R → R) (rs : List R)
      → ((r : R) → P r → p r ≡ true → P (f r))
      → All P rs
      → All P (update_where p f rs)
  unfolding update_where
  All-update_where P p f [] keep h = tt
  All-update_where P p f (r ∷ rs) keep h =
      (ground (arith, keep r h.0), All-update_where P p f rs keep h.1)

  pub All-delete_where :
      (P : R → Type 0) (p : R → Bool) (rs : List R) → All P rs → All P (delete_where p rs)
  unfolding delete_where
  All-delete_where P p [] h = tt
  All-delete_where P p (r ∷ rs) h = ground (arith, All-delete_where P p rs h.1)

  pub first_where-true :
      (p : R → Bool) (rs : List R) (r : R) → first_where p rs ≡ some r → p r ≡ true
  unfolding first_where
  first_where-true p [] r h = cc
  first_where-true p (s ∷ rs) r h = ground (arith, first_where-true p rs r)

  pub first_where-All :
      (P : R → Type 0) (p : R → Bool) (rs : List R) (r : R)
      → All P rs
      → first_where p rs ≡ some r
      → P r
  unfolding first_where
  first_where-All P p [] r h found = cc
  first_where-All P p (s ∷ rs) r h found = ground (arith, first_where-All P p rs r h.1)

  -- After an update that takes a row out of its own condition no row meets it.
  pub update_where-All :
      (p : R → Bool) (f : R → R) (rs : List R)
      → ((r : R) → p (f r) ≡ false)
      → All (λ r. p r ≡ false) (update_where p f rs)
  unfolding update_where
  update_where-All p f [] out = tt
  update_where-All p f (r ∷ rs) out = (ground (arith, out r), update_where-All p f rs out)

module _ {R K : Type 0} ⦃e : Eq K⦄ (key : R → K) where
  -- `db.get(Model, k)`.
  unfoldable pub find : K → List R → Option R
  find k [] = none
  find k (r ∷ rs) = if key r == k then some r else find k rs

  -- The flush of a changed object: its row is replaced.
  unfoldable pub save : R → List R → List R
  save r [] = []
  save r (s ∷ rs) = (if key s == key r then r else s) ∷ save r rs

  -- `INSERT ... ON CONFLICT DO NOTHING` on the primary key.
  unfoldable pub insert_new : R → List R → List R
  unfolding find
  insert_new r rs = if is_some (find (key r) rs) then rs else rs ++ r ∷ []

  pub find-save :
      (r : R) (k : K) (rs : List R)
      → find k (save r rs)
        ≡ (if key r == k then (if is_some (find k rs) then some r else none) else find k rs)
  unfolding find save
  find-save r k [] = ground arith
  find-save r k (s ∷ rs) = ground (
    arith,
    find-save r k rs,
    e.equal_iff (key s) (key r),
    e.equal_iff (key s) k,
    e.equal_iff (key r) k,
  )

  pub find-append :
      (k : K) (rs : List R) (r : R)
      → find k (rs ++ r ∷ [])
        ≡ (if is_some (find k rs) then find k rs else if key r == k then some r else none)
  unfolding find
  find-append k [] r = refl
  find-append k (s ∷ rs) r = ground (arith, find-append k rs r)

  pub find-key : (k : K) (rs : List R) (r : R) → find k rs ≡ some r → key r ≡ k
  unfolding find
  find-key k [] r h = cc
  find-key k (s ∷ rs) r h = ground (arith, find-key k rs r, e.equal_iff (key s) k)

  pub find-update_where :
      (p : R → Bool) (f : R → R) (k : K) (rs : List R)
      → ((r : R) → key (f r) ≡ key r)
      → find k (update_where p f rs) ≡ Option.map (λ r. if p r then f r else r) (find k rs)
  unfolding find update_where
  find-update_where p f k [] h = refl
  find-update_where p f k (r ∷ rs) h = ground (arith, find-update_where p f k rs h, h r)

  pub find-insert_new :
      (k : K) (r : R) (rs : List R)
      → find k (insert_new r rs)
        ≡ (if is_some (find k rs) then find k rs else if key r == k then some r else none)
  unfolding insert_new
  find-insert_new k r rs = ground (arith, find-append k rs r, e.equal_iff (key r) k)

  pub All-save : (P : R → Type 0) (r : R) (rs : List R) → P r → All P rs → All P (save r rs)
  unfolding save
  All-save P r [] p h = tt
  All-save P r (s ∷ rs) p h = (ground arith, All-save P r rs p h.1)

  pub find-All :
      (P : R → Type 0) (k : K) (rs : List R) (r : R) → All P rs → find k rs ≡ some r → P r
  unfolding find
  find-All P k [] r h found = cc
  find-All P k (s ∷ rs) r h found = ground (arith, find-All P k rs r h.1)

  -- `UPDATE ... WHERE key = k AND q`, of a row found by its key.
  pub find-update_key :
      (k other : K) (q : R → Bool) (f : R → R) (rs : List R)
      → ((r : R) → key (f r) ≡ key r)
      → find other (update_where (λ r. key r == k && q r) f rs) ≡ (
          if other == k
          then Option.map (λ r. if q r then f r else r) (find other rs)
          else find other rs)
  unfolding find update_where
  find-update_key k other q f [] h = ground arith
  find-update_key k other q f (r ∷ rs) h = ground (
    arith,
    find-update_key k other q f rs h,
    h r,
    e.equal_iff (key r) k,
    e.equal_iff (key r) other,
    e.equal_iff other k,
  )

  pub find-update_at :
      (k other : K) (f : R → R) (rs : List R)
      → ((r : R) → key (f r) ≡ key r)
      → find other (update_where (λ r. key r == k) f rs)
        ≡ (if other == k then Option.map f (find other rs) else find other rs)
  unfolding find update_where
  find-update_at k other f [] h = ground arith
  find-update_at k other f (r ∷ rs) h = ground (
    arith,
    find-update_at k other f rs h,
    h r,
    e.equal_iff (key r) k,
    e.equal_iff (key r) other,
    e.equal_iff other k,
  )

  pub find-delete_at :
      (k other : K) (rs : List R)
      → find other (delete_where (λ r. key r == k) rs)
        ≡ (if other == k then none else find other rs)
  unfolding find delete_where
  find-delete_at k other [] = ground arith
  find-delete_at k other (r ∷ rs) = ground (
    arith,
    find-delete_at k other rs,
    e.equal_iff (key r) k,
    e.equal_iff (key r) other,
    e.equal_iff other k,
  )

  -- Primary keys are unique.
  abbrev pub AreUnique : List R → Type 0
  AreUnique [] = Unit
  AreUnique (r ∷ rs) = (find (key r) rs ≡ none) × AreUnique rs

  -- A row that a condition finds is the row of its key.
  pub find-first_where :
      (p : R → Bool) (rs : List R) (r : R)
      → AreUnique rs
      → first_where p rs ≡ some r
      → find (key r) rs ≡ some r
  unfolding find first_where
  find-first_where p [] r h found = cc
  find-first_where p (s ∷ rs) r h found = ground (
    arith,
    find-first_where p rs r h.1,
    e.equal_iff (key s) (key r),
    e.equal_iff (key r) (key r),
    h.0,
  )

  pub AreUnique-save : (r : R) (rs : List R) → AreUnique rs → AreUnique (save r rs)
  unfolding find save
  AreUnique-save r [] h = tt
  AreUnique-save r (s ∷ rs) h = (
    ground
        (arith, find-save r (key s) rs, find-save r (key r) rs, e.equal_iff (key s) (key r), h.0),
    AreUnique-save r rs h.1,
  )

  -- With unique keys every row is the one that its key finds.
  pub AreUnique-rows : (rs : List R) → AreUnique rs → All (λ r. find (key r) rs ≡ some r) rs
  unfolding find
  AreUnique-rows [] h = tt
  AreUnique-rows (r ∷ rs) h = (
    ground (arith, e.equal_iff (key r) (key r)),
    All-weaken (λ s. find (key s) rs ≡ some s) (λ s. find (key s) (r ∷ rs) ≡ some s) rs
        (λ s found. ground (arith, found, e.equal_iff (key r) (key s), h.0))
        (AreUnique-rows rs h.1),
  )

  -- Columns other than the key may change.
  pub AreUnique-update_where :
      (p : R → Bool) (f : R → R) (rs : List R)
      → ((r : R) → key (f r) ≡ key r)
      → AreUnique rs
      → AreUnique (update_where p f rs)
  unfolding update_where
  AreUnique-update_where p f [] same h = tt
  AreUnique-update_where p f (r ∷ rs) same h = (
    ground (arith, same r, find-update_where p f (key r) rs same, h.0),
    AreUnique-update_where p f rs same h.1,
  )
