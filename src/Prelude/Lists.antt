-- ===== src/Prelude/Lists.antt =====
-- Lists measured by native numbers, and the tests and predicates over lists that the parts share.
use Prim.Native.Nat.{ℕ, zero, suc, ◌+◌, ◌≤◌}
use mathlib.Core.Path.{◌≡◌}
use mathlib.Core.Bool.{Bool, true, false, ◌&&◌, ◌||◌}
use mathlib.Core.List.{List, [], ◌∷◌, ◌++◌, map}
use native.Mathlib.Omega.{arith}
use summer_intern.Prelude.Tests.{Eq, ◌==◌, leb, if◌then◌else◌}

module _ {ℓ} {A : Type ℓ} where
  abbrev pub length : List A → ℕ
  length [] = 0
  length (x ∷ xs) = suc (length xs)

  abbrev pub take : ℕ → List A → List A
  take zero xs = []
  take (suc n) [] = []
  take (suc n) (x ∷ xs) = x ∷ take n xs

  abbrev pub drop : ℕ → List A → List A
  drop zero xs = xs
  drop (suc n) [] = []
  drop (suc n) (x ∷ xs) = drop n xs

  -- A comprehension's `if`.
  abbrev pub select : (A → Bool) → List A → List A
  select p [] = []
  select p (x ∷ xs) = if p x then x ∷ select p xs else select p xs

  -- `any(... for x in xs)` and `all(... for x in xs)`.
  abbrev pub any : (A → Bool) → List A → Bool
  any p [] = false
  any p (x ∷ xs) = p x || any p xs

  abbrev pub all : (A → Bool) → List A → Bool
  all p [] = true
  all p (x ∷ xs) = p x && all p xs

  abbrev pub All {κ} : (A → Type κ) → List A → Type κ
  All Q [] = Unit
  All Q (a ∷ rest) = Q a × All Q rest

  -- A stable sort by an integer key: `ORDER BY`, `sorted(key=...)`.
  abbrev pub insert_by : (A → ℕ) → A → List A → List A
  insert_by key x [] = x ∷ []
  insert_by key x (y ∷ ys) = if leb (key x) (key y) then x ∷ y ∷ ys else y ∷ insert_by key x ys

  abbrev pub sort_by : (A → ℕ) → List A → List A
  sort_by key [] = []
  sort_by key (x ∷ xs) = insert_by key x (sort_by key xs)

  pub length-append : (xs ys : List A) → length (xs ++ ys) ≡ length xs + length ys
  length-append [] ys = omega arith
  length-append (x ∷ xs) ys = omega (arith, length-append xs ys)

  pub length-take-le : (n : ℕ) (xs : List A) → length (take n xs) ≤ n
  length-take-le zero xs = omega arith
  length-take-le (suc n) [] = omega arith
  length-take-le (suc n) (x ∷ xs) = omega (arith, length-take-le n xs)

  pub length-select-le : (p : A → Bool) (xs : List A) → length (select p xs) ≤ length xs
  length-select-le p [] = omega arith
  length-select-le p (x ∷ xs) = ground (arith, length-select-le p xs)

  pub All-append {κ} :
      (Q : A → Type κ) (front back : List A) → All Q front → All Q back → All Q (front ++ back)
  All-append Q [] back before after = after
  All-append Q (a ∷ front) back before after = (before.0, All-append Q front back before.1 after)

  pub All-select {κ} :
      (Q : A → Type κ) (p : A → Bool) (xs : List A) → All Q xs → All Q (select p xs)
  All-select Q p [] h = tt
  All-select Q p (x ∷ xs) h = ground (arith, All-select Q p xs h.1)

  -- What a selection leaves passes its test.
  pub select-All : (p : A → Bool) (xs : List A) → All (λ x. p x ≡ true) (select p xs)
  select-All p [] = tt
  select-All p (x ∷ xs) = ground (arith, select-All p xs)

  pub All-take {κ} : (Q : A → Type κ) (n : ℕ) (xs : List A) → All Q xs → All Q (take n xs)
  All-take Q zero xs h = tt
  All-take Q (suc n) [] h = tt
  All-take Q (suc n) (x ∷ xs) h = (h.0, All-take Q n xs h.1)

  All-insert_by {κ} :
      (Q : A → Type κ) (key : A → ℕ) (x : A) (xs : List A)
      → Q x
      → All Q xs
      → All Q (insert_by key x xs)
  All-insert_by Q key x [] p h = (p, tt)
  All-insert_by Q key x (y ∷ ys) p h = ground (arith, All-insert_by Q key x ys p h.1)

  pub All-sort_by {κ} :
      (Q : A → Type κ) (key : A → ℕ) (xs : List A) → All Q xs → All Q (sort_by key xs)
  All-sort_by Q key [] h = tt
  All-sort_by Q key (x ∷ xs) h =
      All-insert_by Q key x (sort_by key xs) h.0 (All-sort_by Q key xs h.1)

  pub All-weaken {κ μ} :
      (Q : A → Type κ) (P : A → Type μ) (xs : List A) → ((x : A) → Q x → P x) → All Q xs → All P xs
  All-weaken Q P [] f h = tt
  All-weaken Q P (x ∷ xs) f h = (f x h.0, All-weaken Q P xs f h.1)

  pub All-both {κ μ} :
      (Q : A → Type κ) (P : A → Type μ) (xs : List A)
      → All Q xs
      → All P xs
      → All (λ x. Q x × P x) xs
  All-both Q P [] h k = tt
  All-both Q P (x ∷ xs) h k = ((h.0, k.0), All-both Q P xs h.1 k.1)

module _ {ℓ} {A : Type ℓ} ⦃e : Eq A⦄ where
  -- `a in xs`.
  abbrev pub contains : List A → A → Bool
  contains [] key = false
  contains (found ∷ rest) key = found == key || contains rest key

pub All-map {ℓ μ κ} :
    {A : Type ℓ} {B : Type μ} (f : B → A) (Q : A → Type κ) (xs : List B)
    → All (λ x. Q (f x)) xs
    → All Q (map f xs)
All-map f Q [] h = tt
All-map f Q (x ∷ xs) h = (h.0, All-map f Q xs h.1)
