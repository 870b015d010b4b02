-- ===== src/Durable/Pages.antt =====
-- The pages that `match_batch` of trackr_app/durable.py reads: identities above a cursor, in order.
use summer_intern.Prelude.{
  ℕ, zero, suc, ◌≡◌, ◌≢◌, ◌≤◌, ◌<◌, ◌⊎◌, inl, inr, refl, Bool, true, ◌&&◌, ◌||◌, List, [], ◌∷◌,
  ◌==◌, nat_eq, leb, ltb, take, select, All, insert_by, sort_by, contains, arith, nat_beq_iff,
  Bool-cases,
}
use summer_intern.Durable.Batch.{next_ids, last_or}

abbrev by_id : ℕ → ℕ
by_id n = n

abbrev IsSorted : List ℕ → Type 0
IsSorted [] = Unit
IsSorted (n ∷ ns) = All (λ m. n ≤ m) ns × IsSorted ns

contains-select :
    (p : ℕ → Bool) (ids : List ℕ) (id : ℕ) → contains (select p ids) id ≡ (contains ids id && p id)
contains-select p [] id = refl
contains-select p (n ∷ ns) id = ground (arith, contains-select p ns id, nat_beq_iff n id)

contains-insert_by :
    (n : ℕ) (ns : List ℕ) (id : ℕ)
    → contains (insert_by by_id n ns) id ≡ (n == id || contains ns id)
contains-insert_by n [] id = refl
contains-insert_by n (m ∷ ms) id = ground (arith, contains-insert_by n ms id)

contains-sort_by : (ids : List ℕ) (id : ℕ) → contains (sort_by by_id ids) id ≡ contains ids id
contains-sort_by [] id = refl
contains-sort_by (n ∷ ns) id =
    rw (contains-insert_by n (sort_by by_id ns) id) (rw (contains-sort_by ns id) refl)

All-le : (n m : ℕ) (ns : List ℕ) → n ≤ m → All (λ k. m ≤ k) ns → All (λ k. n ≤ k) ns
All-le n m [] le h = tt
All-le n m (k ∷ ks) le h = (omega (arith, h.0), All-le n m ks le h.1)

All-insert_by :
    (n m : ℕ) (ns : List ℕ) → n ≤ m → All (λ k. n ≤ k) ns → All (λ k. n ≤ k) (insert_by by_id m ns)
All-insert_by n m [] le h = (le, tt)
All-insert_by n m (k ∷ ks) le h = ground (arith, All-insert_by n m ks le h.1)

insert_by-IsSorted : (n : ℕ) (ns : List ℕ) → IsSorted ns → IsSorted (insert_by by_id n ns)
insert_by-IsSorted n [] h = (tt, tt)
insert_by-IsSorted n (m ∷ ms) h = elim (Bool-cases (leb n m)) [
  | inl le ↦ rw le ((ground arith, All-le n m ms (ground arith) h.0), h)
  | inr gt ↦ rw gt (All-insert_by m n ms (ground arith) h.0, insert_by-IsSorted n ms h.1)
]

sort_by-IsSorted : (ns : List ℕ) → IsSorted (sort_by by_id ns)
sort_by-IsSorted [] = tt
sort_by-IsSorted (n ∷ ns) = insert_by-IsSorted n (sort_by by_id ns) (sort_by-IsSorted ns)

All-contains : (n : ℕ) (ns : List ℕ) (id : ℕ) → All (λ m. n ≤ m) ns → contains ns id ≡ true → n ≤ id
All-contains n [] id h there = absurd (cc)
All-contains n (m ∷ ms) id h there = ground (arith, All-contains n ms id h.1, nat_beq_iff m id)

-- An element of a sorted list is in the page, or after all of the page.
take-sorted :
    (n : ℕ) (ns : List ℕ) (id : ℕ)
    → IsSorted ns
    → contains ns id ≡ true
    → (contains (take n ns) id ≡ true) ⊎ All (λ m. m < id) (take n ns)
take-sorted zero ns id h there = inr tt
take-sorted (suc n) [] id h there = absurd (cc)
take-sorted (suc n) (m ∷ ms) id h there = elim (Bool-cases (m == id)) [
  | inl same ↦ inl (rw same refl)
  | inr differs ↦
      let later : contains ms id ≡ true = (cc (rw (differs) at there)) in
      elim (take-sorted n ms id h.1 later) [
        | inl found ↦ inl (rw (differs, found) refl)
        | inr before ↦ inr (ground (arith, All-contains m ms id h.0 later), before)
      ]
]

pub All-last : (P : ℕ → Type 0) (n : ℕ) (ns : List ℕ) → P n → All P ns → P (last_or n ns)
All-last P n [] p h = p
All-last P n (m ∷ ms) p h = All-last P m ms h.0 h.1

pub contains-last : (n : ℕ) (ns : List ℕ) → (n == last_or n ns || contains ns (last_or n ns)) ≡ true
contains-last n [] = ground (arith, nat_beq_iff n n)
contains-last n (m ∷ ms) = ground (arith, contains-last m ms)

contains-take :
    (n : ℕ) (ns : List ℕ) (id : ℕ) → contains (take n ns) id ≡ true → contains ns id ≡ true
contains-take zero ns id h = absurd (cc)
contains-take (suc n) [] id h = absurd (cc)
contains-take (suc n) (m ∷ ms) id h = ground (arith, contains-take n ms id)

All-take-select :
    (cursor n : ℕ) (ns ids : List ℕ)
    → ((id : ℕ) → contains ns id ≡ true → cursor < id)
    → All (λ m. cursor < m) (take n ns)
All-take-select cursor zero ns ids h = tt
All-take-select cursor (suc n) [] ids h = tt
All-take-select cursor (suc n) (m ∷ ms) ids h = (
  h m (ground (arith, nat_beq_iff m m)),
  All-take-select cursor n ms ids (λ id there. h id (ground (arith, there))),
)

in_order :
    (cursor : ℕ) (ids : List ℕ) (id : ℕ)
    → contains (sort_by by_id (select (λ n. ltb cursor n) ids)) id
      ≡ (contains ids id && ltb cursor id)
in_order cursor ids id =
    rw (contains-sort_by (select (λ n. ltb cursor n) ids) id)
      (contains-select (λ n. ltb cursor n) ids id)

-- A page stands above its cursor.
pub next_ids-above : (cursor : ℕ) (ids : List ℕ) → All (λ m. cursor < m) (next_ids cursor ids)
unfolding next_ids
next_ids-above cursor ids =
    All-take-select cursor 100 (sort_by by_id (select (λ n. ltb cursor n) ids)) ids
      (λ id there. ground (arith, in_order cursor ids id, there))

-- What a page holds is in the table.
pub next_ids-contains :
    (cursor : ℕ) (ids : List ℕ) (id : ℕ)
    → contains (next_ids cursor ids) id ≡ true
    → contains ids id ≡ true
unfolding next_ids
next_ids-contains cursor ids id h =
    let there = contains-take 100 (sort_by by_id (select (λ n. ltb cursor n) ids)) id h in
    ground (arith, in_order cursor ids id, there)

-- An identity above the cursor is on the page, or after all of the page.
pub next_ids-split :
    (cursor : ℕ) (ids : List ℕ) (id : ℕ)
    → contains ids id ≡ true
    → cursor < id
    → (contains (next_ids cursor ids) id ≡ true) ⊎ All (λ m. m < id) (next_ids cursor ids)
unfolding next_ids
next_ids-split cursor ids id there above =
    take-sorted 100 (sort_by by_id (select (λ n. ltb cursor n) ids)) id
      (sort_by-IsSorted (select (λ n. ltb cursor n) ids)) (ground (arith, in_order cursor ids id))

take-nonempty : (n : ℕ) (ns : List ℕ) (id : ℕ) → contains ns id ≡ true → take (suc n) ns ≢ []
take-nonempty n [] id there = absurd (cc)
take-nonempty n (m ∷ ms) id there = λ e. cc

pub next_ids-nonempty :
    (cursor : ℕ) (ids : List ℕ) (id : ℕ)
    → contains ids id ≡ true
    → cursor < id
    → next_ids cursor ids ≢ []
unfolding next_ids
next_ids-nonempty cursor ids id there above =
    take-nonempty 99 (sort_by by_id (select (λ n. ltb cursor n) ids)) id
      (ground (arith, in_order cursor ids id))
