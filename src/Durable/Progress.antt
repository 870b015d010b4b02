-- ===== src/Durable/Progress.antt =====
-- trackr_app/durable.py, `match_batch`: what a page of identities leaves above the cursor.
use summer_intern.Prelude.{
  ℕ, ◌≡◌, ◌≢◌, ◌≤◌, ◌<◌, ◌⊎◌, inl, inr, refl, true, ◌||◌, List, [], ◌∷◌, ◌++◌, nat_eq, leb, ltb,
  length, select, All, contains, arith, nat_beq_iff, Bool-cases,
}
use summer_intern.Durable.Batch.{next_ids, last_or}
use summer_intern.Durable.Pages.{
  All-last, contains-last, next_ids-above, next_ids-contains, next_ids-split, next_ids-nonempty,
}

abbrev pub remaining : ℕ → List ℕ → ℕ
remaining cursor ids = length (select (λ n. ltb cursor n) ids)

remaining-le : (c d : ℕ) (ids : List ℕ) → c ≤ d → remaining d ids ≤ remaining c ids
remaining-le c d [] le = omega arith
remaining-le c d (n ∷ ns) le = ground (arith, remaining-le c d ns le)

remaining-lt :
    (c d : ℕ) (ids : List ℕ) → c < d → contains ids d ≡ true → remaining d ids < remaining c ids
remaining-lt c d [] lt there = absurd (cc)
remaining-lt c d (n ∷ ns) lt there =
    ground (arith, remaining-lt c d ns lt, remaining-le c d ns, nat_beq_iff n d)

remaining-pos :
    (c : ℕ) (ids : List ℕ) (id : ℕ) → contains ids id ≡ true → c < id → 0 < remaining c ids
remaining-pos c [] id there lt = absurd (cc)
remaining-pos c (n ∷ ns) id there lt = ground (arith, remaining-pos c ns id, nat_beq_iff n id)

contains-append :
    (ms ns : List ℕ) (id : ℕ) → contains (ms ++ ns) id ≡ (contains ms id || contains ns id)
contains-append [] ns id = refl
contains-append (m ∷ ms) ns id = ground (arith, contains-append ms ns id)

-- A page that is not empty moves the cursor up to an identity of the table.
moved :
    (cursor : ℕ) (ids page : List ℕ)
    → page ≢ []
    → All (λ m. cursor < m) page
    → ((id : ℕ) → contains page id ≡ true → contains ids id ≡ true)
    → (cursor < last_or cursor page) × (contains ids (last_or cursor page) ≡ true)
moved cursor ids [] some_left above there = absurd (some_left refl)
moved cursor ids (n ∷ ns) some_left above there =
    (All-last (λ m. cursor < m) n ns above.0 above.1, there (last_or n ns) (contains-last n ns))

last-lt :
    (cursor id : ℕ) (page : List ℕ)
    → cursor < id
    → All (λ m. m < id) page
    → last_or cursor page < id
last-lt cursor id page lt h = All-last (λ m. m < id) cursor page lt h

advances_by :
    (cursor : ℕ) (ids page : List ℕ)
    → All (λ m. cursor < m) page
    → ((id : ℕ) → contains page id ≡ true → contains ids id ≡ true)
    → ((id : ℕ) → contains ids id ≡ true → cursor < id → page ≢ [])
    → ((page ≡ []) × ((id : ℕ) → contains ids id ≡ true → id ≤ cursor))
      ⊎ ((cursor < last_or cursor page)
          × (remaining (last_or cursor page) ids < remaining cursor ids))
advances_by cursor ids [] above there some_left = inl (refl, λ id h. not_above id h)
  where
    not_above : (id : ℕ) → contains ids id ≡ true → id ≤ cursor
    not_above id h = elim (Bool-cases (leb id cursor)) [
      | inl le ↦ ground (arith, le)
      | inr gt ↦ absurd (some_left id h (ground (arith, gt)) refl)
    ]
advances_by cursor ids (n ∷ ns) above there some_left =
    let on = moved cursor ids (n ∷ ns) (λ e. cc) above there in
    inr (on.0, remaining-lt cursor (last_or n ns) ids on.0 on.1)

-- A batch on a table that does not change either finds nothing above its cursor, where no identity
-- is left, or leaves fewer identities above the new cursor than were above the old one.
pub batch_advances :
    (cursor : ℕ) (ids : List ℕ)
    → ((next_ids cursor ids ≡ []) × ((id : ℕ) → contains ids id ≡ true → id ≤ cursor))
      ⊎ ((cursor < last_or cursor (next_ids cursor ids))
          × (remaining (last_or cursor (next_ids cursor ids)) ids < remaining cursor ids))
batch_advances cursor ids =
    advances_by cursor ids (next_ids cursor ids) (next_ids-above cursor ids)
      (next_ids-contains cursor ids) (next_ids-nonempty cursor ids)

-- The identities between the cursor and the last one of its batch are in the batch.
batch_covers :
    (cursor : ℕ) (ids : List ℕ) (id : ℕ)
    → contains ids id ≡ true
    → cursor < id
    → id ≤ last_or cursor (next_ids cursor ids)
    → contains (next_ids cursor ids) id ≡ true
batch_covers cursor ids id there above below = elim (next_ids-split cursor ids id there above) [
  | inl found ↦ found
  | inr before ↦ absurd (omega (arith, last-lt cursor id (next_ids cursor ids) above before, below))
]

tabulate : (P : ℕ → Type 0) (ids : List ℕ) → ((id : ℕ) → contains ids id ≡ true → P id) → All P ids
tabulate P [] f = tt
tabulate P (n ∷ ns) f =
    (f n (ground (arith, nat_beq_iff n n)), tabulate P ns (λ id h. f id (ground (arith, h))))

-- Of a table, an identity up to a new cursor was dealt with: it is not above the old one, or is in
-- the batch.
abbrev pub IsCovered : ℕ → ℕ → List ℕ → ℕ → Type 0
IsCovered cursor later batch id = (id ≤ cursor) ⊎ ((later < id) ⊎ (contains batch id ≡ true))

pub batch-Covered :
    (cursor : ℕ) (ids : List ℕ)
    → All (IsCovered cursor (last_or cursor (next_ids cursor ids)) (next_ids cursor ids)) ids
batch-Covered cursor ids =
    let later = last_or cursor (next_ids cursor ids) in
    tabulate (IsCovered cursor later (next_ids cursor ids)) ids (λ id there.
      elim (Bool-cases (leb id cursor)) [
        | inl old ↦ inl (ground (arith, old))
        | inr above ↦ elim (Bool-cases (leb id later)) [
          | inr beyond ↦ inr (inl (ground (arith, beyond)))
          | inl within ↦ inr (
              inr
                (batch_covers cursor ids id there (ground (arith, above)) (ground (arith, within))))
        ]
      ])

pub none_above :
    (cursor : ℕ) (ids : List ℕ) → next_ids cursor ids ≡ [] → All (λ id. id ≤ cursor) ids
none_above cursor ids nothing =
    tabulate (λ id. id ≤ cursor) ids
      (λ id there. elim (Bool-cases (leb id cursor)) [
        | inl old ↦ ground (arith, old)
        | inr above ↦ absurd (next_ids-nonempty cursor ids id there (ground (arith, above)) nothing)
      ])
