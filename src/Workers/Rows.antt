-- ===== src/Workers/Rows.antt =====
-- trackr_app/workers.py: what the cancellations and claims of a group do to the rows.
use summer_intern.Prelude.{
  ℕ, ◌≡◌, inl, inr, refl, ap, ◌∙◌, Bool, true, false, ◌&&◌, Option, none, some, List, [], ◌∷◌, ◌==◌,
  nat_eq, if◌then◌else◌, find, contains, map, find-save, find-update_key, find-key, Option-cases,
  ◌⊎◌, update_where, arith, Bool-cases, All, All-weaken,
}
use mathlib.Core.Option
use summer_intern.Model.{Db, Time, Delivery}
use summer_intern.Preferences.Reconcile.{delivery_id, save_delivery, cancel}
use summer_intern.Workers.Claims.{
  is_claimable, claimed_alert, add_claimed, claim_each, eligible_each,
}

abbrev pub row : ℕ → Db → Option Delivery
row id db = find delivery_id id db.deliveries

-- The only row of the list with this identity is `d`.
abbrev pub IsRowAt : ℕ → Delivery → Delivery → Type 0
IsRowAt id d e = e.id ≡ id → e ≡ d

claimed_stays : (now : Time) (d : Delivery) → is_claimable now (claimed_alert now d) ≡ false
claimed_stays now d = ground arith

abbrev pub after_claim_of : Time → Delivery → Db → Db
after_claim_of now d db = record db {
  deliveries =
      update_where (λ r. delivery_id r == d.id && is_claimable now r) (claimed_alert now)
        db.deliveries;
}

pub row-claim :
    (now : Time) (d : Delivery) (id : ℕ) (db : Db)
    → row id (after_claim_of now d db) ≡ (
        if id == d.id
        then Option.map (λ r. if is_claimable now r then claimed_alert now r else r) (row id db)
        else row id db)
row-claim now d id db =
    find-update_key delivery_id d.id id (is_claimable now) (claimed_alert now) db.deliveries
      (λ r. refl)

-- A row that cannot be claimed is left as it is.
pub claim_each-spares :
    (now : Time) (id : ℕ) (r : Delivery) (ds : List Delivery) (db : Db)
    → is_claimable now r ≡ false
    → row id db ≡ some r
    → row id (claim_each now ds db).1 ≡ some r
unfolding claim_each
claim_each-spares now id r [] db spent there = there
claim_each-spares now id r (d ∷ ds) db spent there =
    claim_each-spares now id r ds (after_claim_of now d db) spent
      (row-claim now d id db ∙ ground (arith, there, spent))

add_claimed-All :
    (P : Delivery → Type 0) (now : Time) (found : Option Delivery) (rest : List Delivery)
    → ((r : Delivery) → found ≡ some r → is_claimable now r ≡ true → P (claimed_alert now r))
    → All P rest
    → All P (add_claimed now found rest)
add_claimed-All P now none rest head tail = tail
add_claimed-All P now (some r) rest head tail = elim (Bool-cases (is_claimable now r)) [
  | inl fit ↦ rw fit (head r refl fit, tail)
  | inr spent ↦ rw spent tail
]

claimed_or_same :
    (now : Time) (d : Delivery) (id : ℕ) (db : Db) (s r : Delivery)
    → row id db ≡ some s
    → row id (after_claim_of now d db) ≡ some r
    → (r ≡ s) ⊎ (r ≡ claimed_alert now s)
claimed_or_same now d id db s r there after =
    let e = row-claim now d id db in
    elim (Bool-cases (id == d.id && is_claimable now s)) [
      | inl hit ↦ inr (ground (arith, there, after, e, hit))
      | inr miss ↦ inl (ground (arith, there, after, e, miss))
    ]

none_stays :
    (now : Time) (d : Delivery) (id : ℕ) (db : Db)
    → row id db ≡ none
    → row id (after_claim_of now d db) ≡ none
none_stays now d id db gone = row-claim now d id db ∙ ground (arith, gone)

claim-keeps :
    (Q : Delivery → Type 0) (now : Time) (d : Delivery) (id : ℕ) (db : Db)
    → ((r : Delivery) → Q r → Q (claimed_alert now r))
    → ((r : Delivery) → row id db ≡ some r → Q r)
    → (r : Delivery) → row id (after_claim_of now d db) ≡ some r
    → Q r
claim-keeps Q now d id db keeps holds r after = elim (Option-cases (row id db)) [
  | inl gone ↦ absurd (cc (none_stays now d id db gone))
  | inr (s, there) ↦ elim (claimed_or_same now d id db s r there after) [
    | inl same ↦ rw same (holds s there)
    | inr next ↦ rw next (keeps s (holds s there))
  ]
]

-- A row that was claimed, from one with the property `Q`.
abbrev pub IsClaimOf : (Delivery → Type 0) → Time → Delivery → Type 0
IsClaimOf Q now r = (s : Delivery) × (r ≡ claimed_alert now s) × (is_claimable now s ≡ true) × Q s

-- Every claimed row stands in the state with the claims.
pub claim_each-Holds :
    (Q : Delivery → Type 0) (now : Time) (ds : List Delivery) (db : Db)
    → ((r : Delivery) → Q r → Q (claimed_alert now r))
    → All (λ d. (r : Delivery) → row d.id db ≡ some r → Q r) ds
    → All
        (λ r. (row r.id (claim_each now ds db).1 ≡ some r) × IsClaimOf Q now r)
        (claim_each now ds db).0
unfolding claim_each
claim_each-Holds Q now [] db keeps holds = tt
claim_each-Holds Q now (d ∷ ds) db keeps holds =
    let next = after_claim_of now d db in
    add_claimed-All (λ r. (row r.id (claim_each now (d ∷ ds) db).1 ≡ some r) × IsClaimOf Q now r)
      now (row d.id db) (claim_each now ds next).0
      (λ r there fit.
        let at : r.id ≡ d.id = find-key delivery_id d.id db.deliveries r there in
        (
          claim_each-spares now r.id (claimed_alert now r) ds next (claimed_stays now r)
              (row-claim now d r.id db ∙ rw at (ground (arith, there, fit))),
          (r, refl, fit, holds.0 r there),
        ))
      (claim_each-Holds Q now ds next keeps (
        All-weaken (λ (d' : Delivery). (r : Delivery) → row d'.id db ≡ some r → Q r)
          (λ (d' : Delivery). (r : Delivery) → row d'.id next ≡ some r → Q r) ds
          (λ d' known. claim-keeps Q now d d'.id db keeps known) holds.1))

-- The row of an identity is claimed where it can be.
pub claim_each-claims :
    (now : Time) (id : ℕ) (r : Delivery) (ds : List Delivery) (db : Db)
    → is_claimable now r ≡ true
    → row id db ≡ some r
    → contains (map delivery_id ds) id ≡ true
    → row id (claim_each now ds db).1 ≡ some (claimed_alert now r)
unfolding claim_each
claim_each-claims now id r [] db fit there inside = cc
claim_each-claims now id r (d ∷ ds) db fit there inside = elim (Bool-cases (d.id == id)) [
  | inl same ↦
      claim_each-spares now id (claimed_alert now r) ds (after_claim_of now d db)
        (claimed_stays now r) (row-claim now d id db ∙ ground (arith, there, fit, same))
  | inr other ↦
      claim_each-claims now id r ds (after_claim_of now d db) fit
        (row-claim now d id db ∙ ground (arith, there, other)) (ground (arith, inside, other))
]

-- A row that fits is not cancelled.
pub eligible_each-spares :
    (fits : Delivery → Bool) (id : ℕ) (r : Delivery) (ds : List Delivery) (db : Db)
    → fits r ≡ true
    → All (IsRowAt id r) ds
    → row id db ≡ some r
    → row id (eligible_each fits ds db).1 ≡ some r
unfolding eligible_each
eligible_each-spares fits id r [] db fit only there = there
eligible_each-spares fits id r (d ∷ ds) db fit only there = elim (Bool-cases (fits d)) [
  | inl wanted ↦ rw wanted (eligible_each-spares fits id r ds db fit only.1 there)
  | inr unwanted ↦ rw unwanted (
      eligible_each-spares fits id r ds (save_delivery (cancel d) db) fit only.1 (
        find-save delivery_id (cancel d) id db.deliveries ∙ elim (Bool-cases (d.id == id)) [
          | inl same ↦ let e : d ≡ r = only.0 (ground (arith, same)) in absurd (cc (ap fits e))
          | inr other ↦ rw other there
        ]))
]
