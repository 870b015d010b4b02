-- ===== src/Workers/Groups.antt =====
-- trackr_app/workers.py: the rows that a group claims of those that fit.
use summer_intern.Prelude.{
  ℕ, ◌≡◌, inl, inr, ap, Bool, true, some, List, [], ◌∷◌, ◌==◌, nat_eq, contains, map, arith,
  Bool-cases, All, All-weaken,
}
use summer_intern.Model.{Db, Time, Delivery}
use summer_intern.Preferences.Reconcile.{delivery_id, save_delivery, cancel}
use summer_intern.Workers.Claims.{claimed_alert, claim_each, eligible_each}
use summer_intern.Workers.Rows.{row, IsRowAt, IsClaimOf, claim_each-Holds, eligible_each-spares}

eligible_each-All :
    (Q : Delivery → Type 0) (fits : Delivery → Bool) (ds : List Delivery) (db : Db)
    → All Q ds
    → All (λ d. Q d × (fits d ≡ true)) (eligible_each fits ds db).0
unfolding eligible_each
eligible_each-All Q fits [] db h = tt
eligible_each-All Q fits (d ∷ ds) db h = elim (Bool-cases (fits d)) [
  | inl wanted ↦ rw wanted ((h.0, wanted), eligible_each-All Q fits ds db h.1)
  | inr unwanted ↦ rw unwanted (eligible_each-All Q fits ds (save_delivery (cancel d) db) h.1)
]

-- A row that fits is among those that are left.
pub eligible_each-keeps :
    (fits : Delivery → Bool) (id : ℕ) (r : Delivery) (ds : List Delivery) (db : Db)
    → fits r ≡ true
    → All (IsRowAt id r) ds
    → contains (map delivery_id ds) id ≡ true
    → contains (map delivery_id (eligible_each fits ds db).0) id ≡ true
unfolding eligible_each
eligible_each-keeps fits id r [] db fit only inside = cc
eligible_each-keeps fits id r (d ∷ ds) db fit only inside = elim (Bool-cases (fits d)) [
  | inl wanted ↦ rw wanted (ground (arith, inside, eligible_each-keeps fits id r ds db fit only.1))
  | inr unwanted ↦ rw unwanted (
      eligible_each-keeps fits id r ds (save_delivery (cancel d) db) fit only.1
        (elim (Bool-cases (d.id == id)) [
          | inl same ↦ absurd (cc (ap fits (only.0 (ground (arith, same)))))
          | inr other ↦ ground (arith, inside, other)
        ]))
]

abbrev pub IsStored : Db → Delivery → Type 0
IsStored db d = row d.id db ≡ some d

pub stored_at :
    (db : Db) (d : Delivery) (ds : List Delivery)
    → IsStored db d
    → All (IsStored db) ds
    → All (IsRowAt d.id d) ds
stored_at db d ds there all =
    All-weaken (IsStored db) (IsRowAt d.id d) ds
      (λ e found same. ground (arith, ap (λ n. row n db) same, found, there)) all

-- The rows that a group claims: each stands in the state with the claims, fits, and had the
-- property that a claim keeps.
pub claim_eligible-Holds :
    (Q : Delivery → Type 0) (fits : Delivery → Bool) (now : Time) (ds : List Delivery) (db : Db)
    → ((r : Delivery) → Q r → Q (claimed_alert now r))
    → ((r : Delivery) → fits r ≡ true → fits (claimed_alert now r) ≡ true)
    → All (λ d. IsStored db d × Q d) ds
    → (let eligible = eligible_each fits ds db in
        let group = claim_each now eligible.0 eligible.1 in
        All
          (λ r. (row r.id group.1 ≡ some r) × IsClaimOf (λ s. Q s × (fits s ≡ true)) now r)
          group.0)
claim_eligible-Holds Q fits now ds db keeps fitting all =
    let stored =
      All-weaken (λ (d : Delivery). IsStored db d × Q d) (IsStored db) ds (λ d h. h.0) all in
    claim_each-Holds (λ s. Q s × (fits s ≡ true)) now (eligible_each fits ds db).0
      (eligible_each fits ds db).1 (λ r h. (keeps r h.0, fitting r h.1))
      (All-weaken (λ (d : Delivery). (IsStored db d × Q d) × (fits d ≡ true))
        (λ (d : Delivery).
          (r : Delivery) → row d.id (eligible_each fits ds db).1 ≡ some r → Q r × (fits r ≡ true))
        (eligible_each fits ds db).0
        (λ d h r found.
          let spared =
            eligible_each-spares fits d.id d ds db h.1 (stored_at db d ds h.0.0 stored) h.0.0 in
          let same : r ≡ d = ground (arith, found, spared) in rw same (h.0.1, h.1))
        (eligible_each-All (λ d. IsStored db d × Q d) fits ds db all))
