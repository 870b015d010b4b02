-- ===== src/Workers/Delivers.antt =====
-- trackr_app/workers.py: an undisturbed turn sends the alerts that are due.
use summer_intern.Prelude.{
  ℕ, ◌≡◌, refl, ◌∙◌, Bool, true, false, Option, none, some, List, [], ◌∷◌, ◌==◌, nat_eq, find,
  find-key, arith, map, Bool-cases, inl, inr, any, contains,
}
use summer_intern.Model.{Db, Time, Offer, Delivery}
use summer_intern.Preferences.Matching.{is_empty}
use summer_intern.Preferences.Reconcile.{delivery_id, save_delivery, cancel}
use summer_intern.Workers.Claims.{is_claimable, add_claimed, claim_each, eligible_each}
use summer_intern.Workers.Group.{add_offer, offers_of, claims_of}
use summer_intern.Workers.Rows.{row, after_claim_of, row-claim}
use summer_intern.Workers.Completion.{is_claim_of}

listed :
    (now : Time) (id : ℕ) (found : Option Delivery) (rest : List Delivery)
    → any (is_claim_of id (some now)) (claims_of rest) ≡ true
    → any (is_claim_of id (some now)) (claims_of (add_claimed now found rest)) ≡ true
listed now id none rest h = h
listed now id (some s) rest h = ground (arith, h)

-- A row that is claimed is listed with the time of its claim.
pub claim_each-lists :
    (now : Time) (id : ℕ) (r : Delivery) (ds : List Delivery) (db : Db)
    → is_claimable now r ≡ true
    → row id db ≡ some r
    → contains (map delivery_id ds) id ≡ true
    → any (is_claim_of id (some now)) (claims_of (claim_each now ds db).0) ≡ true
unfolding claim_each
claim_each-lists now id r [] db fit there inside = cc
claim_each-lists now id r (d ∷ ds) db fit there inside =
    let at : r.id ≡ id = find-key delivery_id id db.deliveries r there in
    elim (Bool-cases (d.id == id)) [
      | inl same ↦
          let e : d.id ≡ id = ground (arith, same) in rw (e, there, fit) (ground (arith, at))
      | inr other ↦
          let rest =
            claim_each-lists now id r ds (after_claim_of now d db) fit
              (row-claim now d id db ∙ ground (arith, there, other))
              (ground (arith, inside, other)) in
          listed now id (row d.id db) (claim_each now ds (after_claim_of now d db)).0 rest
    ]

pub claim_each_offers :
    (now : Time) (ds : List Delivery) (db : Db) → (claim_each now ds db).1.offers ≡ db.offers
unfolding claim_each
claim_each_offers now [] db = refl
claim_each_offers now (d ∷ ds) db = claim_each_offers now ds (after_claim_of now d db)

pub eligible_each_offers :
    (fits : Delivery → Bool) (ds : List Delivery) (db : Db)
    → (eligible_each fits ds db).1.offers ≡ db.offers
unfolding eligible_each
eligible_each_offers fits [] db = refl
eligible_each_offers fits (d ∷ ds) db = elim (Bool-cases (fits d)) [
  | inl wanted ↦ rw wanted (eligible_each_offers fits ds db)
  | inr unwanted ↦ rw unwanted (eligible_each_offers fits ds (save_delivery (cancel d) db))
]

still_offered :
    (found : Option Offer) (rest : List Offer)
    → is_empty rest ≡ false
    → is_empty (add_offer found rest) ≡ false
still_offered none rest h = h
still_offered (some o) rest h = refl

also_offered :
    (now : Time) (found : Option Delivery) (rest : List Delivery) (shown : Db)
    → is_empty (offers_of shown rest) ≡ false
    → is_empty (offers_of shown (add_claimed now found rest)) ≡ false
unfolding offers_of
also_offered now none rest shown h = h
also_offered now (some s) rest shown h = elim (Bool-cases (is_claimable now s)) [
  | inl fit ↦
      rw fit (
        still_offered (find (λ (o : Offer). o.id) s.offer_id shown.offers) (offers_of shown rest) h)
  | inr spent ↦ rw spent h
]

-- An email about a claimed row whose offer exists is about some offer.
pub claim_each-offers :
    (now : Time) (id : ℕ) (r : Delivery) (o : Offer) (ds : List Delivery) (db shown : Db)
    → is_claimable now r ≡ true
    → row id db ≡ some r
    → find (λ (f : Offer). f.id) r.offer_id shown.offers ≡ some o
    → contains (map delivery_id ds) id ≡ true
    → is_empty (offers_of shown (claim_each now ds db).0) ≡ false
unfolding claim_each offers_of
claim_each-offers now id r o [] db shown fit there known inside = cc
claim_each-offers now id r o (d ∷ ds) db shown fit there known inside =
    elim (Bool-cases (d.id == id)) [
      | inl same ↦ let e : d.id ≡ id = ground (arith, same) in rw (e, there, fit, known) refl
      | inr other ↦
          also_offered now (row d.id db) (claim_each now ds (after_claim_of now d db)).0 shown (
            claim_each-offers now id r o ds (after_claim_of now d db) shown fit
              (row-claim now d id db ∙ ground (arith, there, other)) known
              (ground (arith, inside, other)))
    ]
