-- ===== src/Common/Kept.antt =====
-- trackr_common.py, `deduplicate_offers`: which offers it keeps.
use summer_intern.Prelude.{
  Bool, false, not, List, [], ◌∷◌, String, ◌==◌, string_eq, contains, map, any, ◌&&◌, ap, ◌≡◌, refl,
  inl, inr, Bool-cases, eq_iff, arith,
}
use summer_intern.Common.Urls.{Urllib}
use summer_intern.Common.Dedup.{RawOffer, offer_key, has_no_url, dedup_from, deduplicate_offers}

abbrev pub keys : Urllib → List RawOffer → List String
keys lib os = map (offer_key lib) os

abbrev pub AreDistinctOffers : Urllib → List RawOffer → Type 0
AreDistinctOffers lib [] = Unit
AreDistinctOffers lib (o ∷ os) =
    (contains (keys lib os) (offer_key lib o) ≡ false) × AreDistinctOffers lib os

-- An offer with an address has the key.
abbrev pub is_offered : Urllib → String → List RawOffer → Bool
is_offered lib k os = any (λ o. not (has_no_url lib o) && offer_key lib o == k) os

keys-dedup_from :
    (lib : Urllib) (seen : List String) (os : List RawOffer) (k : String)
    → contains (keys lib (dedup_from lib seen os)) k
      ≡ (is_offered lib k os && not (contains seen k))
unfolding dedup_from
keys-dedup_from lib seen [] k = refl
keys-dedup_from lib seen (o ∷ os) k =
    let rest = keys-dedup_from lib seen os k in
    let next = keys-dedup_from lib (offer_key lib o ∷ seen) os k in
    elim (Bool-cases (offer_key lib o == k)) [
      | inl same ↦
          let e : offer_key lib o ≡ k = ground (arith, same, eq_iff (offer_key lib o) k) in
          ground (arith, rest, next, same, ap (contains seen) e)
      | inr other ↦ ground (arith, rest, next, other)
    ]

distinct_from :
    (lib : Urllib) (seen : List String) (os : List RawOffer)
    → AreDistinctOffers lib (dedup_from lib seen os)
unfolding dedup_from
distinct_from lib seen [] = tt
distinct_from lib seen (o ∷ os) =
    let rest = distinct_from lib seen os in
    let next = distinct_from lib (offer_key lib o ∷ seen) os in
    let key = keys-dedup_from lib (offer_key lib o ∷ seen) os (offer_key lib o) in
    let self = eq_iff (offer_key lib o) (offer_key lib o) in
    elim (Bool-cases (has_no_url lib o)) [
      | inl gone ↦ rw gone rest
      | inr there ↦ elim (Bool-cases (contains seen (offer_key lib o))) [
        | inl old ↦ rw (there, old) rest
        | inr new ↦ rw (there, new) (ground (arith, key, self), next)
      ]
    ]

-- The deduplicated list has an offer under a key exactly if the collected one has an offer with a
-- canonical address under it: no programme is lost, and no offer without an address gets through.
pub deduplicate_offers-keys :
    (lib : Urllib) (os : List RawOffer) (k : String)
    → contains (keys lib (deduplicate_offers lib os)) k ≡ is_offered lib k os
unfolding deduplicate_offers
deduplicate_offers-keys lib os k = ground (arith, keys-dedup_from lib [] os k)

-- No two offers of the deduplicated list have the same key.
pub deduplicate_offers_distinct :
    (lib : Urllib) (os : List RawOffer) → AreDistinctOffers lib (deduplicate_offers lib os)
unfolding deduplicate_offers
deduplicate_offers_distinct lib os = distinct_from lib [] os
