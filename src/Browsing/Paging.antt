-- ===== src/Browsing/Paging.antt =====
-- trackr_app/opportunities.py: the pages of `browse_opportunities` hold the cards in order.
use summer_intern.Prelude.{
  ℕ, zero, suc, ◌+◌, ◌-◌, ◌*◌, ◌≡◌, ◌≤◌, refl, String, Bool, Option, List, [], ◌∷◌, ◌++◌, ◌∙◌, sym,
  ap, take, drop, length, max, min, arith,
}
use summer_intern.Model.{Db, Offer, Preference, Date}
use summer_intern.Browsing.{
  Card, Filters, page_count, page_cards, cards_of, sorted_cards, browse_opportunities,
}

module _ {A : Type 0} where
  take_nil : (n : ℕ) → take {A = A} n [] ≡ []
  take_nil zero = refl
  take_nil (suc n) = refl

  take_add : (m n : ℕ) (xs : List A) → take m xs ++ take n (drop m xs) ≡ take (m + n) xs
  take_add zero n xs = ap (λ k. take k xs) (omega arith)
  take_add (suc m) n [] = take_nil n ∙ sym (take_nil (suc m + n))
  take_add (suc m) n (x ∷ xs) =
      let summed : suc (m + n) ≡ suc m + n = omega arith in
      ap (λ ys. x ∷ ys) (take_add m n xs) ∙ ap (λ k. take k (x ∷ xs)) summed

  take_all : (n : ℕ) (xs : List A) → length xs ≤ n → take n xs ≡ xs
  take_all zero [] h = refl
  take_all (suc n) [] h = refl
  take_all zero (x ∷ xs) h = absurd (omega (arith, h))
  take_all (suc n) (x ∷ xs) h = ap (λ ys. x ∷ ys) (take_all n xs (omega (arith, h)))

-- The pages 1 to `n`, one after the other.
unfoldable pub first_pages : ℕ → (ℕ → List Card) → List Card
first_pages zero page = []
first_pages (suc n) page = first_pages n page ++ page (suc n)

first_pages-take :
    (n : ℕ) (cards : List Card)
    → first_pages n (λ page. page_cards page cards) ≡ take (n * 20) cards
unfolding first_pages
first_pages-take zero cards = refl
first_pages-take (suc n) cards =
    let skipped : (suc n - 1) * 20 ≡ n * 20 = omega arith in
    let summed : n * 20 + 20 ≡ suc n * 20 = omega arith in
    ap (λ xs. xs ++ page_cards (suc n) cards) (first_pages-take n cards)
    ∙ ap (λ k. take (n * 20) cards ++ take 20 (drop k cards)) skipped
    ∙ take_add (n * 20) 20 cards
    ∙ ap (λ k. take k cards) summed

enough : (total : ℕ) → total ≤ page_count total * 20
enough total = ground arith

module _ (season : String) (today : Date) (mentions : String → Offer → Bool)
    (preference : Option Preference) (history : Bool) (filters : Filters) (closing : Bool)
    (offers : List Offer) (db : Db) where
  abbrev feed_cards : ℕ → List Card
  feed_cards page =
      (browse_opportunities season today mentions preference page history filters closing offers
        db).cards

  abbrev all_cards : List Card
  all_cards =
      sorted_cards closing (cards_of season today mentions preference history filters offers db)

  feed_cards_at :
      (page : ℕ)
      → 1 ≤ page
      → page ≤ page_count (length all_cards)
      → feed_cards page ≡ page_cards page all_cards
  unfolding browse_opportunities
  feed_cards_at page h k =
      let clamped : max 1 (min page (page_count (length all_cards))) ≡ page =
        ground (arith, h, k) in
      ap (λ n. page_cards n all_cards) clamped

  pages-feed :
      (n : ℕ)
      → n ≤ page_count (length all_cards)
      → first_pages n feed_cards ≡ first_pages n (λ page. page_cards page all_cards)
  unfolding first_pages
  pages-feed zero h = refl
  pages-feed (suc n) h =
      ap (λ xs. xs ++ feed_cards (suc n)) (pages-feed n (omega (arith, h)))
      ∙ ap (λ xs. first_pages n (λ page. page_cards page all_cards) ++ xs)
          (feed_cards_at (suc n) (omega arith) h)

-- The pages of a browse, from the first to the last that it counts, show every card that the filters
-- leave, once and in the order that was asked for.
pub browse_opportunities_pages :
    (season : String) (today : Date) (mentions : String → Offer → Bool)
    (preference : Option Preference) (page : ℕ) (history : Bool) (filters : Filters)
    (closing : Bool) (offers : List Offer) (db : Db)
    → first_pages
        (browse_opportunities season today mentions preference page history filters closing offers
          db).pages
        (λ n.
          (browse_opportunities season today mentions preference n history filters closing offers
            db).cards)
      ≡ sorted_cards closing (cards_of season today mentions preference history filters offers db)
unfolding browse_opportunities
browse_opportunities_pages season today mentions preference page history filters closing offers db =
    let cards =
      sorted_cards closing (cards_of season today mentions preference history filters offers db) in
    let pages = page_count (length cards) in
    pages-feed season today mentions preference history filters closing offers db pages
      (omega arith)
    ∙ first_pages-take pages cards
    ∙ take_all (pages * 20) cards (enough (length cards))
