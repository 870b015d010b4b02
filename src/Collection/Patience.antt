-- ===== src/Collection/Patience.antt =====
-- trackr_app/scraper.py: which sources of offers a snapshot may close.
use summer_intern.Prelude.{◌⊎◌, ◌≡◌, ◌≤◌, true, false, List, [], ◌∷◌, nat_eq, string_eq, All}
use summer_intern.Model.{Db, Offer, OfferSource}
use summer_intern.Preferences.Matching.{sources_of, is_empty}
use summer_intern.Collection.Items.{Tracker}
use summer_intern.Collection.Missing.{missed_source}

-- A closed source was missed by two collections in a row.
abbrev pub IsPatient : OfferSource → Type 0
IsPatient s = s.is_open ≡ false → 2 ≤ s.missing_collections

abbrev pub IsPatientOffer : Offer → Type 0
IsPatientOffer o = o.is_open ≡ false → 2 ≤ o.missing_collections

abbrev pub ArePatient : Db → Type 0
ArePatient db = All IsPatient db.offer_sources

-- An offer without sources is closed only after two misses in a row.
abbrev pub IsPatientBare : Db → Offer → Type 0
IsPatientBare db o = is_empty (sources_of o db) ≡ true → IsPatientOffer o

-- A source that the snapshot shows: it is open, and no collection in a row has missed it.
abbrev pub IsSeen : OfferSource → Type 0
IsSeen s = (s.is_open ≡ true) × (s.missing_collections ≡ 0)

-- The source stands in the list.
abbrev pub IsAmong : List OfferSource → OfferSource → Type 0
IsAmong [] s = ⊥
IsAmong (r ∷ rs) s = (s ≡ r) ⊎ IsAmong rs s

-- What the items leave: a source that they show, or one of before.
abbrev pub IsShownOr : List OfferSource → OfferSource → Type 0
IsShownOr before s = IsSeen s ⊎ IsAmong before s

-- A source that is closed was so before, or was open before with a miss already.
abbrev pub IsExplained : List OfferSource → OfferSource → Type 0
IsExplained before r =
    r.is_open ≡ false
    → IsAmong before r
      ⊎ ((s : OfferSource) × IsAmong before s
          × (s.is_open ≡ true)
          × (1 ≤ s.missing_collections)
          × (r ≡ missed_source s))
