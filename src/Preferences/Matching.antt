-- ===== src/Preferences/Matching.antt =====
-- trackr_app/preferences.py, `offer_matches`, `offer_is_open` and `matching_query`. The season is
-- the setting of that name, and `today` the date of the clock.
use summer_intern.Prelude.{
  Bool, true, false, not, ◌&&◌, ◌||◌, Option, none, some, List, [], ◌∷◌, String, ◌==◌, nat_eq,
  string_eq, if◌then◌else◌, contains, any, select, leb,
}
use summer_intern.Model.{Db, Date, Preference, Offer, OfferSource}
use summer_intern.Common.Dates.{dates_are_open}

abbrev pub off_cycle : String
off_cycle = "off-cycle"

-- `offer.sources`.
unfoldable pub sources_of : Offer → Db → List OfferSource
sources_of offer db = select (λ (s : OfferSource). s.offer_id == offer.id) db.offer_sources

abbrev pub is_empty {ℓ} : {A : Type ℓ} → List A → Bool
is_empty [] = true
is_empty (_ ∷ _) = false

-- `start_term in terms`, where None is in no list of texts.
abbrev pub term_in : List String → Option String → Bool
term_in terms none = false
term_in terms (some t) = contains terms t

-- The conditions on the columns that an offer and a source share.
unfoldable pub in_scope :
    Date → Preference → String → String → Option String → Option Date → Option Date → Bool
unfolding dates_are_open
in_scope today p region programme_type start_term opening closing =
    contains p.regions region
    && contains p.program_types programme_type
    && dates_are_open opening closing today
    && (not (programme_type == off_cycle)
        || is_empty p.start_terms
        || term_in p.start_terms start_term)

module _ (season : String) (today : Date) where
  abbrev pub source_is_current : OfferSource → Bool
  source_is_current s = s.is_open && s.season == season

  abbrev pub source_is_open : OfferSource → Bool
  source_is_open s = source_is_current s && dates_are_open s.opening_date s.closing_date today

  abbrev pub source_matches : Preference → OfferSource → Bool
  source_matches p s =
      source_is_current s
      && in_scope today p s.region s.programme_type s.start_term s.opening_date s.closing_date

  abbrev pub offer_in_scope : Preference → Offer → Bool
  offer_in_scope p o =
      in_scope today p o.region o.programme_type o.start_term o.opening_date o.closing_date

  -- An offer without sources stands for itself.
  unfoldable pub offer_matches : Offer → Preference → Db → Bool
  unfolding in_scope sources_of
  offer_matches o p db =
      if is_empty (sources_of o db)
      then offer_in_scope p o
      else any (source_matches p) (sources_of o db)

  unfoldable pub offer_is_open : Offer → Db → Bool
  unfolding sources_of
  offer_is_open o db =
      if is_empty (sources_of o db)
      then o.is_open && dates_are_open o.opening_date o.closing_date today
      else o.is_open && any source_is_open (sources_of o db)

  -- The predicates of `scope(model)` in `matching_query`; a comparison with NULL is not true.
  unfoldable pub sql_scope :
      Preference → Bool → String → String → Option String → Option Date → Option Date → Bool
  sql_scope p is_open region programme_type start_term opening closing =
      contains p.regions region
      && contains p.program_types programme_type
      && is_open
      && (elim opening [ none ↦ true | some d ↦ leb d today ])
      && (elim closing [ none ↦ true | some d ↦ leb today d ])
      && (if is_empty p.start_terms
          then true
          else not (programme_type == off_cycle) || term_in p.start_terms start_term)

  -- The WHERE clause of `matching_query`, for one offer.
  unfoldable pub query_selects : Preference → Db → Offer → Bool
  unfolding sql_scope sources_of
  query_selects p db o =
      o.is_open
      && (any
            (λ (s : OfferSource).
              s.season == season
              && sql_scope p s.is_open s.region s.programme_type s.start_term s.opening_date
                  s.closing_date)
            (sources_of o db)
          || is_empty (sources_of o db)
            && sql_scope p o.is_open o.region o.programme_type o.start_term o.opening_date
                o.closing_date)

  -- `matching_offers`; the table is in the order of its identities.
  unfoldable pub matching_offers : Preference → Db → List Offer
  unfolding query_selects
  matching_offers p db = select (query_selects p db) db.offers
