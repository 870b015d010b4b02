-- ===== src/Browsing.antt =====
-- trackr_app/opportunities.py: `browse_opportunities`, the matches of an account as cards on pages. Texts
-- are compared by Python's methods, which are parameters; an order that is none of the two
-- counts as the latest first. Labels, lists of options and addresses of pages are presentation and
-- left out.
pub mod Paging
use summer_intern.Prelude.{
  ℕ, ◌+◌, ◌-◌, ◌*◌, ◌/◌, Bool, true, false, not, ◌&&◌, ◌||◌, Option, none, some, List, [], ◌∷◌,
  ◌++◌, String, ◌==◌, nat_eq, string_eq, leb, is_some, contains, if◌then◌else◌, any, map, select,
  take, drop, sort_by, length, min, max,
}
use summer_intern.Model.{Db, Date, Offer, OfferSource, Preference}
use summer_intern.Preferences.Matching.{sources_of, is_empty, off_cycle, term_in, offer_is_open}
use summer_intern.Common.Dates.{dates_are_open}

-- What a card reads of a source, or of an offer without sources, which has no season.
pub record View : Type 0 where
  pub region : String
  pub programme_type : String
  pub start_term : Option String
  pub opening_date : Option Date
  pub closing_date : Option Date
  pub is_open : Bool
  pub season : Option String

abbrev pub view_of : OfferSource → View
view_of s = record {
  region = s.region;
  programme_type = s.programme_type;
  start_term = s.start_term;
  opening_date = s.opening_date;
  closing_date = s.closing_date;
  is_open = s.is_open;
  season = some s.season;
}

abbrev pub own_view : Offer → View
own_view o = record {
  region = o.region;
  programme_type = o.programme_type;
  start_term = o.start_term;
  opening_date = o.opening_date;
  closing_date = o.closing_date;
  is_open = o.is_open;
  season = none;
}

-- `offer.sources or [offer]`.
abbrev pub views_of : Offer → List OfferSource → List View
views_of o [] = own_view o ∷ []
views_of o (s ∷ ss) = map view_of (s ∷ ss)

-- The filters of the form after `strip`; an empty one selects all.
pub record Filters : Type 0 where
  pub query : String
  pub region : String
  pub programme : String
  pub start_term : String

abbrev pub is_wanted_text : String → Option String → Bool
is_wanted_text wanted none = wanted == ""
is_wanted_text wanted (some value) = wanted == "" || value == wanted

-- `source_matches`.
abbrev pub view_matches : Filters → View → Bool
view_matches filters v =
    is_wanted_text filters.region (some v.region)
    && is_wanted_text filters.programme (some v.programme_type)
    && is_wanted_text filters.start_term v.start_term

-- A card's facts; its labels and sorted lists are presentation.
pub record Card : Type 0 where
  pub offer : Offer
  pub sources : List View
  pub is_open : Bool
  pub deadline : Option Date
  pub is_soon : Bool

pub record Feed : Type 0 where
  pub cards : List Card
  pub total : ℕ
  pub page : ℕ
  pub pages : ℕ
  pub first : ℕ
  pub last : ℕ

-- The tests of a preference on a source; there may be none.
abbrev pub is_preferred : Option Preference → View → Bool
is_preferred none v = true
is_preferred (some p) v =
    contains p.regions v.region
    && contains p.program_types v.programme_type
    && (not (v.programme_type == off_cycle)
        || is_empty p.start_terms
        || term_in p.start_terms v.start_term)

-- `min(deadlines, default=None)`.
abbrev pub sooner : Option Date → Option Date → Option Date
sooner none other = other
sooner (some d) none = some d
sooner (some d) (some e) = some (min d e)

unfoldable pub soonest : List View → Option Date
soonest [] = none
soonest (v ∷ vs) = sooner v.closing_date (soonest vs)

-- `card['deadline'] or date.max`.
abbrev pub deadline_key : Card → ℕ
deadline_key c = elim c.deadline [ none ↦ 2932896 | some d ↦ d ]

-- `sort == 'closing'`; Python's sort is stable, and the offers come with the latest first.
abbrev pub sorted_cards : Bool → List Card → List Card
sorted_cards closing cards = if closing then sort_by deadline_key cards else cards

abbrev pub page_size : ℕ
page_size = 20

abbrev pub page_count : ℕ → ℕ
page_count total = max 1 ((total + page_size - 1) / page_size)

-- The cards of a page, counted from 1.
abbrev pub page_cards : ℕ → List Card → List Card
page_cards page cards = take page_size (drop ((page - 1) * page_size) cards)

module _ (season : String) (today : Date) where
  -- `source_open`.
  abbrev pub view_is_open : View → Bool
  view_is_open v =
      v.is_open && is_wanted_season v.season && dates_are_open v.opening_date v.closing_date today
    where
      is_wanted_season : Option String → Bool
      is_wanted_season none = true
      is_wanted_season (some s) = s == season

  unfoldable pub relevant_sources : Option Preference → Bool → Offer → Db → List View
  unfolding sources_of dates_are_open
  relevant_sources preference history o db =
      let views = views_of o (sources_of o db) in
      if history then views else select (λ v. view_is_open v && is_preferred preference v) views

  abbrev pub is_soon_at : Option Date → Bool
  is_soon_at none = false
  is_soon_at (some d) = leb today d && leb d (today + 7)

  unfoldable pub opportunity_card : Offer → List View → Db → Card
  unfolding offer_is_open dates_are_open soonest
  opportunity_card o views db =
      let deadline =
        soonest
          (select (λ (v : View). view_is_open v && is_some v.closing_date && o.is_open) views) in
      record {
        offer = o;
        sources = views;
        is_open = offer_is_open season today o db && any view_is_open views;
        deadline = deadline;
        is_soon = is_soon_at deadline;
      }

  -- The cards of the offers whose company or name has the query, casefolded, and that have a source
  -- left.
  unfoldable pub cards_of :
      (String → Offer → Bool) → Option Preference → Bool → Filters → List Offer → Db → List Card
  unfolding relevant_sources opportunity_card
  cards_of mentions preference history filters [] db = []
  cards_of mentions preference history filters (o ∷ os) db =
      let selected = select (view_matches filters) (relevant_sources preference history o db) in
      let rest = cards_of mentions preference history filters os db in
      if not (mentions filters.query o)
      then rest
      else if is_empty selected
      then rest
      else opportunity_card o selected db ∷ rest

  unfoldable pub browse_opportunities :
      (String → Offer → Bool)
      → Option Preference
      → ℕ
      → Bool
      → Filters
      → Bool
      → List Offer
      → Db
      → Feed
  unfolding cards_of
  browse_opportunities mentions preference page history filters closing offers db =
      let cards = sorted_cards closing (cards_of mentions preference history filters offers db) in
      let total = length cards in
      let pages = page_count total in
      let page = max 1 (min page pages) in
      record {
        cards = page_cards page cards;
        total = total;
        page = page;
        pages = pages;
        first = if leb 1 total then (page - 1) * page_size + 1 else 0;
        last = min (page * page_size) total;
      }
