-- ===== src/Samples/Collected.antt =====
-- Runs of the collector of trackr_app/scraper.py, and of browsing, trackr_app/opportunities.py.
use summer_intern.Prelude.{
  All, Option, ℕ, ◌≡◌, ◌≤◌, refl, true, false, not, none, some, List, [], ◌∷◌, nat_eq, ◌==◌, map,
  String, arith, All, Option, Bool, ◌&&◌, string_eq, if◌then◌else◌,
}
use summer_intern.Model.{Db, OfferSource}
use summer_intern.Collection.Items.{backfill, Item, Tracker, Rendering}
use summer_intern.Collection.Tracker.{
  Collector, Totals, broken, apply_snapshot, collect_all, scrape_all,
}
use summer_intern.Browsing.{Filters, Card, cards_of, sorted_cards, browse_opportunities}
use summer_intern.Browsing.Paging.{first_pages, browse_opportunities_pages}
use summer_intern.Samples.{ada_preference, summer_offer, match_db}

-- A revision that tells whether the offer is open.
abbrev by_state : Rendering
by_state = record {
  revision = λ o ss. if o.is_open then "open" else "closed";
  infer_start_term = λ cs. none;
}

abbrev uk_summer : Tracker
uk_summer = record { region = "uk"; kind = "summer"; season = "2026"; current = "2026" }

abbrev new_item : Item
new_item = record {
  canonical_url = "https://a.example/y";
  name = "Second";
  company = "B";
  company_id = none;
  categories = [];
  opening_date = none;
  closing_date = none;
  stage = "";
  rolling = false;
  needs_cv = false;
  needs_cover_letter = false;
  company_description = none;
  notes = none;
}

-- A source that one collection has missed.
abbrev missed_once : OfferSource
missed_once = record {
  id = 1;
  offer_id = 3;
  region = "uk";
  programme_type = "summer";
  season = "2026";
  start_term = none;
  opening_date = none;
  closing_date = none;
  is_open = true;
  missing_collections = 1;
  last_seen_at = 9;
}

abbrev collected_db : Db
collected_db = record match_db { offer_sources = missed_once ∷ [] }

-- The second miss closes the source; the new offer has one that is open.
closed_example :
    map
      (λ (s : OfferSource). s.is_open)
      (apply_snapshot by_state uk_summer 50 (new_item ∷ []) collected_db).db.offer_sources
    ≡ false ∷ true ∷ []
unfolding apply_snapshot summer_intern.Prelude.first_where summer_intern.Prelude.find
    summer_intern.Prelude.save summer_intern.Prelude.fresh_id
closed_example = refl

abbrev filled_sources : List OfferSource
filled_sources = (backfill "2026" collected_db.offers collected_db).offer_sources

abbrev no_filters : Filters
no_filters = record { query = ""; region = ""; programme = ""; start_term = "" }

-- A page beyond the last one is the last.
browsed_example :
    map
      (λ (c : Card). c.offer)
      (browse_opportunities "2026" 0
        (λ q o. true)
        (some ada_preference)
        7
        false
        no_filters
        true
        (summer_offer ∷ [])
        match_db).cards
    ≡ summer_offer ∷ []
unfolding browse_opportunities
browsed_example = refl

browse_opportunities_pages_example :
    first_pages 1 (λ n.
      (browse_opportunities "2026" 0
        (λ q o. true)
        (some ada_preference)
        n
        false
        no_filters
        true
        (summer_offer ∷ [])
        match_db).cards)
    ≡ sorted_cards true (
        cards_of "2026" 0
          (λ q o. true)
          (some ada_preference)
          false
          no_filters
          (summer_offer ∷ [])
          match_db)
unfolding browse_opportunities
browse_opportunities_pages_example =
    browse_opportunities_pages "2026" 0 (λ q o. true) (some ada_preference) 1 false no_filters true
      (summer_offer ∷ []) match_db

-- A database that refuses the claim of a source.
abbrev refused : Collector
refused = record {
  token = "t";
  reserved_at = 50;
  reserve_error = some "OperationalError";
  meanwhile = λ db. db;
  acquired = broken "TimeoutError";
  apply_error = none;
  applied_at = 60;
}

abbrev unreachable : Collector
unreachable = record refused { reserve_error = none }

abbrev failures : Option Totals → Option ℕ
failures none = none
failures (some totals) = some totals.failed_trackers

-- The first source's refusal ends the run.
refused_first_example :
    failures (scrape_all by_state ((uk_summer, "k", refused) ∷ []) collected_db) ≡ none
unfolding collect_all
refused_first_example = refl

-- A later source's refusal is not counted.
refused_later_example :
    failures (
      scrape_all by_state
        ((uk_summer, "k", unreachable) ∷ (uk_summer, "l", refused) ∷ [])
        collected_db)
    ≡ some 1
unfolding collect_all summer_intern.Prelude.find summer_intern.Prelude.insert_new
    summer_intern.Prelude.save
refused_later_example = refl
