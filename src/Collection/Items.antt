-- ===== src/Collection/Items.antt =====
-- trackr_app/scraper.py, `scrape_all`: the loop over the items of a snapshot.
use summer_intern.Prelude.{
  ℕ, ◌+◌, Bool, true, ◌&&◌, Option, none, some, List, [], ◌∷◌, ◌++◌, String, ◌==◌, nat_eq,
  string_eq, if◌then◌else◌, save, first_where, fresh_id,
}
use summer_intern.Model.{Db, Time, Date, Offer, OfferSource}
use summer_intern.Preferences.Matching.{off_cycle, sources_of, is_empty}

-- An item of the snapshot with a canonical address and dates that parse, as the checks before the
-- loop see to; a missing text or list is empty.
pub record Item : Type 0 where
  pub canonical_url : String
  pub name : String
  pub company : String
  pub company_id : Option String
  pub categories : List String
  pub opening_date : Option Date
  pub closing_date : Option Date
  pub stage : String
  pub rolling : Bool
  pub needs_cv : Bool
  pub needs_cover_letter : Bool
  pub company_description : Option String
  pub notes : Option String

-- The tracker's region, `kind` and season, and the setting of the season.
pub record Tracker : Type 0 where
  pub region : String
  pub kind : String
  pub season : String
  pub current : String

-- `_offer_revision`: what can change matching or presentation, rendered from the offer and its
-- sources; and `infer_start_term`.
pub record Rendering : Type 0 where
  pub revision : Offer → List OfferSource → String
  pub infer_start_term : List String → Option String

-- An entry of `changed`: the offer's identity, and its revision before, if it was there.
abbrev pub Changed : Type 0
Changed = List (ℕ × Option String)

-- `changed[key] = value` of a dict: the first insertion gives the place.
abbrev pub put : ℕ → Option String → Changed → Changed
put id before [] = (id, before) ∷ []
put id before ((other, value) ∷ rest) =
    let tail = put id before rest in
    if other == id then (id, before) ∷ rest else (other, value) ∷ tail

-- The state of a run over one tracker, with its counts.
pub record Applied : Type 0 where
  pub db : Db
  pub changed : Changed
  pub created : ℕ
  pub updated : ℕ
  pub closed : ℕ

abbrev pub offer_id : Offer → ℕ
offer_id o = o.id

abbrev pub source_id : OfferSource → ℕ
source_id s = s.id

abbrev pub add_source : OfferSource → Db → Db
add_source s db = record db { offer_sources = db.offer_sources ++ s ∷ [] }

-- An offer without sources gets one of its own columns.
abbrev pub own_source : String → ℕ → Offer → OfferSource
own_source season id o = record {
  id = id;
  offer_id = o.id;
  region = o.region;
  programme_type = o.programme_type;
  season = season;
  start_term = o.start_term;
  opening_date = o.opening_date;
  closing_date = o.closing_date;
  is_open = o.is_open;
  missing_collections = o.missing_collections;
  last_seen_at = o.last_seen_at;
}

unfoldable pub backfill : String → List Offer → Db → Db
unfolding sources_of
backfill season [] db = db
backfill season (o ∷ os) db = backfill season os (
    if is_empty (sources_of o db)
    then add_source (own_source season (fresh_id source_id db.offer_sources) o) db
    else db)

module _ (rendering : Rendering) (tracker : Tracker) (now : Time) where
  -- The unique columns of a source of an offer.
  abbrev pub is_source_of : ℕ → OfferSource → Bool
  is_source_of id s =
      s.offer_id == id
      && s.region == tracker.region
      && s.programme_type == tracker.kind
      && s.season == tracker.season

  abbrev pub term_of : Item → Option String
  term_of item =
      if tracker.kind == off_cycle then rendering.infer_start_term item.categories else none

  -- The source's columns after the item.
  abbrev pub seen_source : ℕ → ℕ → Item → OfferSource
  seen_source id offer_id item = record {
    id = id;
    offer_id = offer_id;
    region = tracker.region;
    programme_type = tracker.kind;
    season = tracker.season;
    start_term = term_of item;
    opening_date = item.opening_date;
    closing_date = item.closing_date;
    is_open = true;
    missing_collections = 0;
    last_seen_at = now;
  }

  abbrev pub see_source : Option OfferSource → ℕ → Item → Db → Db
  see_source none offer_id item db =
      add_source (seen_source (fresh_id source_id db.offer_sources) offer_id item) db
  see_source (some s) offer_id item db = record db {
    offer_sources = save source_id (seen_source s.id offer_id item) db.offer_sources;
  }

  -- The offer's columns after the item; a new one keeps the region and kind of its tracker.
  abbrev pub seen_offer : ℕ → String → String → Time → Item → Offer
  seen_offer id region kind first_seen_at item = record {
    id = id;
    canonical_url = item.canonical_url;
    offer_url = item.canonical_url;
    name = item.name;
    company = item.company;
    company_id = item.company_id;
    region = region;
    programme_type = kind;
    categories = item.categories;
    start_term = term_of item;
    opening_date = item.opening_date;
    closing_date = item.closing_date;
    stage = if item.stage == "" then "Unknown" else item.stage;
    rolling = item.rolling;
    needs_cv = item.needs_cv;
    needs_cover_letter = item.needs_cover_letter;
    company_description = item.company_description;
    notes = item.notes;
    is_open = true;
    first_seen_at = first_seen_at;
    missing_collections = 0;
    last_seen_at = now;
  }

  -- A new offer, or the update of the one with the address.
  abbrev pub see_offer : Option Offer → Item → Applied → Applied
  see_offer none item run =
      let id = fresh_id offer_id run.db.offers in
      record run {
        db = see_source none id item (record run.db {
          offers = run.db.offers ++ seen_offer id tracker.region tracker.kind now item ∷ [];
        });
        changed = put id none run.changed;
        created = run.created + 1;
      }
  see_offer (some o) item run = record run {
    db =
        see_source (first_where (is_source_of o.id) run.db.offer_sources) o.id item (record run.db {
          offers =
              save offer_id (seen_offer o.id o.region o.programme_type o.first_seen_at item)
                run.db.offers;
        });
    changed = put o.id (some (rendering.revision o (sources_of o run.db))) run.changed;
    updated = run.updated + 1;
  }

  unfoldable pub apply_items : List Item → Applied → Applied
  unfolding sources_of
  apply_items [] run = run
  apply_items (item ∷ items) run = apply_items items (
      see_offer (first_where (λ (o : Offer). o.canonical_url == item.canonical_url) run.db.offers)
        item run)
