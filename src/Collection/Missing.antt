-- ===== src/Collection/Missing.antt =====
-- trackr_app/scraper.py, `scrape_all`: the sources that a snapshot does not show any more, and the jobs
-- of matching of what changed.
use summer_intern.Prelude.{
  ℕ, ◌+◌, Bool, true, false, not, ◌&&◌, Option, none, some, List, [], ◌∷◌, String, ◌==◌, nat_eq,
  string_eq, leb, is_some, if◌then◌else◌, any, contains, find, save,
}
use summer_intern.Model.{Db, Time, Offer, OfferSource, Payload, match_offer, matching}
use summer_intern.Preferences.Matching.{sources_of}
use summer_intern.Durable.Enqueue.{enqueue_job}
use summer_intern.Collection.Items.{Tracker, Rendering, Changed, Applied, put, offer_id, source_id}

-- A source is closed by the second collection in a row that misses it.
abbrev pub missed_source : OfferSource → OfferSource
missed_source s = record s {
  missing_collections = s.missing_collections + 1;
  is_open = s.is_open && not (leb 2 (s.missing_collections + 1));
}

module _ (rendering : Rendering) (tracker : Tracker) where
  abbrev pub is_tracked : OfferSource → Bool
  is_tracked s =
      s.region == tracker.region
      && s.programme_type == tracker.kind
      && s.season == tracker.season
      && s.is_open

  -- An offer is open while a source of the current season is.
  abbrev pub has_open_source : Offer → Db → Bool
  has_open_source o db =
      any (λ (s : OfferSource). s.is_open && s.season == tracker.current) (sources_of o db)

  abbrev pub miss_in : Offer → OfferSource → Applied → Applied
  miss_in o s run =
      let sources = save source_id (missed_source s) run.db.offer_sources in
      let missed : Db = record run.db { offer_sources = sources } in
      let still = has_open_source o missed in
      record run {
        db = record missed {
          offers =
              save offer_id
                (record o { missing_collections = s.missing_collections + 1; is_open = still })
                run.db.offers;
        };
        changed = put o.id (some (rendering.revision o (sources_of o run.db))) run.changed;
        closed = if o.is_open && not still then run.closed + 1 else run.closed;
      }

  abbrev pub miss_offer : List String → Option Offer → OfferSource → Applied → Applied
  miss_offer seen none s run = run
  miss_offer seen (some o) s run =
      let missed = miss_in o s run in if contains seen o.canonical_url then run else missed

  -- A source without its offer raises in the source; the foreign key excludes it.
  unfoldable pub miss_each : List String → List OfferSource → Applied → Applied
  unfolding sources_of
  miss_each seen [] run = run
  miss_each seen (s ∷ ss) run =
      miss_each seen ss (miss_offer seen (find offer_id s.offer_id run.db.offers) s run)

-- `{'offer_id': ..., 'updated': before is not None}`.
abbrev pub changed_payload : ℕ → Bool → Payload
changed_payload id updated = record {
  user_id = none;
  offer_id = some id;
  connection_id = none;
  parent_page_id = none;
  baseline = false;
  reconcile = false;
  offers_phase = false;
  updated = updated;
}

-- `before is None or before != after`.
abbrev pub is_material : Option String → String → Bool
is_material none after = true
is_material (some before) after = not (before == after)

module _ (rendering : Rendering) (now : Time) where
  abbrev pub enqueue_changed : ℕ → Option String → Option Offer → Db → Db
  enqueue_changed id before none db = db
  enqueue_changed id before (some o) db =
      if is_material before (rendering.revision o (sources_of o db))
      then enqueue_job now (match_offer id) matching (changed_payload id (is_some before))
          (is_some before) db
      else db

  unfoldable pub enqueue_each : Changed → Db → Db
  unfolding sources_of enqueue_job
  enqueue_each [] db = db
  enqueue_each ((id, before) ∷ rest) db =
      enqueue_each rest (enqueue_changed id before (find offer_id id db.offers) db)
