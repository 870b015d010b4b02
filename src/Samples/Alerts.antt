-- ===== src/Samples/Alerts.antt =====
-- Runs of the matching, the reconciliation and the deduplication of offers.
use summer_intern.Prelude.{
  ◌≡◌, refl, true, false, ◌&&◌, none, some, List, [], ◌∷◌, nat_eq, string_eq, find, contains,
}
use summer_intern.Model.{Db, immediate, pending, sent, Delivery, Offer}
use summer_intern.Preferences.Matching.{query_selects, offer_is_open, offer_matches}
use summer_intern.Preferences.Query.{query_selects_exact}
use summer_intern.Preferences.Reconcile.{delivery_id, reconcile_delivery, was_sent, is_wanted}
use summer_intern.Preferences.History.{reconcile_keeps_sent, reconcile_leaves_wanted}
use summer_intern.Common.Urls.{Urllib, UrlParts}
use summer_intern.Common.Dedup.{RawOffer, deduplicate_offers}
use summer_intern.Common.Kept.{
  AreDistinctOffers, keys, is_offered, deduplicate_offers-keys, deduplicate_offers_distinct,
}
use summer_intern.Purge.{purge_deliveries}
use summer_intern.Purge.Receipts.{purge_deliveries_remembers}
use summer_intern.Samples.{match_db, ada_preference, summer_offer}

query_selects_exact_example : query_selects "2026" 0 ada_preference match_db summer_offer ≡ (
    offer_is_open "2026" 0 summer_offer match_db
    && offer_matches "2026" 0 summer_offer ada_preference match_db)
query_selects_exact_example = query_selects_exact "2026" 0 ada_preference match_db summer_offer

query_example : query_selects "2026" 0 ada_preference match_db summer_offer ≡ true
unfolding query_selects
query_example = refl

abbrev waiting : Delivery
waiting = record {
  id = 1;
  user_id = 1;
  offer_id = 3;
  mode = immediate;
  status = pending;
  attempts = 0;
  provider_message_id = none;
  last_error = none;
  sent_at = none;
  processing_started_at = none;
  created_at = 0;
  next_attempt_at = none;
}

abbrev delivered : Delivery
delivered = record waiting { id = 2; offer_id = 5; status = sent; sent_at = some 4 }

abbrev alerts_db : Db
alerts_db = record match_db { deliveries = waiting ∷ delivered ∷ [] }

reconcile_keeps_sent_example :
    find delivery_id 2 (reconcile_delivery "2026" 10 0 ada_preference waiting alerts_db).deliveries
    ≡ some delivered
unfolding find
reconcile_keeps_sent_example =
    reconcile_keeps_sent "2026" 10 0 ada_preference waiting alerts_db 2 delivered (refl, (refl, tt))
      refl refl refl

still_waiting_example :
    find delivery_id 1 (reconcile_delivery "2026" 10 0 ada_preference waiting alerts_db).deliveries
    ≡ some waiting
unfolding reconcile_delivery find offer_is_open summer_intern.Common.Dates.dates_are_open
    offer_matches
still_waiting_example = refl

reconcile_leaves_wanted_example :
    (was_sent 1 3 alerts_db ≡ false)
    × (is_wanted "2026" 10 0 ada_preference
          (find (λ (o : Offer). o.id) 3 alerts_db.offers)
          alerts_db
        ≡ true)
    × (immediate ≡ ada_preference.delivery_mode)
unfolding find
reconcile_leaves_wanted_example =
    reconcile_leaves_wanted "2026" 10 0 ada_preference waiting waiting alerts_db (refl, (refl, tt))
      refl still_waiting_example refl

-- Python's methods on texts that they leave alone.
abbrev plain : Urllib
plain = record {
  strip = λ s. s;
  lower = λ s. s;
  rstrip_slash = λ s. s;
  urlsplit = λ s. some (record {
    scheme = "https";
    netloc = "a.example";
    path = s;
    query = "";
    fragment = "";
    hostname = some "a.example";
    username = none;
    password = none;
  });
  parse_qsl = λ s. [];
  urlencode = λ ps. "";
  urlunsplit = λ scheme netloc path query fragment. path;
}

abbrev three_offers : List RawOffer
three_offers =
    record { name = "A"; company = "C"; offer_url = "/a" }
    ∷ record { name = "B"; company = "C"; offer_url = "" }
    ∷ record { name = "A again"; company = "C"; offer_url = "/a" }
    ∷ []

deduplicate_example :
    deduplicate_offers plain three_offers
    ≡ record { name = "A"; company = "C"; offer_url = "/a" } ∷ []
unfolding deduplicate_offers summer_intern.Common.Urls.canonical_offer_url
    summer_intern.Common.Dedup.offer_key
deduplicate_example = refl

deduplicate_offers-keys_example :
    contains (keys plain (deduplicate_offers plain three_offers)) "url:/a"
    ≡ is_offered plain "url:/a" three_offers
deduplicate_offers-keys_example = deduplicate_offers-keys plain three_offers "url:/a"

deduplicate_offers_distinct_example :
    AreDistinctOffers plain (deduplicate_offers plain three_offers)
deduplicate_offers_distinct_example = deduplicate_offers_distinct plain three_offers

purge_deliveries_remembers_example :
    was_sent 1 5 (purge_deliveries 2678400000000 500 alerts_db) ≡ true
unfolding was_sent
purge_deliveries_remembers_example = purge_deliveries_remembers 2678400000000 500 1 5 alerts_db refl

purge_example : (purge_deliveries 2678400000000 500 alerts_db).deliveries ≡ waiting ∷ []
unfolding purge_deliveries summer_intern.Prelude.delete_where
purge_example = refl
