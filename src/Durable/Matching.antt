-- ===== src/Durable/Matching.antt =====
-- trackr_app/durable.py, the loop of `match_batch`: what one pair of an account and an offer adds.
use summer_intern.Prelude.{
  ℕ, Bool, false, ◌&&◌, ◌||◌, Option, none, some, List, [], ◌∷◌, ◌++◌, String, ◌==◌, nat_eq, leb,
  or_else, if◌then◌else◌, find, save, first_where, fresh_id,
}
use summer_intern.Model.{
  Db, Time, Date, pending, User, Mode, Preference, is_active_preference, Offer, UserOffer, Delivery,
  NotionSync, Payload,
}
use summer_intern.Preferences.Matching.{offer_matches, offer_is_open}
use summer_intern.Preferences.Reconcile.{
  delivery_id, ready_connection, connection_of, find_sync, add_sync, new_match, is_matched,
}

abbrev pub preference_of : ℕ → Db → Option Preference
preference_of user_id db = first_where (λ (p : Preference). p.user_id == user_id) db.preferences

abbrev pub new_delivery : ℕ → ℕ → ℕ → Mode → Time → Delivery
new_delivery id user_id offer_id mode now = record {
  id = id;
  user_id = user_id;
  offer_id = offer_id;
  mode = mode;
  status = pending;
  attempts = 0;
  provider_message_id = none;
  last_error = none;
  sent_at = none;
  processing_started_at = none;
  created_at = now;
  next_attempt_at = none;
}

-- The offer was there when the preferences were activated, or for a baseline job when it was made.
abbrev pub seen_before : Option Time → Time → Bool
seen_before none first_seen = false
seen_before (some cutoff) first_seen = leb first_seen cutoff

abbrev pub is_baseline : Payload → Time → Preference → Offer → Bool
is_baseline payload created p o =
    seen_before (or_else p.activated_at (if payload.baseline then some created else none))
      o.first_seen_at

unfoldable pub sync_page : Bool → Option ℕ → ℕ → List NotionSync → List NotionSync
sync_page updated none offer_id rows = rows
sync_page updated (some c) offer_id rows = elim (find_sync c offer_id rows) [
  | none ↦ add_sync c offer_id rows
  | some s ↦
      if updated
      then save (λ (t : NotionSync). t.id) (record s { status = pending; attempts = 0 }) rows
      else rows
]

module _ (season : String) (now : Time) (today : Date) (payload : Payload) (created : Time) where
  -- The account is active with active preferences, and the offer is open and matches.
  unfoldable pub is_eligible : User → Preference → Offer → Db → Bool
  is_eligible u p o db =
      u.is_active
      && is_active_preference p.status
      && offer_is_open season today o db
      && offer_matches season today o p db

  unfoldable pub record_match : Preference → Offer → ℕ → Db → Db
  unfolding sync_page
  record_match p o user_id db =
      let baseline = is_baseline payload created p o in
      let matched = is_matched user_id o.id db in
      record db {
        user_offers =
            if matched
            then db.user_offers
            else db.user_offers
              ++ new_match (fresh_id (λ (m : UserOffer). m.id) db.user_offers) user_id o.id baseline
                  now
                ∷ [];
        deliveries =
            if matched || baseline
            then db.deliveries
            else db.deliveries
              ++ new_delivery (fresh_id delivery_id db.deliveries) user_id o.id p.delivery_mode now
                ∷ [];
        notion_syncs =
            sync_page payload.updated (ready_connection (connection_of user_id db)) o.id
              db.notion_syncs;
      }

  unfoldable pub match_found : Option User → Option Preference → Option Offer → ℕ → Db → Db
  unfolding is_eligible record_match
  match_found (some u) (some p) (some o) user_id db =
      if is_eligible u p o db then record_match p o user_id db else db
  match_found _ _ _ user_id db = db

  unfoldable pub match_pair : ℕ → ℕ → Db → Db
  unfolding match_found
  match_pair user_id offer_id db =
      match_found (find (λ (u : User). u.id) user_id db.users) (preference_of user_id db)
        (find (λ (o : Offer). o.id) offer_id db.offers) user_id db

  unfoldable pub match_pairs : List (ℕ × ℕ) → Db → Db
  unfolding match_pair
  match_pairs [] db = db
  match_pairs ((user_id, offer_id) ∷ pairs) db = match_pairs pairs (match_pair user_id offer_id db)
