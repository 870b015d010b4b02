-- ===== src/Model/Alerts.antt =====
-- The tables of preferences, offers, matches and deliveries of trackr_app/models.py. The columns of
-- `Preference` that hold a JSON list are the lists that `json_list` reads from them; `digest_time`
-- counts microseconds from midnight.
use summer_intern.Prelude.{ℕ, String, Bool, true, false, Option, List, Eq, ◌↔◌, ◌≡◌, arith}
use summer_intern.Model.States.{Status}
use summer_intern.Model.Clock.{Time, Date}

-- The two values of `delivery_mode` and `Delivery.mode`.
pub data Mode : Type 0 where
  immediate daily_digest : Mode

abbrev pub mode_beq : Mode → Mode → Bool
mode_beq immediate immediate = true
mode_beq daily_digest daily_digest = true
mode_beq _ _ = false

pub mode_beq_iff : (a b : Mode) → (mode_beq a b ≡ true) ↔ (a ≡ b)
mode_beq_iff immediate b = ground arith
mode_beq_iff daily_digest b = ground arith

instance abbrev pub mode_eq : Eq Mode
mode_eq = record { equal = mode_beq; equal_iff = mode_beq_iff }

-- The values of `Preference.status`.
pub data PreferenceStatus : Type 0 where
  draft active paused : PreferenceStatus

abbrev pub is_active_preference : PreferenceStatus → Bool
is_active_preference active = true
is_active_preference _ = false

pub record Preference : Type 0 where
  pub id : ℕ
  pub user_id : ℕ
  pub program_types : List String
  pub regions : List String
  pub start_terms : List String
  pub delivery_mode : Mode
  pub digest_time : ℕ
  pub timezone : String
  pub status : PreferenceStatus
  pub activated_at : Option Time
  pub last_digest_date : Option Date
  pub updated_at : Time

pub record Offer : Type 0 where
  pub id : ℕ
  pub canonical_url : String
  pub offer_url : String
  pub name : String
  pub company : String
  pub company_id : Option String
  pub region : String
  pub programme_type : String
  pub categories : List String
  pub start_term : Option String
  pub opening_date : Option Date
  pub closing_date : Option Date
  pub stage : String
  pub rolling : Bool
  pub needs_cv : Bool
  pub needs_cover_letter : Bool
  pub company_description : Option String
  pub notes : Option String
  pub is_open : Bool
  pub first_seen_at : Time
  pub missing_collections : ℕ
  pub last_seen_at : Time

pub record OfferSource : Type 0 where
  pub id : ℕ
  pub offer_id : ℕ
  pub region : String
  pub programme_type : String
  pub season : String
  pub start_term : Option String
  pub opening_date : Option Date
  pub closing_date : Option Date
  pub is_open : Bool
  pub missing_collections : ℕ
  pub last_seen_at : Time

pub record UserOffer : Type 0 where
  pub id : ℕ
  pub user_id : ℕ
  pub offer_id : ℕ
  pub baseline : Bool
  pub matched_at : Time

pub record Delivery : Type 0 where
  pub id : ℕ
  pub user_id : ℕ
  pub offer_id : ℕ
  pub mode : Mode
  pub status : Status
  pub attempts : ℕ
  pub provider_message_id : Option String
  pub last_error : Option String
  pub sent_at : Option Time
  pub processing_started_at : Option Time
  pub created_at : Time
  pub next_attempt_at : Option Time
