-- ===== src/Samples.antt =====
-- Rows and settings for concrete runs of the definitions; the children hold the runs.
mod Mail
mod Jobs
mod Accounts
mod Alerts
mod Deployment
mod Work
mod Site
mod Collected
mod Tasks
use summer_intern.Prelude.{String, Bool, true, false, Option, none, some, List, [], ◌∷◌}
use Prim.Native.String.{◌++◌ as append}
use summer_intern.Model.{
  Db, empty_db, pending, User, MailKind, password, AuthMail, Preference, immediate, active, Offer,
  Delivery, DurableJob, match_offer, matching, Payload,
}
use summer_intern.Security.{Crypto}
use summer_intern.AuthMail.Attempt.{Attempt}

-- A reversible stand-in for the hash and the cipher.
abbrev pub test_crypto : Crypto
test_crypto = record { token_hash = λ s. append "#" s; encrypt = λ s. s; decrypt = λ s. some s }

abbrev pub ada : User
ada = record {
  id = 1;
  email = "ada@example.org";
  password_hash = some "hash";
  role = "user";
  is_active = true;
  created_at = 0;
}

abbrev pub reset_mail : AuthMail
reset_mail = record {
  id = 7;
  email_encrypted = "ada@example.org";
  email_hash = "#ada@example.org";
  kind = password;
  invitation_id = none;
  status = pending;
  attempts = 0;
  last_error = none;
  next_attempt_at = none;
  processing_started_at = none;
  created_at = 0;
}

abbrev pub mail_db : Db
mail_db = record empty_db { users = ada ∷ []; auth_mail = reset_mail ∷ [] }

-- A call at the given times that nobody disturbs and whose sender succeeds.
abbrev pub calm : Attempt
calm = record {
  prepared_at = 10;
  verified_at = 20;
  finished_at = 30;
  raw = "token";
  failure = none;
  before_verify = λ db. db;
  before_finish = λ db. db;
  fails_preparing = false;
  fails_verifying = false;
  fails_finishing = false;
}

abbrev pub ada_preference : Preference
ada_preference = record {
  id = 1;
  user_id = 1;
  program_types = "summer" ∷ [];
  regions = "uk" ∷ [];
  start_terms = [];
  delivery_mode = immediate;
  digest_time = 0;
  timezone = "Europe/Paris";
  status = active;
  activated_at = some 5;
  last_digest_date = none;
  updated_at = 0;
}

abbrev pub summer_offer : Offer
summer_offer = record {
  id = 3;
  canonical_url = "https://a.example/x";
  offer_url = "https://a.example/x";
  name = "Summer";
  company = "A";
  company_id = none;
  region = "uk";
  programme_type = "summer";
  categories = [];
  start_term = none;
  opening_date = none;
  closing_date = none;
  stage = "Open";
  rolling = false;
  needs_cv = true;
  needs_cover_letter = false;
  company_description = none;
  notes = none;
  is_open = true;
  first_seen_at = 9;
  missing_collections = 0;
  last_seen_at = 9;
}

abbrev pub offer_payload : Payload
offer_payload = record {
  user_id = none;
  offer_id = some 3;
  connection_id = none;
  parent_page_id = none;
  baseline = false;
  reconcile = false;
  offers_phase = false;
  updated = false;
}

abbrev pub offer_job : DurableJob
offer_job = record {
  key = match_offer 3;
  kind = matching;
  payload = offer_payload;
  status = pending;
  attempts = 0;
  cursor = 0;
  lease_token = none;
  lease_until = none;
  next_attempt_at = none;
  last_error = none;
  created_at = 8;
  completed_at = none;
}

abbrev pub match_db : Db
match_db = record empty_db {
  users = ada ∷ [];
  preferences = ada_preference ∷ [];
  offers = summer_offer ∷ [];
  durable_jobs = offer_job ∷ [];
}
