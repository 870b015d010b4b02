-- ===== src/Web/Choices.antt =====
-- trackr_app/main.py: `preference_values` and `activate`.
use Prim.Native.String.{count}
use summer_intern.Prelude.{
  ℕ, Bool, not, ◌&&◌, ◌||◌, Option, none, some, List, [], ◌∷◌, String, ◌==◌, nat_eq, string_eq,
  if◌then◌else◌, all, contains, map, select, find,
}
use summer_intern.Model.{Db, Time, Date, Mode, immediate, daily_digest, User, Preference}
use summer_intern.Passwords.{user_key}
use summer_intern.Preferences.Matching.{is_empty}
use summer_intern.Preferences.Deferred.{activate_deferred}
use summer_intern.Durable.Matching.{preference_of}
use summer_intern.Web.Access.{Reply, redirects, shows, http_error, Handler}

-- `PROGRAM_TYPES` and `REGIONS`.
abbrev pub program_types_all : List String
program_types_all =
    "summer" ∷ "off-cycle" ∷ "spring-weeks" ∷ "industrial-placements" ∷ "graduate-programmes"
    ∷ "events" ∷ []

abbrev pub regions_all : List String
regions_all = "France" ∷ "UK" ∷ "Hong Kong" ∷ []

-- What Python's library does: `sorted(set(...))`, `strip`, `available_timezones`, and
-- `time.fromisoformat` with whether the time has a zone, or none where it raises.
pub record Texts : Type 0 where
  pub sorted_set : List String → List String
  pub strip : String → String
  pub is_timezone : String → Bool
  pub time_of : String → Option (ℕ × Bool)

-- The fields of the form.
pub record Choices : Type 0 where
  pub program_types : List String
  pub regions : List String
  pub start_terms : List String
  pub delivery_mode : String
  pub digest_time : String
  pub timezone : String

-- The dict that is returned.
pub record Values : Type 0 where
  pub program_types : List String
  pub regions : List String
  pub start_terms : List String
  pub delivery_mode : Mode
  pub digest_time : ℕ
  pub timezone : String

abbrev pub mode_named : String → Option Mode
mode_named name =
    if name == "immediate"
    then some immediate
    else if name == "daily_digest"
    then some daily_digest
    else none

-- `set(xs).issubset(ys)`, of a list that is not empty.
abbrev pub is_choice : List String → List String → Bool
is_choice xs ys = not (is_empty xs) && all (contains ys) xs

module _ (texts : Texts) where
  abbrev pub values_at : Choices → Mode → ℕ × Bool → Option Values
  values_at c mode (digest_time, zoned) =
      if zoned || not (count c.digest_time == 5)
      then none
      else some (record {
        program_types = texts.sorted_set c.program_types;
        regions = texts.sorted_set c.regions;
        start_terms =
            texts.sorted_set
              (map texts.strip (select (λ term. not (texts.strip term == "")) c.start_terms));
        delivery_mode = mode;
        digest_time = digest_time;
        timezone = c.timezone;
      })

  abbrev pub timed_values : Choices → Mode → Option (ℕ × Bool) → Option Values
  timed_values c mode none = none
  timed_values c mode (some time) = values_at c mode time

  abbrev pub named_values : Choices → Option Mode → Option Values
  named_values c none = none
  named_values c (some mode) =
      if texts.is_timezone c.timezone
      then timed_values c mode (texts.time_of c.digest_time)
      else none

  -- `preference_values`, none where it raises `ValueError`.
  unfoldable pub preference_values : Choices → Option Values
  preference_values c =
      if is_choice c.program_types program_types_all && is_choice c.regions regions_all
      then named_values c (mode_named c.delivery_mode)
      else none

abbrev pub chosen : Values → Preference → Preference
chosen v p = record p {
  program_types = v.program_types;
  regions = v.regions;
  start_terms = v.start_terms;
  delivery_mode = v.delivery_mode;
  digest_time = v.digest_time;
  timezone = v.timezone;
}

module _ (season : String) (available : Bool) (now : Time) (today : Date) where
  abbrev pub activate_values : Values → Option User → Option Preference → Db → Db × Reply
  activate_values v (some u) (some p) db =
      if u.is_active
      then (
        (activate_deferred season available now today (chosen v p) db).0,
        redirects "/dashboard",
      )
      else (db, http_error 403)
  activate_values v _ _ db = (db, http_error 403)

  abbrev pub activate_chosen : Option Values → Handler
  activate_chosen none user db = (db, shows "preferences.html")
  activate_chosen (some v) user db =
      activate_values v (find user_key user.id db.users) (preference_of user.id db) db

  -- `others` is what others commit before the account is locked.
  unfoldable pub activate : Texts → (Db → Db) → Choices → Handler
  unfolding preference_values activate_deferred
  activate texts others choices user db =
      activate_chosen (preference_values texts choices) user (others db)
