-- ===== src/Preferences/Digest.antt =====
-- trackr_app/preferences.py, `digest_is_due`. The zone database is a parameter: the local date and
-- time of day of a zone at a time, or none where zoneinfo does not know the zone.
use summer_intern.Prelude.{
  ℕ, Bool, false, Option, none, some, String, nat_eq, opt_beq, leb, if◌then◌else◌,
}
use summer_intern.Model.{Time, Date, Preference}

abbrev pub Zones : Type 0
Zones = String → Time → Option (Date × ℕ)

unfoldable pub digest_is_due : Zones → Preference → Time → Bool
digest_is_due zones p now = elim (zones p.timezone now) [
  | none ↦ false
  | some (date, time) ↦ if opt_beq p.last_digest_date date then false else leb p.digest_time time
]
