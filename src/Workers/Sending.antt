-- ===== src/Workers/Sending.antt =====
-- trackr_app/workers.py, `process_immediate_alerts`: an undisturbed turn sends an alert that is due.
use summer_intern.Prelude.{
  ◌≡◌, refl, ap, ◌∙◌, String, Bool, true, false, Option, none, some, List, nat_eq, find, arith,
  All-weaken, AreUnique, any, contains, map, All,
}
use summer_intern.Model.{Db, Time, Date, Mode, User, Preference, Offer, Delivery}
use summer_intern.Preferences.Matching.{is_empty}
use summer_intern.Preferences.Reconcile.{delivery_id, is_wanted}
use summer_intern.Durable.Matching.{preference_of}
use summer_intern.Workers.Claims.{
  is_claimable, claim_each, eligible_each, pending_of, is_deliverable,
}
use summer_intern.Workers.Group.{offers_of, claims_of}
use summer_intern.Workers.Turns.{Turn, claim_group, ids_of}
use summer_intern.Workers.Rows.{row, IsRowAt, eligible_each-spares}
use summer_intern.Workers.Groups.{IsStored, stored_at, eligible_each-keeps}
use summer_intern.Workers.Completion.{is_claim_of}
use summer_intern.Workers.Delivers.{
  claim_each-lists, claim_each-offers, claim_each_offers, eligible_each_offers,
}
use summer_intern.Workers.Permits.{pending_of-Rows, committed, IsOwnRow}

is_wanted_offer :
    (season : String) (now : Time) (today : Date) (p : Preference) (found : Option Offer) (db : Db)
    → is_wanted season now today p found db ≡ true
    → (o : Offer) × (found ≡ some o)
is_wanted_offer season now today p none db h = cc
is_wanted_offer season now today p (some o) db h = (o, refl)

is_deliverable_offer :
    (season : String) (now : Time) (today : Date) (user : User) (pref : Option Preference) (db : Db)
    (d : Delivery)
    → is_deliverable season now today user pref db d ≡ true
    → (o : Offer) × (find (λ (f : Offer). f.id) d.offer_id db.offers ≡ some o)
unfolding is_deliverable
is_deliverable_offer season now today user none db d h = cc
is_deliverable_offer season now today user (some p) db d h =
    is_wanted_offer season now today p (find (λ (f : Offer). f.id) d.offer_id db.offers) db
      (ground (arith, h))

-- The claims of a turn include a row that is due and fits.
module _ (season : String) (turn : Turn) (mode : Mode) (user : User) (db : Db) (d : Delivery)
    (unique : AreUnique delivery_id db.deliveries) (there : row d.id db ≡ some d)
    (free : is_claimable turn.now d ≡ true)
    (due : contains (ids_of (pending_of mode turn.now user.id db)) d.id ≡ true)
    (fits : is_deliverable season turn.now turn.today user (preference_of user.id db) db d
      ≡ true) where
  abbrev page : List Delivery
  page = pending_of mode turn.now user.id db

  abbrev test : Delivery → Bool
  test e = is_deliverable season turn.now turn.today user (preference_of user.id db) db e

  abbrev left : List Delivery × Db
  left = eligible_each test page db

  only : All (IsRowAt d.id d) page
  only = stored_at db d page there (
      All-weaken (λ e. IsStored db e × IsOwnRow mode user.id e) (IsStored db) page (λ e h. h.0)
        (pending_of-Rows mode turn.now user.id db unique))

  kept : row d.id left.1 ≡ some d
  kept = eligible_each-spares test d.id d page db fits only there

  inside : contains (map delivery_id left.0) d.id ≡ true
  inside = eligible_each-keeps test d.id d page db fits only due

  pub committed-lists :
      any (is_claim_of d.id (some turn.now)) (claims_of (committed season turn mode user db).0)
      ≡ true
  unfolding claim_group
  committed-lists = claim_each-lists turn.now d.id d left.0 left.1 free kept inside

  pub committed-offers :
      is_empty
        (offers_of (committed season turn mode user db).1 (committed season turn mode user db).0)
      ≡ false
  unfolding claim_group
  committed-offers =
      let (o, known) =
        is_deliverable_offer season turn.now turn.today user (preference_of user.id db) db d fits in
      let same = claim_each_offers turn.now left.0 left.1 ∙ eligible_each_offers test page db in
      claim_each-offers turn.now d.id d o left.0 left.1 (claim_each turn.now left.0 left.1).1 free
        kept (ap (find (λ (f : Offer). f.id) d.offer_id) same ∙ known) inside
