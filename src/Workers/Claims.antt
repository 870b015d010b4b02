-- ===== src/Workers/Claims.antt =====
-- trackr_app/workers.py: `_available`, `_claim`, `_locked_user` and `_eligible`. The readings of the
-- clock within one transaction are one argument.
use summer_intern.Prelude.{
  ℕ, ◌+◌, Bool, true, false, not, ◌&&◌, ◌||◌, Option, none, some, List, [], ◌∷◌, String, ◌==◌,
  nat_eq, leb, ltb, if◌then◌else◌, any, select, take, sort_by, find, update_where,
}
use summer_intern.Model.{
  Db, Time, Date, minutes, processing, is_pending, is_processing, is_active_preference, Mode,
  mode_eq, User, Preference, Offer, Delivery,
}
use summer_intern.Preferences.Reconcile.{delivery_id, save_delivery, cancel, is_wanted}
use summer_intern.Durable.Jobs.{is_reached}

-- `processing_started_at IS NULL OR processing_started_at < utcnow() - 15 minutes`.
abbrev pub is_stale : Time → Option Time → Bool
is_stale now none = true
is_stale now (some t) = ltb (t + minutes 15) now

-- `processing_started_at >= utcnow() - 15 minutes`, which NULL is not.
abbrev pub is_fresh : Time → Option Time → Bool
is_fresh now none = false
is_fresh now (some t) = leb now (t + minutes 15)

abbrev pub is_available : Time → Delivery → Bool
is_available now d =
    is_pending d.status && is_reached now d.next_attempt_at
    || is_processing d.status && is_stale now d.processing_started_at

abbrev pub is_claimable : Time → Delivery → Bool
is_claimable now d = ltb d.attempts 5 && is_available now d

abbrev pub claimed_alert : Time → Delivery → Delivery
claimed_alert now d = record d {
  status = processing;
  processing_started_at = some now;
  attempts = d.attempts + 1;
}

-- `result.rowcount == 1`: the object carries the written columns.
abbrev pub add_claimed : Time → Option Delivery → List Delivery → List Delivery
add_claimed now none rest = rest
add_claimed now (some d) rest = if is_claimable now d then claimed_alert now d ∷ rest else rest

-- The claimed rows, and the state with their claims.
unfoldable pub claim_each : Time → List Delivery → Db → List Delivery × Db
claim_each now [] db = ([], db)
claim_each now (d ∷ ds) db =
    let rest = claim_each now ds (record db {
      deliveries =
          update_where (λ r. delivery_id r == d.id && is_claimable now r) (claimed_alert now)
            db.deliveries;
    }) in
    (add_claimed now (find delivery_id d.id db.deliveries) rest.0, rest.1)

abbrev pub is_live_claim : Time → ℕ → Delivery → Bool
is_live_claim now user_id d =
    d.user_id == user_id && (is_processing d.status && is_fresh now d.processing_started_at)

-- The account, unless another transaction holds its row or a claim of it is running.
unfoldable pub locked_user : Bool → Time → ℕ → Db → Option User
locked_user free now user_id db =
    if not free || any (is_live_claim now user_id) db.deliveries
    then none
    else find (λ (u : User). u.id) user_id db.users

-- The rows of a mode of an account that can be claimed, a hundred at most.
unfoldable pub pending_of : Mode → Time → ℕ → Db → List Delivery
pending_of mode now user_id db = take 100 (
    sort_by delivery_id (
      select (λ (d : Delivery). d.user_id == user_id && d.mode == mode && is_claimable now d)
        db.deliveries))

module _ (season : String) (now : Time) (today : Date) where
  -- The account is active and its preference too, in the alert's mode; the offer is open and
  -- matches.
  unfoldable pub is_deliverable : User → Option Preference → Db → Delivery → Bool
  is_deliverable user none db d = false
  is_deliverable user (some p) db d =
      user.is_active
      && is_active_preference p.status
      && d.mode == p.delivery_mode
      && is_wanted season now today p (find (λ (o : Offer). o.id) d.offer_id db.offers) db

-- The rows that pass a test, and the state in which the others are cancelled.
unfoldable pub eligible_each : (Delivery → Bool) → List Delivery → Db → List Delivery × Db
eligible_each fits [] db = ([], db)
eligible_each fits (d ∷ ds) db =
    let rest = eligible_each fits ds (if fits d then db else save_delivery (cancel d) db) in
    (if fits d then d ∷ rest.0 else rest.0, rest.1)
