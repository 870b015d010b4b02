-- ===== src/Workers/Budget.antt =====
-- trackr_app/workers.py: the attempts of alerts.
use summer_intern.Prelude.{
  ℕ, ◌≡◌, ◌≤◌, ◌<◌, String, Bool, true, false, ◌&&◌, Option, some, List, [], ◌∷◌, ◌==◌, nat_eq,
  first_where, update_where, All, All-update_where, All-save, first_where-All, Option-cases,
  contains, arith, Bool-cases, inl, inr,
}
use summer_intern.Model.{Db, Time, Mode, mode_eq, is_pending, Delivery}
use summer_intern.Preferences.Reconcile.{delivery_id, save_delivery, cancel}
use summer_intern.Workers.Claims.{is_claimable, claimed_alert, claim_each, eligible_each}
use summer_intern.Workers.Group.{
  accepted, rejected, SendResult, completed_alert, complete_held, complete_each, is_held,
  defer_group,
}
use summer_intern.Workers.Pass.{fail_exhausted}

-- At most five attempts, and one is left while the alert is pending.
abbrev pub AlertWithin : Delivery → Type 0
AlertWithin d = (d.attempts ≤ 5) × (is_pending d.status ≡ true → d.attempts < 5)

abbrev pub AlertsWithin : Db → Type 0
AlertsWithin db = All AlertWithin db.deliveries

pub claim_each-Within :
    (now : Time) (ds : List Delivery) (db : Db)
    → AlertsWithin db
    → AlertsWithin (claim_each now ds db).1
unfolding claim_each
claim_each-Within now [] db h = h
claim_each-Within now (d ∷ ds) db h =
    claim_each-Within now ds
      (record db {
        deliveries =
            update_where (λ r. delivery_id r == d.id && is_claimable now r) (claimed_alert now)
              db.deliveries;
      })
      (All-update_where AlertWithin (λ r. delivery_id r == d.id && is_claimable now r)
        (claimed_alert now) db.deliveries (λ r w hit. ground (arith, w, hit)) h)

pub eligible_each-Within :
    (fits : Delivery → Bool) (ds : List Delivery) (db : Db)
    → All AlertWithin ds
    → AlertsWithin db
    → AlertsWithin (eligible_each fits ds db).1
unfolding eligible_each
eligible_each-Within fits [] db ws h = h
eligible_each-Within fits (d ∷ ds) db ws h = elim (Bool-cases (fits d)) [
  | inl wanted ↦ rw wanted (eligible_each-Within fits ds db ws.1 h)
  | inr unwanted ↦ rw unwanted (
      eligible_each-Within fits ds (save_delivery (cancel d) db) ws.1
        (All-save delivery_id AlertWithin (cancel d) db.deliveries (ground (arith, ws.0)) h))
]

completed_alert-Within :
    (now : Time) (active : Bool) (result : SendResult) (d : Delivery)
    → AlertWithin d
    → AlertWithin (completed_alert now active result d)
completed_alert-Within now false result d w = ground (arith, w)
completed_alert-Within now true (accepted message_id) d w = ground (arith, w)
completed_alert-Within now true (rejected error) d w = ground (arith, w)

pub complete_each-Within :
    (now : Time) (active : Bool) (result : SendResult) (claims : List (ℕ × Option Time)) (db : Db)
    → AlertsWithin db
    → AlertsWithin (complete_each now active result claims db).0
unfolding complete_each
complete_each-Within now active result [] db h = h
complete_each-Within now active result ((id, started) ∷ claims) db h =
    elim (Option-cases (first_where (is_held id started) db.deliveries)) [
      | inl missed ↦ rw missed (complete_each-Within now active result claims db h)
      | inr (d, held) ↦ rw held (
          complete_each-Within now active result claims
            (complete_held now active result (some d) db)
            (All-save delivery_id AlertWithin (completed_alert now active result d) db.deliveries
              (completed_alert-Within now active result d
                (first_where-All AlertWithin (is_held id started) db.deliveries d h held))
              h))
    ]

pub defer_group-Within :
    (now : Time) (error : String) (ids : List ℕ) (db : Db)
    → AlertsWithin db
    → AlertsWithin (defer_group now error ids db)
unfolding defer_group
defer_group-Within now error ids db h =
    All-update_where AlertWithin (λ d. contains ids d.id && is_pending d.status) _ db.deliveries
      (λ d w hit. ground (arith, w, hit)) h

pub fail_exhausted-Within :
    (mode : Mode) (now : Time) (db : Db)
    → AlertsWithin db
    → AlertsWithin (fail_exhausted mode now db)
unfolding fail_exhausted
fail_exhausted-Within mode now db h =
    All-update_where AlertWithin _ _ db.deliveries (λ d w hit. ground (arith, w)) h
