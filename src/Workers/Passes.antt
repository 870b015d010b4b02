-- ===== src/Workers/Passes.antt =====
-- trackr_app/workers.py: the passes over alerts and digests keep the budget of attempts.
use summer_intern.Prelude.{
  ℕ, String, List, [], ◌∷◌, nat_eq, if◌then◌else◌, All, Bool-cases, inl, inr,
}
use summer_intern.Model.{Db, Time, Mode, mode_eq, immediate, daily_digest}
use summer_intern.Preferences.Matching.{is_empty}
use summer_intern.Preferences.Digest.{Zones}
use summer_intern.Durable.Batch.{last_or}
use summer_intern.Workers.Group.{Alerted}
use summer_intern.Workers.Turns.{Turn, alert_user, digest_user}
use summer_intern.Workers.Budget.{AlertsWithin, fail_exhausted-Within}
use summer_intern.Workers.Pass.{
  each_user, tail_of, first_turn, fail_exhausted, user_page, process_immediate_alerts,
  process_digests,
}
use summer_intern.Workers.Tries.{EndsWithin, IsFairTurn, alert_user-Within, digest_user-Within}

first_turn-Within :
    (step : Turn → ℕ → Db → Alerted) (turn : Turn) (page : List ℕ) (before : Alerted)
    → ((id : ℕ) (db : Db) → AlertsWithin db → EndsWithin (step turn id db))
    → EndsWithin before
    → EndsWithin (first_turn step turn page before)
first_turn-Within step turn [] before keeps h = h
first_turn-Within step turn (id ∷ ids) before keeps h = keeps id before.db h

each_user-Within :
    (step : Turn → ℕ → Db → Alerted) (mode : Mode) (turns : List Turn) (page : List ℕ) (cursor : ℕ)
    (before : Alerted)
    → ((turn : Turn) (id : ℕ) (db : Db)
        → IsFairTurn turn
        → AlertsWithin db
        → EndsWithin (step turn id db))
    → All IsFairTurn turns
    → EndsWithin before
    → EndsWithin (each_user step mode turns page cursor before)
unfolding each_user
each_user-Within step mode [] page cursor before keeps fair h = h
each_user-Within step mode (turn ∷ turns) page cursor before keeps fair h =
    let page' = if is_empty page then user_page mode turn.paged_at cursor before.db else page in
    let rest =
      each_user-Within step mode turns (tail_of page') (last_or cursor page')
        (first_turn step turn page' before) keeps fair.1
        (first_turn-Within step turn page' before (λ id db. keeps turn id db fair.0) h) in
    elim (Bool-cases (is_empty page')) [ inl over ↦ rw over h | inr more ↦ rw more rest ]

-- A pass over the alerts and a pass over the digests leave every alert with at most five attempts,
-- and a pending one with one left, if it starts so and what others commit meanwhile keeps it,
-- whatever the mail server answers and the calls raise.
pub process_alerts-Within :
    (season : String) (zones : Zones) (now : Time) (turns : List Turn) (db : Db)
    → All IsFairTurn turns
    → AlertsWithin db
    → AlertsWithin (process_immediate_alerts season now turns db).db
      × AlertsWithin (process_digests season zones now turns db).db
unfolding process_immediate_alerts process_digests
process_alerts-Within season zones now turns db fair h = (
  each_user-Within (alert_user season) immediate turns [] 0
      (record { db = fail_exhausted immediate now db; messages = []; count = 0 })
      (λ turn id d f w. alert_user-Within season turn f id d w) fair
      (fail_exhausted-Within immediate now db h),
  each_user-Within (λ turn. digest_user season turn zones) daily_digest turns [] 0
      (record { db = fail_exhausted daily_digest now db; messages = []; count = 0 })
      (λ turn id d f w. digest_user-Within season turn f zones id d w) fair
      (fail_exhausted-Within daily_digest now db h),
)
