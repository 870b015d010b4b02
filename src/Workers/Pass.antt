-- ===== src/Workers/Pass.antt =====
-- trackr_app/workers.py: `_user_ids`, and the loops of `process_immediate_alerts` and
-- `process_digests`. The list of turns is as long as the deadline allows.
use summer_intern.Prelude.{
  ℕ, ◌+◌, ◌&&◌, some, none, List, [], ◌∷◌, ◌++◌, String, ◌==◌, nat_eq, leb, ltb, if◌then◌else◌, map,
  select, take, sort_by, contains, update_where,
}
use summer_intern.Model.{
  Db, Time, failed, is_processing, Mode, mode_eq, immediate, daily_digest, Delivery,
}
use summer_intern.Preferences.Matching.{is_empty}
use summer_intern.Preferences.Digest.{Zones}
use summer_intern.Durable.Batch.{last_or}
use summer_intern.Workers.Claims.{is_available, is_claimable}
use summer_intern.Workers.Group.{Alerted}
use summer_intern.Workers.Turns.{Turn, alert_user, digest_user}

-- A claim of the last attempt that was not completed in time.
unfoldable pub fail_exhausted : Mode → Time → Db → Db
fail_exhausted mode now db = record db {
  deliveries =
      update_where
        (λ d. d.mode == mode && (is_processing d.status && leb 5 d.attempts && is_available now d))
        (λ d. record d {
          status = failed;
          last_error = some "DeliveryLeaseExhausted";
          processing_started_at = none;
        })
        db.deliveries;
}

-- `DISTINCT`.
abbrev pub distinct : List ℕ → List ℕ
distinct [] = []
distinct (n ∷ ns) = let rest = distinct ns in if contains rest n then rest else n ∷ rest

-- A page of accounts above the cursor with a row to claim.
unfoldable pub user_page : Mode → Time → ℕ → Db → List ℕ
user_page mode now cursor db = take 100 (
    sort_by (λ n. n)
      (distinct (
        map (λ (d : Delivery). d.user_id)
          (select (λ (d : Delivery). d.mode == mode && (ltb cursor d.user_id && is_claimable now d))
            db.deliveries))))

abbrev pub joined : Alerted → Alerted → Alerted
joined before run = record {
  db = run.db;
  messages = before.messages ++ run.messages;
  count = before.count + run.count;
}

abbrev pub tail_of : List ℕ → List ℕ
tail_of [] = []
tail_of (n ∷ ns) = ns

abbrev pub first_turn : (Turn → ℕ → Db → Alerted) → Turn → List ℕ → Alerted → Alerted
first_turn step turn [] before = before
first_turn step turn (id ∷ ids) before = joined before (step turn id before.db)

-- `page` holds the accounts of the current page that are still to come; the next one is read where
-- it is empty, above the last account of the former. An empty page ends the pass.
unfoldable pub each_user :
    (Turn → ℕ → Db → Alerted) → Mode → List Turn → List ℕ → ℕ → Alerted → Alerted
unfolding user_page
each_user step mode [] page cursor before = before
each_user step mode (turn ∷ turns) page cursor before =
    let page' = if is_empty page then user_page mode turn.paged_at cursor before.db else page in
    let rest =
      each_user step mode turns (tail_of page') (last_or cursor page')
        (first_turn step turn page' before) in
    if is_empty page' then before else rest

unfoldable pub process_immediate_alerts : String → Time → List Turn → Db → Alerted
unfolding each_user fail_exhausted alert_user
process_immediate_alerts season now turns db =
    each_user (alert_user season) immediate turns [] 0
      (record { db = fail_exhausted immediate now db; messages = []; count = 0 })

unfoldable pub process_digests : String → Zones → Time → List Turn → Db → Alerted
unfolding each_user fail_exhausted digest_user
process_digests season zones now turns db =
    each_user (λ turn. digest_user season turn zones) daily_digest turns [] 0
      (record { db = fail_exhausted daily_digest now db; messages = []; count = 0 })
