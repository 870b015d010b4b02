-- ===== src/Purge.antt =====
-- trackr_app/maintenance.py, the part of `purge` for deliveries: old sent alerts are deleted, and a
-- receipt stays in the table `durable_jobs`.
pub mod Receipts
pub mod Tables
use summer_intern.Prelude.{
  ℕ, ◌+◌, Bool, false, ◌&&◌, Option, none, some, List, [], ◌∷◌, nat_eq, ltb, if◌then◌else◌, map,
  select, take, sort_by, contains, insert_new, delete_where,
}
use summer_intern.Model.{
  Db, Time, days, is_sent, archived, Delivery, DurableJob, job_key_eq, receipt, receipts,
}
use summer_intern.Maintenance.{new_job}
use summer_intern.Durable.Enqueue.{job_key}

abbrev pub is_old : Time → Option Time → Bool
is_old now none = false
is_old now (some t) = ltb (t + days 30) now

-- The oldest identities, a batch at most.
unfoldable pub purged_ids : Time → ℕ → List Delivery → List ℕ
purged_ids now batch rows = take batch (
    sort_by (λ n. n)
      (map (λ (d : Delivery). d.id) (select (λ d. is_sent d.status && is_old now d.sent_at) rows)))

abbrev pub receipt_row : Time → Delivery → DurableJob
receipt_row now d = record (new_job now (receipt d.user_id d.offer_id)) {
  kind = receipts;
  status = archived;
  completed_at = none;
}

unfoldable pub add_receipts :
    Time → (Delivery → Bool) → List Delivery → List DurableJob → List DurableJob
add_receipts now gone [] jobs = jobs
add_receipts now gone (d ∷ ds) jobs =
    add_receipts now gone ds (if gone d then insert_new job_key (receipt_row now d) jobs else jobs)

unfoldable pub purge_deliveries : Time → ℕ → Db → Db
unfolding purged_ids add_receipts
purge_deliveries now batch db =
    let ids = purged_ids now batch db.deliveries in
    record db {
      durable_jobs = add_receipts now (λ d. contains ids d.id) db.deliveries db.durable_jobs;
      deliveries = delete_where (λ (d : Delivery). contains ids d.id) db.deliveries;
    }
