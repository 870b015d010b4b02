-- ===== src/Purge/Receipts.antt =====
-- trackr_app/maintenance.py: a purge does not forget what was sent.
use summer_intern.Prelude.{
  ℕ, ◌≡◌, Bool, true, ◌&&◌, ◌||◌, List, [], ◌∷◌, ◌==◌, nat_eq, any, is_some, find, insert_new,
  find-insert_new, delete_where, contains, arith, Bool-cases, inl, inr,
}
use summer_intern.Model.{
  Db, Time, Delivery, DurableJob, JobKey, job_key_eq, job_key_beq_iff, receipt, is_sent,
}
use summer_intern.Durable.Enqueue.{job_key}
use summer_intern.Preferences.Reconcile.{was_sent}
use summer_intern.Purge.{purged_ids, receipt_row, add_receipts, purge_deliveries}

insert_keeps :
    (k : JobKey) (row : DurableJob) (jobs : List DurableJob)
    → is_some (find job_key k jobs) ≡ true
    → is_some (find job_key k (insert_new job_key row jobs)) ≡ true
insert_keeps k row jobs h = rw (find-insert_new job_key k row jobs) (rw h h)

insert_adds :
    (row : DurableJob) (jobs : List DurableJob)
    → is_some (find job_key row.key (insert_new job_key row jobs)) ≡ true
insert_adds row jobs =
    rw (find-insert_new job_key row.key row jobs) (ground (arith, job_key_beq_iff row.key row.key))

receipts_keep :
    (now : Time) (gone : Delivery → Bool) (ds : List Delivery) (jobs : List DurableJob) (k : JobKey)
    → is_some (find job_key k jobs) ≡ true
    → is_some (find job_key k (add_receipts now gone ds jobs)) ≡ true
unfolding add_receipts
receipts_keep now gone [] jobs k h = h
receipts_keep now gone (d ∷ ds) jobs k h = elim (Bool-cases (gone d)) [
  | inl leaves ↦
      rw leaves (receipts_keep now gone ds _ k (insert_keeps k (receipt_row now d) jobs h))
  | inr stays ↦ rw stays (receipts_keep now gone ds jobs k h)
]

abbrev is_sent_to : ℕ → ℕ → Delivery → Bool
is_sent_to u o d = d.user_id == u && d.offer_id == o && is_sent d.status

purged :
    (now : Time) (gone : Delivery → Bool) (u o : ℕ) (ds : List Delivery) (jobs : List DurableJob)
    → any (is_sent_to u o) ds ≡ true
    → (any (is_sent_to u o) (delete_where gone ds)
        || is_some (find job_key (receipt u o) (add_receipts now gone ds jobs)))
      ≡ true
unfolding delete_where add_receipts
purged now gone u o [] jobs h = absurd (cc)
purged now gone u o (d ∷ ds) jobs h = elim (Bool-cases (gone d)) [
  | inr stays ↦ rw stays (ground (arith, h, purged now gone u o ds jobs))
  | inl leaves ↦
      let jobs' = insert_new job_key (receipt_row now d) jobs in
      let here =
        receipts_keep now gone ds jobs' (receipt d.user_id d.offer_id)
          (insert_adds (receipt_row now d) jobs) in
      rw leaves (elim (Bool-cases (is_sent_to u o d)) [
        | inl mine ↦
            let a : d.user_id ≡ u = ground (arith, mine) in
            let b : d.offer_id ≡ o = ground (arith, mine) in
            let there : is_some (find job_key (receipt u o) (add_receipts now gone ds jobs'))
                ≡ true =
              rw (← a, ← b) here in
            ground (arith, there)
        | inr other ↦ ground (arith, h, other, purged now gone u o ds jobs')
      ])
]

-- A purge of old deliveries never forgets that an offer was sent to an account, so that it is not
-- sent again.
pub purge_deliveries_remembers :
    (now : Time) (batch u o : ℕ) (db : Db)
    → was_sent u o db ≡ true
    → was_sent u o (purge_deliveries now batch db) ≡ true
unfolding was_sent purge_deliveries
purge_deliveries_remembers now batch u o db h =
    let gone : Delivery → Bool = λ d. contains (purged_ids now batch db.deliveries) d.id in
    elim (Bool-cases (any (is_sent_to u o) db.deliveries)) [
      | inl listed ↦ purged now gone u o db.deliveries db.durable_jobs listed
      | inr unlisted ↦
          let kept : is_some (find job_key (receipt u o) db.durable_jobs) ≡ true =
            (rw unlisted at h) in
          let after = receipts_keep now gone db.deliveries db.durable_jobs (receipt u o) kept in
          ground (arith, after)
    ]
