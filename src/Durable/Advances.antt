-- ===== src/Durable/Advances.antt =====
-- trackr_app/durable.py, `match_batch`: what a batch of matches does to its job's progress.
use summer_intern.Prelude.{
  contains, nat_eq, ℕ, ◌≡◌, ◌<◌, ◌≤◌, ◌⊎◌, inl, inr, refl, sym, String, true, false, not, ◌&&◌,
  Option, none, some, List, [], ◌∷◌, map, select, find, All,
}
use summer_intern.Model.{
  Db, Time, Date, User, Offer, Payload, DurableJob, JobKey, job_key_eq, done, pending,
}
use summer_intern.Durable.Enqueue.{job_key}
use summer_intern.Durable.Batch.{batch_ids, advanced, is_owner, run_batch, next_ids, last_or}
use summer_intern.Durable.Progress.{remaining, batch_advances, batch-Covered, IsCovered, none_above}
use summer_intern.Durable.Alerts.{run_batch_row}

-- The identities that a job goes over: the active accounts for an offer's job, and the offers.
abbrev pub table_for : Option ℕ → Db → List ℕ
table_for none db = map (λ (o : Offer). o.id) db.offers
table_for (some _) db = map (λ (u : User). u.id) (select (λ (u : User). u.is_active) db.users)

abbrev pub table_of : Payload → Db → List ℕ
table_of payload db = table_for payload.offer_id db

pub batch_ids-table :
    (payload : Payload) (cursor : ℕ) (db : Db)
    → batch_ids payload cursor db ≡ next_ids cursor (table_of payload db)
unfolding batch_ids
batch_ids-table payload cursor db = by_kind payload.offer_id
  where
    by_kind :
        (o : Option ℕ)
        → (elim o [
          | some _ ↦
              next_ids cursor
                (map (λ (u : User). u.id) (select (λ (u : User). u.is_active) db.users))
          | none ↦ next_ids cursor (map (λ (o : Offer). o.id) db.offers)
        ])
          ≡ next_ids cursor (table_for o db)
    by_kind none = refl
    by_kind (some _) = refl

-- A finished job: nothing of the table is above its cursor.
abbrev pub IsFinished : Time → ℕ → List ℕ → DurableJob → Type 0
IsFinished now cursor table r =
    (r.status ≡ done)
    × (r.completed_at ≡ some now)
    × (r.lease_until ≡ none)
    × All (λ id. id ≤ cursor) table

-- A job that has moved: it can be claimed again with its attempts unspent, its cursor is further,
-- with fewer identities above, and those that it passed are in the batch.
abbrev pub IsMoved : ℕ → List ℕ → List ℕ → DurableJob → Type 0
IsMoved cursor batch table r =
    (r.status ≡ pending)
    × (r.lease_until ≡ none)
    × (r.attempts ≡ 0)
    × (cursor < r.cursor)
    × (remaining r.cursor table < remaining cursor table)
    × All (IsCovered cursor r.cursor batch) table

pub advanced_by :
    (now : Time) (cursor : ℕ) (table page : List ℕ) (row : DurableJob)
    → next_ids cursor table ≡ page
    → ((page ≡ []) × ((id : ℕ) → contains table id ≡ true → id ≤ cursor))
      ⊎ ((cursor < last_or cursor page)
          × (remaining (last_or cursor page) table < remaining cursor table))
    → All (IsCovered cursor (last_or cursor page) page) table
    → IsFinished now cursor table (advanced now page row)
      ⊎ IsMoved cursor page table (advanced now page row)
advanced_by now cursor table [] row same on covered =
    inl (refl, refl, refl, none_above cursor table same)
advanced_by now cursor table (n ∷ ns) row same (inl (nothing, all)) covered = absurd (cc)
advanced_by now cursor table (n ∷ ns) row same (inr (further, fewer)) covered =
    inr (refl, refl, refl, further, fewer, covered)

-- The end of a batch of matches whose claim still holds moves its job on or finishes it. If an
-- identity of the job's table is above the cursor, the job is pending again with its attempts
-- unspent, its cursor is further, fewer identities are above it, and every identity that it passed
-- is in the batch. Otherwise the job is done, and no identity of the table is above its cursor.
pub run_batch_advances :
    (season : String) (now : Time) (today : Date) (token : String) (key : JobKey)
    (job row : DurableJob) (db : Db)
    → (job.payload.reconcile && not job.payload.offers_phase) ≡ false
    → find job_key key db.durable_jobs ≡ some row
    → is_owner token (some row) ≡ true
    → (let table = table_of job.payload db in
        (r : DurableJob) × (find job_key key
            (run_batch season now today token key job db).0.durable_jobs
          ≡ some r)
        × (IsFinished now job.cursor table r
            ⊎ IsMoved job.cursor (batch_ids job.payload job.cursor db) table r))
run_batch_advances season now today token key job row db phase found own =
    let table = table_of job.payload db in
    let page = batch_ids job.payload job.cursor db in
    let same : next_ids job.cursor table ≡ page = sym (batch_ids-table job.payload job.cursor db) in
    (
      advanced now page row,
      run_batch_row season now today token key job row db phase found own,
      advanced_by now job.cursor table page row same (rw same at (batch_advances job.cursor table))
          (rw same at (batch-Covered job.cursor table)),
    )
