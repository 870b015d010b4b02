-- ===== src/Durable/Batch.antt =====
-- trackr_app/durable.py, `match_batch`: a claim, the work of one batch of a hundred, and the end of
-- the batch, with any changes that others commit after the claim.
use summer_intern.Prelude.{
  ℕ, ◌+◌, Bool, true, false, not, ◌&&◌, ◌||◌, Option, none, some, List, [], ◌∷◌, String, ◌==◌,
  nat_eq, string_eq, leb, ltb, opt_beq, or_else, if◌then◌else◌, map, select, take, sort_by, length,
  max, find, save,
}
use summer_intern.Model.{
  Db, Time, Date, minutes, pending, processing, failed, done, is_processing, is_unfinished, User,
  Offer, Delivery, Payload, DurableJob, JobKey, job_key_eq, Preference,
}
use summer_intern.Preferences.Reconcile.{delivery_id, reconcile_delivery}
use summer_intern.Durable.Enqueue.{job_key}
use summer_intern.Durable.Matching.{preference_of, match_pairs}

abbrev pub is_running : Time → Option Time → Bool
is_running now none = false
is_running now (some t) = ltb now t

abbrev pub save_durable : DurableJob → Db → Db
save_durable job db = record db { durable_jobs = save job_key job db.durable_jobs }

-- The first transaction: raises on a missing row, commits without a claim, or claims.
pub data Claimed : Type 0 where
  vanished : Claimed
  idle : Db → Claimed
  claimed : Db → DurableJob → Claimed

abbrev pub exhausted_match : DurableJob → DurableJob
exhausted_match job = record job {
  status = failed;
  last_error = or_else job.last_error (some "MatchingLeaseExhausted");
}

abbrev pub claimed_match : Time → String → DurableJob → DurableJob
claimed_match now token job = record job {
  attempts = job.attempts + 1;
  status = processing;
  lease_token = some token;
  lease_until = some (now + minutes 5);
}

unfoldable pub claim_found : Time → String → Option DurableJob → Db → Claimed
claim_found now token none db = vanished
claim_found now token (some job) db =
    if not (is_unfinished job.status) || is_running now job.lease_until
    then idle db
    else if leb 5 job.attempts
    then idle (save_durable (exhausted_match job) db)
    else claimed (save_durable (claimed_match now token job) db) job

unfoldable pub claim_match : Time → String → JobKey → Db → Claimed
unfolding claim_found
claim_match now token key db = claim_found now token (find job_key key db.durable_jobs) db

-- The next hundred identities above the cursor, in order.
unfoldable pub next_ids : ℕ → List ℕ → List ℕ
next_ids cursor ids = take 100 (sort_by (λ n. n) (select (λ n. ltb cursor n) ids))

abbrev pub last_or : ℕ → List ℕ → ℕ
last_or n [] = n
last_or n (m ∷ ms) = last_or m ms

-- The identities of the batch: accounts for an offer's job, offers for an account's.
unfoldable pub batch_ids : Payload → ℕ → Db → List ℕ
unfolding next_ids
batch_ids payload cursor db = elim payload.offer_id [
  | some _ ↦
      next_ids cursor (map (λ (u : User). u.id) (select (λ (u : User). u.is_active) db.users))
  | none ↦ next_ids cursor (map (λ (o : Offer). o.id) db.offers)
]

-- A job of an account has its `user_id`; the pair of an account that is missing matches nothing.
abbrev pub pairs_of : Payload → List ℕ → List (ℕ × ℕ)
pairs_of payload ids = elim payload.offer_id [
  | some offer_id ↦ map (λ n. (n, offer_id)) ids
  | none ↦ elim payload.user_id [ none ↦ [] | some user_id ↦ map (λ n. (user_id, n)) ids ]
]

-- The end of a batch that still owns the job.
abbrev pub advanced : Time → List ℕ → DurableJob → DurableJob
advanced now [] job = record job {
  status = done;
  lease_until = none;
  attempts = 0;
  last_error = none;
  next_attempt_at = none;
  completed_at = some now;
}
advanced now (n ∷ ns) job = record job {
  status = pending;
  lease_until = none;
  attempts = 0;
  last_error = none;
  next_attempt_at = none;
  cursor = last_or n ns;
}

-- The end of a batch of reconciliation: after the last one the offers follow from the start.
abbrev pub reconciled : Payload → List ℕ → DurableJob → DurableJob
reconciled payload [] job = record job {
  status = pending;
  lease_until = none;
  attempts = 0;
  last_error = none;
  next_attempt_at = none;
  payload = record payload { offers_phase = true };
  cursor = 0;
}
reconciled payload (n ∷ ns) job = record job {
  status = pending;
  lease_until = none;
  attempts = 0;
  last_error = none;
  next_attempt_at = none;
  cursor = last_or n ns;
}

abbrev pub released : DurableJob → DurableJob
released job = record job { lease_until = none; lease_token = none }

-- The job at the end of a batch: advanced by its owner, released by the owner of a job that was
-- superseded meanwhile, and otherwise left to the new owner.
unfoldable pub end_batch : String → (DurableJob → DurableJob) → DurableJob → DurableJob
end_batch token advance job =
    if is_processing job.status && opt_beq job.lease_token token
    then advance job
    else if opt_beq job.lease_token token
    then released job
    else job

unfoldable pub end_found : String → (DurableJob → DurableJob) → Option DurableJob → Db → Db
unfolding end_batch
end_found token advance none db = db
end_found token advance (some job) db = save_durable (end_batch token advance job) db

abbrev pub is_owner : String → Option DurableJob → Bool
is_owner token none = false
is_owner token (some job) = is_processing job.status && opt_beq job.lease_token token

-- The end of a job counts as progress, if its owner reached it.
abbrev pub count_of_batch : Bool → List ℕ → ℕ
count_of_batch owned ids = if owned then max 1 (length ids) else length ids

module _ (season : String) (now : Time) (today : Date) where
  unfoldable pub reconcile_ids : Preference → List ℕ → Db → Db
  reconcile_ids p [] db = db
  reconcile_ids p (id ∷ ids) db = reconcile_ids p ids (elim (find delivery_id id db.deliveries) [
    | none ↦ db
    | some item ↦ reconcile_delivery season now today p item db
  ])

  abbrev pub reconcile_for : Option User → Option Preference → List ℕ → Db → Db
  reconcile_for (some u) (some p) ids db = if u.is_active then reconcile_ids p ids db else db
  reconcile_for _ _ ids db = db

  abbrev pub deliveries_of : Option ℕ → Db → List ℕ
  deliveries_of none db = []
  deliveries_of (some user_id) db =
      map delivery_id (select (λ (d : Delivery). d.user_id == user_id) db.deliveries)

  abbrev pub reconcile_batch : Payload → List ℕ → Db → Db
  reconcile_batch payload ids db = elim payload.user_id [
    | none ↦ db
    | some user_id ↦
        reconcile_for (find (λ (u : User). u.id) user_id db.users) (preference_of user_id db) ids db
  ]

  -- The second transaction: the new state, and the count that the loop sums. A job whose row is
  -- gone raises in the source, and rolls the work back; no code deletes an unfinished job.
  unfoldable pub run_batch : String → JobKey → DurableJob → Db → Db × ℕ
  unfolding batch_ids match_pairs end_found reconcile_ids
  run_batch token key job db =
      if job.payload.reconcile && not job.payload.offers_phase
      then (let ids = next_ids job.cursor (deliveries_of job.payload.user_id db) in
          let db' = reconcile_batch job.payload ids db in
          (
            end_found token (reconciled job.payload ids) (find job_key key db'.durable_jobs) db',
            max 1 (length ids),
          ))
      else (let ids = batch_ids job.payload job.cursor db in
          let db' =
            match_pairs season now today job.payload job.created_at (pairs_of job.payload ids) db in
          (
            end_found token (advanced now ids) (find job_key key db'.durable_jobs) db',
            count_of_batch (is_owner token (find job_key key db'.durable_jobs)) ids,
          ))
