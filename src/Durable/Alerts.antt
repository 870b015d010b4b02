-- ===== src/Durable/Alerts.antt =====
-- trackr_app/durable.py, `match_batch`: what a batch leaves in the tables of matches and alerts.
use summer_intern.Prelude.{
  ℕ, ◌+◌, ◌≡◌, ◌≤◌, inl, inr, refl, ap, ◌∙◌, String, Bool, true, false, not, ◌&&◌, ◌||◌, Option,
  none, some, List, [], ◌∷◌, ◌++◌, ◌==◌, nat_eq, if◌then◌else◌, length, select, any, find, arith,
  Bool-cases, fresh_id,
}
use summer_intern.Model.{
  Db, Time, Date, User, Offer, Preference, UserOffer, Delivery, Payload, DurableJob, JobKey,
  job_key_eq,
}
use summer_intern.Preferences.Reconcile.{delivery_id, is_matched, new_match}
use summer_intern.Durable.Enqueue.{job_key}
use summer_intern.Durable.Matching.{
  new_delivery, is_baseline, is_eligible, record_match, match_found, match_pair, match_pairs,
  preference_of,
}
use summer_intern.Durable.Batch.{batch_ids, pairs_of, advanced, is_owner, run_batch, end_batch}
use summer_intern.Durable.Leases.{ended_row}

abbrev pub is_alert_of : ℕ → ℕ → Delivery → Bool
is_alert_of user_id offer_id d = d.user_id == user_id && d.offer_id == offer_id

-- The alerts of an offer to an account, and one more where the pair has no match yet.
abbrev pub alerts : ℕ → ℕ → Db → ℕ
alerts user_id offer_id db = length (select (is_alert_of user_id offer_id) db.deliveries)

abbrev pub allowance : ℕ → ℕ → Db → ℕ
allowance user_id offer_id db = if is_matched user_id offer_id db then 0 else 1

abbrev is_match_of : ℕ → ℕ → UserOffer → Bool
is_match_of user_id offer_id m = m.user_id == user_id && m.offer_id == offer_id

select-append :
    (p : Delivery → Bool) (ds es : List Delivery)
    → length (select p (ds ++ es)) ≡ length (select p ds) + length (select p es)
select-append p [] es = omega arith
select-append p (d ∷ ds) es = ground (arith, select-append p ds es)

any-append :
    (p : UserOffer → Bool) (ms ns : List UserOffer) → any p (ms ++ ns) ≡ (any p ms || any p ns)
any-append p [] ns = refl
any-append p (m ∷ ms) ns = ground (arith, any-append p ms ns)

same_pair :
    (a b u o : ℕ) (db : Db) → (a == u && b == o) ≡ true → is_matched a b db ≡ is_matched u o db
same_pair a b u o db h =
    let e : a ≡ u = ground (arith, h) in let f : b ≡ o = ground (arith, h) in rw (e, f) refl

module _ (season : String) (now : Time) (today : Date) (payload : Payload) (created : Time) where
  alerts-record_match :
      (p : Preference) (offer : Offer) (user_id : ℕ) (u o : ℕ) (db : Db)
      → alerts u o (record_match season now today payload created p offer user_id db)
          + allowance u o (record_match season now today payload created p offer user_id db)
        ≤ alerts u o db + allowance u o db
  unfolding record_match
  alerts-record_match p offer user_id u o db = elim (Bool-cases (is_matched user_id offer.id db)) [
    | inl matched ↦ rw matched (omega arith)
    | inr fresh ↦
        let baseline = is_baseline payload created p offer in
        let row =
          new_match (fresh_id (λ (m : UserOffer). m.id) db.user_offers) user_id offer.id baseline
            now in
        let added =
          new_delivery (fresh_id delivery_id db.deliveries) user_id offer.id p.delivery_mode now in
        let more = select-append (is_alert_of u o) db.deliveries (added ∷ []) in
        rw fresh (
          rw (any-append (is_match_of u o) db.user_offers (row ∷ []))
            (elim (Bool-cases (user_id == u && offer.id == o)) [
              | inl same ↦
                  let unmatched = same_pair user_id offer.id u o db same in
                  ground (arith, same, unmatched, fresh, more)
              | inr other ↦ ground (arith, other, more)
            ]))
  ]

  alerts-match_found :
      (account : Option User) (pref : Option Preference) (offer : Option Offer) (user_id u o : ℕ)
      (db : Db)
      → alerts u o (match_found season now today payload created account pref offer user_id db)
          + allowance u o
              (match_found season now today payload created account pref offer user_id db)
        ≤ alerts u o db + allowance u o db
  unfolding match_found
  alerts-match_found none pref offer user_id u o db = omega arith
  alerts-match_found (some a) none offer user_id u o db = omega arith
  alerts-match_found (some a) (some p) none user_id u o db = omega arith
  alerts-match_found (some a) (some p) (some f) user_id u o db =
      elim (Bool-cases (is_eligible season now today payload created a p f db)) [
        | inl fits ↦ rw fits (alerts-record_match p f user_id u o db)
        | inr unfit ↦ rw unfit (omega arith)
      ]

-- However often and in whatever order the pairs of an account and an offer are worked off, with
-- repeated ones: the pair gets at most one alert, and none if it has a match already.
pub match_pairs_alert_once :
    (season : String) (now : Time) (today : Date) (payload : Payload) (created : Time)
    (pairs : List (ℕ × ℕ)) (u o : ℕ) (db : Db)
    → alerts u o (match_pairs season now today payload created pairs db)
        + allowance u o (match_pairs season now today payload created pairs db)
      ≤ alerts u o db + allowance u o db
unfolding match_pairs match_pair
match_pairs_alert_once season now today payload created [] u o db = omega arith
match_pairs_alert_once season now today payload created ((user_id, offer_id) ∷ pairs) u o db =
    let next =
      match_found season now today payload created (find (λ (a : User). a.id) user_id db.users)
        (preference_of user_id db) (find (λ (f : Offer). f.id) offer_id db.offers) user_id db in
    let rest = match_pairs_alert_once season now today payload created pairs u o next in
    let first =
      alerts-match_found season now today payload created
        (find (λ (a : User). a.id) user_id db.users) (preference_of user_id db)
        (find (λ (f : Offer). f.id) offer_id db.offers) user_id u o db in
    omega (arith, rest, first)

-- A batch of matches touches no durable job but its own.
match_found_jobs :
    (season : String) (now : Time) (today : Date) (payload : Payload) (created : Time)
    (account : Option User) (pref : Option Preference) (offer : Option Offer) (user_id : ℕ)
    (db : Db)
    → (match_found season now today payload created account pref offer user_id db).durable_jobs
      ≡ db.durable_jobs
unfolding match_found record_match
match_found_jobs season now today payload created none pref offer user_id db = refl
match_found_jobs season now today payload created (some a) none offer user_id db = refl
match_found_jobs season now today payload created (some a) (some p) none user_id db = refl
match_found_jobs season now today payload created (some a) (some p) (some f) user_id db =
    elim (Bool-cases (is_eligible season now today payload created a p f db)) [
      | inl fits ↦ rw fits refl
      | inr unfit ↦ rw unfit refl
    ]

pub match_pairs_jobs :
    (season : String) (now : Time) (today : Date) (payload : Payload) (created : Time)
    (pairs : List (ℕ × ℕ)) (db : Db)
    → (match_pairs season now today payload created pairs db).durable_jobs ≡ db.durable_jobs
unfolding match_pairs match_pair
match_pairs_jobs season now today payload created [] db = refl
match_pairs_jobs season now today payload created ((user_id, offer_id) ∷ pairs) db =
    match_pairs_jobs season now today payload created pairs (
      match_found season now today payload created (find (λ (a : User). a.id) user_id db.users)
        (preference_of user_id db) (find (λ (f : Offer). f.id) offer_id db.offers) user_id db)
    ∙ match_found_jobs season now today payload created (find (λ (a : User). a.id) user_id db.users)
        (preference_of user_id db) (find (λ (f : Offer). f.id) offer_id db.offers) user_id db

advanced-key : (now : Time) (ids : List ℕ) (job : DurableJob) → (advanced now ids job).key ≡ job.key
advanced-key now [] job = refl
advanced-key now (n ∷ ns) job = refl

end_batch-owned :
    (token : String) (advance : DurableJob → DurableJob) (job : DurableJob)
    → is_owner token (some job) ≡ true
    → end_batch token advance job ≡ advance job
unfolding end_batch
end_batch-owned token advance job own = rw own refl

-- The row of a job whose claim still holds, after its batch of matches.
pub run_batch_row :
    (season : String) (now : Time) (today : Date) (token : String) (key : JobKey)
    (job row : DurableJob) (db : Db)
    → (job.payload.reconcile && not job.payload.offers_phase) ≡ false
    → find job_key key db.durable_jobs ≡ some row
    → is_owner token (some row) ≡ true
    → find job_key key (run_batch season now today token key job db).0.durable_jobs
      ≡ some (advanced now (batch_ids job.payload job.cursor db) row)
unfolding run_batch
run_batch_row season now today token key job row db phase found own =
    let ids = batch_ids job.payload job.cursor db in
    let db' : Db =
      match_pairs season now today job.payload job.created_at (pairs_of job.payload ids) db in
    let there : find job_key key db'.durable_jobs ≡ some row =
      ap (find job_key key)
        (match_pairs_jobs season now today job.payload job.created_at (pairs_of job.payload ids) db)
      ∙ found in
    let ends = end_batch-owned token (advanced now ids) row own in
    rw phase (
      ended_row token key (advanced now ids) db' row there
        (ap (λ (j : DurableJob). j.key) ends ∙ advanced-key now ids row)
      ∙ ap some ends)
