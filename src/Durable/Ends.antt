-- ===== src/Durable/Ends.antt =====
-- trackr_app/durable.py, `process_jobs`: a job of matching comes to its end.
use summer_intern.Prelude.{
  ℕ, ◌≡◌, ◌<◌, ◌∙◌, inl, inr, refl, ap, sym, String, string_eq, true, false, not, ◌&&◌, Option,
  none, some, List, [], ◌∷◌, nat_eq, find, length, leb, arith, Bool-cases, eq_iff,
}
use summer_intern.Model.{
  Db, Time, Date, User, Offer, Preference, Payload, DurableJob, JobKey, job_key_eq, done,
  is_unfinished,
}
use summer_intern.Durable.Enqueue.{job_key}
use summer_intern.Durable.Matching.{
  is_eligible, match_found, match_pair, match_pairs, preference_of, record_match,
}
use summer_intern.Durable.Batch.{
  is_running, save_durable, claimed, idle, claimed_match, claim_found, claim_match, batch_ids,
  pairs_of, advanced, run_batch, end_found, next_ids,
}
use summer_intern.Durable.Jobs.{Call, works, process_match, after_claim, work}
use summer_intern.Durable.Leases.{claimed_row}
use summer_intern.Durable.Progress.{remaining, batch_advances, batch-Covered}
use summer_intern.Durable.Alerts.{run_batch_row}
use summer_intern.Durable.Advances.{table_of, table_for, advanced_by, batch_ids-table}

-- A call that nothing disturbs: its token, the times of its two transactions, and the date.
abbrev pub Round : Type 0
Round = String × Time × Time × Date

abbrev pub calm_call : Round → Call
calm_call (token, claimed_at, worked_at, today) = record {
  token = token;
  claimed_at = claimed_at;
  before_work = λ db. db;
  worked_at = worked_at;
  today = today;
  outcome = works;
  before_handler = λ db. db;
  handled_at = worked_at;
}

-- Calls for one job, one after the other.
unfoldable pub call_each : String → JobKey → List Round → Db → Db
call_each season key [] db = db
call_each season key (round ∷ rounds) db =
    call_each season key rounds (process_match season (calm_call round) works key db).0

-- The tables that matching reads stay as they are.
match_found_table :
    (season : String) (now : Time) (today : Date) (payload : Payload) (created : Time)
    (account : Option User) (pref : Option Preference) (offer : Option Offer) (user_id : ℕ)
    (db : Db) (o : Option ℕ)
    → table_for o (match_found season now today payload created account pref offer user_id db)
      ≡ table_for o db
unfolding match_found record_match
match_found_table season now today payload created none pref offer user_id db none = refl
match_found_table season now today payload created none pref offer user_id db (some _) = refl
match_found_table season now today payload created (some a) none offer user_id db none = refl
match_found_table season now today payload created (some a) none offer user_id db (some _) = refl
match_found_table season now today payload created (some a) (some p) none user_id db none = refl
match_found_table season now today payload created (some a) (some p) none user_id db (some _) = refl
match_found_table season now today payload created (some a) (some p) (some f) user_id db none =
    elim (Bool-cases (is_eligible season now today payload created a p f db)) [
      | inl fits ↦ rw fits refl
      | inr unfit ↦ rw unfit refl
    ]
match_found_table season now today payload created (some a) (some p) (some f) user_id db (some _) =
    elim (Bool-cases (is_eligible season now today payload created a p f db)) [
      | inl fits ↦ rw fits refl
      | inr unfit ↦ rw unfit refl
    ]

match_pairs_table :
    (season : String) (now : Time) (today : Date) (payload : Payload) (created : Time)
    (pairs : List (ℕ × ℕ)) (db : Db) (o : Option ℕ)
    → table_for o (match_pairs season now today payload created pairs db) ≡ table_for o db
unfolding match_pairs match_pair
match_pairs_table season now today payload created [] db o = refl
match_pairs_table season now today payload created ((user_id, offer_id) ∷ pairs) db o =
    match_pairs_table season now today payload created pairs
      (match_found season now today payload created (find (λ (a : User). a.id) user_id db.users)
        (preference_of user_id db) (find (λ (f : Offer). f.id) offer_id db.offers) user_id db)
      o
    ∙ match_found_table season now today payload created
        (find (λ (a : User). a.id) user_id db.users) (preference_of user_id db)
        (find (λ (f : Offer). f.id) offer_id db.offers) user_id db o

end_found_table :
    (token : String) (advance : DurableJob → DurableJob) (found : Option DurableJob) (db : Db)
    (o : Option ℕ)
    → table_for o (end_found token advance found db) ≡ table_for o db
unfolding end_found
end_found_table token advance none db o = refl
end_found_table token advance (some job) db none = refl
end_found_table token advance (some job) db (some _) = refl

run_batch_table :
    (season : String) (now : Time) (today : Date) (token : String) (key : JobKey) (job : DurableJob)
    (db : Db) (o : Option ℕ)
    → (job.payload.reconcile && not job.payload.offers_phase) ≡ false
    → table_for o (run_batch season now today token key job db).0 ≡ table_for o db
unfolding run_batch
run_batch_table season now today token key job db o phase =
    let ids = batch_ids job.payload job.cursor db in
    let pairs = pairs_of job.payload ids in
    let db' : Db = match_pairs season now today job.payload job.created_at pairs db in
    rw phase (
      end_found_table token (advanced now ids) (find job_key key db'.durable_jobs) db' o
      ∙ match_pairs_table season now today job.payload job.created_at pairs db o)

save_durable_table :
    (job : DurableJob) (db : Db) (o : Option ℕ) → table_for o (save_durable job db) ≡ table_for o db
save_durable_table job db none = refl
save_durable_table job db (some _) = refl

claims_free :
    (now : Time) (token : String) (key : JobKey) (db : Db) (row : DurableJob)
    → find job_key key db.durable_jobs ≡ some row
    → is_unfinished row.status ≡ true
    → is_running now row.lease_until ≡ false
    → leb 5 row.attempts ≡ false
    → claim_match now token key db ≡ claimed (save_durable (claimed_match now token row) db) row
unfolding claim_match claim_found
claims_free now token key db row found unfinished free left =
    rw found (rw (unfinished, free, left) refl)

claims_none :
    (now : Time) (token : String) (key : JobKey) (db : Db) (row : DurableJob)
    → find job_key key db.durable_jobs ≡ some row
    → is_unfinished row.status ≡ false
    → claim_match now token key db ≡ idle db
unfolding claim_match claim_found
claims_none now token key db row found finished = rw found (rw finished refl)

-- A finished job is left as it is.
stays_done :
    (season : String) (key : JobKey) (rounds : List Round) (db : Db) (row : DurableJob)
    → find job_key key db.durable_jobs ≡ some row
    → is_unfinished row.status ≡ false
    → find job_key key (call_each season key rounds db).durable_jobs ≡ some row
unfolding call_each process_match after_claim
stays_done season key [] db row found finished = found
stays_done season key ((token, now, later, today) ∷ rounds) db row found finished =
    let call = calm_call (token, now, later, today) in
    ap
      (λ c.
        find job_key key
          (call_each season key rounds (after_claim season call key db c).0).durable_jobs)
      (claims_none now token key db row found finished)
    ∙ stays_done season key rounds db row found finished

advanced-payload :
    (now : Time) (ids : List ℕ) (job : DurableJob) → (advanced now ids job).payload ≡ job.payload
advanced-payload now [] job = refl
advanced-payload now (n ∷ ns) job = refl

-- What one call does to a job that is free: the row after it, and the state.
called :
    (season : String) (key : JobKey) (rounds : List Round) (token : String) (now later : Time)
    (today : Date) (db : Db) (row : DurableJob)
    → find job_key key db.durable_jobs ≡ some row
    → is_unfinished row.status ≡ true
    → is_running now row.lease_until ≡ false
    → leb 5 row.attempts ≡ false
    → call_each season key ((token, now, later, today) ∷ rounds) db
      ≡ call_each season key rounds
          (run_batch season later today token key row
            (save_durable (claimed_match now token row) db)).0
unfolding call_each process_match after_claim work
called season key rounds token now later today db row found unfinished free left =
    ap
      (λ c.
        call_each season key rounds
          (after_claim season (calm_call (token, now, later, today)) key db c).0)
      (claims_free now token key db row found unfinished free left)

-- Undisturbed calls for a job of matching bring it to its end, in at most one call more than
-- identities of its table are above its cursor. The job is unfinished, nobody holds its lease, an
-- attempt is left, and the reconciliation that may come first is over.
pub job_ends :
    (season : String) (key : JobKey) (rounds : List Round) (db : Db) (row : DurableJob)
    → find job_key key db.durable_jobs ≡ some row
    → is_unfinished row.status ≡ true
    → row.lease_until ≡ none
    → row.attempts < 5
    → (row.payload.reconcile && not row.payload.offers_phase) ≡ false
    → remaining row.cursor (table_of row.payload db) < length rounds
    → (r : DurableJob) × (find job_key key (call_each season key rounds db).durable_jobs ≡ some r)
      × (r.status ≡ done)
job_ends season key [] db row found unfinished free left phase enough =
    absurd (omega (arith, enough))
job_ends season key ((token, now, later, today) ∷ rounds) db row found unfinished free left phase
      enough =
    let taken = claimed_match now token row in
    let db' = save_durable taken db in
    let claims =
      claims_free now token key db row found unfinished (ap (is_running now) free)
        (ground (arith, left)) in
    let found' = claimed_row now token key db db' row claims in
    let page = batch_ids row.payload row.cursor db' in
    let r = advanced later page taken in
    let db'' : Db = (run_batch season later today token key row db').0 in
    let there : find job_key key db''.durable_jobs ≡ some r =
      run_batch_row season later today token key row taken db' phase found'
        (ground (arith, eq_iff token token)) in
    let steps =
      called season key rounds token now later today db row found unfinished
        (ap (is_running now) free) (ground (arith, left)) in
    let same : next_ids row.cursor (table_of row.payload db') ≡ page =
      sym (batch_ids-table row.payload row.cursor db') in
    let table = table_of row.payload db' in
    let before = save_durable_table taken db row.payload.offer_id in
    let kept : table_of r.payload db'' ≡ table =
      ap (λ (p : Payload). table_of p db'') (advanced-payload later page taken)
      ∙ run_batch_table season later today token key row db' row.payload.offer_id phase in
    elim (advanced_by later row.cursor table page taken same
      (rw same at (batch_advances row.cursor table))
      (rw same at (batch-Covered row.cursor table))) [
        | inl finished ↦ (
          r,
          ap (λ (d : Db). find job_key key d.durable_jobs) steps
              ∙ stays_done season key rounds db'' r there (ap is_unfinished finished.0),
          finished.0,
        )
        | inr moved ↦
            let ends =
              job_ends season key rounds db'' r there (ap is_unfinished moved.0) moved.1
                (omega (arith, moved.2))
                (ap (λ (p : Payload). p.reconcile && not p.offers_phase)
                    (advanced-payload later page taken)
                  ∙ phase)
                (omega (
                  arith,
                  ap (remaining r.cursor) kept,
                  ap (remaining row.cursor) before,
                  moved.4,
                  enough,
                )) in
            (ends.0, ap (λ (d : Db). find job_key key d.durable_jobs) steps ∙ ends.1, ends.2)
      ]
