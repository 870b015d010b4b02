-- ===== src/Durable/Passes.antt =====
-- trackr_app/durable.py, the attempts of jobs of matching through whole passes of `process_jobs`.
use summer_intern.Prelude.{
  ℕ, ◌+◌, inl, inr, String, Bool, not, ◌&&◌, Option, none, some, List, [], ◌∷◌, nat_eq, string_eq,
  find, Bool-cases,
}
use summer_intern.Model.{Db, Time, Date, DurableJob, JobKey, job_key_eq, User, Preference, Delivery}
use summer_intern.Durable.Enqueue.{job_key}
use summer_intern.Durable.Matching.{match_pairs, preference_of}
use summer_intern.Durable.Batch.{
  Claimed, vanished, idle, claimed, claim_match, run_batch, advanced, reconciled, next_ids,
  deliveries_of, reconcile_ids, reconcile_batch, reconcile_for, batch_ids, pairs_of,
}
use summer_intern.Durable.Alerts.{match_pairs_jobs}
use summer_intern.Preferences.Reconcile.{delivery_id, reconcile_item, reconcile_delivery}
use summer_intern.Durable.Jobs.{
  Outcome, works, fails_before_claim, fails_after_claim, Call, handled, work, after_claim,
  process_match, run_matches, process_match_jobs, due_matches,
}
use summer_intern.Durable.Attempts.{
  AllWithinTries, ClaimedWithin, advanced-Within, reconciled-Within, claim_found-Within,
  found-Within, end_found-Within, handle-Within,
}

reconciled_jobs :
    (season : String) (now : Time) (today : Date) (p : Preference) (found : Option Delivery)
    (db : Db)
    → AllWithinTries db
    → AllWithinTries
        (elim found [ none ↦ db | some item ↦ reconcile_delivery season now today p item db ])
unfolding reconcile_delivery reconcile_item
reconciled_jobs season now today p none db h = h
reconciled_jobs season now today p (some item) db h = h

reconcile_ids-Within :
    (season : String) (now : Time) (today : Date) (p : Preference) (ids : List ℕ) (db : Db)
    → AllWithinTries db
    → AllWithinTries (reconcile_ids season now today p ids db)
unfolding reconcile_ids
reconcile_ids-Within season now today p [] db h = h
reconcile_ids-Within season now today p (id ∷ ids) db h =
    reconcile_ids-Within season now today p ids _
      (reconciled_jobs season now today p (find delivery_id id db.deliveries) db h)

reconcile_for-Within :
    (season : String) (now : Time) (today : Date) (u : Option User) (p : Option Preference)
    (ids : List ℕ) (db : Db)
    → AllWithinTries db
    → AllWithinTries (reconcile_for season now today u p ids db)
reconcile_for-Within season now today none p ids db h = h
reconcile_for-Within season now today (some u) none ids db h = h
reconcile_for-Within season now today (some u) (some p) ids db h = elim (Bool-cases u.is_active) [
  | inl active ↦ rw active (reconcile_ids-Within season now today p ids db h)
  | inr gone ↦ rw gone h
]

reconcile_user-Within :
    (season : String) (now : Time) (today : Date) (user_id : Option ℕ) (ids : List ℕ) (db : Db)
    → AllWithinTries db
    → AllWithinTries (elim user_id [
      | none ↦ db
      | some id ↦
          reconcile_for season now today
            (find (λ (u : User). u.id) id db.users)
            (preference_of id db)
            ids
            db
    ])
reconcile_user-Within season now today none ids db h = h
reconcile_user-Within season now today (some id) ids db h =
    reconcile_for-Within season now today (find (λ (u : User). u.id) id db.users)
      (preference_of id db) ids db h

run_batch-Within :
    (season : String) (now : Time) (today : Date) (token : String) (key : JobKey) (job : DurableJob)
    (db : Db)
    → AllWithinTries db
    → AllWithinTries (run_batch season now today token key job db).0
unfolding run_batch
run_batch-Within season now today token key job db h =
    elim (Bool-cases (job.payload.reconcile && not job.payload.offers_phase)) [
      | inl reconciling ↦
          let ids = next_ids job.cursor (deliveries_of season now today job.payload.user_id db) in
          let db' = reconcile_batch season now today job.payload ids db in
          let h' = reconcile_user-Within season now today job.payload.user_id ids db h in
          rw reconciling (
            end_found-Within token (reconciled job.payload ids) (find job_key key db'.durable_jobs)
              db' (λ row e. found-Within key db' row h' e) (reconciled-Within job.payload ids) h')
      | inr matching_phase ↦
          let ids = batch_ids job.payload job.cursor db in
          let pairs = pairs_of job.payload ids in
          let db' : Db = match_pairs season now today job.payload job.created_at pairs db in
          let h' : AllWithinTries db' =
            rw (match_pairs_jobs season now today job.payload job.created_at pairs db) h in
          rw matching_phase (
            end_found-Within token (advanced now ids) (find job_key key db'.durable_jobs) db'
              (λ row e. found-Within key db' row h' e) (advanced-Within now ids) h')
    ]

-- What others commit during a call keeps the budget too.
pub record FairCall (call : Call) : Type 0 where
  pub before_work : (db : Db) → AllWithinTries db → AllWithinTries (call.before_work db)
  pub before_handler : (db : Db) → AllWithinTries db → AllWithinTries (call.before_handler db)

handled-Within :
    (season : String) (call : Call) (fair : FairCall call) (error : String) (claim : Option String)
    (key : JobKey) (db : Db)
    → AllWithinTries db
    → AllWithinTries (handled season call error claim key db)
handled-Within season call fair error claim key db h =
    let db' = call.before_handler db in
    let h' = fair.before_handler db h in
    handle-Within call.handled_at error claim (find job_key key db'.durable_jobs) db'
      (λ row e. found-Within key db' row h' e) h'

work-Within :
    (season : String) (call : Call) (fair : FairCall call) (outcome : Outcome) (key : JobKey)
    (job : DurableJob) (db : Db)
    → AllWithinTries db
    → AllWithinTries (work season call outcome key job db).0
unfolding work
work-Within season call fair works key job db h =
    run_batch-Within season call.worked_at call.today call.token key job (call.before_work db)
      (fair.before_work db h)
work-Within season call fair (fails_before_claim error) key job db h =
    handled-Within season call fair error (some call.token) key db h
work-Within season call fair (fails_after_claim error) key job db h =
    handled-Within season call fair error (some call.token) key db h

after_claim-Within :
    (season : String) (call : Call) (fair : FairCall call) (key : JobKey) (db : Db) (c : Claimed)
    → ClaimedWithin c
    → AllWithinTries db
    → AllWithinTries (after_claim season call key db c).0
unfolding after_claim
after_claim-Within season call fair key db vanished w h =
    handled-Within season call fair "AttributeError" none key db h
after_claim-Within season call fair key db (idle db') w h = w
after_claim-Within season call fair key db (claimed db' job) w h =
    work-Within season call fair call.outcome key job db' w

claim_match-Within :
    (now : Time) (token : String) (key : JobKey) (db : Db)
    → AllWithinTries db
    → ClaimedWithin (claim_match now token key db)
unfolding claim_match
claim_match-Within now token key db h =
    claim_found-Within now token (find job_key key db.durable_jobs) db
      (λ row e. found-Within key db row h e) h

process_match-Within :
    (season : String) (call : Call) (fair : FairCall call) (outcome : Outcome) (key : JobKey)
    (db : Db)
    → AllWithinTries db
    → AllWithinTries (process_match season call outcome key db).0
unfolding process_match
process_match-Within season call fair works key db h =
    after_claim-Within season call fair key db _
      (claim_match-Within call.claimed_at call.token key db h) h
process_match-Within season call fair (fails_after_claim error) key db h =
    after_claim-Within season call fair key db _
      (claim_match-Within call.claimed_at call.token key db h) h
process_match-Within season call fair (fails_before_claim error) key db h =
    handled-Within season call fair error none key db h

run_matches-Within :
    (season : String) (expired : JobKey → Bool) (calls : JobKey → Call)
    (fair : (key : JobKey) → FairCall (calls key)) (keys : List JobKey) (db : Db) (count : ℕ)
    → AllWithinTries db
    → AllWithinTries (run_matches season expired calls keys db count).0
unfolding run_matches
run_matches-Within season expired calls fair [] db count h = h
run_matches-Within season expired calls fair (key ∷ keys) db count h =
    let call = calls key in
    let result = process_match season call call.outcome key db in
    let rest =
      run_matches-Within season expired calls fair keys result.0 (count + result.1)
        (process_match-Within season call (fair key) call.outcome key db h) in
    elim (Bool-cases (expired key)) [ inl over ↦ rw over h | inr left ↦ rw left rest ]

-- A pass over the jobs of matching, whatever its calls raise and however others interleave within
-- the budget, leaves every job with at most five attempts, and a pending one with one left.
pub process_match_jobs-Within :
    (season : String) (order : JobKey → ℕ) (expired : JobKey → Bool) (calls : JobKey → Call)
    (fair : (key : JobKey) → FairCall (calls key)) (now : Time) (db : Db)
    → AllWithinTries db
    → AllWithinTries (process_match_jobs season order expired calls now db).0
unfolding process_match_jobs
process_match_jobs-Within season order expired calls fair now db h =
    run_matches-Within season expired calls fair (due_matches order now db) db 0 h
