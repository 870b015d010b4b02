-- ===== src/AuthMail/Deferral.antt =====
-- A pass over the queue, exceptions included: the attempts of every job stay within their budget.
use summer_intern.Prelude.{
  ℕ, Bool, List, [], ◌∷◌, String, arith, All-update_where, Bool-cases, inl, inr,
}
use summer_intern.Model.{Db, Time}
use summer_intern.Security.{Crypto}
use summer_intern.AuthMail.Attempt.{Run, process_auth_mail}
use summer_intern.AuthMail.Budget.{WithinBudget, AllWithinBudget, Fair, process_auth_mail-Within}
use summer_intern.AuthMail.Queue.{
  fail_unreadable, defer_job, Pass, Progress, after_call, run_jobs, process_auth_queue, due_jobs,
}

fail_unreadable-Within :
    (id : ℕ) (db : Db) → AllWithinBudget db → AllWithinBudget (fail_unreadable id db)
unfolding fail_unreadable
fail_unreadable-Within id db h =
    All-update_where WithinBudget _ _ db.auth_mail (λ j w e. (w.0, λ p. cc)) h

defer_job-Within :
    (now : Time) (error : String) (id : ℕ) (db : Db)
    → AllWithinBudget db
    → AllWithinBudget (defer_job now error id db)
unfolding defer_job
defer_job-Within now error id db h =
    All-update_where WithinBudget _ _ db.auth_mail (λ j w e. ground arith) h

module _ (crypto : Crypto) (runtime_available : Bool) (pass : Pass)
    (fair : (id : ℕ) → Fair (pass.attempt id)) where
  after_call-Within :
      (id : ℕ) (before : Progress) (run : Run)
      → AllWithinBudget run.db
      → AllWithinBudget (after_call crypto runtime_available pass id before run).db
  unfolding after_call
  after_call-Within id before run h = ground (
    arith,
    fail_unreadable-Within id run.db h,
    defer_job-Within (pass.deferred_at id) (pass.error id) id run.db h,
  )

  run_jobs-Within :
      (ids : List ℕ) (before : Progress)
      → AllWithinBudget before.db
      → AllWithinBudget (run_jobs crypto runtime_available pass ids before).db
  unfolding run_jobs
  run_jobs-Within [] before h = h
  run_jobs-Within (id ∷ ids) before h =
      let run = process_auth_mail crypto runtime_available (pass.attempt id) id before.db in
      let next = run_jobs-Within ids (after_call crypto runtime_available pass id before run) (
        after_call-Within id before run (
          process_auth_mail-Within crypto runtime_available (pass.attempt id) (fair id) id before.db
            h)) in
      elim (Bool-cases (pass.expired id)) [ inl e ↦ rw e h | inr e ↦ rw e next ]

  -- A pass leaves every job with at most five attempts, and a pending one with one left, whatever
  -- the calls raise.
  pub process_auth_queue-Within :
      (now : Time) (db : Db)
      → AllWithinBudget db
      → AllWithinBudget (process_auth_queue crypto runtime_available pass now db).db
  unfolding process_auth_queue
  process_auth_queue-Within now db h = run_jobs-Within (due_jobs now db) _ h
