-- ===== src/Invitations/Budget.antt =====
-- trackr_app/invitations.py: a delivery keeps the budget of attempts of the emails.
use summer_intern.Prelude.{
  ℕ, ◌≡◌, refl, Bool, Option, none, some, All-append, first_where, first_where-All, find,
  Bool-cases, inl, inr, arith, nat_eq, string_eq, ◌==◌, fresh_id, is_some, not, ◌||◌,
}
use summer_intern.Model.{Db, User, Invitation, AuthMail, magic, is_pending}
use summer_intern.Security.{Crypto}
use summer_intern.AuthMail.Jobs.{enqueue}
use summer_intern.AuthMail.Attempt.{Attempt}
use summer_intern.AuthMail.Budget.{
  WithinBudget, AllWithinBudget, Fair, save_job-Within, process_auth_mail-Within,
}
use summer_intern.Invitations.{
  mail_id, job_of, cancel_job, renewed, deliver_to, deliver_found, deliver_with, deliver_invitation,
}

renewed-Within : (i : Invitation) (j : AuthMail) → WithinBudget j → WithinBudget (renewed i j)
unfolding renewed
renewed-Within i j w = ground arith

cancel_job-Within :
    (job : Option AuthMail) (db : Db)
    → ((j : AuthMail) → job ≡ some j → WithinBudget j)
    → AllWithinBudget db
    → AllWithinBudget (cancel_job job db)
cancel_job-Within none db w h = h
cancel_job-Within (some j) db w h =
    save_job-Within _ db.auth_mail ((w j refl).0, λ p. absurd (cc)) h

module _ (crypto : Crypto) (runtime_available : Bool) (world : Attempt) (fair : Fair world) where
  enqueue-Within :
      (u : User) (i : Invitation) (db : Db)
      → AllWithinBudget db
      → AllWithinBudget (enqueue crypto world.prepared_at u.email magic (some i.id) db)
  unfolding enqueue
  enqueue-Within u i db h =
      All-append WithinBudget db.auth_mail _ h ((omega arith, λ p. omega arith), tt)

  deliver_to-Within :
      (u : User) (i : Invitation) (job : Option AuthMail) (db : Db)
      → ((j : AuthMail) → job ≡ some j → WithinBudget j)
      → AllWithinBudget db
      → AllWithinBudget (deliver_to crypto runtime_available world u i job db).db
  unfolding deliver_to
  deliver_to-Within u i none db w h =
      process_auth_mail-Within crypto runtime_available world fair (fresh_id mail_id db.auth_mail) _
        (enqueue-Within u i db h)
  deliver_to-Within u i (some j) db w h =
      process_auth_mail-Within crypto runtime_available world fair j.id _
        (save_job-Within (renewed i j) db.auth_mail (renewed-Within i j (w j refl)) h)

  deliver_found-Within :
      (i : Invitation) (user : Option User) (job : Option AuthMail) (db : Db)
      → ((j : AuthMail) → job ≡ some j → WithinBudget j)
      → AllWithinBudget db
      → AllWithinBudget (deliver_found crypto runtime_available world i user job db).db
  unfolding deliver_found
  deliver_found-Within i none job db w h = cancel_job-Within job _ w h
  deliver_found-Within i (some u) job db w h = elim (Bool-cases (not u.is_active)) [
    | inl gone ↦ rw gone (cancel_job-Within job _ w h)
    | inr active ↦ elim (Bool-cases (is_some i.accepted_at || not (is_pending i.delivery_status))) [
      | inl over ↦ rw (active, over) h
      | inr open_one ↦ rw (active, open_one) (deliver_to-Within u i job db w h)
    ]
  ]

  deliver_with-Within :
      (found : Option Invitation) (db : Db)
      → AllWithinBudget db
      → AllWithinBudget (deliver_with crypto runtime_available world found db).db
  deliver_with-Within none db h = h
  deliver_with-Within (some i) db h =
      deliver_found-Within i (first_where (λ (u : User). u.email == i.email) db.users)
        (job_of i.id db) db (λ j e. first_where-All WithinBudget _ db.auth_mail j h e) h

  -- The delivery of an invitation, a resend included, leaves every email with at most five attempts
  -- and a pending one with one left.
  pub deliver_invitation-Within :
      (id : ℕ) (db : Db)
      → AllWithinBudget db
      → AllWithinBudget (deliver_invitation crypto runtime_available world id db).db
  unfolding deliver_invitation
  deliver_invitation-Within id db h =
      deliver_with-Within (find (λ (v : Invitation). v.id) id db.invitations) db h
