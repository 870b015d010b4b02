-- ===== src/AuthMail/Claims.antt =====
-- What a claim of `prepare` says of the state before and after it.
use summer_intern.Prelude.{
  ℕ, ◌+◌, ◌<◌, false, Option, none, some, String, ◌≡◌, refl, arith, Option-cases, inl, inr, find,
  first_where, ◌==◌, nat_eq, string_eq,
}
use summer_intern.Model.{Db, Time, User, Invitation, AuthMail}
use summer_intern.Security.{Crypto}
use summer_intern.AuthMail.Jobs.{held, save_job, is_withdrawn, locked, add_token, find_invitation}
use summer_intern.AuthMail.Attempt.{claimed, claim_of, admit, prepare_held, prepare}

-- The job and the account of a claim, which is committed with a fresh token for that account.
pub record IsClaim (crypto : Crypto) (now : Time) (raw : String) (id : ℕ) (db db' : Db)
    (attempt : ℕ) : Type 0 where
  pub job : AuthMail
  pub user : User
  pub email : String
  pub found : find (λ (j : AuthMail). j.id) id db.auth_mail ≡ some job
  pub readable : crypto.decrypt job.email_encrypted ≡ some email
  pub account : first_where (λ (u : User). u.email == email) db.users ≡ some user
  pub wanted : is_withdrawn now job (some user) (find_invitation job.invitation_id db) ≡ false
  pub room : job.attempts < 5
  pub number : attempt ≡ job.attempts + 1
  pub written : db' ≡ save_job (claim_of now job) (add_token crypto now raw user job.kind db)

module _ (crypto : Crypto) (now : Time) (raw : String) where
  admit-claimed :
      (job : AuthMail) (user : Option User) (invitation : Option Invitation) (db db' : Db)
      (attempt : ℕ)
      → admit crypto now raw job user invitation db ≡ claimed db' attempt
      → (u : User) × (user ≡ some u)
        × (is_withdrawn now job (some u) invitation ≡ false)
        × (job.attempts < 5)
        × (attempt ≡ job.attempts + 1)
        × (db' ≡ save_job (claim_of now job) (add_token crypto now raw u job.kind db))
  unfolding admit
  admit-claimed job none invitation db db' attempt h = cc
  admit-claimed job (some u) invitation db db' attempt h =
      (u, refl, ground arith, ground arith, ground arith, ground arith)

  prepare_held-claimed :
      (job : AuthMail) (user : Option User) (db db' : Db) (attempt : ℕ)
      → prepare_held crypto now raw (held job user) db ≡ claimed db' attempt
      → admit crypto now raw job user (find_invitation job.invitation_id db) db
        ≡ claimed db' attempt
  unfolding prepare_held
  prepare_held-claimed job user db db' attempt h = ground arith

  pub prepare-IsClaim :
      (id : ℕ) (db db' : Db) (attempt : ℕ)
      → prepare crypto now raw id db ≡ claimed db' attempt
      → IsClaim crypto now raw id db db' attempt
  unfolding prepare locked
  prepare-IsClaim id db db' attempt h =
      elim (Option-cases (find (λ (j : AuthMail). j.id) id db.auth_mail)) [
        | inl e ↦ absurd (cc (rw e at h))
        | inr (job, e) ↦ elim (Option-cases (crypto.decrypt job.email_encrypted)) [
          | inl d ↦ absurd (cc (rw (e, d) at h))
          | inr (email, d) ↦
              let account = first_where (λ (u : User). u.email == email) db.users in
              let admitted = prepare_held-claimed job account db db' attempt (rw (e, d) at h) in
              let (u, is_user, wanted, room, number, written) =
                admit-claimed job account (find_invitation job.invitation_id db) db db' attempt
                  admitted in
              record {
                job = job;
                user = u;
                email = email;
                found = e;
                readable = d;
                account = is_user;
                wanted = wanted;
                room = room;
                number = number;
                written = written;
              }
        ]
      ]
