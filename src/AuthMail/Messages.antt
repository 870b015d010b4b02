-- ===== src/AuthMail/Messages.antt =====
-- What an email that leaves the queue rests on: a committed token and an account that is still
-- entitled to it.
use summer_intern.Prelude.{
  Bool-cases, inl, inr, ℕ, Bool, true, false, none, some, [], ◌∷◌, String, ◌≡◌, refl, arith, nat_eq,
  string_eq,
}
use summer_intern.Model.{Db, Time, User, MailKind, AuthMail}
use summer_intern.Security.{Crypto}
use summer_intern.AuthMail.Jobs.{
  Locked, missing, invalid, held, is_withdrawn, owns, locked, find_invitation,
}
use summer_intern.AuthMail.Attempt.{
  Prepared, declined, refused, claimed, Message, Verified, broken, unreadable, withdrawn, cleared,
  path_of, Attempt, prepare, verify_held, verify, after_verify, after_prepare, process_auth_mail,
}
use summer_intern.AuthMail.Claims.{IsClaim, prepare-IsClaim}

-- What holds of a message `m` that a call sends.
pub record IsEntitled (crypto : Crypto) (world : Attempt) (id : ℕ) (db : Db) (m : Message)
    : Type 0 where
  -- The claim, committed with a token for the job's account before the message was made.
  pub after_claim : Db
  pub attempt : ℕ
  pub claim : IsClaim crypto world.prepared_at world.raw id db after_claim attempt
  -- The job and the account at the check before the message left, after what others did.
  pub job : AuthMail
  pub user : User
  pub checked : locked crypto id (world.before_verify after_claim) ≡ held job (some user)
  pub owned : owns world.prepared_at attempt job ≡ true
  pub wanted :
      is_withdrawn world.verified_at job
        (some user)
        (find_invitation job.invitation_id (world.before_verify after_claim))
      ≡ false
  pub message : m ≡ record { recipient = user.email; path = path_of job.kind; token = world.raw }

module _ (crypto : Crypto) (now later : Time) (attempt : ℕ) (raw : String) (db : Db) where
  verify_held-cleared :
      (found : Locked) (m : Message) (kind : MailKind)
      → verify_held crypto now later attempt raw found db ≡ cleared m kind
      → (job : AuthMail) × (user : User) × (found ≡ held job (some user))
        × (owns now attempt job ≡ true)
        × (is_withdrawn later job (some user) (find_invitation job.invitation_id db) ≡ false)
        × (m ≡ record { recipient = user.email; path = path_of job.kind; token = raw })
  unfolding verify_held
  verify_held-cleared missing m kind h = cc
  verify_held-cleared invalid m kind h = cc
  verify_held-cleared (held job none) m kind h = absurd (ground arith)
  verify_held-cleared (held job (some user)) m kind h =
      (job, user, refl, ground arith, ground arith, ground arith)

module _ (crypto : Crypto) (runtime_available : Bool) (world : Attempt) (id : ℕ) (db : Db)
    (m : Message) where
  sent_by :
      (db' : Db) (attempt : ℕ) (v : Verified)
      → (after_verify crypto runtime_available world attempt id db' v).messages ≡ m ∷ []
      → (kind : MailKind) × (v ≡ cleared m kind)
  unfolding after_verify
  sent_by db' attempt broken h = cc
  sent_by db' attempt unreadable h = cc
  sent_by db' attempt (withdrawn _) h = cc
  sent_by db' attempt (cleared m' kind) h = (kind, ground arith)

  checked_by :
      (db' : Db) (attempt : ℕ)
      → prepare crypto world.prepared_at world.raw id db ≡ claimed db' attempt
      → (after_verify crypto runtime_available world attempt id (world.before_verify db') (
          verify crypto world.prepared_at world.verified_at attempt world.raw id
            (world.before_verify db'))).messages
        ≡ m ∷ []
      → IsEntitled crypto world id db m
  unfolding verify
  checked_by db' attempt e h =
      let db'' = world.before_verify db' in
      let found = locked crypto id db'' in
      let (kind, is_cleared) =
        sent_by db'' attempt
          (verify_held crypto world.prepared_at world.verified_at attempt world.raw found db'') h in
      let (job, user, checked, owned, wanted, message) =
        verify_held-cleared crypto world.prepared_at world.verified_at attempt world.raw db'' found
          m kind is_cleared in
      record {
        after_claim = db';
        attempt = attempt;
        claim = prepare-IsClaim crypto world.prepared_at world.raw id db db' attempt e;
        job = job;
        user = user;
        checked = checked;
        owned = owned;
        wanted = wanted;
        message = message;
      }

  claimed_by :
      (p : Prepared)
      → prepare crypto world.prepared_at world.raw id db ≡ p
      → (after_prepare crypto runtime_available world id db p).messages ≡ m ∷ []
      → IsEntitled crypto world id db m
  unfolding after_prepare verify
  claimed_by (declined _) e h = cc
  claimed_by refused e h = cc
  claimed_by (claimed db' attempt) e h = elim (Bool-cases world.fails_verifying) [
    | inl raises ↦ absurd (cc (rw raises at h))
    | inr calm ↦ checked_by db' attempt e (rw calm at h)
  ]

-- If a call sends a message, it first committed a claim with the token of its link for the account
-- of the job, and at the check before sending, after whatever others did, the claim was still its
-- own, the account existed and was active, and the request was neither accepted, cancelled nor
-- expired; the message goes to that account's address and carries that token.
pub process_auth_mail-IsEntitled :
    (crypto : Crypto) (runtime_available : Bool) (world : Attempt) (id : ℕ) (db : Db) (m : Message)
    → (process_auth_mail crypto runtime_available world id db).messages ≡ m ∷ []
    → IsEntitled crypto world id db m
unfolding process_auth_mail
process_auth_mail-IsEntitled crypto runtime_available world id db m h =
    elim (Bool-cases world.fails_preparing) [
      | inl raises ↦ absurd (cc (rw raises at h))
      | inr calm ↦
          claimed_by crypto runtime_available world id db m
            (prepare crypto world.prepared_at world.raw id db) refl (rw calm at h)
    ]
