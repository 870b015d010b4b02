-- ===== src/AuthMail/Attempt.antt =====
-- trackr_app/auth_mail.py, `process_auth_mail`: its three transactions, `prepare`, `verify` and
-- `finish`, and their composition with any changes that others commit in between.
use summer_intern.Prelude.{
  ℕ, ◌+◌, ◌-◌, Bool, true, false, not, ◌&&◌, ◌||◌, Option, none, some, List, [], ◌∷◌, String, ◌==◌,
  nat_eq, leb, is_some, or_else, if◌then◌else◌,
}
use summer_intern.Model.{
  Db, Time, pending, processing, sent, failed, cancelled, is_pending, is_processing, is_sent, User,
  Invitation, MailKind, password, magic, AuthMail,
}
use summer_intern.Operations.{next_retry}
use summer_intern.Security.{Crypto}
use summer_intern.Maintenance.{completed}
use summer_intern.AuthMail.Jobs.{
  Locked, missing, invalid, held, save_job, save_invitation, find_invitation, is_withdrawn,
  has_lapsed, is_later, owns, locked, add_token,
}

-- The first transaction commits and returns False, raises InvalidToken with nothing written, or
-- commits a claim under its attempt's number.
pub data Prepared : Type 0 where
  declined : Db → Prepared
  refused : Prepared
  claimed : Db → ℕ → Prepared

-- An email handed to the sender: its address, and the path and token of its link.
pub record Message : Type 0 where
  pub recipient : String
  pub path : String
  pub token : String

-- The second transaction raises (InvalidToken, or an attribute of a deleted row), commits and
-- returns False, or clears a message of the job's kind.
pub data Verified : Type 0 where
  broken unreadable : Verified
  withdrawn : Db → Verified
  cleared : Message → MailKind → Verified

abbrev pub path_of : MailKind → String
path_of password = "/auth/password/reset/"
path_of magic = "/auth/consume/"

abbrev pub cancel_invitation : Option Invitation → Option Invitation
cancel_invitation none = none
cancel_invitation (some i) =
    if is_some i.accepted_at then some i else some (record i { delivery_status = cancelled })

abbrev pub exhausted : AuthMail → AuthMail
exhausted job = record job {
  status = failed;
  last_error = or_else job.last_error (some "DeliveryLeaseExhausted");
}

abbrev pub exhaust_invitation : AuthMail → Option Invitation → Option Invitation
exhaust_invitation job none = none
exhaust_invitation job (some i) =
    some
      (record i { delivery_status = failed; last_error = job.last_error; attempts = job.attempts })

abbrev pub claim_of : Time → AuthMail → AuthMail
claim_of now job = record job {
  status = processing;
  processing_started_at = some now;
  attempts = job.attempts + 1;
}

-- The row after a delivery that still holds its job.
abbrev pub settled : Time → ℕ → Bool → Option String → AuthMail → AuthMail
settled now attempt true failure job = record job {
  status = cancelled;
  processing_started_at = none;
}
settled now attempt false none job = record job {
  status = sent;
  last_error = none;
  next_attempt_at = none;
  processing_started_at = none;
}
settled now attempt false (some error) job = record job {
  status = if leb 5 attempt then failed else pending;
  last_error = some error;
  next_attempt_at = some (next_retry now attempt);
  processing_started_at = none;
}

abbrev pub settled_invitation : ℕ → Option String → AuthMail → Option Invitation → Option Invitation
settled_invitation attempt failure job none = none
settled_invitation attempt failure job (some i) = some (record i {
  delivery_status = job.status;
  attempts = if is_some failure then attempt else attempt - 1;
  last_error = job.last_error;
  next_attempt_at = job.next_attempt_at;
})

module _ (crypto : Crypto) where
  -- A job that may be attempted at this time. With no account `_cancelled` holds.
  unfoldable pub admit : Time → String → AuthMail → Option User → Option Invitation → Db → Prepared
  unfolding is_withdrawn
  admit now raw job user invitation db =
      if is_withdrawn now job user invitation
      then declined (
          save_invitation (cancel_invitation invitation)
            (save_job (record job { status = cancelled }) db))
      else if leb 5 job.attempts
      then declined (
          save_invitation (exhaust_invitation (exhausted job) invitation)
            (save_job (exhausted job) db))
      else elim user [
        | none ↦ refused
        | some u ↦
            claimed (save_job (claim_of now job) (add_token crypto now raw u job.kind db))
              (job.attempts + 1)
      ]

  unfoldable pub prepare_held : Time → String → Locked → Db → Prepared
  unfolding admit
  prepare_held now raw missing db = declined db
  prepare_held now raw invalid db = refused
  prepare_held now raw (held job user) db =
      let stale = is_processing job.status && has_lapsed now job.processing_started_at in
      if not (is_pending job.status) && not stale
      then declined db
      else if is_later now job.next_attempt_at
      then declined db
      else admit now raw job user (find_invitation job.invitation_id db) db

  unfoldable pub prepare : Time → String → ℕ → Db → Prepared
  unfolding prepare_held
  prepare now raw job_id db = prepare_held now raw (locked crypto job_id db) db

  -- The lease is `now` of the first transaction and its attempt; `later` is this one's time.
  unfoldable pub verify_held : Time → Time → ℕ → String → Locked → Db → Verified
  verify_held now later attempt raw missing db = broken
  verify_held now later attempt raw invalid db = unreadable
  verify_held now later attempt raw (held job user) db =
      if not (owns now attempt job)
        || is_withdrawn later job user (find_invitation job.invitation_id db)
      then withdrawn (
          if is_processing job.status && job.attempts == attempt
          then save_job (record job { status = cancelled }) db
          else db)
      else elim user [
        | none ↦ broken
        | some u ↦
            cleared (record { recipient = u.email; path = path_of job.kind; token = raw }) job.kind
      ]

  unfoldable pub verify : Time → Time → ℕ → String → ℕ → Db → Verified
  unfolding verify_held
  verify now later attempt raw job_id db =
      verify_held now later attempt raw (locked crypto job_id db) db

module _ (crypto : Crypto) (runtime_available : Bool) where
  -- The rows that the last transaction writes for a job that it still owns.
  unfoldable pub settle : Time → ℕ → Option String → Option Invitation → AuthMail → Db → Db
  settle later attempt failure invitation job' db =
      let db' =
        save_invitation (settled_invitation attempt failure job' invitation) (save_job job' db) in
      if is_sent job'.status then completed runtime_available later "auth_mail" job'.id db' else db'

  -- The last transaction: the new state, and the result unless it raises InvalidToken.
  unfoldable pub finish_held : Time → Time → ℕ → Option String → Locked → Db → Db × Option Bool
  unfolding settle
  finish_held now later attempt failure missing db = (db, some false)
  finish_held now later attempt failure invalid db = (db, none)
  finish_held now later attempt failure (held job user) db =
      let invitation = find_invitation job.invitation_id db in
      let job' = settled later attempt (is_withdrawn later job user invitation) failure job in
      if not (owns now attempt job)
      then (db, some false)
      else (settle later attempt failure invitation job' db, some (is_sent job'.status))

  unfoldable pub finish : Time → Time → ℕ → Option String → ℕ → Db → Db × Option Bool
  unfolding finish_held
  finish now later attempt failure job_id db =
      finish_held now later attempt failure (locked crypto job_id db) db

-- What the world decides during one call: the times of the three transactions, the new token, the
-- sender's failure, what others commit after each of the first two transactions, and whether a
-- transaction raises, as on an error of the database, which rolls it back.
pub record Attempt : Type 0 where
  pub prepared_at : Time
  pub verified_at : Time
  pub finished_at : Time
  pub raw : String
  pub failure : Option String
  pub before_verify : Db → Db
  pub before_finish : Db → Db
  pub fails_preparing : Bool
  pub fails_verifying : Bool
  pub fails_finishing : Bool

-- How a call ends.
pub data Ending : Type 0 where
  returned : Bool → Ending
  raised_invalid_token raised_other : Ending

-- The state after a call, the messages that were handed to the sender, and how it ended.
pub record Run : Type 0 where
  pub db : Db
  pub messages : List Message
  pub ending : Ending

abbrev pub ending_of : Option Bool → Ending
ending_of none = raised_invalid_token
ending_of (some b) = returned b

abbrev pub raised : Db → List Message → Run
raised db messages = record { db = db; messages = messages; ending = raised_other }

module _ (crypto : Crypto) (runtime_available : Bool) (world : Attempt) where
  unfoldable pub after_verify : ℕ → ℕ → Db → Verified → Run
  after_verify attempt job_id db broken = raised db []
  after_verify attempt job_id db unreadable = record {
    db = db;
    messages = [];
    ending = raised_invalid_token;
  }
  after_verify attempt job_id db (withdrawn db') = record {
    db = db';
    messages = [];
    ending = returned false;
  }
  after_verify attempt job_id db (cleared message kind) =
      let (db', result) =
        finish crypto runtime_available world.prepared_at world.finished_at attempt world.failure
          job_id (world.before_finish db) in
      if world.fails_finishing
      then raised (world.before_finish db) (message ∷ [])
      else record { db = db'; messages = message ∷ []; ending = ending_of result }

  unfoldable pub after_prepare : ℕ → Db → Prepared → Run
  unfolding after_verify
  after_prepare job_id db (declined db') = record {
    db = db';
    messages = [];
    ending = returned false;
  }
  after_prepare job_id db refused = record { db = db; messages = []; ending = raised_invalid_token }
  after_prepare job_id db (claimed db' attempt) =
      let db'' = world.before_verify db' in
      let run =
        after_verify attempt job_id db''
          (verify crypto world.prepared_at world.verified_at attempt world.raw job_id db'') in
      if world.fails_verifying then raised db'' [] else run

  unfoldable pub process_auth_mail : ℕ → Db → Run
  unfolding after_prepare
  process_auth_mail job_id db =
      let run = after_prepare job_id db (prepare crypto world.prepared_at world.raw job_id db) in
      if world.fails_preparing then raised db [] else run
