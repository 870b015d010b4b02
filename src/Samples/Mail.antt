-- ===== src/Samples/Mail.antt =====
-- Runs of the queue of sign-in emails of trackr_app/auth_mail.py.
use summer_intern.Prelude.{map, ◌≡◌, refl, arith, true, false, none, some, [], ◌∷◌, find, nat_eq}
use summer_intern.Model.{Db, AuthMail, is_sent}
use summer_intern.AuthMail.Jobs.{locked, owns, is_withdrawn}
use summer_intern.AuthMail.Attempt.{
  claimed, declined, claim_of, prepare, process_auth_mail, finish, settled, Message,
}
use summer_intern.AuthMail.Queue.{process_auth_queue, Pass}
use summer_intern.AuthMail.Budget.{AllWithinBudget, Fair, process_auth_mail-Within}
use summer_intern.AuthMail.Deferral.{process_auth_queue-Within}
use summer_intern.AuthMail.Leases.{claim_excludes, IsOutcome, finish_owned}
use summer_intern.AuthMail.Messages.{IsEntitled, process_auth_mail-IsEntitled}
use summer_intern.Invitations.{deliver_invitation}
use summer_intern.Invitations.Budget.{deliver_invitation-Within}
use summer_intern.AuthMail.Attempt.{returned}
use summer_intern.Model.{pending}
use summer_intern.Samples.{test_crypto, ada, reset_mail, mail_db, calm}

abbrev claimed_db : Db
claimed_db = record mail_db {
  auth_mail = claim_of 10 reset_mail ∷ [];
  password_tokens =
      record {
        id = 1;
        user_id = 1;
        token_hash = "#token";
        expires_at = 900000010;
        used_at = none;
        created_at = 10;
      }
      ∷ [];
}

prepare_example : prepare test_crypto 10 "token" 7 mail_db ≡ claimed claimed_db 1
unfolding prepare locked find summer_intern.Prelude.first_where
    summer_intern.AuthMail.Jobs.add_token summer_intern.Prelude.save summer_intern.Prelude.fresh_id
prepare_example = refl

claim_excludes_example : prepare test_crypto 100 "other" 7 claimed_db ≡ declined claimed_db
claim_excludes_example =
    claim_excludes test_crypto 10 100 "token" "other" 7 mail_db claimed_db 1 prepare_example
      (omega arith)

abbrev sent_message : Message
sent_message = record {
  recipient = "ada@example.org";
  path = "/auth/password/reset/";
  token = "token";
}

sends_example : (process_auth_mail test_crypto false calm 7 mail_db).messages ≡ sent_message ∷ []
unfolding process_auth_mail prepare locked find summer_intern.Prelude.first_where
    summer_intern.AuthMail.Attempt.verify summer_intern.Prelude.save
    summer_intern.AuthMail.Jobs.add_token owns
sends_example = refl

process_auth_mail-IsEntitled_example : IsEntitled test_crypto calm 7 mail_db sent_message
process_auth_mail-IsEntitled_example =
    process_auth_mail-IsEntitled test_crypto false calm 7 mail_db sent_message sends_example

calm-Fair : Fair calm
calm-Fair = record { before_verify = λ db h. h; before_finish = λ db h. h }

mail_db-Within : AllWithinBudget mail_db
mail_db-Within = ((omega arith, λ p. omega arith), tt)

process_auth_mail-Within_example :
    AllWithinBudget (process_auth_mail test_crypto false calm 7 mail_db).db
process_auth_mail-Within_example =
    process_auth_mail-Within test_crypto false calm calm-Fair 7 mail_db mail_db-Within

abbrev calm_pass : Pass
calm_pass = record {
  expired = λ id. false;
  attempt = λ id. calm;
  error = λ id. "TimeoutError";
  deferred_at = λ id. 40;
  defer_fails = λ id. false;
}

process_auth_queue-Within_example :
    AllWithinBudget (process_auth_queue test_crypto false calm_pass 10 mail_db).db
process_auth_queue-Within_example =
    process_auth_queue-Within test_crypto false calm_pass (λ id. calm-Fair) 10 mail_db
      mail_db-Within

queue_example : (process_auth_queue test_crypto false calm_pass 10 mail_db).count ≡ 1
unfolding process_auth_queue process_auth_mail prepare locked find summer_intern.Prelude.first_where
    summer_intern.AuthMail.Attempt.verify summer_intern.Prelude.save
    summer_intern.AuthMail.Jobs.add_token owns finish
queue_example = refl

finish_owned_example :
    (r : AuthMail) × (find
        (λ (j : AuthMail). j.id)
        7
        (finish test_crypto false 10 30 1 (some "TimeoutError") 7 claimed_db).0.auth_mail
      ≡ some r)
    × IsOutcome 30 1 false (some "TimeoutError") r
    × ((finish test_crypto false 10 30 1 (some "TimeoutError") 7 claimed_db).1
        ≡ some (is_sent r.status))
unfolding locked owns find summer_intern.Prelude.first_where is_withdrawn
finish_owned_example =
    finish_owned test_crypto false 10 30 1 (some "TimeoutError") 7 claimed_db
      (claim_of 10 reset_mail) (some ada) refl refl refl

-- A transaction that raises before its claim defers the job with one attempt more.
deferred_example :
    map
      (λ (j : AuthMail). record j { last_error = none; next_attempt_at = none })
      (process_auth_queue test_crypto false
        (record {
          expired = λ id. false;
          attempt = λ id. record calm { fails_preparing = true };
          error = λ id. "OperationalError";
          deferred_at = λ id. 40;
          defer_fails = λ id. false;
        })
        10
        mail_db).db.auth_mail
    ≡ record reset_mail { attempts = 1 } ∷ []
unfolding process_auth_queue process_auth_mail summer_intern.AuthMail.Queue.defer_job
    summer_intern.Prelude.update_where
deferred_example = refl

abbrev invited_db : Db
invited_db = record mail_db {
  auth_mail = [];
  invitations =
      record {
        id = 5;
        email = "ada@example.org";
        invited_by_id = 2;
        accepted_at = none;
        created_at = 0;
        delivery_status = pending;
        attempts = 0;
        last_error = none;
        next_attempt_at = none;
      }
      ∷ [];
}

invitation_example : (deliver_invitation test_crypto false calm 5 invited_db).ending ≡ returned true
unfolding deliver_invitation find summer_intern.Prelude.first_where process_auth_mail prepare locked
    summer_intern.AuthMail.Jobs.enqueue summer_intern.Prelude.fresh_id
    summer_intern.AuthMail.Attempt.verify summer_intern.Prelude.save
    summer_intern.AuthMail.Jobs.add_token owns finish
invitation_example = refl

deliver_invitation-Within_example :
    AllWithinBudget (deliver_invitation test_crypto false calm 5 invited_db).db
deliver_invitation-Within_example =
    deliver_invitation-Within test_crypto false calm calm-Fair 5 invited_db tt
