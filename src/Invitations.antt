-- ===== src/Invitations.antt =====
-- trackr_app/invitations.py: the delivery of an invitation through the queue of sign-in emails.
pub mod Budget
pub mod Passes
use summer_intern.Prelude.{
  ℕ, Bool, true, false, not, ◌||◌, Option, none, some, [], ◌==◌, string_eq, nat_eq, is_some,
  opt_beq, if◌then◌else◌, first_where, find, save, fresh_id,
}
use summer_intern.Model.{
  Db, pending, cancelled, is_pending, is_failed, is_sent, is_cancelled, User, Invitation, AuthMail,
  magic,
}
use summer_intern.Security.{Crypto}
use summer_intern.AuthMail.Jobs.{save_job, inactive, enqueue}
use summer_intern.AuthMail.Attempt.{Attempt, Run, returned, process_auth_mail}

abbrev pub mail_id : AuthMail → ℕ
mail_id j = j.id

abbrev pub job_of : ℕ → Db → Option AuthMail
job_of invitation_id db =
    first_where (λ (j : AuthMail). opt_beq j.invitation_id invitation_id) db.auth_mail

abbrev pub cancel_job : Option AuthMail → Db → Db
cancel_job none db = db
cancel_job (some j) db = save_job (record j { status = cancelled }) db

-- An explicit resend starts over; an open job follows the invitation's delay.
unfoldable pub renewed : Invitation → AuthMail → AuthMail
renewed i j = record j {
  status =
      if is_failed j.status || is_sent j.status || is_cancelled j.status then pending else j.status;
  attempts =
      if is_failed j.status || is_sent j.status || is_cancelled j.status then 0 else j.attempts;
  next_attempt_at =
      if is_failed j.status || is_sent j.status || is_cancelled j.status
      then none
      else i.next_attempt_at;
}

module _ (crypto : Crypto) (runtime_available : Bool) (world : Attempt) where
  abbrev pub unsent : Db → Run
  unsent db = record { db = db; messages = []; ending = returned false }

  unfoldable pub deliver_to : User → Invitation → Option AuthMail → Db → Run
  unfolding renewed
  deliver_to u i none db =
      process_auth_mail crypto runtime_available world (fresh_id mail_id db.auth_mail)
        (enqueue crypto world.prepared_at u.email magic (some i.id) db)
  deliver_to u i (some j) db =
      process_auth_mail crypto runtime_available world j.id (save_job (renewed i j) db)

  unfoldable pub deliver_found : Invitation → Option User → Option AuthMail → Db → Run
  unfolding deliver_to
  deliver_found i none job db = unsent (
      cancel_job job (record db {
        invitations =
            save (λ (v : Invitation). v.id) (record i { delivery_status = cancelled })
              db.invitations;
      }))
  deliver_found i (some u) job db =
      let done = deliver_to u i job db in
      if not u.is_active
      then unsent (
          cancel_job job (record db {
            invitations =
                save (λ (v : Invitation). v.id) (record i { delivery_status = cancelled })
                  db.invitations;
          }))
      else if is_some i.accepted_at || not (is_pending i.delivery_status)
      then unsent db
      else done

  abbrev pub deliver_with : Option Invitation → Db → Run
  deliver_with none db = unsent db
  deliver_with (some i) db =
      deliver_found i (first_where (λ (u : User). u.email == i.email) db.users) (job_of i.id db) db

  unfoldable pub deliver_invitation : ℕ → Db → Run
  unfolding deliver_found
  deliver_invitation id db = deliver_with (find (λ (v : Invitation). v.id) id db.invitations) db
