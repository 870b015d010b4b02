-- ===== src/AuthMail/Jobs.antt =====
-- trackr_app/auth_mail.py, `enqueue` to `_cancelled`: the rows of a job, and the tests on them.
use summer_intern.Prelude.{
  ℕ, ◌+◌, Bool, true, false, not, ◌&&◌, ◌||◌, Option, none, some, List, [], ◌∷◌, ◌++◌, String, ◌==◌,
  nat_eq, string_eq, leb, ltb, opt_beq, is_some, is_none, find, save, first_where, fresh_id,
}
use summer_intern.Model.{
  Db, Time, minutes, hours, pending, is_processing, is_cancelled, User, Invitation, MailKind,
  password, magic, AuthMail, MagicLink, PasswordToken,
}
use summer_intern.Security.{Crypto, expires_in}

abbrev pub lease : Time
lease = minutes 5

-- What `_locked` finds: no row, an address that does not decrypt, or the row and its account.
pub data Locked : Type 0 where
  missing invalid : Locked
  held : AuthMail → Option User → Locked

abbrev pub save_job : AuthMail → Db → Db
save_job job db = record db { auth_mail = save (λ (j : AuthMail). j.id) job db.auth_mail }

abbrev pub save_optional : Option Invitation → List Invitation → List Invitation
save_optional none rows = rows
save_optional (some i) rows = save (λ (v : Invitation). v.id) i rows

abbrev pub save_invitation : Option Invitation → Db → Db
save_invitation invitation db = record db { invitations = save_optional invitation db.invitations }

-- `_invitation`. Primary keys start at 1, so the truth of `invitation_id` is its presence.
abbrev pub find_invitation : Option ℕ → Db → Option Invitation
find_invitation none db = none
find_invitation (some i) db = find (λ (v : Invitation). v.id) i db.invitations

abbrev pub inactive : Option User → Bool
inactive none = true
inactive (some u) = not u.is_active

abbrev pub closed : Option Invitation → Bool
closed none = true
closed (some i) = is_some i.accepted_at || is_cancelled i.delivery_status

-- `_cancelled`, with the clock's reading.
unfoldable pub is_withdrawn : Time → AuthMail → Option User → Option Invitation → Bool
is_withdrawn now job user invitation =
    inactive user
    || is_some job.invitation_id && closed invitation
    || is_none job.invitation_id && ltb (job.created_at + hours 1) now

-- `not t or aware(t) <= now - LEASE`.
abbrev pub has_lapsed : Time → Option Time → Bool
has_lapsed now none = true
has_lapsed now (some t) = leb (t + lease) now

-- `t and aware(t) > now`.
abbrev pub is_later : Time → Option Time → Bool
is_later now none = false
is_later now (some t) = ltb now t

-- The attempt that claimed at `started` under the number `attempt` still holds the job.
unfoldable pub owns : Time → ℕ → AuthMail → Bool
owns started attempt job =
    is_processing job.status && job.attempts == attempt && opt_beq job.processing_started_at started

module _ (crypto : Crypto) where
  unfoldable pub enqueue : Time → String → MailKind → Option ℕ → Db → Db
  enqueue now email kind invitation_id db = record db {
    auth_mail =
        db.auth_mail
        ++ record {
          id = fresh_id (λ (j : AuthMail). j.id) db.auth_mail;
          email_encrypted = crypto.encrypt email;
          email_hash = crypto.token_hash email;
          kind = kind;
          invitation_id = invitation_id;
          status = pending;
          attempts = 0;
          last_error = none;
          next_attempt_at = none;
          processing_started_at = none;
          created_at = now;
        }
          ∷ [];
  }

  abbrev pub with_user : AuthMail → Option String → Db → Locked
  with_user job none db = invalid
  with_user job (some email) db = held job (first_where (λ (u : User). u.email == email) db.users)

  abbrev pub with_job : Option AuthMail → Db → Locked
  with_job none db = missing
  with_job (some job) db = with_user job (crypto.decrypt job.email_encrypted) db

  -- `_locked`.
  unfoldable pub locked : ℕ → Db → Locked
  locked job_id db = with_job (find (λ (j : AuthMail). j.id) job_id db.auth_mail) db

  -- `db.add(model(user_id=user.id, token_hash=token_hash(raw), expires_at=expires_in(15)))`.
  unfoldable pub add_token : Time → String → User → MailKind → Db → Db
  unfolding expires_in
  add_token now raw user kind db = record db {
    password_tokens = elim kind [
      | password ↦
          db.password_tokens
          ++ record {
            id = fresh_id (λ (t : PasswordToken). t.id) db.password_tokens;
            user_id = user.id;
            token_hash = crypto.token_hash raw;
            expires_at = expires_in now 15;
            used_at = none;
            created_at = now;
          }
            ∷ []
      | magic ↦ db.password_tokens
    ];
    magic_links = elim kind [
      | password ↦ db.magic_links
      | magic ↦
          db.magic_links
          ++ record {
            id = fresh_id (λ (t : MagicLink). t.id) db.magic_links;
            user_id = user.id;
            token_hash = crypto.token_hash raw;
            expires_at = expires_in now 15;
            used_at = none;
            created_at = now;
          }
            ∷ []
    ];
  }
