-- ===== src/Model/Accounts.antt =====
-- The tables of accounts and sign-in of trackr_app/models.py.
use summer_intern.Prelude.{ℕ, String, Bool, Option}
use summer_intern.Model.States.{Status}
use summer_intern.Model.Clock.{Time}

pub record User : Type 0 where
  pub id : ℕ
  pub email : String
  pub password_hash : Option String
  pub role : String
  pub is_active : Bool
  pub created_at : Time

pub record Invitation : Type 0 where
  pub id : ℕ
  pub email : String
  pub invited_by_id : ℕ
  pub accepted_at : Option Time
  pub created_at : Time
  pub delivery_status : Status
  pub attempts : ℕ
  pub last_error : Option String
  pub next_attempt_at : Option Time

-- The two values of `AuthMail.kind`.
pub data MailKind : Type 0 where
  password magic : MailKind

pub record AuthMail : Type 0 where
  pub id : ℕ
  pub email_encrypted : String
  pub email_hash : String
  pub kind : MailKind
  pub invitation_id : Option ℕ
  pub status : Status
  pub attempts : ℕ
  pub last_error : Option String
  pub next_attempt_at : Option Time
  pub processing_started_at : Option Time
  pub created_at : Time

pub record MagicLink : Type 0 where
  pub id : ℕ
  pub user_id : ℕ
  pub token_hash : String
  pub expires_at : Time
  pub used_at : Option Time
  pub created_at : Time

pub record UserSession : Type 0 where
  pub id : ℕ
  pub user_id : ℕ
  pub token_hash : String
  pub csrf_token : String
  pub expires_at : Time
  pub created_at : Time
  pub renewed_at : Option Time

pub record PasswordToken : Type 0 where
  pub id : ℕ
  pub user_id : ℕ
  pub token_hash : String
  pub expires_at : Time
  pub used_at : Option Time
  pub created_at : Time

pub record AuthLimit : Type 0 where
  pub key : String
  pub count : ℕ
  pub expires_at : Time

pub record OauthNonce : Type 0 where
  pub token_hash : String
  pub user_id : ℕ
  pub session_id : ℕ
  pub expires_at : Time
