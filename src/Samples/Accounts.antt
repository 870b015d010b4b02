-- ===== src/Samples/Accounts.antt =====
-- Runs of the sessions and of sign-in and recovery by password.
use summer_intern.Prelude.{
  ◌≢◌, ◌&&◌, ◌==◌, string_eq, String, ◌≡◌, ◌≢◌, ◌≤◌, ◌<◌, ◌+◌, ◌↔◌, ℕ, String, refl, arith, Bool,
  true, false, Option, none, some, List, [], ◌∷◌, All, ◌==◌, nat_eq, string_eq, find,
}
use summer_intern.Model.{Db, Time, UserSession, MagicLink, PasswordToken}
use summer_intern.Sessions.{absolute, valid_session, create_session, revoke_user_auth}
use summer_intern.Sessions.Lifetime.{visits, session_ends}
use summer_intern.Sessions.Validity.{revoke_user_auth_ends}
use summer_intern.Limits.{Digest, reserve_password_login}
use summer_intern.Passwords.{
  Secrets, Answer, signed_in, recovery_token, password_reset, password_login,
}
use summer_intern.Passwords.Recovery.{password_reset_once, password_reset_ends_sessions}
use summer_intern.Passwords.Login.{Passed, account_of, password_login_checks}
use summer_intern.Samples.{test_crypto, mail_db}

abbrev test_secrets : Secrets
test_secrets = record {
  hasher = record {
    hash = λ s. s;
    verify = λ password hash. password == "twelve chars" && hash == "hash";
  };
  dummy_hash = "dummy";
  raw = "cookie";
  csrf = "csrf";
}

-- A browser that comes back after a day and after ninety.
abbrev two_visits : List (Time × Time × String)
two_visits = (86400000000, 86400000001, "cookie") ∷ (7776000000000, 7776000000001, "cookie") ∷ []

abbrev signed_in_db : Db
signed_in_db = record mail_db {
  user_sessions =
      record {
        id = 1;
        user_id = 1;
        token_hash = "#cookie";
        csrf_token = "csrf";
        expires_at = 15552000000001;
        created_at = 0;
        renewed_at = some 7776000000001;
      }
      ∷ [];
}

visits_example :
    visits test_crypto two_visits (create_session test_crypto 0 "cookie" "csrf" 1 mail_db)
    ≡ signed_in_db
unfolding visits summer_intern.Prelude.first_where create_session summer_intern.Prelude.find
    summer_intern.Prelude.update_where summer_intern.Prelude.fresh_id
visits_example = refl

valid_example :
    valid_session test_crypto 10000000000000 "cookie"
      (visits test_crypto two_visits (create_session test_crypto 0 "cookie" "csrf" 1 mail_db))
    ≡ some (record {
      id = 1;
      user_id = 1;
      token_hash = "#cookie";
      csrf_token = "csrf";
      expires_at = 15552000000001;
      created_at = 0;
      renewed_at = some 7776000000001;
    })
unfolding visits summer_intern.Prelude.first_where create_session summer_intern.Prelude.find
    summer_intern.Prelude.update_where summer_intern.Prelude.fresh_id
valid_example = refl

session_ends_example : 10000000000000 < 0 + absolute
unfolding summer_intern.Prelude.first_where
session_ends_example =
    session_ends test_crypto 0 "cookie" "csrf" 1 mail_db two_visits 10000000000000 _ refl
      valid_example

revoke_user_auth_ends_example :
    ((now : Time) (raw : String) (s : UserSession)
      → valid_session test_crypto now raw (revoke_user_auth test_crypto 1 signed_in_db) ≡ some s
      → s.user_id ≢ 1)
    × All
        (λ (s : UserSession). (s.user_id == 1) ≡ false)
        (revoke_user_auth test_crypto 1 signed_in_db).user_sessions
    × All
        (λ (l : MagicLink). (l.user_id == 1) ≡ false)
        (revoke_user_auth test_crypto 1 signed_in_db).magic_links
    × All
        (λ (t : PasswordToken). (t.user_id == 1) ≡ false)
        (revoke_user_auth test_crypto 1 signed_in_db).password_tokens
revoke_user_auth_ends_example = revoke_user_auth_ends test_crypto 1 signed_in_db

abbrev ada_token : PasswordToken
ada_token = record {
  id = 4;
  user_id = 1;
  token_hash = "#link";
  expires_at = 900000000;
  used_at = none;
  created_at = 0;
}

abbrev reset_db : Db
reset_db = record signed_in_db { password_tokens = ada_token ∷ [] }

token_example : recovery_token test_crypto 10 "link" reset_db ≡ some ada_token
unfolding recovery_token summer_intern.Prelude.first_where
token_example = refl

reset_example :
    (password_reset test_crypto test_secrets 10 20
      (λ db. db)
      "link"
      "twelve chars"
      "twelve chars"
      reset_db).1
    ≡ signed_in
unfolding password_reset summer_intern.Prelude.first_where summer_intern.Prelude.find
    summer_intern.Passwords.password_error
reset_example = refl

-- What the reset leaves, and a second reset that had read the same token.
abbrev reset_after : Db
reset_after =
    (password_reset test_crypto test_secrets 10 20 (λ db. db) "link" "twelve chars" "twelve chars"
      reset_db).0

abbrev racing_reset : Db × Answer
racing_reset =
    password_reset test_crypto test_secrets 12 30 (λ _. reset_after) "link" "another word"
      "another word" reset_db

token_later_example : recovery_token test_crypto 12 "link" reset_db ≡ some ada_token
unfolding recovery_token summer_intern.Prelude.first_where
token_later_example = refl

password_reset_once_example :
    (recovery_token test_crypto 30 "link" reset_after ≡ none)
    × (racing_reset.0 ≡ reset_after)
    × (racing_reset.1 ≢ signed_in)
password_reset_once_example =
    password_reset_once test_crypto test_secrets test_secrets 10 20 12 30 (λ db. db) "link"
      "twelve chars" "twelve chars" "another word" "another word" reset_db reset_db ada_token
      ada_token token_example ((λ e. refl), tt) ((λ e. refl), tt) token_later_example refl
      reset_example

abbrev new_session : UserSession
new_session = record {
  id = 1;
  user_id = 1;
  token_hash = "#cookie";
  csrf_token = "csrf";
  expires_at = 7776000000020;
  created_at = 20;
  renewed_at = some 20;
}

after_reset_example :
    valid_session test_crypto 30 "cookie"
      (password_reset test_crypto test_secrets 10 20
        (λ db. db)
        "link"
        "twelve chars"
        "twelve chars"
        reset_db).0
    ≡ some new_session
unfolding password_reset valid_session summer_intern.Prelude.first_where summer_intern.Prelude.find
    summer_intern.Passwords.password_error create_session revoke_user_auth
    summer_intern.Prelude.delete_where summer_intern.Prelude.save summer_intern.Prelude.fresh_id
after_reset_example = refl

password_reset_ends_sessions_example : new_session.token_hash ≡ "#cookie"
password_reset_ends_sessions_example =
    password_reset_ends_sessions test_crypto test_secrets 10 20 30 (λ db. db) "link" "twelve chars"
      "twelve chars" "cookie" reset_db ada_token new_session token_example reset_example
      after_reset_example refl

abbrev constant_digest : Digest
constant_digest namespace scope value bucket = value

login_example :
    (password_login constant_digest test_crypto test_secrets 10 "ada@example.org" "twelve chars"
      "::1" mail_db).1
    ≡ signed_in
unfolding password_login reserve_password_login summer_intern.Prelude.find
    summer_intern.Prelude.first_where summer_intern.Passwords.is_verified
login_example = refl

password_login_checks_example :
    ((reserve_password_login constant_digest 10 "ada@example.org:::1" "::1" mail_db).1 ≡ true)
    × Passed test_secrets "twelve chars" (
        account_of "ada@example.org"
          (reserve_password_login constant_digest 10 "ada@example.org:::1" "::1" mail_db).0)
password_login_checks_example =
    password_login_checks constant_digest test_crypto test_secrets 10 "ada@example.org"
      "twelve chars" "::1" mail_db login_example
