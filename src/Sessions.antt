-- ===== src/Sessions.antt =====
-- trackr_app/sessions.py: sessions in the database, found by the hash of the cookie's token. Cookies
-- and headers of responses are not modelled, but for the renewed cookie that a request asks for.
pub mod Validity
pub mod Lifetime
use summer_intern.Prelude.{
  ℕ, ◌+◌, Bool, true, false, not, ◌&&◌, ◌||◌, Option, none, some, List, [], ◌∷◌, ◌++◌, String, ◌==◌,
  nat_eq, string_eq, leb, ltb, min, opt_beq, is_some, if◌then◌else◌, first_where, find,
  update_where, delete_where, fresh_id,
}
use summer_intern.Model.{
  Db, Time, days, cancelled, is_unfinished, User, UserSession, AuthMail, MagicLink, PasswordToken,
}
use summer_intern.Security.{Crypto}

-- `IDLE` and `ABSOLUTE`.
abbrev pub idle_time : ℕ
idle_time = days 90

abbrev pub absolute : ℕ
absolute = days 365

abbrev pub session_of : String → Db → Option UserSession
session_of hash db = first_where (λ (s : UserSession). s.token_hash == hash) db.user_sessions

abbrev pub is_expired : Time → UserSession → Bool
is_expired now s = leb (min s.expires_at (s.created_at + absolute)) now

abbrev pub is_active_user : Option User → Bool
is_active_user none = false
is_active_user (some u) = u.is_active

unfoldable pub checked_session : Time → Db → Option UserSession → Option UserSession
checked_session now db none = none
checked_session now db (some s) =
    if is_expired now s
    then none
    else if is_active_user (find (λ (u : User). u.id) s.user_id db.users)
    then some s
    else none

-- The cookie is `raw`; a missing one is "".
unfoldable pub valid_session : Crypto → Time → String → Db → Option UserSession
unfolding checked_session
valid_session crypto now raw db =
    if raw == "" then none else checked_session now db (session_of (crypto.token_hash raw) db)

abbrev pub renewed_or_created : UserSession → Time
renewed_or_created s = elim s.renewed_at [ none ↦ s.created_at | some t ↦ t ]

abbrev pub is_day_old : Time → Option Time → Bool
is_day_old now none = true
is_day_old now (some t) = leb (t + days 1) now

-- The state, the account, and the cookie to be set: its token and its end.
pub record Visit : Type 0 where
  pub db : Db
  pub user : Option User
  pub cookie : Option (String × Time)

-- The condition of the `UPDATE`, for a row that another request may have renewed meanwhile.
abbrev pub is_renewable : Time → UserSession → UserSession → Bool
is_renewable now s row = row.id == s.id && (ltb now row.expires_at && is_day_old now row.renewed_at)

abbrev pub renewed_until : Time → UserSession → Time
renewed_until now s = min (now + idle_time) (s.created_at + absolute)

unfoldable pub renew : String → Time → UserSession → Db → Visit
renew raw now s db = record {
  db = record db {
    user_sessions =
        update_where (is_renewable now s)
          (λ row. record row { expires_at = renewed_until now s; renewed_at = some now })
          db.user_sessions;
  };
  user = find (λ (u : User). u.id) s.user_id db.users;
  cookie =
      if is_some (first_where (is_renewable now s) db.user_sessions)
      then some (raw, renewed_until now s)
      else none;
}

unfoldable pub visited : String → Time → Option UserSession → Db → Visit
unfolding renew
visited raw now none db = record { db = db; user = none; cookie = none }
visited raw now (some s) db =
    let renewal = renew raw now s db in
    if leb (renewed_or_created s + days 1) now
    then renewal
    else record { db = db; user = find (λ (u : User). u.id) s.user_id db.users; cookie = none }

-- `current_user`, which reads the clock once in `valid_session` and once more.
unfoldable pub current_user : Crypto → Time → Time → String → Db → Visit
unfolding visited valid_session
current_user crypto asked now raw db = visited raw now (valid_session crypto asked raw db) db

-- `create_session`; the tokens are new ones, of `secrets`.
unfoldable pub create_session : Crypto → Time → String → String → ℕ → Db → Db
create_session crypto now raw csrf user_id db = record db {
  user_sessions =
      db.user_sessions
      ++ record {
        id = fresh_id (λ (s : UserSession). s.id) db.user_sessions;
        user_id = user_id;
        token_hash = crypto.token_hash raw;
        csrf_token = csrf;
        expires_at = now + idle_time;
        created_at = now;
        renewed_at = some now;
      }
        ∷ [];
}

abbrev pub is_open_mail : Crypto → User → AuthMail → Bool
is_open_mail crypto u j = j.email_hash == crypto.token_hash u.email && is_unfinished j.status

unfoldable pub cancel_mail : Crypto → Option User → List AuthMail → List AuthMail
cancel_mail crypto none rows = rows
cancel_mail crypto (some u) rows =
    update_where (is_open_mail crypto u) (λ j. record j { status = cancelled }) rows

unfoldable pub revoke_user_auth : Crypto → ℕ → Db → Db
unfolding cancel_mail
revoke_user_auth crypto user_id db = record db {
  auth_mail = cancel_mail crypto (find (λ (u : User). u.id) user_id db.users) db.auth_mail;
  user_sessions = delete_where (λ (s : UserSession). s.user_id == user_id) db.user_sessions;
  magic_links = delete_where (λ (l : MagicLink). l.user_id == user_id) db.magic_links;
  password_tokens = delete_where (λ (t : PasswordToken). t.user_id == user_id) db.password_tokens;
}
