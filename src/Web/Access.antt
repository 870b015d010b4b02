-- ===== src/Web/Access.antt =====
-- trackr_app/main.py: `require_user`, `require_admin` and `csrf`, which come before a handler's body.
use summer_intern.Prelude.{
  ℕ, Bool, not, ◌||◌, Option, none, some, String, ◌==◌, string_eq, if◌then◌else◌,
}
use summer_intern.Model.{Db, Time, User, UserSession}
use summer_intern.Security.{Crypto}
use summer_intern.Sessions.{valid_session, current_user}

-- What a handler answers: a redirection, one with a new session's cookie, a page, or an error.
pub data Reply : Type 0 where
  redirects : String → Reply
  signs_in : String → String → Reply
  shows : String → Reply
  http_error : ℕ → Reply

-- The cookie "trackr_session" ("" where it is missing), the form's token, and the readings of the
-- clock: two of `current_user`, one of `csrf`, and those of the handler's body.
pub record Request : Type 0 where
  pub cookie : String
  pub csrf_token : String
  pub asked_at : Time
  pub seen_at : Time
  pub checked_at : Time
  pub now : Time

abbrev pub Handler : Type 0
Handler = User → Db → Db × Reply

abbrev pub with_visitor : Option User → Handler → Db → Db × Reply
with_visitor none handler db = (db, redirects "/login")
with_visitor (some user) handler db = handler user db

-- `Depends(require_user)`.
unfoldable pub require_user : Crypto → Request → Handler → Db → Db × Reply
unfolding current_user
require_user crypto request handler db =
    let visit = current_user crypto request.asked_at request.seen_at request.cookie db in
    with_visitor visit.user handler visit.db

abbrev pub admins_only : Handler → Handler
admins_only handler user db =
    let done = handler user db in if user.role == "admin" then done else (db, http_error 403)

-- `Depends(require_admin)`.
unfoldable pub require_admin : Crypto → Request → Handler → Db → Db × Reply
unfolding require_user
require_admin crypto request handler db = require_user crypto request (admins_only handler) db

-- `not session or not value or value != session.csrf_token`.
abbrev pub is_forged : Option UserSession → String → Bool
is_forged none token = Bool.true
is_forged (some s) token = token == "" || not (token == s.csrf_token)

-- A handler that calls `csrf` first.
unfoldable pub checked : Crypto → Request → Handler → Handler
unfolding valid_session
checked crypto request handler user db =
    let done = handler user db in
    if is_forged (valid_session crypto request.checked_at request.cookie db) request.csrf_token
    then (db, http_error 403)
    else done
