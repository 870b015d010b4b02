-- ===== src/Web/SignIn.antt =====
-- trackr_app/main.py: `request_link`, `consume_link_page`, `consume_link` and `logout`; and
-- trackr_app/auth.py: `password_request` and `password_setup`. The address is the form's after
-- `strip().lower()`, and the check of the form, in Forms.Origin, comes first.
use Prim.Native.String.{count}
use summer_intern.Prelude.{
  ℕ, Bool, not, ◌&&◌, ◌||◌, Option, none, some, List, String, ◌==◌, nat_eq, string_eq, leb, ltb,
  is_some, is_none, if◌then◌else◌, find, first_where, save, update_where, delete_where,
}
use summer_intern.Model.{Db, Time, User, MagicLink, Invitation, UserSession, MailKind}
use summer_intern.Security.{Crypto}
use summer_intern.Limits.{Digest, allow_login}
use summer_intern.AuthMail.Jobs.{enqueue}
use summer_intern.Sessions.{valid_session, create_session}
use summer_intern.Passwords.{Secrets, password_error, finish_password, user_key, has_password}
use summer_intern.Web.Access.{Reply, redirects, signs_in, shows, http_error, Request, is_forged}

-- `limited_response`, and the redirection that answers alike for every address.
abbrev pub limited_at : String → Reply
limited_at path = redirects path

-- `request_link` and `password_request`: they differ in the kind and in the path.
unfoldable pub request_mail :
    Digest → Crypto → MailKind → String → Time → String → String → Db → Db × Reply
unfolding enqueue allow_login
request_mail digest crypto kind path now email client db =
    let (charged, allowed, keys) = allow_login digest now email client db in
    let queued = enqueue crypto now email kind none charged in
    if ltb 320 (count email)
    then (db, redirects path)
    else if not allowed
    then (charged, limited_at path)
    else (queued, redirects path)

abbrev pub invalid : Reply
invalid = redirects "/login?message=This link is invalid or has expired."

abbrev pub link_of : String → Db → Option MagicLink
link_of hash db = first_where (λ (l : MagicLink). l.token_hash == hash) db.magic_links

-- `link.used_at or link.expires_at <= utcnow()`.
abbrev pub is_spent : Time → MagicLink → Bool
is_spent now l = is_some l.used_at || leb l.expires_at now

-- The condition of the `UPDATE` that consumes a link.
abbrev pub is_unused : ℕ → Time → MagicLink → Bool
is_unused id now l = l.id == id && (is_none l.used_at && ltb now l.expires_at)

abbrev pub use_link : Time → MagicLink → Db → Db
use_link now link db = record db {
  magic_links =
      update_where (is_unused link.id now) (λ l. record l { used_at = some now }) db.magic_links;
}

abbrev pub accept : Time → Option Invitation → List Invitation → List Invitation
accept now none rows = rows
accept now (some i) rows =
    save (λ (v : Invitation). v.id) (record i { accepted_at = some now }) rows

-- The account's first open invitation is accepted.
abbrev pub accept_open : Time → String → Db → Db
accept_open now email db = record db {
  invitations =
      accept now
        (first_where (λ (i : Invitation). i.email == email && is_none i.accepted_at) db.invitations)
        db.invitations;
}

module _ (crypto : Crypto) (secrets : Secrets) (now : Time) where
  unfoldable pub consume_for : MagicLink → Option User → Db → Db × Reply
  unfolding create_session
  consume_for link none db = (db, invalid)
  consume_for link (some user) db =
      if not user.is_active || is_none (first_where (is_unused link.id now) db.magic_links)
      then (db, invalid)
      else (
        accept_open now user.email
            (create_session crypto now secrets.raw secrets.csrf user.id (use_link now link db)),
        signs_in (if has_password user then "/dashboard" else "/auth/password") secrets.raw,
      )

  unfoldable pub consume_with : (Db → Db) → Option MagicLink → Db → Db × Reply
  unfolding consume_for
  consume_with others none db = (db, invalid)
  consume_with others (some link) db =
      let db' = others db in
      let done = consume_for link (find user_key link.user_id db'.users) db' in
      if is_spent now link then (db, invalid) else done

  -- `others` is what others commit between the link's read and the account's lock.
  unfoldable pub consume_link : (Db → Db) → String → Db → Db × Reply
  unfolding consume_with
  consume_link others raw db = consume_with others (link_of (crypto.token_hash raw) db) db

-- The page that asks for a confirmation, without using the link.
abbrev pub page_for : Time → Option MagicLink → Db → Reply
page_for now none db = invalid
page_for now (some link) db =
    if is_spent now link then invalid else elim (find user_key link.user_id db.users) [
      | none ↦ invalid
      | some user ↦ if user.is_active then shows "confirm_login.html" else invalid
    ]

unfoldable pub consume_link_page : Crypto → Time → String → Db → Reply
consume_link_page crypto now raw db = page_for now (link_of (crypto.token_hash raw) db) db

abbrev pub session_row : Crypto → String → Db → Option UserSession
session_row crypto raw db =
    first_where (λ (s : UserSession). s.token_hash == crypto.token_hash raw) db.user_sessions

abbrev pub drop_session : Option UserSession → Db → Db
drop_session none db = db
drop_session (some s) db = record db {
  user_sessions = delete_where (λ (r : UserSession). r.id == s.id) db.user_sessions;
}

-- A valid session is ended only by its own form; an expired one needs none.
unfoldable pub logout : Crypto → Request → Db → Db × Reply
unfolding valid_session
logout crypto request db =
    let valid = is_some (valid_session crypto request.asked_at request.cookie db) in
    if valid
      && is_forged (valid_session crypto request.checked_at request.cookie db) request.csrf_token
    then (db, http_error 403)
    else (drop_session (session_row crypto request.cookie db) db, redirects "/login")

-- `password_setup`: the session is checked again after the account's lock.
abbrev pub setup_locked :
    Crypto → Secrets → Time → Bool → Option User → String → String → Db → Db × Reply
setup_locked crypto secrets now still none password confirmation db = (db, redirects "/login")
setup_locked crypto secrets now still (some user) password confirmation db =
    let done = finish_password crypto secrets now user password db in
    if not user.is_active || not still
    then (db, redirects "/login")
    else if has_password user
    then (db, redirects "/auth/password/request")
    else elim (password_error password confirmation) [
      | some error ↦ (db, shows "password_form.html")
      | none ↦ (done, signs_in "/dashboard" secrets.raw)
    ]

abbrev pub setup_with :
    Crypto → Secrets → Request → (Db → Db) → Option UserSession → String → String → Db → Db × Reply
setup_with crypto secrets request others none password confirmation db = (db, redirects "/login")
setup_with crypto secrets request others (some s) password confirmation db =
    let db' = others db in
    setup_locked crypto secrets request.now
      (is_some (valid_session crypto request.checked_at request.cookie db'))
      (find user_key s.user_id db'.users) password confirmation db'

unfoldable pub password_setup :
    Crypto → Secrets → Request → (Db → Db) → String → String → Db → Db × Reply
unfolding valid_session finish_password password_error
password_setup crypto secrets request others password confirmation db =
    setup_with crypto secrets request others
      (valid_session crypto request.asked_at request.cookie db) password confirmation db
