-- ===== src/Passwords.antt =====
-- trackr_app/auth.py: sign-in by password, and its setup and recovery by a link. A handler's answer is
-- where its response leads; the check of the form's origin and signature, in Forms.Origin, comes
-- before. Argon2 and the new tokens are parameters.
pub mod Recovery
pub mod Login
use summer_intern.Prelude.{
  ℕ, ◌+◌, Bool, true, false, not, ◌&&◌, ◌||◌, Option, none, some, List, [], ◌∷◌, ◌++◌, String, ◌==◌,
  nat_eq, string_eq, leb, ltb, is_some, is_none, if◌then◌else◌, first_where, find, save,
  update_where,
}
use Prim.Native.String.{count, ◌++◌ as append}
use summer_intern.Model.{Db, Time, User, Invitation, PasswordToken}
use summer_intern.Security.{Crypto}
use summer_intern.Sessions.{valid_session, revoke_user_auth, create_session}
use summer_intern.Limits.{Digest, reserve_password_login, refund_password_login}

-- pwdlib's hash of a password, and its check of a password against a hash.
pub record Hasher : Type 0 where
  pub hash : String → String
  pub verify : String → String → Bool

-- `passwords.hash`, `DUMMY_HASH`, and what `new_token` gives for the session.
pub record Secrets : Type 0 where
  pub hasher : Hasher
  pub dummy_hash : String
  pub raw : String
  pub csrf : String

pub data Answer : Type 0 where
  signed_in invalid_link login_failed limited : Answer
  form_error : String → Answer

-- Python's `len` counts code points.
unfoldable pub password_error : String → String → Option String
password_error password confirmation =
    if not (leb 12 (count password) && leb (count password) 128)
    then some "Use between 12 and 128 characters."
    else if not (password == confirmation)
    then some "The passwords do not match."
    else none

unfoldable pub accept_invitations : Time → String → List Invitation → List Invitation
accept_invitations now email rows =
    update_where (λ (i : Invitation). i.email == email && is_none i.accepted_at)
      (λ i. record i { accepted_at = some now }) rows

abbrev pub user_key : User → ℕ
user_key u = u.id

-- `finish_password`, up to its response.
unfoldable pub finish_password : Crypto → Secrets → Time → User → String → Db → Db
unfolding accept_invitations
finish_password crypto secrets now user password db =
    let named = record db {
      users =
          save user_key (record user { password_hash = some (secrets.hasher.hash password) })
            db.users;
    } in
    let revoked = revoke_user_auth crypto user.id named in
    create_session crypto now secrets.raw secrets.csrf user.id
      (record revoked { invitations = accept_invitations now user.email revoked.invitations })

abbrev pub is_over : Time → PasswordToken → Bool
is_over now t = is_some t.used_at || leb t.expires_at now

unfoldable pub open_token : Time → Option PasswordToken → Option PasswordToken
open_token now none = none
open_token now (some t) = if is_over now t then none else some t

unfoldable pub recovery_token : Crypto → Time → String → Db → Option PasswordToken
unfolding open_token
recovery_token crypto now raw db =
    open_token now (
      first_where (λ (t : PasswordToken). t.token_hash == crypto.token_hash raw) db.password_tokens)

-- The condition of the `UPDATE` that consumes a token.
abbrev pub is_consumable : ℕ → Time → PasswordToken → Bool
is_consumable id now t = t.id == id && (is_none t.used_at && ltb now t.expires_at)

abbrev pub mark_used : Time → PasswordToken → Db → Db
mark_used now token db = record db {
  password_tokens =
      update_where (is_consumable token.id now) (λ t. record t { used_at = some now })
        db.password_tokens;
}

unfoldable pub consume : Crypto → Secrets → Time → PasswordToken → User → String → Db → Db × Answer
unfolding finish_password
consume crypto secrets now token user password db =
    if is_some (first_where (is_consumable token.id now) db.password_tokens)
    then (finish_password crypto secrets now user password (mark_used now token db), signed_in)
    else (db, invalid_link)

unfoldable pub reset_for :
    Crypto → Secrets → Time → PasswordToken → Option User → String → String → Db → Db × Answer
unfolding consume
reset_for crypto secrets now token none password confirmation db = (db, invalid_link)
reset_for crypto secrets now token (some user) password confirmation db =
    let done = consume crypto secrets now token user password db in
    if not user.is_active then (db, invalid_link) else elim (password_error password confirmation) [
      | some error ↦ (db, form_error error)
      | none ↦ done
    ]

unfoldable pub reset_with :
    Crypto → Secrets → Time → (Db → Db) → Option PasswordToken → String → String → Db → Db × Answer
unfolding reset_for
reset_with crypto secrets now others none password confirmation db = (db, invalid_link)
reset_with crypto secrets now others (some token) password confirmation db =
    let db' = others db in
    reset_for crypto secrets now token (find user_key token.user_id db'.users) password confirmation
      db'

-- `password_reset`: `others` is what others commit between the token's read and the account's lock.
unfoldable pub password_reset :
    Crypto → Secrets → Time → Time → (Db → Db) → String → String → String → Db → Db × Answer
unfolding reset_with recovery_token
password_reset crypto secrets asked now others raw password confirmation db =
    reset_with crypto secrets now others (recovery_token crypto asked raw db) password confirmation
      db

abbrev pub candidate : Secrets → Option User → String
candidate secrets none = secrets.dummy_hash
candidate secrets (some u) =
    if u.is_active
    then (elim u.password_hash [
      | none ↦ secrets.dummy_hash
      | some h ↦ if h == "" then secrets.dummy_hash else h
    ])
    else secrets.dummy_hash

-- A Python truth test of an optional text.
abbrev pub has_password : User → Bool
has_password u = elim u.password_hash [ none ↦ false | some h ↦ not (h == "") ]

abbrev pub has_length : String → Bool
has_length password = leb 12 (count password) && leb (count password) 128

-- Every path checks one hash, that of the account or the dummy.
unfoldable pub is_verified : Secrets → String → Option User → Bool
is_verified secrets password user =
    secrets.hasher.verify (if leb (count password) 128 then password else "")
      (candidate secrets user)

unfoldable pub login_for :
    Crypto → Secrets → Time → String → Option User → List String → Db → Db × Answer
login_for crypto secrets now password none keys db = (db, login_failed)
login_for crypto secrets now password (some user) keys db =
    let refunded = record db { auth_limits = refund_password_login keys db.auth_limits } in
    if not (is_verified secrets password (some user))
      || not user.is_active
      || not (has_password user)
      || not (has_length password)
    then (db, login_failed)
    else (create_session crypto now secrets.raw secrets.csrf user.id refunded, signed_in)

-- `password_login`, of the address after `strip().lower()`.
unfoldable pub password_login :
    Digest → Crypto → Secrets → Time → String → String → String → Db → Db × Answer
unfolding login_for
password_login digest crypto secrets now email password client db =
    let (charged, allowed, keys) =
      reserve_password_login digest now (append email (append ":" client)) client db in
    let after =
      login_for crypto secrets now password
        (first_where (λ (u : User). u.email == email) charged.users) keys charged in
    if ltb 320 (count email)
    then (db, login_failed)
    else if not allowed
    then (charged, limited)
    else after
