-- ===== src/Passwords/Recovery.antt =====
-- trackr_app/auth.py, `password_reset`: a link works once, and what a reset leaves of old access.
use summer_intern.Prelude.{
  ap, ℕ, ◌≡◌, ◌≢◌, All-weaken, refl, sym, ◌∙◌, String, Bool, true, false, not, Option, none, some,
  List, [], ◌∷◌, ◌==◌, nat_eq, string_eq, arith, All, All-update_where, All-delete_where,
  All-append, first_where, first_where-All, find, find-key, is_some, nat_beq_iff, Bool-cases, inl,
  inr, delete_where, if◌then◌else◌,
}
use summer_intern.Model.{Db, Time, User, UserSession, PasswordToken}
use summer_intern.Security.{Crypto}
use summer_intern.Sessions.{valid_session, revoke_user_auth, create_session}
use summer_intern.Sessions.Lifetime.{valid_parts}
use summer_intern.Sessions.Validity.{delete_where-All}
use summer_intern.Passwords.{
  Secrets, Answer, signed_in, invalid_link, form_error, password_error, user_key, finish_password,
  open_token, recovery_token, is_consumable, mark_used, consume, reset_for, reset_with,
  password_reset,
}

-- What a handler that signs in has done: a token, an account and a password went through
-- `finish_password`.
record IsReset (crypto : Crypto) (secrets : Secrets) (now : Time) (token : PasswordToken)
    (others_db db' : Db) : Type 0 where
  user : User
  password : String
  account : find user_key token.user_id others_db.users ≡ some user
  written : db' ≡ finish_password crypto secrets now user password (mark_used now token others_db)

-- The branches of `reset_for`.
abbrev branch : Bool → Option String → Bool → Db → Db → Db × Answer
branch gone error taken db done = if gone then (db, invalid_link) else elim error [
  | some e ↦ (db, form_error e)
  | none ↦ if taken then (done, signed_in) else (db, invalid_link)
]

signed_branch :
    (gone : Bool) (error : Option String) (taken : Bool) (db done : Db)
    → (branch gone error taken db done).1 ≡ signed_in
    → (branch gone error taken db done).0 ≡ done
signed_branch true error taken db done h = absurd (cc)
signed_branch false (some e) taken db done h = absurd (cc)
signed_branch false none true db done h = refl
signed_branch false none false db done h = absurd (cc)

reset_for-IsReset :
    (crypto : Crypto) (secrets : Secrets) (now : Time) (token : PasswordToken) (found : Option User)
    (password confirmation : String) (db : Db)
    → find user_key token.user_id db.users ≡ found
    → (reset_for crypto secrets now token found password confirmation db).1 ≡ signed_in
    → IsReset crypto secrets now token db
        (reset_for crypto secrets now token found password confirmation db).0
unfolding reset_for consume
reset_for-IsReset crypto secrets now token none password confirmation db found h = absurd (cc)
reset_for-IsReset crypto secrets now token (some user) password confirmation db found h = record {
  user = user;
  password = password;
  account = found;
  written =
      signed_branch (not user.is_active) (password_error password confirmation)
        (is_some (first_where (is_consumable token.id now) db.password_tokens)) db
        (finish_password crypto secrets now user password (mark_used now token db)) h;
}

reset_with-IsReset :
    (crypto : Crypto) (secrets : Secrets) (now : Time) (others : Db → Db) (token : PasswordToken)
    (password confirmation : String) (db : Db)
    → (reset_with crypto secrets now others (some token) password confirmation db).1 ≡ signed_in
    → IsReset crypto secrets now token
        (others db)
        (reset_with crypto secrets now others (some token) password confirmation db).0
unfolding reset_with
reset_with-IsReset crypto secrets now others token password confirmation db h =
    reset_for-IsReset crypto secrets now token (find user_key token.user_id (others db).users)
      password confirmation (others db) refl h

no_row :
    (p : PasswordToken → Bool) (u : ℕ) (rows : List PasswordToken)
    → All (λ t. p t ≡ true → t.user_id ≡ u) rows
    → All (λ t. (t.user_id == u) ≡ false) rows
    → first_where p rows ≡ none
unfolding first_where
no_row p u [] owners gone = refl
no_row p u (t ∷ rows) owners gone = elim (Bool-cases (p t)) [
  | inl same ↦ absurd (ground (arith, owners.0 same, gone.0, nat_beq_iff t.user_id u))
  | inr other ↦ rw other (no_row p u rows owners.1 gone.1)
]

-- The tokens that pass a test are the account's.
abbrev pub AreOwned : (PasswordToken → Bool) → ℕ → Db → Type 0
AreOwned p u db = All (λ (t : PasswordToken). p t ≡ true → t.user_id ≡ u) db.password_tokens

abbrev pub has_hash : Crypto → String → PasswordToken → Bool
has_hash crypto raw t = t.token_hash == crypto.token_hash raw

finish_password-tokens :
    (crypto : Crypto) (secrets : Secrets) (now : Time) (user : User) (password : String)
    (p : PasswordToken → Bool) (db : Db)
    → AreOwned p user.id db
    → first_where p (finish_password crypto secrets now user password db).password_tokens ≡ none
unfolding finish_password revoke_user_auth create_session
finish_password-tokens crypto secrets now user password p db owners =
    no_row p user.id (delete_where (λ (t : PasswordToken). t.user_id == user.id) db.password_tokens)
      (All-delete_where _ _ db.password_tokens owners)
      (delete_where-All (λ (t : PasswordToken). t.user_id == user.id) db.password_tokens)

no_token :
    (crypto : Crypto) (later : Time) (raw : String) (db : Db)
    → first_where (has_hash crypto raw) db.password_tokens ≡ none
    → recovery_token crypto later raw db ≡ none
unfolding recovery_token open_token
no_token crypto later raw db gone = rw gone refl

-- A reset whose token is not open any more when it takes it changes nothing and signs nobody in.
untaken_branch :
    (gone : Bool) (error : Option String) (taken : Bool) (db done : Db)
    → taken ≡ false
    → ((branch gone error taken db done).0 ≡ db) × ((branch gone error taken db done).1 ≢ signed_in)
untaken_branch true error taken db done h = (refl, λ e. cc)
untaken_branch false (some e) taken db done h = (refl, λ e. cc)
untaken_branch false none true db done h = absurd (cc)
untaken_branch false none false db done h = (refl, λ e. cc)

reset_for-refuses :
    (crypto : Crypto) (secrets : Secrets) (now : Time) (token : PasswordToken) (found : Option User)
    (password confirmation : String) (db : Db)
    → first_where (is_consumable token.id now) db.password_tokens ≡ none
    → ((reset_for crypto secrets now token found password confirmation db).0 ≡ db)
      × ((reset_for crypto secrets now token found password confirmation db).1 ≢ signed_in)
unfolding reset_for consume
reset_for-refuses crypto secrets now token none password confirmation db gone = (refl, λ e. cc)
reset_for-refuses crypto secrets now token (some user) password confirmation db gone =
    untaken_branch (not user.is_active) (password_error password confirmation)
      (is_some (first_where (is_consumable token.id now) db.password_tokens)) db
      (finish_password crypto secrets now user password (mark_used now token db)) (ap is_some gone)

-- What `finish_password` leaves of an account's sessions: the new one.
finish_password-sessions :
    (crypto : Crypto) (secrets : Secrets) (now later : Time) (user : User) (password raw : String)
    (db : Db) (s : UserSession)
    → valid_session crypto later raw (finish_password crypto secrets now user password db) ≡ some s
    → s.user_id ≡ user.id
    → s.token_hash ≡ crypto.token_hash secrets.raw
unfolding finish_password revoke_user_auth create_session
finish_password-sessions crypto secrets now later user password raw db s valid mine =
    let parts =
      valid_parts crypto later raw (finish_password crypto secrets now user password db) s valid in
    let IsNew : UserSession → Type 0 =
      λ r. r.user_id ≡ user.id → r.token_hash ≡ crypto.token_hash secrets.raw in
    let old : All IsNew
        (delete_where (λ (r : UserSession). r.user_id == user.id) db.user_sessions) =
      foreign user.id (crypto.token_hash secrets.raw) _
        (delete_where-All (λ (r : UserSession). r.user_id == user.id) db.user_sessions) in
    first_where-All IsNew _ _ s (All-append IsNew _ _ old ((λ e. refl), tt)) parts.0 mine
  where
    foreign :
        (u : ℕ) (hash : String) (rows : List UserSession)
        → All (λ (r : UserSession). (r.user_id == u) ≡ false) rows
        → All (λ (r : UserSession). r.user_id ≡ u → r.token_hash ≡ hash) rows
    foreign u hash [] h = tt
    foreign u hash (r ∷ rows) h =
        ((λ e. absurd (ground (arith, h.0, e, nat_beq_iff r.user_id u))), foreign u hash rows h.1)

password_reset-IsReset :
    (crypto : Crypto) (secrets : Secrets) (asked now : Time) (others : Db → Db)
    (raw password confirmation : String) (db : Db) (token : PasswordToken)
    → recovery_token crypto asked raw db ≡ some token
    → (password_reset crypto secrets asked now others raw password confirmation db).1 ≡ signed_in
    → IsReset crypto secrets now token
        (others db)
        (password_reset crypto secrets asked now others raw password confirmation db).0
unfolding password_reset
password_reset-IsReset crypto secrets asked now others raw password confirmation db token found h =
    rw (found) (
      reset_with-IsReset crypto secrets now others token password confirmation db (rw (found) at h))

-- What a reset that signed in leaves of the tokens that pass a test.
reset_tokens :
    (crypto : Crypto) (secrets : Secrets) (asked now : Time) (others : Db → Db)
    (raw password confirmation : String) (db : Db) (token : PasswordToken)
    (p : PasswordToken → Bool)
    → ((t : PasswordToken) → p (record t { used_at = some now }) ≡ true → p t ≡ true)
    → recovery_token crypto asked raw db ≡ some token
    → AreOwned p token.user_id (others db)
    → (password_reset crypto secrets asked now others raw password confirmation db).1 ≡ signed_in
    → first_where p
        (password_reset crypto secrets asked now others raw password confirmation
          db).0.password_tokens
      ≡ none
reset_tokens crypto secrets asked now others raw password confirmation db token p same found owners
      h =
    let done =
      password_reset-IsReset crypto secrets asked now others raw password confirmation db token
        found h in
    let mine = find-key user_key token.user_id (others db).users done.user done.account in
    let marked : AreOwned p token.user_id (mark_used now token (others db)) =
      All-update_where _ _ _ (others db).password_tokens (λ t q _ e. q (same t e)) owners in
    rw (done.written) (
      finish_password-tokens crypto secrets now done.user done.password p
        (mark_used now token (others db)) (rw mine marked))

-- A link of recovery works once. After a reset that signed in, the same link opens nothing, at any
-- time; and a reset that had read the same token before the first one took it, whatever state it
-- was read in, changes nothing and signs nobody in. The rows of the link's hash, and those of the
-- token's identity, belong to the account, which the unique hash and the key see to.
pub password_reset_once :
    (crypto : Crypto) (secrets again : Secrets) (asked now asked' later : Time) (others : Db → Db)
    (raw password confirmation password' confirmation' : String) (db db' : Db)
    (token token' : PasswordToken)
    → recovery_token crypto asked raw db ≡ some token
    → AreOwned (has_hash crypto raw) token.user_id (others db)
    → AreOwned (λ t. t.id == token.id) token.user_id (others db)
    → recovery_token crypto asked' raw db' ≡ some token'
    → token'.id ≡ token.id
    → (password_reset crypto secrets asked now others raw password confirmation db).1 ≡ signed_in
    → (let after =
          (password_reset crypto secrets asked now others raw password confirmation db).0 in
        let racing =
          password_reset crypto again asked' later (λ _. after) raw password' confirmation' db' in
        (recovery_token crypto later raw after ≡ none)
        × (racing.0 ≡ after)
        × (racing.1 ≢ signed_in))
unfolding password_reset reset_with
password_reset_once crypto secrets again asked now asked' later others raw password confirmation
      password' confirmation' db db' token token' found owners own found' same h =
    let after = (password_reset crypto secrets asked now others raw password confirmation db).0 in
    let gone =
      reset_tokens crypto secrets asked now others raw password confirmation db token
        (has_hash crypto raw) (λ t e. e) found owners h in
    let lost : first_where (is_consumable token'.id later) after.password_tokens ≡ none =
      reset_tokens crypto secrets asked now others raw password confirmation db token
        (is_consumable token'.id later) (λ t e. ground (arith, e)) found
        (All-weaken (λ (t : PasswordToken). (t.id == token.id) ≡ true → t.user_id ≡ token.user_id)
          (λ (t : PasswordToken).
            is_consumable token'.id later t ≡ true → t.user_id ≡ token.user_id)
          (others db).password_tokens (λ t p e. p (ground (arith, e, same))) own)
        h in
    let refuses =
      reset_for-refuses crypto again later token' (find user_key token'.user_id after.users)
        password' confirmation' after lost in
    (no_token crypto later raw after gone, rw found' (refuses.0), rw found' (refuses.1))

-- After a reset that signed in, the one session of the account that is valid is the new one.
pub password_reset_ends_sessions :
    (crypto : Crypto) (secrets : Secrets) (asked now later : Time) (others : Db → Db)
    (raw password confirmation cookie : String) (db : Db) (token : PasswordToken) (s : UserSession)
    → recovery_token crypto asked raw db ≡ some token
    → (password_reset crypto secrets asked now others raw password confirmation db).1 ≡ signed_in
    → valid_session crypto later cookie
        (password_reset crypto secrets asked now others raw password confirmation db).0
      ≡ some s
    → s.user_id ≡ token.user_id
    → s.token_hash ≡ crypto.token_hash secrets.raw
password_reset_ends_sessions crypto secrets asked now later others raw password confirmation cookie
      db token s found h valid mine =
    let done =
      password_reset-IsReset crypto secrets asked now others raw password confirmation db token
        found h in
    let user = find-key user_key token.user_id (others db).users done.user done.account in
    finish_password-sessions crypto secrets now later done.user done.password cookie
      (mark_used now token (others db)) s (rw (done.written) at valid) (mine ∙ sym user)
