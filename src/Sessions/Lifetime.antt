-- ===== src/Sessions/Lifetime.antt =====
-- trackr_app/sessions.py: how long a session lasts, unused and however often it is renewed.
use summer_intern.Prelude.{
  ℕ, ◌+◌, ◌≡◌, ◌↔◌, ◌<◌, ◌≤◌, ap, ◌∙◌, fresh_id, String, Bool, true, false, Option, none, some,
  List, [], ◌∷◌, ◌++◌, ◌==◌, nat_eq, string_eq, arith, All, All-update_where, All-append,
  first_where, first_where-All, first_where-true, find, Bool-cases, inl, inr, leb, eq_iff,
  if◌then◌else◌, refl,
}
use summer_intern.Model.{Db, Time, days, User, UserSession}
use summer_intern.Security.{Crypto}
use summer_intern.Sessions.{
  absolute, idle_time, session_of, is_active_user, is_expired, checked_session, valid_session,
  renewed_or_created, is_renewable, renew, visited, current_user, create_session,
}

-- Every session of the hash was created at the moment.
abbrev IsOf : String → Time → UserSession → Type 0
IsOf hash t s = s.token_hash ≡ hash → s.created_at ≡ t

abbrev AllOf : String → Time → Db → Type 0
AllOf hash t db = All (IsOf hash t) db.user_sessions

renew-Of :
    (hash : String) (t : Time) (raw : String) (now : Time) (s : UserSession) (db : Db)
    → AllOf hash t db
    → AllOf hash t (renew raw now s db).db
unfolding renew
renew-Of hash t raw now s db h =
    All-update_where (IsOf hash t) (is_renewable now s) _ db.user_sessions (λ r p _. p) h

visited-Of :
    (hash : String) (t : Time) (raw : String) (now : Time) (s : Option UserSession) (db : Db)
    → AllOf hash t db
    → AllOf hash t (visited raw now s db).db
unfolding visited
visited-Of hash t raw now none db h = h
visited-Of hash t raw now (some s) db h =
    elim (Bool-cases (leb (renewed_or_created s + days 1) now)) [
      | inl old ↦ rw old (renew-Of hash t raw now s db h)
      | inr recent ↦ rw recent h
    ]

-- Any requests one after another: the two times of each, and its cookie.
unfoldable pub visits : Crypto → List (Time × Time × String) → Db → Db
unfolding current_user
visits crypto [] db = db
visits crypto ((asked, now, raw) ∷ rest) db =
    visits crypto rest (current_user crypto asked now raw db).db

visits-Of :
    (crypto : Crypto) (hash : String) (t : Time) (requests : List (Time × Time × String)) (db : Db)
    → AllOf hash t db
    → AllOf hash t (visits crypto requests db)
unfolding visits current_user
visits-Of crypto hash t [] db h = h
visits-Of crypto hash t ((asked, now, raw) ∷ rest) db h =
    visits-Of crypto hash t rest _
      (visited-Of hash t raw now (valid_session crypto asked raw db) db h)

none-Of :
    (hash : String) (t : Time) (rows : List UserSession)
    → first_where (λ (s : UserSession). s.token_hash == hash) rows ≡ none
    → All (IsOf hash t) rows
unfolding first_where
none-Of hash t [] h = tt
none-Of hash t (s ∷ rows) h = elim (Bool-cases (s.token_hash == hash)) [
  | inl same ↦ absurd (cc (rw same at h))
  | inr other ↦ (
    (λ e. absurd (ground (arith, other, eq_iff s.token_hash hash, e))),
    none-Of hash t rows (rw other at h),
  )
]

create_session-Of :
    (crypto : Crypto) (now : Time) (raw csrf : String) (user_id : ℕ) (db : Db)
    → session_of (crypto.token_hash raw) db ≡ none
    → AllOf (crypto.token_hash raw) now (create_session crypto now raw csrf user_id db)
unfolding create_session
create_session-Of crypto now raw csrf user_id db new =
    All-append (IsOf (crypto.token_hash raw) now) db.user_sessions _
      (none-Of (crypto.token_hash raw) now db.user_sessions new) ((λ e. refl), tt)

checked_parts :
    (now : Time) (db : Db) (found : Option UserSession) (s : UserSession)
    → checked_session now db found ≡ some s
    → (found ≡ some s)
      × (is_expired now s ≡ false)
      × (is_active_user (find (λ (u : User). u.id) s.user_id db.users) ≡ true)
unfolding checked_session
checked_parts now db none s h = absurd (cc)
checked_parts now db (some r) s h = elim (Bool-cases (is_expired now r)) [
  | inl over ↦ absurd (cc (rw over at h))
  | inr live ↦ elim (Bool-cases (is_active_user (find (λ (u : User). u.id) r.user_id db.users))) [
    | inl active ↦
        let same : r ≡ s = cc (rw (live, active) at h) in
        (ap some same, rw (← same) live, rw (← same) active)
    | inr gone ↦ absurd (cc (rw (live, gone) at h))
  ]
]

-- What a valid session is.
pub valid_parts :
    (crypto : Crypto) (now : Time) (raw : String) (db : Db) (s : UserSession)
    → valid_session crypto now raw db ≡ some s
    → (session_of (crypto.token_hash raw) db ≡ some s)
      × (is_expired now s ≡ false)
      × (is_active_user (find (λ (u : User). u.id) s.user_id db.users) ≡ true)
unfolding valid_session
valid_parts crypto now raw db s h = elim (Bool-cases (raw == "")) [
  | inl empty ↦ absurd (cc (rw empty at h))
  | inr there ↦ checked_parts now db (session_of (crypto.token_hash raw) db) s (rw there at h)
]

-- A session ends a year after its sign-in at the latest, however often requests renew it.
pub session_ends :
    (crypto : Crypto) (now : Time) (raw csrf : String) (user_id : ℕ) (db : Db)
    (requests : List (Time × Time × String)) (t : Time) (s : UserSession)
    → session_of (crypto.token_hash raw) db ≡ none
    → valid_session crypto t raw
        (visits crypto requests (create_session crypto now raw csrf user_id db))
      ≡ some s
    → t < now + absolute
session_ends crypto now raw csrf user_id db requests t s new valid =
    let after = visits crypto requests (create_session crypto now raw csrf user_id db) in
    let parts = valid_parts crypto t raw after s valid in
    let all =
      visits-Of crypto (crypto.token_hash raw) now requests _
        (create_session-Of crypto now raw csrf user_id db new) in
    let hash = first_where-true _ after.user_sessions s parts.0 in
    let created =
      first_where-All (IsOf (crypto.token_hash raw) now) _ after.user_sessions s all parts.0
        (ground (arith, hash, eq_iff s.token_hash (crypto.token_hash raw))) in
    ground (arith, created, parts.1)

first_where-append :
    (p : UserSession → Bool) (rows : List UserSession) (s : UserSession)
    → first_where p rows ≡ none
    → first_where p (rows ++ s ∷ []) ≡ (if p s then some s else none)
unfolding first_where
first_where-append p [] s h = refl
first_where-append p (r ∷ rows) s h = ground (arith, first_where-append p rows s)

unfoldable new_session : Crypto → Time → String → String → ℕ → Db → UserSession
new_session crypto now raw csrf user_id db = record {
  id = fresh_id (λ (s : UserSession). s.id) db.user_sessions;
  user_id = user_id;
  token_hash = crypto.token_hash raw;
  csrf_token = csrf;
  expires_at = now + idle_time;
  created_at = now;
  renewed_at = some now;
}

created_session :
    (crypto : Crypto) (now : Time) (raw csrf : String) (user_id : ℕ) (db : Db)
    → session_of (crypto.token_hash raw) db ≡ none
    → session_of (crypto.token_hash raw) (create_session crypto now raw csrf user_id db)
      ≡ some (new_session crypto now raw csrf user_id db)
unfolding create_session new_session
created_session crypto now raw csrf user_id db new =
    let more =
      first_where-append (λ s. s.token_hash == crypto.token_hash raw) db.user_sessions
        (new_session crypto now raw csrf user_id db) new in
    more ∙ ground (arith, eq_iff (crypto.token_hash raw) (crypto.token_hash raw))

-- A sign-in of an active account is good for ninety days without a request, and no longer.
pub create_session_idle :
    (crypto : Crypto) (now t : Time) (raw csrf : String) (user : User) (db : Db)
    → (raw == "") ≡ false
    → session_of (crypto.token_hash raw) db ≡ none
    → find (λ (u : User). u.id) user.id db.users ≡ some user
    → user.is_active ≡ true
    → (valid_session crypto t raw (create_session crypto now raw csrf user.id db) ≡ none)
      ↔ (now + idle_time ≤ t)
unfolding valid_session checked_session create_session new_session
create_session_idle crypto now t raw csrf user db some_raw new there active =
    rw (created_session crypto now raw csrf user.id db new)
      (rw (some_raw) (rw there (rw active (ground arith))))
