-- ===== src/Sessions/Validity.antt =====
-- trackr_app/sessions.py, `revoke_user_auth`: what is left of an account's access.
use summer_intern.Prelude.{
  ℕ, ◌≡◌, ◌≢◌, String, Bool, false, some, List, [], ◌∷◌, ◌==◌, nat_eq, string_eq, arith, All,
  first_where-All, delete_where, Bool-cases, inl, inr,
}
use summer_intern.Model.{Db, Time, UserSession, MagicLink, PasswordToken}
use summer_intern.Security.{Crypto}
use summer_intern.Sessions.{valid_session, revoke_user_auth}
use summer_intern.Sessions.Lifetime.{valid_parts}

-- After a deletion no row meets its condition.
pub delete_where-All :
    {R : Type 0} (p : R → Bool) (rows : List R) → All (λ r. p r ≡ false) (delete_where p rows)
unfolding delete_where
delete_where-All p [] = tt
delete_where-All p (r ∷ rows) = elim (Bool-cases (p r)) [
  | inl gone ↦ rw gone (delete_where-All p rows)
  | inr kept ↦ rw kept (kept, delete_where-All p rows)
]

-- After an account's access is revoked, no session, magic link or password token of it is left: all
-- rows of the three tables belong to other accounts, and so does every session that is valid.
pub revoke_user_auth_ends :
    (crypto : Crypto) (user_id : ℕ) (db : Db)
    → ((now : Time) (raw : String) (s : UserSession)
        → valid_session crypto now raw (revoke_user_auth crypto user_id db) ≡ some s
        → s.user_id ≢ user_id)
      × All
          (λ (s : UserSession). (s.user_id == user_id) ≡ false)
          (revoke_user_auth crypto user_id db).user_sessions
      × All
          (λ (l : MagicLink). (l.user_id == user_id) ≡ false)
          (revoke_user_auth crypto user_id db).magic_links
      × All
          (λ (t : PasswordToken). (t.user_id == user_id) ≡ false)
          (revoke_user_auth crypto user_id db).password_tokens
unfolding revoke_user_auth
revoke_user_auth_ends crypto user_id db = (
  (λ now raw s valid e.
      let parts = valid_parts crypto now raw (revoke_user_auth crypto user_id db) s valid in
      let other =
        first_where-All (λ (r : UserSession). (r.user_id == user_id) ≡ false) _ _ s
          (delete_where-All (λ (r : UserSession). r.user_id == user_id) db.user_sessions) parts.0 in
      ground (arith, other, e)),
  delete_where-All (λ (s : UserSession). s.user_id == user_id) db.user_sessions,
  delete_where-All (λ (l : MagicLink). l.user_id == user_id) db.magic_links,
  delete_where-All (λ (t : PasswordToken). t.user_id == user_id) db.password_tokens,
)
