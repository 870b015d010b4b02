-- ===== src/Web/Admin.antt =====
-- trackr_app/main.py: `invite` and `toggle_user`, and trackr_app/admin_jobs.py: `retry`.
use summer_intern.Prelude.{
  ℕ, ◌+◌, Bool, true, not, ◌&&◌, ◌||◌, Option, none, some, List, [], ◌∷◌, ◌++◌, String, ◌==◌,
  nat_eq, string_eq, ltb, is_some, is_none, if◌then◌else◌, find, first_where, save, update_where,
  fresh_id,
}
use summer_intern.Model.{
  Db, Time, Date, minutes, hours, pending, cancelled, is_pending, is_sent, is_failed, is_unfinished,
  is_active_preference, immediate, draft, Status, User, Invitation, Preference, Delivery,
  NotionConnection, NotionSync,
}
use summer_intern.Security.{Crypto}
use summer_intern.Sessions.{revoke_user_auth}
use summer_intern.Passwords.{user_key}
use summer_intern.Preferences.Reconcile.{connection_of}
use summer_intern.Preferences.Deferred.{activate_deferred}
use summer_intern.Durable.Matching.{preference_of}
use summer_intern.Web.Access.{redirects, http_error, Handler}

-- A row of `users` and of `preferences` with the columns' defaults.
abbrev pub new_user : ℕ → String → Time → User
new_user id email now = record {
  id = id;
  email = email;
  password_hash = none;
  role = "subscriber";
  is_active = true;
  created_at = now;
}

abbrev pub new_preference : ℕ → ℕ → Time → Preference
new_preference id user_id now = record {
  id = id;
  user_id = user_id;
  program_types = "summer" ∷ "off-cycle" ∷ [];
  regions = "France" ∷ "UK" ∷ "Hong Kong" ∷ [];
  start_terms = [];
  delivery_mode = immediate;
  digest_time = hours 8;
  timezone = "Europe/Paris";
  status = draft;
  activated_at = none;
  last_digest_date = none;
  updated_at = now;
}

abbrev pub by_email : String → Db → Option User
by_email email db = first_where (λ (u : User). u.email == email) db.users

-- `INSERT ... ON CONFLICT (email) DO NOTHING`, and the same for the preference.
abbrev pub ensure_user : Time → String → Db → Db
ensure_user now email db = record db {
  users =
      if is_some (by_email email db)
      then db.users
      else db.users ++ new_user (fresh_id user_key db.users) email now ∷ [];
}

abbrev pub ensure_preference : Time → ℕ → Db → Db
ensure_preference now user_id db = record db {
  preferences =
      if is_some (preference_of user_id db)
      then db.preferences
      else db.preferences
        ++ new_preference (fresh_id (λ (p : Preference). p.id) db.preferences) user_id now ∷ [];
}

-- The alerts of an account whose preference is active are matched anew.
abbrev pub reactivate : String → Bool → Time → Date → Option Preference → Db → Db
reactivate season available now today none db = db
reactivate season available now today (some p) db =
    if is_active_preference p.status
    then (activate_deferred season available now today p db).0
    else db

abbrev pub new_invitation : ℕ → String → ℕ → Time → Invitation
new_invitation id email admin_id now = record {
  id = id;
  email = email;
  invited_by_id = admin_id;
  accepted_at = none;
  created_at = now;
  delivery_status = pending;
  attempts = 0;
  last_error = none;
  next_attempt_at = none;
}

-- The newest open invitation of an address.
unfoldable pub newest_open : String → List Invitation → Option Invitation
newest_open email [] = none
newest_open email (i ∷ is) =
    let rest = newest_open email is in
    if i.email == email && is_none i.accepted_at
    then elim rest [ none ↦ some i | some j ↦ if ltb i.id j.id then some j else some i ]
    else rest

-- One that waits for its first delivery, or went out less than a minute ago, is left.
abbrev pub is_recent : Time → Invitation → Bool
is_recent now i =
    is_pending i.delivery_status && is_none i.last_error
    || is_sent i.delivery_status && ltb now (i.created_at + minutes 1)

abbrev pub invite_again : Time → String → ℕ → Option Invitation → List Invitation → List Invitation
invite_again now email admin_id none rows =
    rows ++ new_invitation (fresh_id (λ (i : Invitation). i.id) rows) email admin_id now ∷ []
invite_again now email admin_id (some i) rows =
    if is_recent now i
    then rows
    else save (λ (v : Invitation). v.id)
        (record i {
          delivery_status = pending;
          attempts = 0;
          last_error = none;
          next_attempt_at = none;
          created_at = now;
        })
        rows

module _ (season : String) (available : Bool) (now : Time) (today : Date) where
  abbrev pub invite_user : String → ℕ → Option User → Db → Db
  invite_user email admin_id none db = db
  invite_user email admin_id (some user) db =
      let prepared = ensure_preference now user.id db in
      let enabled : Db = record prepared {
        users = save user_key (record user { is_active = true }) prepared.users;
      } in
      let matched = reactivate season available now today (preference_of user.id enabled) enabled in
      record matched {
        invitations =
            invite_again now email admin_id (newest_open email matched.invitations)
              matched.invitations;
      }

  -- `normalized` is what the `email_validator` library makes of the form's address, if it takes it.
  unfoldable pub invite : Option String → Handler
  unfolding newest_open activate_deferred
  invite none admin db = (db, http_error 422)
  invite (some email) admin db =
      let prepared = ensure_user now email db in
      (invite_user email admin.id (by_email email prepared) prepared, redirects "/admin")

-- `status in ('pending', 'processing', 'failed')`.
abbrev pub is_stoppable : Status → Bool
is_stoppable s = is_unfinished s || is_failed s

abbrev pub stop_invitations : String → Db → Db
stop_invitations email db = record db {
  invitations =
      update_where (λ (i : Invitation). i.email == email && is_none i.accepted_at)
        (λ i. record i { delivery_status = cancelled }) db.invitations;
}

abbrev pub stop_deliveries : ℕ → Db → Db
stop_deliveries user_id db = record db {
  deliveries =
      update_where (λ (d : Delivery). d.user_id == user_id && is_stoppable d.status)
        (λ d. record d { status = cancelled; processing_started_at = none }) db.deliveries;
}

abbrev pub stop_syncs : Option NotionConnection → Db → Db
stop_syncs none db = db
stop_syncs (some c) db = record db {
  notion_syncs =
      update_where (λ (s : NotionSync). s.connection_id == c.id && is_stoppable s.status)
        (λ s. record s { status = cancelled }) db.notion_syncs;
}

-- What the deactivation of an account stops, after its row is written.
unfoldable pub stop_user : Crypto → User → Db → Db
unfolding revoke_user_auth
stop_user crypto target db =
    let revoked = revoke_user_auth crypto target.id (stop_invitations target.email db) in
    let stopped = stop_deliveries target.id revoked in
    stop_syncs (connection_of target.id stopped) stopped

module _ (crypto : Crypto) (season : String) (available : Bool) (now : Time) (today : Date) where
  unfoldable pub toggle_found : User → Db → Db
  unfolding stop_user activate_deferred
  toggle_found target db =
      let toggled = record target { is_active = not target.is_active } in
      let written : Db = record db { users = save user_key toggled db.users } in
      let stopped = stop_user crypto toggled written in
      let started =
        reactivate season available now today (preference_of target.id written) written in
      if target.is_active then stopped else started

  abbrev pub toggle_target : Option User → Handler
  toggle_target none admin db = (db, http_error 400)
  toggle_target (some target) admin db =
      let done = toggle_found target db in
      if target.id == admin.id then (db, http_error 400) else (done, redirects "/admin")

  unfoldable pub toggle_user : ℕ → Handler
  unfolding toggle_found
  toggle_user user_id admin db = toggle_target (find user_key user_id db.users) admin db
