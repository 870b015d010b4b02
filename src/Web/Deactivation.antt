-- ===== src/Web/Deactivation.antt =====
-- trackr_app/main.py, `toggle_user`: what is left of an account that an administrator deactivates.
use summer_intern.Prelude.{
  ◌≡◌, ◌≢◌, refl, ap, ◌∙◌, sym, String, Bool, true, false, not, ◌&&◌, Option, none, some, List, [],
  ◌∷◌, ◌==◌, nat_eq, nat_beq_iff, string_eq, if◌then◌else◌, find, save, find-save, All,
  update_where, update_where-All, arith, is_none,
}
use summer_intern.Model.{
  Db, Time, Date, cancelled, User, UserSession, MagicLink, PasswordToken, Invitation, Delivery,
  NotionConnection, NotionSync, is_pending, AuthMail,
}
use summer_intern.Security.{Crypto}
use summer_intern.Sessions.{valid_session, revoke_user_auth, is_open_mail, cancel_mail}
use summer_intern.Sessions.Validity.{revoke_user_auth_ends}
use summer_intern.Passwords.{user_key}
use summer_intern.Preferences.Reconcile.{connection_of}
use summer_intern.Durable.Matching.{preference_of}
use summer_intern.Web.Admin.{
  is_stoppable, stop_invitations, stop_deliveries, stop_syncs, stop_user, toggle_found, toggle_user,
  reactivate,
}

-- Nothing of the account may be sent any more.
abbrev pub IsSilent : User → Db → Type 0
IsSilent u db =
    All (λ (d : Delivery). (d.user_id == u.id && is_stoppable d.status) ≡ false) db.deliveries
    × All
        (λ (i : Invitation).
          (i.email == u.email && is_none i.accepted_at && is_pending i.delivery_status) ≡ false)
        db.invitations
    × ((c : NotionConnection)
        → connection_of u.id db ≡ some c
        → All (λ (s : NotionSync). (s.connection_id == c.id && is_stoppable s.status) ≡ false)
            db.notion_syncs)

-- Nobody is signed in to the account, no session, link or token of it is left, and no email with one
-- is queued.
abbrev pub IsLocked : Crypto → User → Db → Type 0
IsLocked crypto u db =
    ((now : Time) (raw : String) (s : UserSession)
      → valid_session crypto now raw db ≡ some s
      → s.user_id ≢ u.id)
    × All (λ (s : UserSession). (s.user_id == u.id) ≡ false) db.user_sessions
    × All (λ (l : MagicLink). (l.user_id == u.id) ≡ false) db.magic_links
    × All (λ (t : PasswordToken). (t.user_id == u.id) ≡ false) db.password_tokens
    × All (λ (j : AuthMail). is_open_mail crypto u j ≡ false) db.auth_mail

stopped_syncs :
    (u : User) (found : Option NotionConnection) (db : Db)
    → connection_of u.id db ≡ found
    → (c : NotionConnection) → connection_of u.id (stop_syncs found db) ≡ some c
    → All
        (λ (s : NotionSync). (s.connection_id == c.id && is_stoppable s.status) ≡ false)
        (stop_syncs found db).notion_syncs
stopped_syncs u none db same c there = absurd (cc)
stopped_syncs u (some k) db same c there =
    let e : k ≡ c = ground (arith, same, there) in
    rw (sym e) (
      update_where-All (λ (s : NotionSync). s.connection_id == k.id && is_stoppable s.status)
        (λ s. record s { status = cancelled }) db.notion_syncs (λ s. ground arith))

silenced :
    (u : User) (found : Option NotionConnection) (db : Db)
    → connection_of u.id db ≡ found
    → All (λ (d : Delivery). (d.user_id == u.id && is_stoppable d.status) ≡ false) db.deliveries
    → All
        (λ (i : Invitation).
          (i.email == u.email && is_none i.accepted_at && is_pending i.delivery_status) ≡ false)
        db.invitations
    → IsSilent u (stop_syncs found db)
silenced u none db same ds is = (ds, is, stopped_syncs u none db same)
silenced u (some k) db same ds is = (ds, is, stopped_syncs u (some k) db same)

access_ended :
    (crypto : Crypto) (u : User) (found : Option NotionConnection) (db : Db)
    → IsLocked crypto u db
    → IsLocked crypto u (stop_syncs found (stop_deliveries u.id db))
unfolding valid_session summer_intern.Sessions.checked_session
access_ended crypto u none db h = h
access_ended crypto u (some k) db h = h

cancelled_invitations :
    (email : String) (rows : List Invitation)
    → All
        (λ (i : Invitation).
          (i.email == email && is_none i.accepted_at && is_pending i.delivery_status) ≡ false)
        (update_where
          (λ (i : Invitation). i.email == email && is_none i.accepted_at)
          (λ i. record i { delivery_status = cancelled })
          rows)
unfolding update_where
cancelled_invitations email [] = tt
cancelled_invitations email (i ∷ is) = (ground arith, cancelled_invitations email is)

IsLocked-revoke_user_auth :
    (crypto : Crypto) (u : User) (db : Db)
    → find user_key u.id db.users ≡ some u
    → IsLocked crypto u (revoke_user_auth crypto u.id db)
unfolding revoke_user_auth cancel_mail
IsLocked-revoke_user_auth crypto u db there =
    let ends = revoke_user_auth_ends crypto u.id db in
    (
      ends.0,
      ends.1,
      ends.2,
      ends.3,
      rw there (
          update_where-All (is_open_mail crypto u)
            (λ (j : AuthMail). record j { status = cancelled }) db.auth_mail (λ j. ground arith)),
    )

stop_user-stops :
    (crypto : Crypto) (u : User) (db : Db)
    → find user_key u.id db.users ≡ some u
    → IsSilent u (stop_user crypto u db) × IsLocked crypto u (stop_user crypto u db)
unfolding stop_user revoke_user_auth
stop_user-stops crypto u db there =
    let revoked = revoke_user_auth crypto u.id (stop_invitations u.email db) in
    let stopped = stop_deliveries u.id revoked in
    (
      silenced u (connection_of u.id stopped) stopped refl
          (update_where-All (λ (d : Delivery). d.user_id == u.id && is_stoppable d.status)
            (λ d. record d { status = cancelled; processing_started_at = none }) revoked.deliveries
            (λ d. ground arith))
          (cancelled_invitations u.email db.invitations),
      access_ended crypto u (connection_of u.id stopped) revoked
          (IsLocked-revoke_user_auth crypto u (stop_invitations u.email db) there),
    )

stop_syncs_users :
    (found : Option NotionConnection) (db : Db) → (stop_syncs found db).users ≡ db.users
stop_syncs_users none db = refl
stop_syncs_users (some c) db = refl

stop_user_users : (crypto : Crypto) (u : User) (db : Db) → (stop_user crypto u db).users ≡ db.users
unfolding stop_user revoke_user_auth
stop_user_users crypto u db =
    let revoked = revoke_user_auth crypto u.id (stop_invitations u.email db) in
    stop_syncs_users (connection_of u.id (stop_deliveries u.id revoked))
      (stop_deliveries u.id revoked)

toggled_state :
    (crypto : Crypto) (season : String) (available : Bool) (now : Time) (today : Date)
    (admin target : User) (db : Db)
    → find user_key target.id db.users ≡ some target
    → target.is_active ≡ true
    → (target.id == admin.id) ≡ false
    → (toggle_user crypto season available now today target.id admin db).0
      ≡ stop_user crypto
          (record target { is_active = false })
          (record db { users = save user_key (record target { is_active = false }) db.users })
unfolding toggle_user toggle_found
toggled_state crypto season available now today admin target db found active other =
    let toggled = record target { is_active = not target.is_active } in
    let written : Db = record db { users = save user_key toggled db.users } in
    let started = reactivate season available now today (preference_of target.id written) written in
    rw (found, other)
      (ap
        (λ b.
          if b
          then stop_user crypto (record target { is_active = not b })
              (record db { users = save user_key (record target { is_active = not b }) db.users })
          else started)
        active)

-- An administrator who toggles an active account other than the own one leaves it inactive and
-- silent: no session, sign-in link or password token of it is left, no email with such a link is
-- pending or processing for its address, no session of it is valid at any time, none of its alerts is pending, processing or failed, nor a page of its Notion connection, and no
-- open invitation to its address is pending.
pub toggle_user_stops :
    (crypto : Crypto) (season : String) (available : Bool) (now : Time) (today : Date)
    (admin target : User) (db : Db)
    → find user_key target.id db.users ≡ some target
    → target.is_active ≡ true
    → (target.id == admin.id) ≡ false
    → (let after = (toggle_user crypto season available now today target.id admin db).0 in
        let stopped = record target { is_active = false } in
        (find user_key target.id after.users ≡ some stopped)
        × IsSilent stopped after
        × IsLocked crypto stopped after)
unfolding toggle_user toggle_found
toggle_user_stops crypto season available now today admin target db found active other =
    let stopped = record target { is_active = false } in
    let written : Db = record db { users = save user_key stopped db.users } in
    let row : find user_key target.id (stop_user crypto stopped written).users ≡ some stopped =
      ap (find user_key target.id) (stop_user_users crypto stopped written)
      ∙ find-save user_key stopped target.id db.users
      ∙ rw found (ground (arith, nat_beq_iff target.id target.id)) in
    let saved : find user_key target.id written.users ≡ some stopped =
      find-save user_key stopped target.id db.users
      ∙ rw found (ground (arith, nat_beq_iff target.id target.id)) in
    let ends = stop_user-stops crypto stopped written saved in
    rw (toggled_state crypto season available now today admin target db found active other)
      (row, ends.0, ends.1)
