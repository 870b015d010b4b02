-- ===== src/Preferences/Deferred.antt =====
-- trackr_app/preferences.py: `activate_preference` with `defer=True`, which leaves the work to a durable
-- job where the runtime's tables are available.
use summer_intern.Prelude.{ℕ, nat_eq, Bool, true, false, none, some, String, if◌then◌else◌, save}
use summer_intern.Model.{
  Db, Time, Date, PreferenceStatus, Preference, Payload, match_user, matching,
}
use summer_intern.Durable.Enqueue.{enqueue_job}
use summer_intern.Preferences.Reconcile.{activate_preference}

-- `{'user_id': ..., 'baseline': True, 'reconcile': True}`.
abbrev pub reconcile_payload : ℕ → Payload
reconcile_payload user_id = record {
  user_id = some user_id;
  offer_id = none;
  connection_id = none;
  parent_page_id = none;
  baseline = true;
  reconcile = true;
  offers_phase = false;
  updated = false;
}

unfoldable pub activate_deferred : String → Bool → Time → Date → Preference → Db → Db × ℕ
unfolding activate_preference enqueue_job
activate_deferred season available now today p db =
    let p' = record p { status = PreferenceStatus.active; activated_at = some now } in
    let started = record db { preferences = save (λ (q : Preference). q.id) p' db.preferences } in
    let at_once = activate_preference season now today p db in
    if available
    then (
      enqueue_job now (match_user p.user_id) matching (reconcile_payload p.user_id) false started,
      0,
    )
    else at_once
