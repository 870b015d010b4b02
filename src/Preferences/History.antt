-- ===== src/Preferences/History.antt =====
-- What reconciliation keeps, and what it leaves queued.
use summer_intern.Prelude.{
  ℕ, String, true, false, Option, none, some, List, ◌≡◌, refl, arith, ◌==◌, nat_eq, find, save,
  first_where, find-save, find-append, find-first_where, first_where-true, AreUnique,
  AreUnique-save, Bool-cases, inl, inr,
}
use summer_intern.Model.{
  Db, Time, Date, is_sent, is_unfinished, is_cancelled, mode_eq, mode_beq_iff, Preference, Offer,
  Delivery,
}
use summer_intern.Preferences.Reconcile.{
  delivery_id, cancel, retry_status, is_open_alert, is_for, is_wanted, revive_target, change_mode,
  reconcile_item, was_sent, reconcile_delivery,
}

-- A row that is saved over another leaves a row of a different key as it was.
save_other :
    (r d : Delivery) (rows : List Delivery) (id : ℕ)
    → (delivery_id r == id) ≡ false
    → find delivery_id id rows ≡ some d
    → find delivery_id id (save delivery_id r rows) ≡ some d
save_other r d rows id other found = rw find-save (rw (other, found))

-- The keys of a sent row and of a row that is not sent differ.
sent_apart :
    (d r : Delivery) (rows : List Delivery) (id : ℕ)
    → find delivery_id id rows ≡ some d
    → find delivery_id r.id rows ≡ some r
    → is_sent d.status ≡ true
    → is_sent r.status ≡ false
    → (delivery_id r == id) ≡ false
sent_apart d r rows id found row s u = elim (Bool-cases (delivery_id r == id)) [
  | inl same ↦
      let e : r.id ≡ id = ground (arith, same) in
      let both : find delivery_id id rows ≡ some r = rw (← e) row in absurd (cc (both, found, s, u))
  | inr other ↦ other
]

module _ (season : String) (now : Time) (today : Date) (p : Preference) where
  -- The row in the account's mode is never a sent one, and it is not the item's.
  target_keeps :
      (item : Delivery) (rows : List Delivery) (o : Option Delivery) (id : ℕ) (d : Delivery)
      → AreUnique delivery_id rows
      → first_where (is_for item.user_id item.offer_id p.delivery_mode) rows ≡ o
      → find delivery_id id rows ≡ some d
      → (is_cancelled d.status ≡ true → (d.mode == p.delivery_mode) ≡ false)
      → find delivery_id id (revive_target season now today p item o rows) ≡ some d
  unfolding revive_target
  target_keeps item rows none id d unique target found kept = rw find-append (rw found)
  target_keeps item rows (some t) id d unique target found kept =
      let row = find-first_where delivery_id _ rows t unique target in
      let wanted_mode = first_where-true _ rows t target in
      elim (Bool-cases (delivery_id t == id)) [
        | inl same ↦
            let e : t.id ≡ id = ground (arith, same) in
            let both : find delivery_id id rows ≡ some t = rw (← e) row in
            let is_d : t ≡ d = cc (both, found) in
            elim (Bool-cases (is_cancelled t.status)) [
              | inl gone ↦ absurd (ground (arith, gone, is_d, wanted_mode, kept))
              | inr live ↦ rw live found
            ]
        | inr other ↦ elim (Bool-cases (is_cancelled t.status)) [
          | inl gone ↦
              rw gone
                (save_other (record t { status = retry_status t.attempts }) d rows id other found)
          | inr live ↦ rw live found
        ]
      ]

  -- The row of the replaced item is cancelled, and stays so.
  change_mode_item :
      (item : Delivery) (rows : List Delivery)
      → AreUnique delivery_id rows
      → find delivery_id item.id rows ≡ some item
      → (item.mode == p.delivery_mode) ≡ false
      → find delivery_id item.id (change_mode season now today p item rows) ≡ some (cancel item)
  unfolding change_mode
  change_mode_item item rows unique found other_mode =
      let rows' = save delivery_id (cancel item) rows in
      target_keeps item rows'
        (first_where (is_for item.user_id item.offer_id p.delivery_mode) rows') item.id
        (cancel item) (AreUnique-save delivery_id (cancel item) rows unique) refl
        (rw find-save (rw found (ground arith))) (λ _. other_mode)

  change_mode_sent :
      (item : Delivery) (rows : List Delivery) (id : ℕ) (d : Delivery)
      → AreUnique delivery_id rows
      → find delivery_id item.id rows ≡ some item
      → is_sent item.status ≡ false
      → find delivery_id id rows ≡ some d
      → is_sent d.status ≡ true
      → find delivery_id id (change_mode season now today p item rows) ≡ some d
  unfolding change_mode
  change_mode_sent item rows id d unique row unsent found s =
      let rows' = save delivery_id (cancel item) rows in
      target_keeps item rows'
        (first_where (is_for item.user_id item.offer_id p.delivery_mode) rows') id d
        (AreUnique-save delivery_id (cancel item) rows unique) refl
        (save_other (cancel item) d rows id (sent_apart d item rows id found row s unsent) found)
        (λ c. ground arith)

  unsent : (item : Delivery) → is_open_alert item.status ≡ true → is_sent item.status ≡ false
  unsent item h = ground arith

-- Reconciling one alert of an account leaves every sent delivery exactly as it was.
pub reconcile_keeps_sent :
    (season : String) (now : Time) (today : Date) (p : Preference) (item : Delivery) (db : Db)
    (id : ℕ) (d : Delivery)
    → AreUnique delivery_id db.deliveries
    → find delivery_id item.id db.deliveries ≡ some item
    → find delivery_id id db.deliveries ≡ some d
    → is_sent d.status ≡ true
    → find delivery_id id (reconcile_delivery season now today p item db).deliveries ≡ some d
unfolding reconcile_delivery reconcile_item
reconcile_keeps_sent season now today p item db id d unique row found s =
    elim (Bool-cases (is_open_alert item.status)) [
      | inr no_alert ↦ rw no_alert found
      | inl alert ↦
          let apart =
            sent_apart d item db.deliveries id found row s (unsent season now today p item alert) in
          let changed =
            change_mode_sent season now today p item db.deliveries id d unique row
              (unsent season now today p item alert) found s in
          let cancelled_row = save_other (cancel item) d db.deliveries id apart found in
          let revived_row =
            save_other (record item { status = retry_status item.attempts; next_attempt_at = none })
              d db.deliveries id apart found in
          ground (arith, changed, cancelled_row, revived_row, found)
    ]

-- After an alert is reconciled it is still to be sent only if its offer was not sent to the account
-- before, exists, is open and matches the preferences, and its mode is the chosen one.
pub reconcile_leaves_wanted :
    (season : String) (now : Time) (today : Date) (p : Preference) (item d : Delivery) (db : Db)
    → AreUnique delivery_id db.deliveries
    → find delivery_id item.id db.deliveries ≡ some item
    → find delivery_id item.id (reconcile_delivery season now today p item db).deliveries ≡ some d
    → is_unfinished d.status ≡ true
    → (was_sent item.user_id item.offer_id db ≡ false)
      × (is_wanted season now today p (find (λ (o : Offer). o.id) item.offer_id db.offers) db
          ≡ true)
      × (d.mode ≡ p.delivery_mode)
unfolding reconcile_delivery reconcile_item
reconcile_leaves_wanted season now today p item d db unique row after live = ground (
  arith,
  after,
  row,
  live,
  change_mode_item season now today p item db.deliveries unique row,
  find-save delivery_id (cancel item) item.id db.deliveries,
  find-save delivery_id
      (record item { status = retry_status item.attempts; next_attempt_at = none }) item.id
      db.deliveries,
  mode_beq_iff item.mode p.delivery_mode,
)
