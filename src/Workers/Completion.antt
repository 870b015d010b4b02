-- ===== src/Workers/Completion.antt =====
-- trackr_app/workers.py, `_send_group`: the rows after the completion of a group's claims.
use summer_intern.Prelude.{
  ℕ, ◌≡◌, inl, inr, refl, ap, ◌∙◌, Bool, true, false, ◌&&◌, Option, none, some, List, [], ◌∷◌, ◌==◌,
  ◌≢◌, and_parts, nat_eq, if◌then◌else◌, find, first_where, find-save, find-key, find-first_where,
  first_where-true, Option-cases, arith, Bool-cases, any, AreUnique, AreUnique-save,
}
use summer_intern.Model.{Db, Time, is_processing, Delivery}
use summer_intern.Preferences.Reconcile.{delivery_id}
use summer_intern.Durable.Enqueue.{same_option}
use summer_intern.Workers.Group.{
  SendResult, accepted, rejected, completed_alert, is_held, complete_held, complete_each,
}
use summer_intern.Workers.Rows.{row}

abbrev pub is_claim_of : ℕ → Option Time → ℕ × Option Time → Bool
is_claim_of id started claim = claim.0 == id && same_option started claim.1

completed_ends :
    (now : Time) (active : Bool) (result : SendResult) (d : Delivery)
    → is_processing (completed_alert now active result d).status ≡ false
completed_ends now false result d = refl
completed_ends now true (accepted message_id) d = refl
completed_ends now true (rejected error) d = ground arith

completed_id :
    (now : Time) (active : Bool) (result : SendResult) (d : Delivery)
    → (completed_alert now active result d).id ≡ d.id
completed_id now false result d = refl
completed_id now true (accepted message_id) d = refl
completed_id now true (rejected error) d = refl

module _ (now : Time) (active : Bool) (result : SendResult) where
  unique_after :
      (held : Option Delivery) (db : Db)
      → AreUnique delivery_id db.deliveries
      → AreUnique delivery_id (complete_held now active result held db).deliveries
  unique_after none db h = h
  unique_after (some d) db h =
      AreUnique-save delivery_id (completed_alert now active result d) db.deliveries h

  row-saved :
      (id : ℕ) (d r : Delivery) (db : Db)
      → row id db ≡ some r
      → row id (complete_held now active result (some d) db)
        ≡ (if d.id == id then some (completed_alert now active result d) else some r)
  row-saved id d r db there =
      find-save delivery_id (completed_alert now active result d) id db.deliveries
      ∙ rw (there, completed_id now active result d) refl

  held_row :
      (i id : ℕ) (started : Option Time) (d r : Delivery) (db : Db)
      → AreUnique delivery_id db.deliveries
      → first_where (is_held i started) db.deliveries ≡ some d
      → row id db ≡ some r
      → (d.id == id) ≡ true
      → d ≡ r
  held_row i id started d r db unique held there same =
      let found = find-first_where delivery_id (is_held i started) db.deliveries d unique held in
      let at : d.id ≡ id = ground (arith, same) in
      ground (arith, found, there, ap (λ n. row n db) at)

  -- A row that is not processing is left alone.
  pub complete_each-spares :
      (id : ℕ) (r : Delivery) (claims : List (ℕ × Option Time)) (db : Db)
      → AreUnique delivery_id db.deliveries
      → is_processing r.status ≡ false
      → row id db ≡ some r
      → row id (complete_each now active result claims db).0 ≡ some r
  unfolding complete_each
  complete_each-spares id r [] db unique over there = there
  complete_each-spares id r ((i, started) ∷ claims) db unique over there =
      elim (Option-cases (first_where (is_held i started) db.deliveries)) [
        | inl missed ↦ rw missed (complete_each-spares id r claims db unique over there)
        | inr (d, held) ↦ rw held (
            complete_each-spares id r claims (complete_held now active result (some d) db)
              (unique_after (some d) db unique) over
              (row-saved id d r db there ∙ elim (Bool-cases (d.id == id)) [
                | inl same ↦
                    let e = held_row i id started d r db unique held there same in
                    let h = first_where-true (is_held i started) db.deliveries d held in
                    absurd
                      (ground (arith, ap (λ (x : Delivery). is_processing x.status) e, h, over))
                | inr other ↦ rw other refl
              ]))
      ]

  still_held :
      (id i : ℕ) (started : Option Time) (r : Delivery) (rows : List Delivery)
      → find delivery_id id rows ≡ some r
      → is_held i started r ≡ true
      → first_where (is_held i started) rows ≢ none
  unfolding find first_where
  still_held id i started r [] there fits = cc
  still_held id i started r (d ∷ ds) there fits =
      ground (arith, still_held id i started r ds, there, fits)

  missed_claim :
      (id i : ℕ) (started : Option Time) (r : Delivery) (db : Db)
      → row id db ≡ some r
      → is_processing r.status ≡ true
      → first_where (is_held i started) db.deliveries ≡ none
      → is_claim_of id r.processing_started_at (i, started) ≡ false
  missed_claim id i started r db there busy missed =
      elim (Bool-cases (is_claim_of id r.processing_started_at (i, started))) [
        | inr other ↦ other
        | inl ours ↦
            let parts = and_parts (i == id) (same_option r.processing_started_at started) ours in
            let at : r.id ≡ id = find-key delivery_id id db.deliveries r there in
            let held : is_held i started r ≡ true = ground (arith, parts, at, busy) in
            absurd (still_held id i started r db.deliveries there held missed)
      ]

  -- A row that is processing under one of the claims is completed.
  pub complete_each-completes :
      (id : ℕ) (r : Delivery) (claims : List (ℕ × Option Time)) (db : Db)
      → AreUnique delivery_id db.deliveries
      → is_processing r.status ≡ true
      → row id db ≡ some r
      → any (is_claim_of id r.processing_started_at) claims ≡ true
      → row id (complete_each now active result claims db).0
        ≡ some (completed_alert now active result r)
  unfolding complete_each
  complete_each-completes id r [] db unique busy there ours = cc
  complete_each-completes id r ((i, started) ∷ claims) db unique busy there ours =
      elim (Option-cases (first_where (is_held i started) db.deliveries)) [
        | inl missed ↦
            let other = missed_claim id i started r db there busy missed in
            rw missed (
              complete_each-completes id r claims db unique busy there
                (ground (arith, ours, other)))
        | inr (d, held) ↦
            let next = unique_after (some d) db unique in
            let saved = row-saved id d r db there in
            rw held (elim (Bool-cases (d.id == id)) [
              | inl same ↦
                  let e = held_row i id started d r db unique held there same in
                  complete_each-spares id (completed_alert now active result r) claims
                    (complete_held now active result (some d) db) next
                    (completed_ends now active result r) (saved ∙ rw (same, e) refl)
              | inr other ↦
                  let h = first_where-true (is_held i started) db.deliveries d held in
                  complete_each-completes id r claims (complete_held now active result (some d) db)
                    next busy (saved ∙ rw other refl) (ground (arith, ours, h, other))
            ])
      ]
