-- ===== src/Limits/Quota.antt =====
-- What the counters of trackr_app/limits.py admit.
use summer_intern.Prelude.{
  ℕ, suc, ◌+◌, ◌-◌, ◌≤◌, ◌≡◌, ◌≢◌, ◌↔◌, ◌*◌, refl, true, List, [], ◌∷◌, String, All, ◌==◌,
  string_eq, eq_iff, leb→le, le→leb, and_parts, and_true, ltb, arith, find-append, find-update_key,
  find-update_at, if◌then◌else◌, Bool, false, is_some, find, delete_where, All-update_where,
  All-append, Bool-cases, inl, inr,
}
use summer_intern.Model.{Db, Time, seconds, AuthLimit}
use summer_intern.Limits.{
  Namespace, Budget, Digest, limit_key, count_up, count_of, key_of, charge, charge_all, allow,
  refund_key, refund_password_login,
}

abbrev fresh_limit : String → Time → AuthLimit
fresh_limit key expires_at = record { key = key; count = 1; expires_at = expires_at }

abbrev one_more : AuthLimit → AuthLimit
one_more r = record r { count = r.count + 1 }

abbrev one_less : AuthLimit → AuthLimit
one_less r = record r { count = r.count - 1 }

-- Charging a window adds one to its counter and leaves the others.
count_of-count_up :
    (key other : String) (expires_at : Time) (rows : List AuthLimit)
    → count_of other (count_up key expires_at rows)
      ≡ (if other == key then suc (count_of other rows) else count_of other rows)
unfolding count_up count_of
count_of-count_up key other expires_at rows = ground (
  arith,
  find-append limit_key other rows (fresh_limit key expires_at),
  find-update_at limit_key key other one_more rows (λ r. refl),
  eq_iff other key,
  eq_iff key other,
)

-- A refund takes one from a positive counter and leaves the others.
count_of-refund_key :
    (key other : String) (rows : List AuthLimit)
    → count_of other (refund_key key rows)
      ≡ (if other == key then count_of other rows - 1 else count_of other rows)
unfolding refund_key count_of
count_of-refund_key key other rows = ground (
  arith,
  find-update_key limit_key key other (λ r. ltb 0 r.count) one_less rows (λ r. refl),
  eq_iff other key,
)

-- How often a key occurs among the keys of a reservation.
abbrev occurrences : String → List String → ℕ
occurrences other [] = 0
occurrences other (key ∷ keys) =
    if other == key then suc (occurrences other keys) else occurrences other keys

module _ (digest : Digest) (namespace : Namespace) (now : Time) where
  count_of-charge_all :
      (bs : List Budget) (rows : List AuthLimit) (other : String)
      → count_of other (charge_all digest namespace now bs rows).0
        ≡ count_of other rows + occurrences other (charge_all digest namespace now bs rows).2
  unfolding charge_all charge
  count_of-charge_all [] rows other = omega arith
  count_of-charge_all (b ∷ bs) rows other =
      let key = key_of digest namespace now b in
      let until = now + seconds (b.window * 2) in
      ground (
        arith,
        count_of-charge_all bs (count_up key until rows) other,
        count_of-count_up key other until rows,
      )

count_of-refund :
    (keys : List String) (rows : List AuthLimit) (other : String)
    → count_of other (refund_password_login keys rows)
      ≡ count_of other rows - occurrences other keys
unfolding refund_password_login
count_of-refund [] rows other = omega arith
count_of-refund (key ∷ keys) rows other =
    ground
      (arith, count_of-refund keys (refund_key key rows) other, count_of-refund_key key other rows)

loop_restores :
    (digest : Digest) (namespace : Namespace) (now : Time) (bs : List Budget)
    (rows : List AuthLimit) (other : String)
    → count_of other (
        refund_password_login
          (charge_all digest namespace now bs rows).2
          (charge_all digest namespace now bs rows).0)
      ≡ count_of other rows
loop_restores digest namespace now bs rows other = omega (
  arith,
  count_of-refund (charge_all digest namespace now bs rows).2
      (charge_all digest namespace now bs rows).0 other,
  count_of-charge_all digest namespace now bs rows other,
)

-- The counter of a key whose rows are left by a deletion.
count_of-delete_where :
    (p : AuthLimit → Bool) (other : String) (rows : List AuthLimit)
    → All (λ (r : AuthLimit). (r.key == other) ≡ true → p r ≡ false) rows
    → count_of other (delete_where p rows) ≡ count_of other rows
unfolding count_of find delete_where
count_of-delete_where p other [] h = refl
count_of-delete_where p other (r ∷ rows) h = elim (Bool-cases (p r)) [
  | inr kept ↦ ground (arith, kept, count_of-delete_where p other rows h.1)
  | inl gone ↦ elim (Bool-cases (r.key == other)) [
    | inl same ↦ absurd (cc (h.0 same, gone))
    | inr foreign ↦ ground (arith, gone, foreign, count_of-delete_where p other rows h.1)
  ]
]

-- The rows of a key have not expired.
abbrev pub IsLive : Time → String → List AuthLimit → Type 0
IsLive now other rows =
    All (λ (r : AuthLimit). (r.key == other) ≡ true → ltb r.expires_at now ≡ false) rows

IsLive-charge :
    (digest : Digest) (namespace : Namespace) (now : Time) (b : Budget) (rows : List AuthLimit)
    (other : String)
    → IsLive now other rows
    → IsLive now other (charge digest namespace now b rows)
unfolding charge count_up
IsLive-charge digest namespace now b rows other live =
    let key = key_of digest namespace now b in
    let IsFine : AuthLimit → Type 0 = λ r. (r.key == other) ≡ true → ltb r.expires_at now ≡ false in
    elim (Bool-cases (is_some (find limit_key key rows))) [
      | inl there ↦
          rw there (All-update_where IsFine (λ r. r.key == key) one_more rows (λ r p e. p) live)
      | inr new ↦ rw new (
          All-append IsFine rows (fresh_limit key (now + seconds (b.window * 2)) ∷ []) live
            ((λ e. ground arith), tt))
    ]

IsLive-charge_all :
    (digest : Digest) (namespace : Namespace) (now : Time) (bs : List Budget)
    (rows : List AuthLimit) (other : String)
    → IsLive now other rows
    → IsLive now other (charge_all digest namespace now bs rows).0
unfolding charge_all
IsLive-charge_all digest namespace now [] rows other live = live
IsLive-charge_all digest namespace now (b ∷ bs) rows other live =
    IsLive-charge_all digest namespace now bs (charge digest namespace now b rows) other
      (IsLive-charge digest namespace now b rows other live)

-- Refunding a reservation, its deletion of expired rows included, gives every window whose rows
-- have not expired at the time of the reservation back the count that it had before.
pub refund_restores :
    (digest : Digest) (namespace : Namespace) (now : Time) (bs : List Budget) (db : Db)
    (other : String)
    → IsLive now other db.auth_limits
    → (let reserved = allow digest namespace now bs db in
        count_of other (refund_password_login reserved.2 reserved.0.auth_limits)
        ≡ count_of other db.auth_limits)
unfolding allow
refund_restores digest namespace now bs db other live =
    let charged = charge_all digest namespace now bs db.auth_limits in
    let left = delete_where (λ (r : AuthLimit). ltb r.expires_at now) charged.0 in
    omega (
      arith,
      count_of-refund charged.2 left other,
      count_of-refund charged.2 charged.0 other,
      count_of-delete_where (λ (r : AuthLimit). ltb r.expires_at now) other charged.0
          (IsLive-charge_all digest namespace now bs db.auth_limits other live),
      loop_restores digest namespace now bs db.auth_limits other,
    )

-- The windows of the budgets have different keys.
abbrev pub AreDistinct : Digest → Namespace → Time → List Budget → Type 0
AreDistinct digest namespace now [] = Unit
AreDistinct digest namespace now (b ∷ bs) =
    All (λ c. key_of digest namespace now c ≢ key_of digest namespace now b) bs
    × AreDistinct digest namespace now bs

module _ (digest : Digest) (namespace : Namespace) (now : Time) where
  -- One more request fits the budget.
  abbrev pub HasRoom : List AuthLimit → Budget → Type 0
  HasRoom rows b = count_of (key_of digest namespace now b) rows + 1 ≤ b.maximum

  HasRoom-charge :
      (b : Budget) (bs : List Budget) (rows : List AuthLimit)
      → All (λ c. key_of digest namespace now c ≢ key_of digest namespace now b) bs
      → All (HasRoom (charge digest namespace now b rows)) bs ↔ All (HasRoom rows) bs
  unfolding charge
  HasRoom-charge b [] rows h = ((λ x. x), (λ x. x))
  HasRoom-charge b (c ∷ cs) rows h =
      let key = key_of digest namespace now b in
      let other = key_of digest namespace now c in
      let until = now + seconds (b.window * 2) in
      ground (
        arith,
        HasRoom-charge b cs rows h.1,
        h.0,
        count_of-count_up key other until rows,
        eq_iff other key,
      )

  count_of-charge :
      (b : Budget) (rows : List AuthLimit)
      → count_of (key_of digest namespace now b) (charge digest namespace now b rows)
        ≡ count_of (key_of digest namespace now b) rows + 1
  unfolding charge
  count_of-charge b rows =
      let key = key_of digest namespace now b in
      ground (arith, count_of-count_up key key (now + seconds (b.window * 2)) rows, eq_iff key key)

  charge_all_exact :
      (bs : List Budget) (rows : List AuthLimit)
      → AreDistinct digest namespace now bs
      → ((charge_all digest namespace now bs rows).1 ≡ true) ↔ All (HasRoom rows) bs
  unfolding charge_all
  charge_all_exact [] rows h = ((λ _. tt), (λ _. refl))
  charge_all_exact (b ∷ bs) rows h =
      let rows' = charge digest namespace now b rows in
      let rest = charge_all_exact bs rows' h.1 in
      let same = HasRoom-charge b bs rows h.0 in
      let counted = count_of-charge b rows in
      (
        (λ ok.
            let (fits, others) = and_parts _ _ ok in
            (omega (arith, leb→le _ _ fits, counted), same.0 (rest.0 others))),
        (λ room.
            and_true _ _ (le→leb _ _ (omega (arith, counted, room.0))) (rest.1 (same.1 room.1))),
      )

-- A reservation over different windows is allowed exactly when every budget has room for one more
-- request; a window at its maximum refuses.
pub allow_exact :
    (digest : Digest) (namespace : Namespace) (now : Time) (bs : List Budget) (db : Db)
    → AreDistinct digest namespace now bs
    → ((allow digest namespace now bs db).1 ≡ true)
      ↔ All (HasRoom digest namespace now db.auth_limits) bs
unfolding allow
allow_exact digest namespace now bs db h = charge_all_exact digest namespace now bs db.auth_limits h
