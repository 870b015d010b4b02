-- ===== src/Passwords/Login.antt =====
-- trackr_app/auth.py, `password_login`: what a sign-in has checked.
use summer_intern.Prelude.{
  ◌≡◌, refl, String, Bool, true, false, not, ◌||◌, Option, none, some, List, ◌==◌, string_eq,
  first_where, if◌then◌else◌, ltb, leb, sym, ap, ◌∙◌, Bool-cases, inl, inr, arith,
}
use Prim.Native.String.{count, ◌++◌ as append}
use summer_intern.Model.{Db, Time, User}
use summer_intern.Security.{Crypto}
use summer_intern.Limits.{Digest, reserve_password_login}
use summer_intern.Passwords.{
  Secrets, Answer, signed_in, login_failed, limited, is_verified, candidate, has_password,
  has_length, login_for, password_login,
}

abbrev pub account_of : String → Db → Option User
account_of email db = first_where (λ (u : User). u.email == email) db.users

-- The account is there and active with a password, the one that was given is of a valid length, and
-- the check against the account's own hash passed.
abbrev pub Passed : Secrets → String → Option User → Type 0
Passed secrets password none = ⊥
Passed secrets password (some u) =
    (u.is_active ≡ true)
    × (has_password u ≡ true)
    × (has_length password ≡ true)
    × ((h : String) × (u.password_hash ≡ some h) × (secrets.hasher.verify password h ≡ true))

-- The branches of the two definitions.
abbrev guarded_by : Bool → Db × Answer → Db × Answer → Db × Answer
guarded_by b x y = if b then x else y

-- A stored hash that is set is the one that is checked.
own_hash :
    (dummy : String) (stored : Option String)
    → (elim stored [ none ↦ false | some h ↦ not (h == "") ]) ≡ true
    → (h : String) × (stored ≡ some h)
      × ((elim stored [ none ↦ dummy | some s ↦ if s == "" then dummy else s ]) ≡ h)
own_hash dummy none set = cc
own_hash dummy (some h) set = elim (Bool-cases (h == "")) [
  | inl blank ↦ absurd (cc (rw blank at set))
  | inr full ↦ (h, refl, rw full refl)
]

checked_hash :
    (secrets : Secrets) (password : String) (u : User)
    → u.is_active ≡ true
    → has_password u ≡ true
    → has_length password ≡ true
    → is_verified secrets password (some u) ≡ true
    → (h : String) × (u.password_hash ≡ some h) × (secrets.hasher.verify password h ≡ true)
unfolding is_verified
checked_hash secrets password u active set fits verified =
    let (h, stored, picked) = own_hash secrets.dummy_hash u.password_hash set in
    let short : leb (count password) 128 ≡ true = ground (arith, fits) in
    (
      h,
      stored,
      sym (
            ap
              (λ b. secrets.hasher.verify (if b then password else "") (candidate secrets (some u)))
              short
            ∙ ap
                (λ b. secrets.hasher.verify password (
                  if b
                  then elim u.password_hash [
                    | none ↦ secrets.dummy_hash
                    | some s ↦ if s == "" then secrets.dummy_hash else s
                  ]
                  else secrets.dummy_hash))
                active
            ∙ ap (λ s. secrets.hasher.verify password s) picked)
          ∙ verified,
    )

all_passed :
    (a b c d : Bool) (x y : Db)
    → (guarded_by (not a || not b || not c || not d) (x, login_failed) (y, signed_in)).1 ≡ signed_in
    → (b ≡ true) × (c ≡ true) × (d ≡ true) × (a ≡ true)
all_passed true true true true x y h = (refl, refl, refl, refl)
all_passed false b c d x y h = absurd (cc)
all_passed true false c d x y h = absurd (cc)
all_passed true true false d x y h = absurd (cc)
all_passed true true true false x y h = absurd (cc)

within_budget :
    (long allowed : Bool) (db charged : Db) (after : Db × Answer)
    → (guarded_by long (db, login_failed) (guarded_by (not allowed) (charged, limited) after)).1
      ≡ signed_in
    → (allowed ≡ true) × (after.1 ≡ signed_in)
within_budget true allowed db charged after h = absurd (cc)
within_budget false false db charged after h = absurd (cc)
within_budget false true db charged after h = (refl, h)

login_for-Passed :
    (crypto : Crypto) (secrets : Secrets) (now : Time) (password : String) (user : Option User)
    (keys : List String) (db : Db)
    → (login_for crypto secrets now password user keys db).1 ≡ signed_in
    → Passed secrets password user
unfolding login_for
login_for-Passed crypto secrets now password none keys db h = absurd (cc)
login_for-Passed crypto secrets now password (some u) keys db h =
    let (active, set, fits, verified) =
      all_passed (is_verified secrets password (some u)) u.is_active (has_password u)
        (has_length password) db _ h in
    (active, set, fits, checked_hash secrets password u active set fits verified)

-- A sign-in by password happens only within the budgets of the address and the client, and only for
-- an active account whose own stored hash the given password, of 12 to 128 characters, passes.
pub password_login_checks :
    (digest : Digest) (crypto : Crypto) (secrets : Secrets) (now : Time)
    (email password client : String) (db : Db)
    → (password_login digest crypto secrets now email password client db).1 ≡ signed_in
    → ((reserve_password_login digest now (append email (append ":" client)) client db).1 ≡ true)
      × Passed secrets password (
          account_of email
            (reserve_password_login digest now (append email (append ":" client)) client db).0)
unfolding password_login
password_login_checks digest crypto secrets now email password client db h =
    let reserved = reserve_password_login digest now (append email (append ":" client)) client db in
    let after : Db × Answer =
      login_for crypto secrets now password (account_of email reserved.0) reserved.2 reserved.0 in
    let passed = within_budget (ltb 320 (count email)) reserved.1 db reserved.0 after h in
    (
      passed.0,
      login_for-Passed crypto secrets now password (account_of email reserved.0) reserved.2
          reserved.0 passed.1,
    )
