-- ===== src/Limits.antt =====
-- trackr_app/limits.py: fixed-window counters in the database. The key of a window is the HMAC of
-- its namespace, scope, value and bucket; it is a parameter, `digest`, of those four.
pub mod Quota
use summer_intern.Prelude.{
  ℕ, ◌+◌, ◌-◌, ◌*◌, ◌/◌, Bool, true, false, ◌&&◌, Option, none, some, List, [], ◌∷◌, ◌++◌, String,
  ◌==◌, nat_eq, string_eq, leb, ltb, is_some, if◌then◌else◌, find, update_where, delete_where,
}
use summer_intern.Model.{Db, Time, seconds, timestamp, AuthLimit}

pub data Namespace : Type 0 where
  mail password : Namespace

pub data Scope : Type 0 where
  email_minute email ip email_ip : Scope

-- (scope, value, seconds, maximum).
pub record Budget : Type 0 where
  pub scope : Scope
  pub value : String
  pub window : ℕ
  pub maximum : ℕ

abbrev pub Digest : Type 0
Digest = Namespace → Scope → String → ℕ → String

abbrev pub limit_key : AuthLimit → String
limit_key row = row.key

-- `INSERT ... ON CONFLICT DO UPDATE SET count = count + 1`.
unfoldable pub count_up : String → Time → List AuthLimit → List AuthLimit
count_up key expires_at rows =
    if is_some (find limit_key key rows)
    then update_where (λ r. r.key == key) (λ r. record r { count = r.count + 1 }) rows
    else rows ++ record { key = key; count = 1; expires_at = expires_at } ∷ []

-- The counter of a key; `RETURNING count` reads it after the statement.
unfoldable pub count_of : String → List AuthLimit → ℕ
count_of key rows = elim (find limit_key key rows) [ none ↦ 0 | some r ↦ r.count ]

module _ (digest : Digest) where
  abbrev pub key_of : Namespace → Time → Budget → String
  key_of namespace now b = digest namespace b.scope b.value (timestamp now / b.window)

  -- One round of the loop of `_allow`.
  unfoldable pub charge : Namespace → Time → Budget → List AuthLimit → List AuthLimit
  unfolding count_up
  charge namespace now b rows =
      count_up (key_of namespace now b) (now + seconds (b.window * 2)) rows

  -- The loop: the rows, whether all counts fit, and the keys.
  unfoldable pub charge_all :
      Namespace → Time → List Budget → List AuthLimit → List AuthLimit × Bool × List String
  unfolding charge count_of
  charge_all namespace now [] rows = (rows, true, [])
  charge_all namespace now (b ∷ bs) rows =
      let key = key_of namespace now b in
      let rows' = charge namespace now b rows in
      let (rows'', rest, keys) = charge_all namespace now bs rows' in
      (rows'', leb (count_of key rows') b.maximum && rest, key ∷ keys)

  -- `_allow`: every budget is charged, also after one is exceeded; expired rows are deleted.
  unfoldable pub allow : Namespace → Time → List Budget → Db → Db × Bool × List String
  unfolding charge_all
  allow namespace now budgets db =
      let (rows, allowed, keys) = charge_all namespace now budgets db.auth_limits in
      (record db { auth_limits = delete_where (λ r. ltb r.expires_at now) rows }, allowed, keys)

  abbrev pub login_budgets : String → String → List Budget
  login_budgets address client =
      record { scope = email_minute; value = address; window = 60; maximum = 1 }
      ∷ record { scope = email; value = address; window = 900; maximum = 5 }
      ∷ record { scope = ip; value = client; window = 900; maximum = 20 }
      ∷ []

  unfoldable pub allow_login : Time → String → String → Db → Db × Bool × List String
  unfolding allow
  allow_login now address client db = allow mail now (login_budgets address client) db

  -- `pair` is `email + ':' + ip`.
  abbrev pub password_budgets : String → String → List Budget
  password_budgets pair client =
      record { scope = email_ip; value = pair; window = 900; maximum = 10 }
      ∷ record { scope = ip; value = client; window = 900; maximum = 50 }
      ∷ []

  unfoldable pub reserve_password_login : Time → String → String → Db → Db × Bool × List String
  unfolding allow
  reserve_password_login now pair client db = allow password now (password_budgets pair client) db

unfoldable pub refund_key : String → List AuthLimit → List AuthLimit
refund_key key rows =
    update_where (λ r. r.key == key && ltb 0 r.count) (λ r. record r { count = r.count - 1 }) rows

-- `refund_password_login`.
unfoldable pub refund_password_login : List String → List AuthLimit → List AuthLimit
unfolding refund_key
refund_password_login [] rows = rows
refund_password_login (key ∷ keys) rows = refund_password_login keys (refund_key key rows)
