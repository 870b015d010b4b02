-- ===== src/Web/Links.antt =====
-- trackr_app/main.py, `consume_link`: a link of sign-in works once.
use summer_intern.Prelude.{
  ap, ℕ, ◌≡◌, ◌≤◌, refl, String, Bool, true, false, not, ◌||◌, Option, none, some, List, [], ◌∷◌,
  ◌==◌, nat_eq, string_eq, if◌then◌else◌, find, first_where, update_where, All, arith, is_none,
  Bool-cases, inl, inr, first_where-All, first_where-true,
}
use summer_intern.Model.{Db, Time, User, MagicLink}
use summer_intern.Security.{Crypto}
use summer_intern.Sessions.{create_session}
use summer_intern.Passwords.{Secrets, user_key}
use summer_intern.Web.Access.{Reply, signs_in}
use summer_intern.Web.SignIn.{
  invalid, link_of, is_spent, is_unused, use_link, consume_for, consume_with, consume_link,
  consume_link_page, page_for,
}

abbrev pub is_sign_in : Reply → Bool
is_sign_in (signs_in path raw) = true
is_sign_in _ = false

-- Every row of the hash is used or expired.
abbrev IsDead : Time → String → MagicLink → Type 0
IsDead later hash l = (l.token_hash == hash) ≡ true → is_spent later l ≡ true

used_link :
    (now later : Time) (id : ℕ) (hash : String) (l : MagicLink)
    → now ≤ later
    → ((l.token_hash == hash) ≡ true → l.id ≡ id)
    → IsDead later hash (if is_unused id now l then record l { used_at = some now } else l)
used_link now later id hash l after own = elim (Bool-cases (is_unused id now l)) [
  | inl hit ↦ rw hit (λ same. refl)
  | inr miss ↦ rw miss (λ same. ground (arith, own same, miss, after))
]

used_links :
    (now later : Time) (id : ℕ) (hash : String) (rows : List MagicLink)
    → now ≤ later
    → All (λ (l : MagicLink). (l.token_hash == hash) ≡ true → l.id ≡ id) rows
    → All
        (IsDead later hash)
        (update_where (is_unused id now) (λ l. record l { used_at = some now }) rows)
unfolding update_where
used_links now later id hash [] after own = tt
used_links now later id hash (l ∷ ls) after own =
    (used_link now later id hash l after own.0, used_links now later id hash ls after own.1)

consume_for-links :
    (crypto : Crypto) (secrets : Secrets) (now : Time) (link : MagicLink) (found : Option User)
    (db : Db)
    → is_sign_in (consume_for crypto secrets now link found db).1 ≡ true
    → (consume_for crypto secrets now link found db).0.magic_links
      ≡ (use_link now link db).magic_links
unfolding consume_for create_session
consume_for-links crypto secrets now link none db h = absurd (cc)
consume_for-links crypto secrets now link (some user) db h =
    elim (Bool-cases
      (not user.is_active || is_none (first_where (is_unused link.id now) db.magic_links))) [
        | inl refused ↦ absurd (cc (rw refused at h))
        | inr taken ↦ rw taken refl
      ]

consume_with-links :
    (crypto : Crypto) (secrets : Secrets) (now : Time) (others : Db → Db) (link : MagicLink)
    (db : Db)
    → is_sign_in (consume_with crypto secrets now others (some link) db).1 ≡ true
    → (consume_with crypto secrets now others (some link) db).0.magic_links
      ≡ (use_link now link (others db)).magic_links
unfolding consume_with
consume_with-links crypto secrets now others link db h = elim (Bool-cases (is_spent now link)) [
  | inl spent ↦ absurd (cc (rw spent at h))
  | inr good ↦ rw good (
      consume_for-links crypto secrets now link (find user_key link.user_id (others db).users)
        (others db) (rw good at h))
]

dead_link :
    (later : Time) (hash : String) (db : Db) (l : MagicLink)
    → All (IsDead later hash) db.magic_links
    → link_of hash db ≡ some l
    → is_spent later l ≡ true
dead_link later hash db l dead found =
    first_where-All (IsDead later hash) (λ (m : MagicLink). m.token_hash == hash) db.magic_links l
      dead found (first_where-true (λ (m : MagicLink). m.token_hash == hash) db.magic_links l found)

dead_refuses :
    (crypto : Crypto) (secrets : Secrets) (later : Time) (others : Db → Db) (db : Db)
    (found : Option MagicLink)
    → ((l : MagicLink) → found ≡ some l → is_spent later l ≡ true)
    → (consume_with crypto secrets later others found db ≡ (db, invalid))
      × (page_for later found db ≡ invalid)
unfolding consume_with
dead_refuses crypto secrets later others db none spent = (refl, refl)
dead_refuses crypto secrets later others db (some l) spent =
    (rw (spent l refl) refl, rw (spent l refl) refl)

-- No row of the identity can be taken after it was.
taken_links :
    (now later : Time) (id : ℕ) (rows : List MagicLink)
    → now ≤ later
    → first_where
        (is_unused id later)
        (update_where (is_unused id now) (λ l. record l { used_at = some now }) rows)
      ≡ none
unfolding update_where first_where
taken_links now later id [] past = refl
taken_links now later id (l ∷ ls) past = ground (arith, past, taken_links now later id ls past)

consume_for-refuses :
    (crypto : Crypto) (secrets : Secrets) (now : Time) (link : MagicLink) (found : Option User)
    (db : Db)
    → first_where (is_unused link.id now) db.magic_links ≡ none
    → consume_for crypto secrets now link found db ≡ (db, invalid)
unfolding consume_for
consume_for-refuses crypto secrets now link none db gone = refl
consume_for-refuses crypto secrets now link (some user) db gone = elim (Bool-cases user.is_active) [
  | inl active ↦ rw (gone, active) refl
  | inr inactive ↦ rw (gone, inactive) refl
]

racing_refuses :
    (crypto : Crypto) (secrets : Secrets) (later : Time) (link : MagicLink) (db after : Db)
    → first_where (is_unused link.id later) after.magic_links ≡ none
    → (consume_with crypto secrets later (λ _. after) (some link) db).1 ≡ invalid
unfolding consume_with
racing_refuses crypto secrets later link db after gone = elim (Bool-cases (is_spent later link)) [
  | inl spent ↦ rw spent refl
  | inr good ↦ rw good (
      ap (λ (r : Db × Reply). r.1)
        (consume_for-refuses crypto secrets later link (find user_key link.user_id after.users)
          after gone))
]

-- A link of sign-in works once. After a call that signed in, the link neither signs in again nor
-- shows the page of confirmation, at no later time and whatever others commit in between the two
-- steps of a call, while the rows of its hash are the link's own, which the unique hash sees to;
-- and a call that had read the same link before the first one took it, whatever state it was read
-- in, answers that the link is invalid.
pub consume_link_once :
    (crypto : Crypto) (secrets again : Secrets) (now later : Time) (others others' : Db → Db)
    (raw : String) (db db' : Db) (link link' : MagicLink)
    → link_of (crypto.token_hash raw) db ≡ some link
    → All
        (λ (l : MagicLink). (l.token_hash == crypto.token_hash raw) ≡ true → l.id ≡ link.id)
        (others db).magic_links
    → link_of (crypto.token_hash raw) db' ≡ some link'
    → link'.id ≡ link.id
    → is_sign_in (consume_link crypto secrets now others raw db).1 ≡ true
    → now ≤ later
    → (let after = (consume_link crypto secrets now others raw db).0 in
        (consume_link crypto again later others' raw after ≡ (after, invalid))
        × (consume_link_page crypto later raw after ≡ invalid)
        × ((consume_link crypto again later (λ _. after) raw db').1 ≡ invalid))
unfolding consume_link consume_link_page
consume_link_once crypto secrets again now later others others' raw db db' link link' found own
      found' same signed past =
    let hash = crypto.token_hash raw in
    let after = (consume_with crypto secrets now others (some link) db).0 in
    let links = consume_with-links crypto secrets now others link db (rw found at signed) in
    let dead : All (IsDead later hash) after.magic_links =
      rw links (used_links now later link.id hash (others db).magic_links past own) in
    let refused =
      dead_refuses crypto again later others' after (link_of hash after)
        (λ l there. dead_link later hash after l dead there) in
    let taken : first_where (is_unused link'.id later) after.magic_links ≡ none =
      rw (links, same) (taken_links now later link.id (others db).magic_links past) in
    rw (found, found')
      (refused.0, refused.1, racing_refuses crypto again later link' db' after taken)
