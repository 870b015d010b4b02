-- ===== src/Workers/Permits.antt =====
-- trackr_app/workers.py: whom a turn sends an email, and about which offers.
use summer_intern.Prelude.{
  ◌<◌, map, ℕ, ◌≡◌, ◌≤◌, refl, sym, ap, ◌∙◌, String, Bool, true, ◌&&◌, Option, none, some, List, [],
  ◌∷◌, ◌==◌, nat_eq, find, arith, All, All-both, All-map, All-weaken, All-select, All-take,
  All-sort_by, select-All, AreUnique, AreUnique-rows, select, sort_by, Bool-cases, inl, inr,
}
use summer_intern.Model.{
  Db, Time, Date, Mode, mode_eq, mode_beq_iff, is_processing, is_active_preference, User,
  Preference, Offer, Delivery,
}
use summer_intern.Preferences.Matching.{is_empty}
use summer_intern.Preferences.Reconcile.{delivery_id, is_wanted}
use summer_intern.Durable.Matching.{preference_of}
use summer_intern.Workers.Claims.{is_claimable, claimed_alert, pending_of, is_deliverable}
use summer_intern.Workers.Group.{
  Label, AlertMessage, offers_of, message_to, send_group, defer_group, add_offer,
}
use summer_intern.Workers.Turns.{Turn, claim_group, sent_group, send_claimed}
use summer_intern.Workers.Faults.{on_completing-Holds}
use summer_intern.Workers.Rows.{row, IsClaimOf}
use summer_intern.Workers.Groups.{IsStored, claim_eligible-Holds}

-- What is claimed for an account in a turn.
abbrev pub committed : String → Turn → Mode → User → Db → List Delivery × Db
committed season turn mode user db =
    claim_group season turn user (pending_of mode turn.now user.id db) db

-- The offer is open and matches, and its alert stands as claimed in the state that was committed
-- before the email, with an attempt counted.
abbrev pub IsPosted : String → Turn → Mode → User → Preference → Db → ℕ → Type 0
IsPosted season turn mode user p db offer_id =
    (r : Delivery) × (r.offer_id ≡ offer_id)
    × (r.user_id ≡ user.id)
    × (row r.id (committed season turn mode user db).1 ≡ some r)
    × (is_processing r.status ≡ true)
    × (r.processing_started_at ≡ some turn.now)
    × (r.attempts ≤ 5)
    × ((s : Delivery) × (row r.id db ≡ some s) × (s.attempts < r.attempts))
    × (is_wanted season turn.now turn.today p (find (λ (o : Offer). o.id) offer_id db.offers) db
        ≡ true)

-- The offers of a list of identities, without those that are gone.
unfoldable pub offers_named : Db → List ℕ → List Offer
offers_named db [] = []
offers_named db (id ∷ ids) =
    add_offer (find (λ (o : Offer). o.id) id db.offers) (offers_named db ids)

offers_of-named :
    (db : Db) (ds : List Delivery)
    → offers_of db ds ≡ offers_named db (map (λ (d : Delivery). d.offer_id) ds)
unfolding offers_of offers_named
offers_of-named db [] = refl
offers_of-named db (d ∷ ds) =
    ap (add_offer (find (λ (o : Offer). o.id) d.offer_id db.offers)) (offers_of-named db ds)

abbrev pub IsAllowed : String → Turn → Mode → Db → AlertMessage → Type 0
IsAllowed season turn mode db m =
    (user : User) × (p : Preference) × (find (λ (u : User). u.id) m.user_id db.users ≡ some user)
    × (user.is_active ≡ true)
    × (m.recipient ≡ user.email)
    × (preference_of user.id db ≡ some p)
    × (is_active_preference p.status ≡ true)
    × (p.delivery_mode ≡ mode)
    × (m.offers ≡ offers_named (committed season turn mode user db).1 m.offer_ids)
    × All (IsPosted season turn mode user p db) m.offer_ids

-- The rows that a turn reads.
abbrev pub IsOwnRow : Mode → ℕ → Delivery → Type 0
IsOwnRow mode user_id d = (d.user_id ≡ user_id) × (d.mode ≡ mode)

pub pending_of-Rows :
    (mode : Mode) (now : Time) (user_id : ℕ) (db : Db)
    → AreUnique delivery_id db.deliveries
    → All (λ d. IsStored db d × IsOwnRow mode user_id d) (pending_of mode now user_id db)
unfolding pending_of
pending_of-Rows mode now user_id db unique =
    let test : Delivery → Bool =
      λ d. d.user_id == user_id && d.mode == mode && is_claimable now d in
    let found = select test db.deliveries in
    let all : All (λ d. IsStored db d × IsOwnRow mode user_id d) found =
      All-weaken (λ d. IsStored db d × (test d ≡ true))
        (λ d. IsStored db d × IsOwnRow mode user_id d) found
        (λ d h. (h.0, ground (arith, h.1, mode_beq_iff d.mode mode)))
        (All-both (IsStored db) (λ d. test d ≡ true) found
          (All-select (IsStored db) test db.deliveries
            (AreUnique-rows delivery_id db.deliveries unique))
          (select-All test db.deliveries)) in
    All-take (λ d. IsStored db d × IsOwnRow mode user_id d) 100 (sort_by delivery_id found)
      (All-sort_by (λ d. IsStored db d × IsOwnRow mode user_id d) delivery_id found all)

-- The parts of the test on a row.
abbrev IsFit : String → Turn → User → Option Preference → Db → Delivery → Type 0
IsFit season turn user pref db d =
    (p : Preference) × (pref ≡ some p)
    × (user.is_active ≡ true)
    × (is_active_preference p.status ≡ true)
    × (d.mode ≡ p.delivery_mode)
    × (is_wanted season turn.now turn.today p (find (λ (o : Offer). o.id) d.offer_id db.offers) db
        ≡ true)

is_deliverable-Fit :
    (season : String) (turn : Turn) (user : User) (pref : Option Preference) (db : Db)
    (d : Delivery)
    → is_deliverable season turn.now turn.today user pref db d ≡ true
    → IsFit season turn user pref db d
unfolding is_deliverable
is_deliverable-Fit season turn user none db d h = cc
is_deliverable-Fit season turn user (some p) db d h = (
  p,
  refl,
  ground (arith, h),
  ground (arith, h),
  ground (arith, h, mode_beq_iff d.mode p.delivery_mode),
  ground (arith, h),
)

-- A claim changes none of the columns that the test reads.
pub is_deliverable-claimed_alert :
    (season : String) (now : Time) (today : Date) (user : User) (pref : Option Preference) (db : Db)
    (at : Time) (d : Delivery)
    → is_deliverable season now today user pref db d
      ≡ is_deliverable season now today user pref db (claimed_alert at d)
unfolding is_deliverable
is_deliverable-claimed_alert season now today user none db at d = refl
is_deliverable-claimed_alert season now today user (some p) db at d = refl

-- A row of the account with at least the attempts that are stored.
abbrev IsCounted : Mode → ℕ → Db → Delivery → Type 0
IsCounted mode user_id db d =
    IsOwnRow mode user_id d × ((s : Delivery) × (row d.id db ≡ some s) × (s.attempts ≤ d.attempts))

IsCounted-claimed_alert :
    (mode : Mode) (user_id : ℕ) (db : Db) (now : Time) (d : Delivery)
    → IsCounted mode user_id db d
    → IsCounted mode user_id db (claimed_alert now d)
IsCounted-claimed_alert mode user_id db now d (own, (s, known, le)) =
    (own, (s, known, omega (arith, le)))

-- What holds of every claim of the group.
abbrev IsGroupRow : String → Turn → Mode → User → Db → Delivery → Type 0
IsGroupRow season turn mode user db r =
    (row r.id (committed season turn mode user db).1 ≡ some r)
    × IsClaimOf
        (λ s.
          IsCounted mode user.id db s
          × (is_deliverable season turn.now turn.today user (preference_of user.id db) db s ≡ true))
        turn.now r

pub committed-Rows :
    (season : String) (turn : Turn) (mode : Mode) (user : User) (db : Db)
    → AreUnique delivery_id db.deliveries
    → All (IsGroupRow season turn mode user db) (committed season turn mode user db).0
unfolding claim_group
committed-Rows season turn mode user db unique =
    claim_eligible-Holds (IsCounted mode user.id db)
      (is_deliverable season turn.now turn.today user (preference_of user.id db) db) turn.now
      (pending_of mode turn.now user.id db) db (IsCounted-claimed_alert mode user.id db turn.now)
      (λ r h.
        sym (
          is_deliverable-claimed_alert season turn.now turn.today user (preference_of user.id db) db
            turn.now r)
        ∙ h)
      (All-weaken (λ d. IsStored db d × IsOwnRow mode user.id d)
        (λ d. IsStored db d × IsCounted mode user.id db d) (pending_of mode turn.now user.id db)
        (λ d h. (h.0, (h.1, (d, h.0, omega arith))))
        (pending_of-Rows mode turn.now user.id db unique))

posted :
    (season : String) (turn : Turn) (mode : Mode) (user : User) (p : Preference) (db : Db)
    (r : Delivery)
    → preference_of user.id db ≡ some p
    → IsGroupRow season turn mode user db r
    → IsPosted season turn mode user p db r.offer_id
posted season turn mode user p db r known
      (stands, (s, claim, free, ((own, (before, stored, le)), fits))) =
    let (q, same, active, on, mode_of, wanted) =
      is_deliverable-Fit season turn user (preference_of user.id db) db s fits in
    let e : q ≡ p = ground (arith, same, known) in
    (
      r,
      refl,
      ap (λ (x : Delivery). x.user_id) claim ∙ own.0,
      stands,
      ap (λ (x : Delivery). is_processing x.status) claim,
      ap (λ (x : Delivery). x.processing_started_at) claim,
      rw claim (ground (arith, free)),
      (before, rw claim stored, rw claim (omega (arith, le))),
      rw (claim, sym e) wanted,
    )

send_group-All :
    (P : AlertMessage → Type 0) (turn : Turn) (label : Label) (user : User)
    (claimed : List Delivery) (db : Db)
    → P (message_to user label claimed (offers_of db claimed))
    → All P (send_group turn.meanwhile turn.answer turn.completed_at label user claimed db).messages
unfolding send_group
send_group-All P turn label user claimed db h =
    elim (Bool-cases (is_empty (offers_of db claimed))) [
      | inl gone ↦ rw gone tt
      | inr kept ↦ rw kept (h, tt)
    ]

sent_group-All :
    (P : AlertMessage → Type 0) (turn : Turn) (label : Label) (user : User) (ids : List ℕ)
    (claimed : List Delivery) (db : Db)
    → P (message_to user label claimed (offers_of db claimed))
    → All P (sent_group turn label user ids claimed db).messages
unfolding sent_group
sent_group-All P turn label user ids claimed db h =
    let run = send_group turn.meanwhile turn.answer turn.completed_at label user claimed db in
    let mail : All P run.messages = send_group-All P turn label user claimed db h in
    on_completing-Holds (λ a. All P a.messages) run turn.fault
      (λ error. record run {
        db = defer_group turn.deferred_at error ids (turn.meanwhile db);
        count = 0;
      })
      (λ error. mail) mail

-- The email of a group.
pub claimed_group-Allowed :
    (season : String) (turn : Turn) (mode : Mode) (label : Label) (user : User) (db : Db)
    (ids : List ℕ) (claimed : List Delivery)
    → find (λ (u : User). u.id) user.id db.users ≡ some user
    → All (IsGroupRow season turn mode user db) claimed
    → All
        (IsAllowed season turn mode db)
        (send_claimed turn label user ids claimed (committed season turn mode user db).1).messages
claimed_group-Allowed season turn mode label user db ids [] there rows = tt
claimed_group-Allowed season turn mode label user db ids (d ∷ ds) there rows =
    let (stands, (s, claim, free, ((own, (before, stored, le)), fits))) = rows.0 in
    let (p, known, active, on, mode_of, wanted) =
      is_deliverable-Fit season turn user (preference_of user.id db) db s fits in
    let db' = (committed season turn mode user db).1 in
    sent_group-All (IsAllowed season turn mode db) turn label user ids (d ∷ ds) db' (
      user,
      p,
      there,
      active,
      refl,
      known,
      on,
      sym mode_of ∙ own.1,
      offers_of-named db' (d ∷ ds),
      All-map (λ (r : Delivery). r.offer_id) (IsPosted season turn mode user p db) (d ∷ ds)
          (All-weaken (IsGroupRow season turn mode user db)
            (λ r. IsPosted season turn mode user p db r.offer_id) (d ∷ ds)
            (λ r h. posted season turn mode user p db r known h) rows),
    )
