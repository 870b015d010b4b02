-- ===== src/Workers/Group.antt =====
-- trackr_app/workers.py: `_send_group` and `_defer_group`.
use summer_intern.Prelude.{
  ℕ, ◌+◌, ◌-◌, Bool, false, true, ◌&&◌, Option, none, some, List, [], ◌∷◌, String, ◌==◌, nat_eq,
  leb, if◌then◌else◌, map, find, contains, first_where, update_where,
}
use summer_intern.Model.{
  Db, Time, Date, pending, sent, failed, is_pending, is_processing, User, Offer, Delivery,
}
use summer_intern.Operations.{next_retry}
use summer_intern.Preferences.Matching.{is_empty}
use summer_intern.Preferences.Reconcile.{save_delivery, cancel, retry_status}
use summer_intern.Durable.Enqueue.{same_option}

-- The label of an email's key: 'immediate', or 'digest-' and the local date.
pub data Label : Type 0 where
  at_once : Label
  digest_of : Date → Label

-- What `send_email` is given: the texts are rendered from the offers, and the key of idempotence is
-- made of the account, the label and the identities of the offers.
pub record AlertMessage : Type 0 where
  pub recipient : String
  pub user_id : ℕ
  pub label : Label
  pub offer_ids : List ℕ
  pub offers : List Offer

-- What `send_email` returns or raises.
pub data SendResult : Type 0 where
  accepted rejected : String → SendResult

-- The state, the emails and the count.
pub record Alerted : Type 0 where
  pub db : Db
  pub messages : List AlertMessage
  pub count : ℕ

abbrev pub add_offer : Option Offer → List Offer → List Offer
add_offer none rest = rest
add_offer (some o) rest = o ∷ rest

-- The offers of the rows, without those that are gone.
unfoldable pub offers_of : Db → List Delivery → List Offer
offers_of db [] = []
offers_of db (d ∷ ds) =
    add_offer (find (λ (o : Offer). o.id) d.offer_id db.offers) (offers_of db ds)

abbrev pub sent_alert : Time → String → Delivery → Delivery
sent_alert now message_id d = record d {
  status = sent;
  provider_message_id = some message_id;
  sent_at = some now;
  last_error = none;
  next_attempt_at = none;
  attempts = d.attempts - 1;
  processing_started_at = none;
}

abbrev pub failed_alert : Time → String → Delivery → Delivery
failed_alert now error d = record d {
  last_error = some error;
  next_attempt_at = some (next_retry now d.attempts);
  status = retry_status d.attempts;
  processing_started_at = none;
}

-- `active_user and active_user.is_active`.
abbrev pub has_account : Option User → Bool
has_account none = false
has_account (some user) = user.is_active

abbrev pub completed_alert : Time → Bool → SendResult → Delivery → Delivery
completed_alert now false result d = cancel d
completed_alert now true (rejected error) d = failed_alert now error d
completed_alert now true (accepted message_id) d = sent_alert now message_id d

abbrev pub counts_as : Bool → SendResult → ℕ
counts_as true (accepted message_id) = 1
counts_as _ _ = 0

-- The row is still processing under the claim that started at this time.
abbrev pub is_held : ℕ → Option Time → Delivery → Bool
is_held id started d =
    d.id == id && (is_processing d.status && same_option d.processing_started_at started)

abbrev pub claims_of : List Delivery → List (ℕ × Option Time)
claims_of ds = map (λ (d : Delivery). (d.id, d.processing_started_at)) ds

module _ (now : Time) (active : Bool) (result : SendResult) where
  -- A row that a revocation or a newer lease took over is left alone.
  abbrev pub complete_held : Option Delivery → Db → Db
  complete_held none db = db
  complete_held (some d) db = save_delivery (completed_alert now active result d) db

  abbrev pub count_held : Option Delivery → ℕ
  count_held none = 0
  count_held (some d) = counts_as active result

  unfoldable pub complete_each : List (ℕ × Option Time) → Db → Db × ℕ
  complete_each [] db = (db, 0)
  complete_each ((id, started) ∷ claims) db =
      let held = first_where (is_held id started) db.deliveries in
      let rest = complete_each claims (complete_held held db) in (rest.0, count_held held + rest.1)

-- The rows of a group that are pending after the rollback are put back, with one attempt more.
unfoldable pub defer_group : Time → String → List ℕ → Db → Db
defer_group now error ids db = record db {
  deliveries =
      update_where (λ d. contains ids d.id && is_pending d.status)
        (λ d. record d {
          attempts = d.attempts + 1;
          last_error = some error;
          next_attempt_at = some (next_retry now 5);
          status = if leb 4 d.attempts then failed else pending;
        })
        db.deliveries;
}

abbrev pub message_to : User → Label → List Delivery → List Offer → AlertMessage
message_to user label claimed offers = record {
  recipient = user.email;
  user_id = user.id;
  label = label;
  offer_ids = map (λ (d : Delivery). d.offer_id) claimed;
  offers = offers;
}

-- The commit of the claims, the email, and the completion after what others commit meanwhile.
unfoldable pub send_group :
    (Db → Db) → SendResult → Time → Label → User → List Delivery → Db → Alerted
unfolding offers_of complete_each
send_group meanwhile result now label user claimed db =
    let db' = meanwhile db in
    let account = find (λ (u : User). u.id) user.id db'.users in
    let done = complete_each now (has_account account) result (claims_of claimed) db' in
    if is_empty (offers_of db claimed)
    then record { db = db; messages = []; count = 0 }
    else record {
      db = done.0;
      messages = message_to user label claimed (offers_of db claimed) ∷ [];
      count = done.1;
    }
