-- ===== src/Model/Queues.antt =====
-- The tables of the personal Notion pages, the durable jobs and the workers of
-- trackr_app/models.py. A key that the source formats from a prefix and numbers is a constructor
-- with those numbers; a job's JSON payload is the record of the entries that the code reads.
use summer_intern.Prelude.{ℕ, String, Bool, true, false, ◌&&◌, Option, Eq, ◌==◌, ◌↔◌, ◌≡◌, arith}
use summer_intern.Prelude.{eq_iff, nat_eq, string_eq}
use summer_intern.Model.States.{Status}
use summer_intern.Model.Clock.{Time}

-- The values of `NotionConnection.setup_status`.
pub data SetupStatus : Type 0 where
  idle creating ready failed uncertain pending : SetupStatus

pub record NotionConnection : Type 0 where
  pub id : ℕ
  pub user_id : ℕ
  pub access_token_encrypted : String
  pub refresh_token_encrypted : Option String
  pub workspace_id : Option String
  pub workspace_name : Option String
  pub database_id : Option String
  pub data_source_id : Option String
  pub last_error : Option String
  pub connected_at : Time
  pub setup_status : SetupStatus
  pub parent_page_id : Option String

pub record NotionSync : Type 0 where
  pub id : ℕ
  pub connection_id : ℕ
  pub offer_id : ℕ
  pub status : Status
  pub notion_page_id : Option String
  pub attempts : ℕ
  pub last_error : Option String
  pub synced_at : Option Time
  pub next_attempt_at : Option Time

-- 'runtime/gate', 'runtime/active/<hex>', and any other key.
pub data StateKey : Type 0 where
  gate : StateKey
  active : String → StateKey
  named : String → StateKey

abbrev pub state_key_beq : StateKey → StateKey → Bool
state_key_beq gate gate = true
state_key_beq (active a) (active b) = a == b
state_key_beq (named a) (named b) = a == b
state_key_beq _ _ = false

pub state_key_beq_iff : (a b : StateKey) → (state_key_beq a b ≡ true) ↔ (a ≡ b)
state_key_beq_iff gate b = ground arith
state_key_beq_iff (active a) gate = ground arith
state_key_beq_iff (active a) (active b) = ground (arith, eq_iff a b)
state_key_beq_iff (active a) (named b) = ground arith
state_key_beq_iff (named a) gate = ground arith
state_key_beq_iff (named a) (active b) = ground arith
state_key_beq_iff (named a) (named b) = ground (arith, eq_iff a b)

instance abbrev pub state_key_eq : Eq StateKey
state_key_eq = record { equal = state_key_beq; equal_iff = state_key_beq_iff }

pub record WorkerState : Type 0 where
  pub key : StateKey
  pub last_success_at : Option Time
  pub last_error : Option String

pub record LegacyTask : Type 0 where
  pub key : String
  pub source : String
  pub channel : String
  pub recipient : String
  pub payload : String
  pub status : Status
  pub attempts : ℕ
  pub last_error : Option String
  pub next_attempt_at : Option Time
  pub created_at : Time

-- 'match-user/<id>', 'match-offer/<id>', 'receipt/<user>/<offer>', 'retention/<table>/<id>',
-- 'retention/legacy_tasks/<key>', and 'notion-create/<connection>'.
pub data JobKey : Type 0 where
  match_user : ℕ → JobKey
  match_offer : ℕ → JobKey
  receipt : ℕ → ℕ → JobKey
  retention : String → ℕ → JobKey
  task_retention : String → JobKey
  creation : ℕ → JobKey

abbrev pub job_key_beq : JobKey → JobKey → Bool
job_key_beq (match_user a) (match_user b) = a == b
job_key_beq (match_offer a) (match_offer b) = a == b
job_key_beq (receipt a c) (receipt b d) = a == b && c == d
job_key_beq (retention s a) (retention t b) = s == t && a == b
job_key_beq (creation a) (creation b) = a == b
job_key_beq (task_retention a) (task_retention b) = a == b
job_key_beq _ _ = false

pub job_key_beq_iff : (a b : JobKey) → (job_key_beq a b ≡ true) ↔ (a ≡ b)
job_key_beq_iff (match_user a) b = ground arith
job_key_beq_iff (match_offer a) b = ground arith
job_key_beq_iff (receipt a c) b = ground arith
job_key_beq_iff (retention s a) (retention t b) = ground (arith, eq_iff s t)
job_key_beq_iff (retention s a) b = ground arith
job_key_beq_iff (creation a) b = ground arith
job_key_beq_iff (task_retention a) (task_retention b) = ground (arith, eq_iff a b)
job_key_beq_iff (task_retention a) b = ground arith

instance abbrev pub job_key_eq : Eq JobKey
job_key_eq = record { equal = job_key_beq; equal_iff = job_key_beq_iff }

-- The values of `DurableJob.kind`.
pub data JobKind : Type 0 where
  notion_create matching receipts retained : JobKind

abbrev pub is_matching : JobKind → Bool
is_matching matching = true
is_matching _ = false

abbrev pub is_creation : JobKind → Bool
is_creation notion_create = true
is_creation _ = false

pub record Payload : Type 0 where
  pub user_id : Option ℕ
  pub offer_id : Option ℕ
  pub connection_id : Option ℕ
  pub parent_page_id : Option String
  pub baseline : Bool
  pub reconcile : Bool
  pub offers_phase : Bool
  pub updated : Bool

pub record DurableJob : Type 0 where
  pub key : JobKey
  pub kind : JobKind
  pub payload : Payload
  pub status : Status
  pub attempts : ℕ
  pub cursor : ℕ
  pub lease_token : Option String
  pub lease_until : Option Time
  pub next_attempt_at : Option Time
  pub last_error : Option String
  pub created_at : Time
  pub completed_at : Option Time

pub record SourceSnapshot : Type 0 where
  pub key : String
  pub generation : ℕ
  pub lease_token : Option String
  pub lease_until : Option Time
  pub payload : Option String
  pub updated_at : Option Time
  pub last_error : Option String
