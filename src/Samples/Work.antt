-- ===== src/Samples/Work.antt =====
-- Runs of the workers of alerts, of the creation of a Notion database and of the web's handlers.
use summer_intern.Prelude.{
  ℕ, ◌≡◌, ◌≤◌, ◌+◌, refl, true, false, none, some, List, [], ◌∷◌, nat_eq, find, String, arith, All,
  Option, Bool,
}
use summer_intern.Model.{
  Db, pending, immediate, daily_digest, idle, Delivery, NotionConnection, DurableJob, creation,
  notion_create, Time,
}
use summer_intern.Workers.Group.{accepted}
use summer_intern.Workers.Turns.{Turn, no_fault, alert_user, digest_user}
use summer_intern.Workers.Pass.{process_immediate_alerts, process_digests}
use summer_intern.Workers.Permits.{IsAllowed}
use summer_intern.Workers.Recipients.{turn_permits}
use summer_intern.Workers.Budget.{AlertsWithin}
use summer_intern.Workers.Passes.{process_alerts-Within}
use summer_intern.Durable.Creation.{created}
use summer_intern.Durable.Lifecycle.{Advance, stage_at, happens, Transaction, claims, finishes}
use summer_intern.Durable.Refinement.{creation_refines, creation_calls_once, calls_of, calls_left}
use summer_intern.Samples.{match_db, offer_job, offer_payload}

abbrev due_alert : Delivery
due_alert = record {
  id = 1;
  user_id = 1;
  offer_id = 3;
  mode = immediate;
  status = pending;
  attempts = 0;
  provider_message_id = none;
  last_error = none;
  sent_at = none;
  processing_started_at = none;
  created_at = 0;
  next_attempt_at = none;
}

abbrev work_db : Db
work_db = record match_db { deliveries = due_alert ∷ [] }

abbrev quiet_turn : Turn
quiet_turn = record {
  paged_at = 90;
  before = λ db. db;
  is_free = true;
  now = 100;
  today = 0;
  meanwhile = λ db. db;
  answer = accepted "message";
  completed_at = 200;
  deferred_at = 300;
  fault = no_fault;
}

abbrev local_zones : String → Time → Option (ℕ × ℕ)
local_zones zone now = some (0, 10)

turn_permits_example :
    All
      (IsAllowed "2026" quiet_turn immediate work_db)
      (alert_user "2026" quiet_turn 1 work_db).messages
    × All
        (IsAllowed "2026" quiet_turn daily_digest work_db)
        (digest_user "2026" quiet_turn local_zones 1 work_db).messages
unfolding find
turn_permits_example = turn_permits "2026" local_zones quiet_turn 1 work_db (refl, tt)

process_alerts-Within_example :
    AlertsWithin (process_immediate_alerts "2026" 80 (quiet_turn ∷ quiet_turn ∷ []) work_db).db
    × AlertsWithin (process_digests "2026" local_zones 80 (quiet_turn ∷ quiet_turn ∷ []) work_db).db
process_alerts-Within_example =
    process_alerts-Within "2026" local_zones 80 (quiet_turn ∷ quiet_turn ∷ []) work_db
      (((λ db h. h), (λ db h. h)), (((λ db h. h), (λ db h. h)), tt))
      ((omega arith, λ p. omega arith), tt)

abbrev ada_pages : NotionConnection
ada_pages = record {
  id = 4;
  user_id = 1;
  access_token_encrypted = "token";
  refresh_token_encrypted = none;
  workspace_id = none;
  workspace_name = none;
  database_id = none;
  data_source_id = none;
  last_error = none;
  connected_at = 0;
  setup_status = idle;
  parent_page_id = none;
}

abbrev creation_job : DurableJob
creation_job = record offer_job {
  key = creation 4;
  kind = notion_create;
  payload = record offer_payload {
    user_id = some 1;
    offer_id = none;
    connection_id = some 4;
    parent_page_id = some "page";
  };
}

abbrev pages_db : Db
pages_db = record match_db { notion_connections = ada_pages ∷ []; durable_jobs = creation_job ∷ [] }

creation_refines_example :
    Advance
      (stage_at (creation 4) pages_db)
      (stage_at (creation 4) (happens (claims 100 "t") (creation 4) pages_db).0)
      (happens (claims 100 "t") (creation 4) pages_db).1
creation_refines_example = creation_refines (claims 100 "t") 4 pages_db

abbrev two_workers : List Transaction
two_workers =
    claims 100 "t"
    ∷ claims 110 "u"
    ∷ finishes 120 "t" (created "database" "source") creation_job.payload
    ∷ claims 130 "v"
    ∷ []

creation_calls_once_example :
    calls_of two_workers (creation 4) pages_db ≤ calls_left (stage_at (creation 4) pages_db)
creation_calls_once_example = creation_calls_once two_workers 4 pages_db

one_call : calls_of two_workers (creation 4) pages_db ≡ 1
unfolding calls_of find summer_intern.Prelude.save summer_intern.Prelude.insert_new
one_call = refl
