-- ===== src/Notion/Syncs.antt =====
-- trackr_app/notion.py: `_process_notion_job` and `process_notion_queue`.
use summer_intern.Prelude.{
  ℕ, ◌+◌, ◌-◌, Bool, true, false, not, ◌&&◌, ◌||◌, Option, none, some, List, [], ◌∷◌, ◌++◌, String,
  ◌==◌, nat_eq, string_eq, leb, opt_beq, or_else, is_some, if◌then◌else◌, select, take, sort_by,
  find, first_where, save,
}
use summer_intern.Model.{
  Db, Time, minutes, pending, processing, failed, cancelled, synced, is_processing, is_unfinished,
  User, Offer, NotionConnection, NotionSync,
}
use summer_intern.Operations.{next_retry}
use summer_intern.Durable.Jobs.{is_reached}
use summer_intern.Durable.Creation.{save_connection_row}

abbrev pub sync_id : NotionSync → ℕ
sync_id s = s.id

abbrev pub is_open_page : Time → NotionSync → Bool
is_open_page now s = is_unfinished s.status && is_reached now s.next_attempt_at

abbrev pub save_sync : NotionSync → Db → Db
save_sync s db = record db { notion_syncs = save sync_id s db.notion_syncs }

-- What the requests are made of: the page that is known, the token, the source and the offer.
pub record PageCall : Type 0 where
  pub notion_page_id : Option String
  pub access_token_encrypted : String
  pub data_source_id : String
  pub offer : Offer

-- The page's identity, the code of the service's error, or that of an error before any request, as
-- where the token does not decrypt.
pub data PageAnswer : Type 0 where
  written failed_with unprepared : String → PageAnswer

-- The first transaction: it ends without a request, or claims the page until its lease ends.
pub data PageClaim : Type 0 where
  declines : Db → PageClaim
  requests : Db → Time → ℕ → PageCall → PageClaim

abbrev pub claimed_page : Time → NotionSync → NotionSync
claimed_page now s = record s {
  status = processing;
  next_attempt_at = some (now + minutes 5);
  attempts = s.attempts + 1;
}

abbrev pub exhausted_page : NotionSync → NotionSync
exhausted_page s = record s {
  status = failed;
  last_error = or_else s.last_error (some "NotionLeaseExhausted");
}

module _ (now : Time) where
  -- The connection has a database, and the offer exists.
  abbrev pub claim_ready : NotionSync → Option NotionConnection → Option Offer → Db → PageClaim
  claim_ready s (some c) (some o) db = elim c.data_source_id [
    | none ↦ declines db
    | some source ↦ requests (save_sync (claimed_page now s) db) (now + minutes 5) c.id (record {
      notion_page_id = s.notion_page_id;
      access_token_encrypted = c.access_token_encrypted;
      data_source_id = source;
      offer = o;
    })
  ]
  claim_ready s _ _ db = declines db

  unfoldable pub claim_page : User → Option NotionSync → Db → PageClaim
  claim_page user none db = declines db
  claim_page user (some s) db =
      if not user.is_active
      then declines (save_sync (record s { status = cancelled }) db)
      else if leb 5 s.attempts
      then declines (save_sync (exhausted_page s) db)
      else claim_ready s
          (find (λ (c : NotionConnection). c.id) s.connection_id db.notion_connections)
          (find (λ (o : Offer). o.id) s.offer_id db.offers) db

abbrev pub failed_page : Time → String → NotionSync → NotionSync
failed_page now error s = record s {
  last_error = some error;
  next_attempt_at = some (next_retry now s.attempts);
  status = if leb 5 s.attempts || error == "InvalidToken" then failed else pending;
}

abbrev pub synced_page : Time → String → NotionSync → NotionSync
synced_page now page_id s = record s {
  notion_page_id = some page_id;
  status = synced;
  synced_at = some now;
  last_error = none;
  next_attempt_at = none;
  attempts = s.attempts - 1;
}

abbrev pub settled_page : Time → PageAnswer → NotionSync → NotionSync
settled_page now (written page_id) s = synced_page now page_id s
settled_page now (failed_with error) s = failed_page now error s
settled_page now (unprepared error) s = failed_page now error s

abbrev pub page_error : PageAnswer → Option String
page_error (written page_id) = none
page_error (failed_with error) = some error
page_error (unprepared error) = some error

abbrev pub made_calls : PageAnswer → PageCall → List PageCall
made_calls (unprepared error) call = []
made_calls _ call = call ∷ []

-- The claim of this lease.
abbrev pub is_leased_page : ℕ → Time → NotionSync → Bool
is_leased_page id lease s =
    s.id == id && (is_processing s.status && opt_beq s.next_attempt_at lease)

module _ (now : Time) (answer : PageAnswer) where
  abbrev pub settle_page : NotionSync → Option User → Option NotionConnection → Db → Db × Bool
  settle_page s (some u) (some c) db =
      if u.is_active
      then (
        save_connection_row (record c { last_error = page_error answer })
            (save_sync (settled_page now answer s) db),
        not (is_some (page_error answer)),
      )
      else (save_sync (record s { status = cancelled }) db, false)
  settle_page s _ _ db = (save_sync (record s { status = cancelled }) db, false)

  -- The second transaction: a claim that was revoked or replaced is left alone.
  abbrev pub finish_held_page : ℕ → ℕ → Option NotionSync → Db → Db × Bool
  finish_held_page user_id connection_id none db = (db, false)
  finish_held_page user_id connection_id (some s) db =
      settle_page s (find (λ (u : User). u.id) user_id db.users)
        (find (λ (c : NotionConnection). c.id) connection_id db.notion_connections) db

  unfoldable pub finish_page : ℕ → ℕ → ℕ → Time → Db → Db × Bool
  finish_page job_id user_id connection_id lease db =
      finish_held_page user_id connection_id
        (first_where (is_leased_page job_id lease) db.notion_syncs) db

-- What the world decides during a job: whether the account's row is free, the times, what others
-- commit before it and during the requests, the answer, and whether a transaction raises, which
-- rolls it back.
pub record PageTurn : Type 0 where
  pub before : Db → Db
  pub is_free : Bool
  pub now : Time
  pub raises_first : Bool
  pub meanwhile : Db → Db
  pub answer : PageAnswer
  pub raises_second : Bool
  pub finished_at : Time

-- The state, the requests and the count.
pub record Synced : Type 0 where
  pub db : Db
  pub calls : List PageCall
  pub count : ℕ

abbrev pub as_count : Bool → ℕ
as_count true = 1
as_count false = 0

abbrev pub after_page : PageTurn → ℕ → ℕ → PageClaim → Synced
after_page turn job_id user_id (declines db) = record { db = db; calls = []; count = 0 }
after_page turn job_id user_id (requests db lease connection_id call) =
    let later = turn.meanwhile db in
    let done = finish_page turn.finished_at turn.answer job_id user_id connection_id lease later in
    if turn.raises_second
    then record { db = later; calls = made_calls turn.answer call; count = 0 }
    else record { db = done.0; calls = made_calls turn.answer call; count = as_count done.1 }

abbrev pub page_locked : PageTurn → ℕ → ℕ → Option User → Db → Synced
page_locked turn job_id user_id none db = record { db = db; calls = []; count = 0 }
page_locked turn job_id user_id (some user) db = after_page turn job_id user_id (
    claim_page turn.now user
      (first_where (λ (s : NotionSync). s.id == job_id && is_open_page turn.now s) db.notion_syncs)
      db)

unfoldable pub process_notion_job : PageTurn → ℕ → ℕ → Db → Synced
unfolding claim_page finish_page
process_notion_job turn job_id user_id db =
    let db' = turn.before db in
    let run = page_locked turn job_id user_id (find (λ (u : User). u.id) user_id db'.users) db' in
    if turn.raises_first || not turn.is_free
    then record { db = db'; calls = []; count = 0 }
    else run

abbrev pub owner_of : Db → NotionSync → List (ℕ × ℕ)
owner_of db s = elim (find (λ (c : NotionConnection). c.id) s.connection_id db.notion_connections) [
  | none ↦ []
  | some c ↦ (s.id, c.user_id) ∷ []
]

-- The join with the connections.
abbrev pub owners_of : Db → List NotionSync → List (ℕ × ℕ)
owners_of db [] = []
owners_of db (s ∷ ss) = owner_of db s ++ owners_of db ss

unfoldable pub due_pages : Time → Db → List (ℕ × ℕ)
due_pages now db =
    take 100 (owners_of db (sort_by sync_id (select (is_open_page now) db.notion_syncs)))

-- The loop of `process_notion_queue`; `expired` is whether the deadline has come.
unfoldable pub run_pages : (ℕ → Bool) → (ℕ → PageTurn) → List (ℕ × ℕ) → Synced → Synced
unfolding process_notion_job
run_pages expired turns [] before = before
run_pages expired turns ((job_id, user_id) ∷ jobs) before =
    let run = process_notion_job (turns job_id) job_id user_id before.db in
    let rest = run_pages expired turns jobs (record {
      db = run.db;
      calls = before.calls ++ run.calls;
      count = before.count + run.count;
    }) in
    if expired job_id then before else rest

unfoldable pub process_notion_queue : (ℕ → Bool) → (ℕ → PageTurn) → Time → Db → Synced
unfolding run_pages due_pages
process_notion_queue expired turns now db =
    run_pages expired turns (due_pages now db) (record { db = db; calls = []; count = 0 })
