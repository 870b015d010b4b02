-- ===== src/Invitations/Passes.antt =====
-- trackr_app/invitations.py, `process_invitations`: the pass over the invitations that are due, and what
-- is written where a delivery raises.
use summer_intern.Prelude.{
  ℕ, ◌+◌, Bool, ◌&&◌, some, List, [], ◌∷◌, ◌++◌, String, ◌==◌, nat_eq, leb, is_none, if◌then◌else◌,
  map, select, take, sort_by, update_where,
}
use summer_intern.Model.{Db, Time, pending, failed, is_pending, Invitation}
use summer_intern.Operations.{next_retry}
use summer_intern.Security.{Crypto}
use summer_intern.AuthMail.Attempt.{Run, returned, raised_invalid_token, raised_other}
use summer_intern.AuthMail.Queue.{Pass, Progress}
use summer_intern.Durable.Jobs.{is_reached}
use summer_intern.Invitations.{deliver_invitation}

-- The twenty oldest, at most.
unfoldable pub due_invitations : Time → Db → List ℕ
due_invitations now db =
    map (λ (i : Invitation). i.id)
      (take 20 (
        sort_by (λ (i : Invitation). i.id)
          (select
            (λ (i : Invitation).
              is_pending i.delivery_status
              && is_none i.accepted_at
              && is_reached now i.next_attempt_at)
            db.invitations)))

-- An invitation that is still pending is put back, for an hour at most.
unfoldable pub defer_invitation : Time → String → ℕ → Db → Db
defer_invitation now error id db = record db {
  invitations =
      update_where (λ (i : Invitation). i.id == id && is_pending i.delivery_status)
        (λ i. record i {
          attempts = i.attempts + 1;
          delivery_status = if leb 4 i.attempts then failed else pending;
          last_error = some error;
          next_attempt_at = some (next_retry now 5);
        })
        db.invitations;
}

module _ (crypto : Crypto) (runtime_available : Bool) (pass : Pass) where
  unfoldable pub after_delivery : ℕ → Progress → Run → Progress
  unfolding defer_invitation
  after_delivery id before run = record {
    db = elim run.ending [
      | returned _ ↦ run.db
      | raised_invalid_token ↦ defer_invitation (pass.deferred_at id) "InvalidToken" id run.db
      | raised_other ↦ defer_invitation (pass.deferred_at id) (pass.error id) id run.db
    ];
    messages = before.messages ++ run.messages;
    count = elim run.ending [
      | returned delivered ↦ if delivered then before.count + 1 else before.count
      | raised_invalid_token ↦ before.count
      | raised_other ↦ before.count
    ];
  }

  unfoldable pub run_invitations : List ℕ → Progress → Progress
  unfolding after_delivery deliver_invitation
  run_invitations [] before = before
  run_invitations (id ∷ ids) before =
      let rest = run_invitations ids (
        after_delivery id before
          (deliver_invitation crypto runtime_available (pass.attempt id) id before.db)) in
      if pass.expired id then before else rest

  unfoldable pub process_invitations : Time → Db → Progress
  unfolding run_invitations due_invitations
  process_invitations now db =
      run_invitations (due_invitations now db) (record { db = db; messages = []; count = 0 })
