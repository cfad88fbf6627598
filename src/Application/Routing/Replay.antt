-- ===== src/Application/Routing/Replay.antt =====
-- A command that is delivered again: what the inbox and the idempotency keys answer.
use hibiki.Prelude.{ℕ, ◌≡◌, ap, ◌∙◌, false, Option, some, ◌==◌}
use hibiki.Domain.Errors.{err}
use hibiki.Domain.Guards.{Operation}
use hibiki.Domain.Types.{AuthContext}
use hibiki.Persistence.Models.{Store, InboxRow}
use hibiki.Persistence.Session.{done, run}
use hibiki.Persistence.Session.Frame.{Keeps, Ensures-done, bind-eq, bind-raised}
use hibiki.Application.Routing.ReadOnly.{inbox_of}
use hibiki.Application.Routing.{Payload, Delivery, Answer, find_inbox}
use hibiki.Application.Routing.Execute.{
  Handlers, execute_in_tx, check_inbox, call_handler, after_inbox,
}
use hibiki.Application.Routing.Answers.{
  IsAdmitted, execute_in_tx-Ensures, execute_in_tx-admitted, check_inbox-same, check_inbox-other,
  rolled_back,
}
use hibiki.Application.Routing.Stored.{IsAnswered, as_replay, inbox_conflict}

module _ (hs : Handlers) (auth : AuthContext) (operation : Operation) (p : Payload)
    (d : Delivery) where
  -- A command that returned is answered at once when its message is delivered again, if the caller
  -- is still authorized: the same result, marked as a replay, and nothing is written. The handler
  -- runs once, whatever its result was. The handler must leave the inbox alone.
  pub execute_in_tx-again :
      (task_id : Option ℕ) (s s' : Store) (a : Answer)
      → Keeps inbox_of (call_handler (hs.handler_of operation) auth p)
      → execute_in_tx hs auth operation p d s ≡ done a s'
      → IsAdmitted auth operation p task_id s'
      → execute_in_tx hs auth operation p d s' ≡ done (as_replay a) s'
  unfolding after_inbox
  execute_in_tx-again task_id s s' a keeps h admitted =
      let (row, f, same, answer) =
        Ensures-done (IsAnswered auth d) (execute_in_tx hs auth operation p d) s a s'
          (execute_in_tx-Ensures hs auth operation p d keeps s) h in
      execute_in_tx-admitted hs auth operation p d task_id s' admitted
      ∙ bind-eq (check_inbox auth d.message_id d.payload_hash) _ s' _ s'
          (check_inbox-same auth d row s' f same)
      ∙ ap (λ x. done x s') answer

  -- A message that its actor used for another payload is a conflict if the caller is authorized, and
  -- nothing is written.
  pub execute_in_tx-other_payload :
      (task_id : Option ℕ) (row : InboxRow) (s : Store)
      → find_inbox auth.actor_id d.message_id s.inbox ≡ some row
      → (row.payload_hash == d.payload_hash) ≡ false
      → IsAdmitted auth operation p task_id s
      → run (execute_in_tx hs auth operation p d) s ≡ (err inbox_conflict, s)
  unfolding run
  execute_in_tx-other_payload task_id row s f other admitted =
      rolled_back (execute_in_tx hs auth operation p d) s inbox_conflict s (
        execute_in_tx-admitted hs auth operation p d task_id s admitted
        ∙ bind-raised (check_inbox auth d.message_id d.payload_hash) _ s inbox_conflict s
            (check_inbox-other auth d row s f other))
