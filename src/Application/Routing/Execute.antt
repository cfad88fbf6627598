-- ===== src/Application/Routing/Execute.antt =====
-- service.py: `execute` and `_execute_in_tx`. A handler is an argument: any function on the database
-- that hands back the text of its data or a failure.
use hibiki.Prelude.{ℕ, Bool, true, false, not, if◌then◌else◌, Option, none, some, ◌==◌}
use hibiki.Domain.Errors.{Result, ok, err, ErrorClass, Code}
use hibiki.Domain.Guards.{Operation, guard_operation}
use hibiki.Domain.Types.{AuthContext}
use hibiki.Persistence.Models.{Store, InboxRow}
use hibiki.Persistence.Session.{M, gets, fail, fail_if, pure, run, ◌>>=◌, ◌>>◌, CommandResult}
use hibiki.Application.Routing.{
  Payload, Delivery, Answer, answer_of, failed, or_else, is_create_task, command_task_id,
  authorize_run_command, find_inbox, replay_of, store_inbox,
}
use hibiki.Application.Routing.Idempotency.{
  IdempotencyKey, check_idempotency, store_idempotency, stored_fields,
}

abbrev pub Handler : Type 0
Handler = AuthContext → Payload → M (CommandResult ℕ)

-- `handlers`, and json.loads on the text that a handler hands back.
pub record Handlers : Type 0 where
  pub handler_of : Operation → Option Handler
  pub fields : ℕ → Payload

abbrev pub same_payload : InboxRow → ℕ → Bool
same_payload row payload_hash = row.payload_hash == payload_hash

abbrev pub inbox_answer : Option InboxRow → ℕ → M (Option Answer)
inbox_answer none payload_hash = pure none
inbox_answer (some row) payload_hash = do
  fail_if (not (same_payload row payload_hash)) ErrorClass.idempotency_conflict Code.inbox_conflict
  pure (some (replay_of row))

unfoldable pub check_inbox : AuthContext → ℕ → ℕ → M (Option Answer)
check_inbox auth message_id payload_hash = do
  row ← gets (λ s. find_inbox auth.actor_id message_id s.inbox)
  inbox_answer row payload_hash

abbrev pub scope_unless : Bool → Option ℕ → Option ℕ
scope_unless true task_id = none
scope_unless false task_id = task_id

-- The namespace of a key: none for create_task.
abbrev pub scope : Operation → Option ℕ → Option ℕ
scope operation task_id = scope_unless (is_create_task operation) task_id

abbrev pub key_of : AuthContext → Operation → Option ℕ → Delivery → IdempotencyKey
key_of auth operation task_id d = record {
  principal_id = auth.principal_id;
  task_id = scope operation task_id;
  operation = operation;
  key = d.idempotency_key;
}

abbrev pub call_handler : Option Handler → AuthContext → Payload → M (CommandResult ℕ)
call_handler none auth p = fail ErrorClass.precondition Code.unknown_operation
call_handler (some h) auth p = h auth p

unfoldable pub run_handler :
    Handlers → AuthContext → Operation → Payload → Delivery → Option ℕ → M Answer
unfolding store_inbox store_idempotency
run_handler hs auth operation p d task_id = do
  result ← call_handler (hs.handler_of operation) auth p
  let a = answer_of result
  let stored = or_else task_id (stored_fields hs.fields a.result_data).task_id
  store_idempotency (key_of auth operation stored d) d.payload_hash a
  store_inbox auth (scope operation stored) operation d a
  pure a

unfoldable pub after_replay :
    Handlers → AuthContext → Operation → Payload → Delivery → Option ℕ → Option Answer → M Answer
unfolding store_inbox run_handler
after_replay hs auth operation p d task_id none = run_handler hs auth operation p d task_id
after_replay hs auth operation p d task_id (some a) = do
  store_inbox auth task_id operation d a
  pure a

unfoldable pub after_inbox :
    Handlers → AuthContext → Operation → Payload → Delivery → Option ℕ → Option Answer → M Answer
unfolding check_idempotency after_replay
after_inbox hs auth operation p d task_id (some a) = pure a
after_inbox hs auth operation p d task_id none = do
  replay ← check_idempotency hs.fields (key_of auth operation task_id d) d.payload_hash
  after_replay hs auth operation p d task_id replay

unfoldable pub execute_in_tx : Handlers → AuthContext → Operation → Payload → Delivery → M Answer
unfolding command_task_id authorize_run_command check_inbox after_inbox
execute_in_tx hs auth operation p d = do
  task_id ← command_task_id operation p
  authorize_run_command auth operation p
  hit ← check_inbox auth d.message_id d.payload_hash
  after_inbox hs auth operation p d task_id hit

abbrev pub is_integrity : ErrorClass → Bool
is_integrity ErrorClass.integrity = true
is_integrity _ = false

-- Only a DomainError becomes a failure; any other exception reaches the caller.
abbrev pub caught : Result Answer × Store → Result Answer × Store
caught (ok a, s) = (ok a, s)
caught (err e, s) = if is_integrity e.class then (err e, s) else (ok (failed e.code), s)

-- `execute` without the draining of the outbox that follows.
unfoldable pub execute :
    Handlers → AuthContext → Operation → Payload → Delivery → Store → Result Answer × Store
unfolding guard_operation execute_in_tx run
execute hs auth operation p d s = elim (guard_operation auth operation) [
  | err e ↦ (ok (failed e.code), s)
  | ok _ ↦ caught (run (execute_in_tx hs auth operation p d) s)
]
