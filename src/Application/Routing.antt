-- ===== src/Application/Routing.antt =====
-- service.py: how a command is authorized, deduplicated and run in one transaction. A handler is an
-- argument: any function on the database that hands back a result whose data is kept as JSON text.
pub mod Idempotency
pub mod Execute
pub mod ReadOnly
pub mod Handlers
pub mod Stored
pub mod Answers
pub mod Replay
use mathlib.Core.Option
use hibiki.Prelude.{
  ℕ, Bool, true, false, not, ◌&&◌, ◌||◌, Option, none, some, List, [], ◌∷◌, ◌++◌, String, str_eq,
  get, ◌==◌, is_key, eq_option, if◌then◌else◌,
}
use hibiki.Domain.Errors.{Result, ok, err, ErrorClass, Code, DomainError}
use hibiki.Domain.Guards.{Operation, guard_operation}
use hibiki.Domain.Types.{AuthContext, is_human}
use hibiki.Persistence.Models.{
  Store, InboxRow, IdempotencyRow, DecisionRow, AgentRunRow, WorkspaceRow, SideEffectRow,
}
use hibiki.Persistence.Session.{
  Env, M, Step, done, raised, gets, modify, require, fail, fail_if, pure, run, ◌>>=◌, ◌>>◌,
  CommandResult, success, failure,
}
use hibiki.Application.Base.{get_task, get_some}
use hibiki.Application.Runs.{RunPayload, assert_run_write_binding, get_run, differs, or_owner}

-- The operation names as texts.
abbrev pub operation_name : Operation → String
operation_name Operation.create_task = "create_task"
operation_name Operation.submit_contract = "submit_contract"
operation_name Operation.approve_contract = "approve_contract"
operation_name Operation.resolve_decision = "resolve_decision"
operation_name Operation.activate_minimal_plan = "activate_minimal_plan"
operation_name Operation.activate_plan = "activate_plan"
operation_name Operation.dispatch_ready_runs = "dispatch_ready_runs"
operation_name Operation.submit_result = "submit_result"
operation_name Operation.pause_task = "pause_task"
operation_name Operation.resume_task = "resume_task"
operation_name Operation.cancel_task = "cancel_task"
operation_name Operation.runtime_quiescent = "runtime_quiescent"
operation_name Operation.cancellation_settled = "cancellation_settled"
operation_name Operation.accept_result = "accept_result"
operation_name Operation.prepare_acceptance = "prepare_acceptance"
operation_name Operation.propose_side_effect = "propose_side_effect"
operation_name Operation.approve_side_effect = "approve_side_effect"
operation_name Operation.dispatch_side_effect = "dispatch_side_effect"
operation_name Operation.reconcile_side_effect = "reconcile_side_effect"
operation_name Operation.confirm_run_exit = "confirm_run_exit"
operation_name Operation.open_blocking_gate = "open_blocking_gate"
operation_name Operation.record_model_usage = "record_model_usage"
operation_name Operation.set_writer_alive = "set_writer_alive"
operation_name Operation.register_sandbox_identity = "register_sandbox_identity"
operation_name Operation.heartbeat = "heartbeat"
operation_name Operation.publish_artifact = "publish_artifact"
operation_name Operation.context_append = "context_append"
operation_name Operation.seed_profile = "seed_profile"
operation_name Operation.replace_planner_generation = "replace_planner_generation"
operation_name Operation.submit_plan_proposal = "submit_plan_proposal"
operation_name Operation.apply_contract_delta = "apply_contract_delta"
operation_name Operation.dispatch_planner_run = "dispatch_planner_run"
operation_name Operation.advance_planner_checkpoint = "advance_planner_checkpoint"
operation_name Operation.post_task_message = "post_task_message"
operation_name Operation.request_spawn = "request_spawn"
operation_name Operation.close_planner_session = "close_planner_session"
operation_name Operation.request_repair_plan = "request_repair_plan"
operation_name (Operation.unknown name) = name

-- The identifiers that a payload, or a stored result, holds.
pub record Payload : Type 0 where
  pub task_id : Option ℕ
  pub decision_id : Option ℕ
  pub run_id : Option ℕ
  pub workspace_id : Option ℕ
  pub effect_id : Option ℕ
  pub fencing_epoch : Option ℕ

-- What a command hands back to its caller.
pub record Answer : Type 0 where
  pub succeeded : Bool
  pub result_data : Option ℕ
  pub error_code : Option Code
  pub replayed : Bool

abbrev pub answer_of : CommandResult ℕ → Answer
answer_of (success d) = record {
  succeeded = true;
  result_data = some d;
  error_code = none;
  replayed = false;
}
answer_of (failure c) = record {
  succeeded = false;
  result_data = none;
  error_code = some c;
  replayed = false;
}

abbrev pub failed : Code → Answer
failed c = answer_of (failure c)

abbrev pub is_create_task : Operation → Bool
is_create_task Operation.create_task = true
is_create_task _ = false

-- An optional value: the first if it is there.
abbrev pub or_else : Option ℕ → Option ℕ → Option ℕ
or_else none o = o
or_else (some k) o = some k

-- The task of a row that a payload names.
abbrev pub decision_task : ℕ → Store → Option ℕ
decision_task k s = Option.map (λ (d : DecisionRow). d.task_id) (get k s.decisions)

abbrev pub run_task : ℕ → Store → Option ℕ
run_task k s = Option.map (λ (r : AgentRunRow). r.task_id) (get k s.runs)

abbrev pub workspace_task : ℕ → Store → Option ℕ
workspace_task k s = Option.map (λ (w : WorkspaceRow). w.task_id) (get k s.workspaces)

abbrev pub effect_task : ℕ → Store → Option ℕ
effect_task k s = Option.map (λ (e : SideEffectRow). e.task_id) (get k s.side_effects)

abbrev pub agree : Option ℕ → Option ℕ → M (Option ℕ)
agree none supplied = pure supplied
agree (some task_id) supplied = do
  fail_if (differs supplied task_id) ErrorClass.authorization Code.authorization_denied
  pure (some task_id)

-- One round of the loop of `_command_task_id`: a row that is missing is left to the handler.
abbrev pub follow_key : Option ℕ → (ℕ → Store → Option ℕ) → Option ℕ → M (Option ℕ)
follow_key none task_of supplied = pure supplied
follow_key (some k) task_of supplied = do owner ← gets (task_of k); agree owner supplied

abbrev pub follow_keys : Payload → M (Option ℕ)
follow_keys p = do
  t1 ← follow_key p.decision_id decision_task p.task_id
  t2 ← follow_key p.run_id run_task t1
  t3 ← follow_key p.workspace_id workspace_task t2
  follow_key p.effect_id effect_task t3

abbrev pub follow_unless : Bool → Payload → M (Option ℕ)
follow_unless true p = pure none
follow_unless false p = follow_keys p

unfoldable pub command_task_id : Operation → Payload → M (Option ℕ)
command_task_id operation p = follow_unless (is_create_task operation) p

abbrev pub run_payload : Payload → RunPayload
run_payload p = record { task_id = p.task_id; run_id = p.run_id; fencing_epoch = p.fencing_epoch }

-- A run id that is missing counts as one that is not found.
abbrev pub bind_run : AuthContext → Payload → Option ℕ → M (Unit {0})
bind_run auth p none = fail ErrorClass.not_found Code.run_not_found
bind_run auth p (some run_id) = do
  r ← get_run run_id
  assert_run_write_binding auth run_id r (run_payload p) true

abbrev pub confirm_as : AuthContext → Payload → Option ℕ → Bool → M (Unit {0})
confirm_as auth p run_id false = bind_run auth p run_id
confirm_as auth p none true = fail ErrorClass.not_found Code.run_not_found
confirm_as auth p (some run_id) true = do
  r ← get_run run_id
  t ← get_task r.task_id
  fail_if (not (auth.principal_id == t.principal_id)) ErrorClass.authorization
      Code.authorization_denied

-- The writer flag is for the owner of the workspace only.
abbrev pub bind_writer : AuthContext → Payload → M (Unit {0})
bind_writer auth p = do
  row ← gets (λ s. get_some p.workspace_id s.workspaces)
  ws ← require row ErrorClass.not_found Code.not_found
  run_id ←
      require (or_owner p.run_id ws.owner_run_id) ErrorClass.authorization Code.authorization_denied
  fail_if (not (is_key ws.owner_run_id run_id)) ErrorClass.authorization Code.authorization_denied
  bind_run auth p (some run_id)

unfoldable pub authorize_run_command : AuthContext → Operation → Payload → M (Unit {0})
unfolding assert_run_write_binding get_run get_task
authorize_run_command auth operation p = elim operation [
  | Operation.submit_result ↦ bind_run auth p p.run_id
  | Operation.heartbeat ↦ bind_run auth p p.run_id
  | Operation.register_sandbox_identity ↦ bind_run auth p p.run_id
  | Operation.set_writer_alive ↦ bind_writer auth p
  | Operation.confirm_run_exit ↦ confirm_as auth p p.run_id (is_human auth)
  | _ ↦ pure tt
]

abbrev pub is_message : ℕ → ℕ → InboxRow → Bool
is_message actor_id message_id row = row.actor_id == actor_id && row.message_id == message_id

abbrev pub find_inbox : ℕ → ℕ → List InboxRow → Option InboxRow
find_inbox actor_id message_id [] = none
find_inbox actor_id message_id (row ∷ rows) =
    if is_message actor_id message_id row then some row else find_inbox actor_id message_id rows

-- `_deserialize_command_result` on what `_store_inbox` writes; rows of older versions are left out.
abbrev pub replay_of : InboxRow → Answer
replay_of row = record {
  succeeded = row.succeeded;
  result_data = row.result_data;
  error_code = row.error_code;
  replayed = true;
}

-- What identifies one delivery of a command: its message, its key, and the hash of what it asks.
pub record Delivery : Type 0 where
  pub message_id : ℕ
  pub idempotency_key : ℕ
  pub payload_hash : ℕ

abbrev pub inbox_row : AuthContext → Option ℕ → Operation → Delivery → Answer → InboxRow
inbox_row auth task_id operation d a = record {
  actor_id = auth.actor_id;
  message_id = d.message_id;
  principal_id = auth.principal_id;
  task_id = task_id;
  operation_type = operation_name operation;
  payload_hash = d.payload_hash;
  succeeded = a.succeeded;
  result_data = a.result_data;
  error_code = a.error_code;
}

-- SQL takes two NULLs for different.
abbrev pub same_task : Option ℕ → Option ℕ → Bool
same_task none o = false
same_task (some k) o = is_key o k

-- The columns of `uq_inbox_idempotency`, whose key is the message id.
abbrev pub clashes : InboxRow → InboxRow → Bool
clashes new row =
    row.principal_id == new.principal_id
    && same_task new.task_id row.task_id
    && str_eq row.operation_type new.operation_type
    && row.message_id == new.message_id

abbrev pub has_clash : InboxRow → List InboxRow → Bool
has_clash new [] = false
has_clash new (row ∷ rows) = clashes new row || has_clash new rows

abbrev pub append_inbox : InboxRow → M (Unit {0})
append_inbox new = modify (λ s. record s { inbox = s.inbox ++ (new ∷ []) })

abbrev pub add_inbox : InboxRow → Option InboxRow → M (Unit {0})
add_inbox new (some _) = pure tt
add_inbox new none = do
  clash ← gets (λ s. has_clash new s.inbox)
  fail_if clash ErrorClass.integrity Code.unique_constraint
  append_inbox new

unfoldable pub store_inbox : AuthContext → Option ℕ → Operation → Delivery → Answer → M (Unit {0})
store_inbox auth task_id operation d a = do
  existing ← gets (λ s. find_inbox auth.actor_id d.message_id s.inbox)
  add_inbox (inbox_row auth task_id operation d a) existing
