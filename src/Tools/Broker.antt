-- ===== src/Tools/Broker.antt =====
-- src/hibiki/tools/broker.py: every request of a worker's tool is decided and recorded before it has
-- an effect. Parameters, hashes and texts of results are left out.
pub mod Files
pub mod Authorize
pub mod Finish
pub mod Audit
use hibiki.Prelude.{
  ℕ, suc, Bool, true, false, not, ◌&&◌, ◌||◌, Option, none, some, get, add, alter, any_row, ◌==◌,
  is_key, is_some, if◌then◌else◌,
}
use hibiki.Domain.Enums.{AgentRunStatus, TaskState}
use hibiki.Domain.Errors.{ErrorClass, Code}
use hibiki.Domain.Execution.{Tool, in_catalog, has_tool}
use hibiki.Domain.Types.{AuthContext, is_internal_type}
use hibiki.Persistence.Models.{
  Store, AgentRunRow, TaskRow, RunInputRow, ToolInvocationRow, DenyReason, ToolOutcome,
}
use hibiki.Persistence.Session.{Env, M, gets, modify, require, fail_if, pure, ◌>>=◌, ◌>>◌}
use hibiki.Application.Base.{has_blocking_gate}

-- `task_id` is `none` for an empty text.
pub record ToolRequest : Type 0 where
  pub run_id : ℕ
  pub task_id : Option ℕ
  pub work_unit_id : Option ℕ
  pub tool_name : Tool
  pub grant_epoch : ℕ
  pub fencing_epoch : ℕ
  pub sequence_no : ℕ

pub record ToolDecision : Type 0 where
  pub allowed : Bool
  pub reason : Option DenyReason
  pub invocation_id : Option ℕ

-- The task states in which no tool may run.
abbrev pub is_frozen_task_state : TaskState → Bool
is_frozen_task_state TaskState.waiting_human = true
is_frozen_task_state TaskState.pausing = true
is_frozen_task_state TaskState.paused = true
is_frozen_task_state TaskState.cancelling = true
is_frozen_task_state _ = false

abbrev pub task_frozen : ℕ → TaskRow → Store → Bool
task_frozen task_id task s =
    is_frozen_task_state task.state
    || (task.cancel_intent || task.pause_intent)
    || has_blocking_gate task_id s

-- The request names a task or a work unit that is not the run's.
abbrev pub names_other : Option ℕ → Option ℕ → Bool
names_other (some asked) (some own) = not (asked == own)
names_other _ _ = false

abbrev pub misnames : Option ToolRequest → AgentRunRow → Bool
misnames none run = false
misnames (some q) run =
    names_other q.task_id (some run.task_id) || names_other q.work_unit_id run.work_unit_id

abbrev pub is_exact_binding : AuthContext → ℕ → AgentRunRow → Bool
is_exact_binding auth run_id run =
    is_key auth.bound_task_id run.task_id
    && is_key auth.bound_run_id run_id
    && is_key auth.bound_fencing_epoch run.fencing_epoch
    && is_key auth.bound_grant_epoch run.grant_epoch
    && auth.actor_id == run.agent_instance_id

-- `_binding_error` is not None; each of its refusals has the same code.
abbrev pub binding_error : AuthContext → ℕ → AgentRunRow → TaskRow → Option ToolRequest → Bool
binding_error auth run_id run task q =
    not (is_internal_type auth.actor_type)
    || not (auth.principal_id == task.principal_id)
    || misnames q run
    || not (is_exact_binding auth run_id run)

abbrev pub sequence_taken : ℕ → ToolRequest → Store → Bool
sequence_taken task_id q s =
    any_row (λ t. t.task_id == task_id && t.run_id == q.run_id && t.sequence_no == q.sequence_no)
      s.tool_invocations

abbrev pub is_running_status : AgentRunStatus → Bool
is_running_status AgentRunStatus.running = true
is_running_status _ = false

-- The checks in their order, for a run whose input and task are there.
abbrev pub check_request :
    AuthContext → ToolRequest → AgentRunRow → RunInputRow → TaskRow → Store → Option DenyReason
check_request auth q run input task s =
    if binding_error auth q.run_id run task (some q)
    then some DenyReason.authorization_denied
    else if not (is_running_status run.status)
    then some DenyReason.run_not_running
    else if not (q.fencing_epoch == run.fencing_epoch)
    then some DenyReason.fencing_conflict
    else if not (q.grant_epoch == run.grant_epoch)
    then some DenyReason.grant_conflict
    else if task_frozen run.task_id task s
    then some DenyReason.task_frozen
    else if not (in_catalog q.tool_name && has_tool q.tool_name input.granted_tools)
    then some DenyReason.tool_not_granted
    else if sequence_taken run.task_id q s
    then some DenyReason.duplicate_sequence
    else none

abbrev pub denial :
    AuthContext
    → ToolRequest
    → AgentRunRow
    → Option RunInputRow
    → Option TaskRow
    → Store
    → Option DenyReason
denial auth q run none task s = some DenyReason.run_input_unknown
denial auth q run (some input) none s = some DenyReason.run_not_found
denial auth q run (some input) (some task) s = check_request auth q run input task s

abbrev pub outcome_of : Option DenyReason → Option ToolOutcome
outcome_of none = none
outcome_of (some _) = some ToolOutcome.denied

abbrev pub finished_of : Env → Option DenyReason → Option ℕ
finished_of env none = none
finished_of env (some _) = some env.now

-- The row of a decision: of an ALLOW without a reason, and of `_deny` with one.
abbrev pub invocation_row : Env → AgentRunRow → ToolRequest → Option DenyReason → ToolInvocationRow
invocation_row env run q reason = record {
  task_id = run.task_id;
  run_id = q.run_id;
  sequence_no = q.sequence_no;
  tool_name = q.tool_name;
  allowed = not (is_some reason);
  deny_reason = reason;
  grant_epoch = q.grant_epoch;
  fencing_epoch = q.fencing_epoch;
  outcome = outcome_of reason;
  finished_at = finished_of env reason;
}

abbrev pub decision_of : Option DenyReason → ℕ → ToolDecision
decision_of reason invocation_id = record {
  allowed = not (is_some reason);
  reason = reason;
  invocation_id = some invocation_id;
}

abbrev pub log_row : ℕ → ToolInvocationRow → Store → Store
log_row invocation_id row s = record s {
  tool_invocations = add invocation_id row s.tool_invocations;
  drawn = suc s.drawn;
}

-- The row is added under the constraint `uq_tool_invocation_seq`.
unfoldable pub record_decision :
    Env → AgentRunRow → ToolRequest → Option DenyReason → M ToolDecision
record_decision env run q reason = do
  taken ← gets (sequence_taken run.task_id q)
  fail_if taken ErrorClass.integrity Code.unique_constraint
  invocation_id ← gets (λ s. env.new_id s.drawn)
  modify (log_row invocation_id (invocation_row env run q reason))
  pure (decision_of reason invocation_id)

abbrev pub not_found : ToolDecision
not_found = record { allowed = false; reason = some DenyReason.run_not_found; invocation_id = none }

unfoldable pub authorize_run : Env → AuthContext → ToolRequest → Option AgentRunRow → M ToolDecision
unfolding record_decision
authorize_run env auth q none = pure not_found
authorize_run env auth q (some run) = do
  reason ← gets (λ s. denial auth q run (get q.run_id s.run_inputs) (get run.task_id s.tasks) s)
  record_decision env run q reason

unfoldable pub authorize_in_tx : Env → AuthContext → ToolRequest → M ToolDecision
unfolding authorize_run
authorize_in_tx env auth q = do run ← gets (λ s. get q.run_id s.runs); authorize_run env auth q run
