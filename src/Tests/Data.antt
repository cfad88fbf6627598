-- ===== src/Tests/Data.antt =====
-- A small database: one task with an active contract, a run in a workspace, and a side effect.
use hibiki.Prelude.{◌+◌, true, false, none, some, [], ◌∷◌, Table}
use hibiki.Domain.Enums.{
  ActorType, TaskState, ContractStatus, AgentRunStatus, AssignmentKind, SideEffectState,
  WorkspaceState, WorkUnitStatus, OutboxStatus,
}
use hibiki.Domain.Execution.{Tool}
use hibiki.Domain.Types.{AuthContext}
use hibiki.Persistence.Models.{
  Store, TaskRow, ContractRow, AgentRunRow, WorkspaceRow, WorkUnitExecutionRow, SideEffectRow,
  OutboxRow, Command,
}
use hibiki.Persistence.Session.{Env}

abbrev pub env : Env
env = record {
  now = 100;
  inspect = λ _. record { alive = false; writer_alive = false };
  container_alive = λ _. false;
  new_id = λ n. n + 1000;
}

abbrev pub busy_env : Env
busy_env = record env { inspect = λ _. record { alive = true; writer_alive = true } }

abbrev pub auth_of : ActorType → AuthContext
auth_of actor_type = record {
  principal_id = 1;
  actor_id = 2;
  actor_type = actor_type;
  scopes = λ _. false;
  bound_task_id = none;
  bound_run_id = none;
  bound_fencing_epoch = none;
  bound_grant_epoch = none;
}

abbrev pub human : AuthContext
human = auth_of ActorType.human

abbrev pub task_in : TaskState → TaskRow
task_in state = record {
  principal_id = 1;
  state = state;
  state_reason = none;
  state_revision = 4;
  contract_version = some 1;
  plan_version = some 1;
  final_result_refs = none;
  cancel_intent = false;
  pause_intent = false;
  revoke_epoch = 3;
  model_calls_used = 0;
  model_call_limit = 200;
  updated_at = 90;
}

abbrev pub contract : ContractRow
contract = record {
  task_id = 7;
  contract_version = 1;
  content_hash = 55;
  status = ContractStatus.active;
  allowed_side_effects = 61 ∷ [];
  model_call_limit = none;
  max_model_calls = none;
  tools = some (Tool.shell_run ∷ []);
  simple = true;
}

abbrev pub work_unit : WorkUnitExecutionRow
work_unit = record {
  task_id = 7;
  spec_version = 1;
  status = WorkUnitStatus.running;
  active_run_id = some 20;
  attempt_count = 1;
  next_retry_at = none;
  blocked_reason = none;
  selected_verdict = none;
  verified_artifact_hash = none;
}

abbrev pub run_in : AgentRunStatus → AgentRunRow
run_in status = record {
  task_id = 7;
  assignment_kind = AssignmentKind.execute;
  planner_session_id = none;
  work_unit_id = some 10;
  agent_instance_id = 21;
  workspace_id = some 30;
  status = status;
  terminal_reason = none;
  fencing_epoch = 1;
  grant_epoch = 1;
  lease_expires_at = some 130;
  last_heartbeat_at = none;
  started_at = none;
  finished_at = none;
  result_ref = none;
  sandbox_container_id = none;
  sandbox_exit_unconfirmed = false;
}

abbrev pub workspace : WorkspaceRow
workspace = record {
  task_id = 7;
  work_unit_id = 10;
  state = WorkspaceState.ready;
  owner_run_id = some 20;
  fencing_epoch = 1;
  writer_alive = false;
}

abbrev pub effect_in : SideEffectState → SideEffectRow
effect_in state = record {
  task_id = 7;
  logical_action_key = 61;
  target_ref = 62;
  action_digest = 63;
  contract_version = 1;
  authorization_ref = none;
  expires_at = none;
  state = state;
  dispatch_attempts = 0;
  supports_idempotent_query = false;
}

abbrev pub outbox_row : Command → OutboxStatus → OutboxRow
outbox_row command status = record {
  task_id = 7;
  command = command;
  status = status;
  revoke_epoch = 3;
  leased_until = none;
  acked_at = none;
}

abbrev pub start_row : OutboxStatus → OutboxRow
start_row = outbox_row (Command.agent_start 20)

abbrev pub dispatch_row : OutboxStatus → OutboxRow
dispatch_row = outbox_row (Command.side_effect_dispatch 40)

-- Task 7 with work unit 10, run 20 in workspace 30, and side effect 40.
abbrev pub store_of : TaskState → AgentRunStatus → SideEffectState → Table OutboxRow → Store
store_of state status effect outbox = record {
  tasks = (7, task_in state) ∷ [];
  contracts = contract ∷ [];
  active_contracts = (7, 1) ∷ [];
  decisions = [];
  gates = [];
  plans = [];
  work_units = (10, work_unit) ∷ [];
  runs = (20, run_in status) ∷ [];
  workspaces = (30, workspace) ∷ [];
  execute_markers = (10, 20) ∷ [];
  plan_markers = [];
  planner_sessions = [];
  side_effects = (40, effect_in effect) ∷ [];
  outbox = outbox;
  events = [];
  run_inputs = [];
  tool_invocations = [];
  published = [];
  inbox = [];
  idempotency = [];
  drawn = 0;
}
