-- ===== src/Persistence/Models.antt =====
-- src/hibiki/persistence/models.py: the columns that the modelled operations read or write. The
-- primary key of a row is its key in its table.
use hibiki.Prelude.{ℕ, Bool, Option, List, Table, String}
use hibiki.Domain.Enums.{
  TaskState, ContractStatus, DecisionKind, DecisionStatus, GateLifecycle, WorkUnitStatus,
  AgentRunStatus, AssignmentKind, SideEffectState, WorkspaceState, Verdict, OutboxStatus,
  WaitingReason,
}
use hibiki.Domain.Execution.{Tool}
use hibiki.Domain.Plan.{PlanEdge}
use hibiki.Domain.Errors.{Code}

-- The texts of `state_reason`, `blocked_reason` and a gate's `reason`: a WaitingReason, a literal
-- of the service, or a text that a caller supplies.
pub data Reason : Type 0 where
  waiting : WaitingReason → Reason
  paused attempts_exhausted context_overflow lost_run_effect_unknown : Reason
  text : ℕ → Reason

-- The texts of `terminal_reason` and of the reason of a stop command.
pub data StopReason : Type 0 where
  pause cancel paused blocking_gate confirm_exit start_revoked start_inflight_revoked
        start_ack_fenced start_dispatch_failed start_send_revoked outbox_inflight_timeout
        process_missing stopped :
      StopReason
  text : ℕ → StopReason

pub record TaskRow : Type 0 where
  pub principal_id : ℕ
  pub state : TaskState
  pub state_reason : Option Reason
  pub state_revision : ℕ
  pub contract_version : Option ℕ
  pub plan_version : Option ℕ
  pub final_result_refs : Option ℕ
  pub cancel_intent : Bool
  pub pause_intent : Bool
  pub revoke_epoch : ℕ
  pub model_calls_used : ℕ
  pub model_call_limit : ℕ
  pub updated_at : ℕ

-- From `content_json` the parts that are read: `tools` are those of the permission ceiling, a dict or
-- a list, and `model_call_limit` and `max_model_calls` are resource limits.
pub record ContractRow : Type 0 where
  pub task_id : ℕ
  pub contract_version : ℕ
  pub content_hash : ℕ
  pub status : ContractStatus
  pub allowed_side_effects : List ℕ
  pub model_call_limit : Option ℕ
  pub max_model_calls : Option ℕ
  pub tools : Option (List Tool)
  pub simple : Bool

pub record DecisionRow : Type 0 where
  pub task_id : ℕ
  pub decision_kind : DecisionKind
  pub target_ref : ℕ
  pub target_version : ℕ
  pub target_hash : ℕ
  pub status : DecisionStatus
  pub expires_at : ℕ
  pub gate_lifecycle : GateLifecycle

pub record GateRow : Type 0 where
  pub task_id : ℕ
  pub decision_id : ℕ
  pub reason : Reason
  pub lifecycle : GateLifecycle
  pub resolved_at : Option ℕ

pub record WorkUnitExecutionRow : Type 0 where
  pub task_id : ℕ
  pub spec_version : ℕ
  pub status : WorkUnitStatus
  pub active_run_id : Option ℕ
  pub attempt_count : ℕ
  pub next_retry_at : Option ℕ
  pub blocked_reason : Option Reason
  pub selected_verdict : Option Verdict
  pub verified_artifact_hash : Option ℕ

pub record AgentRunRow : Type 0 where
  pub task_id : ℕ
  pub assignment_kind : AssignmentKind
  pub planner_session_id : Option ℕ
  pub work_unit_id : Option ℕ
  pub agent_instance_id : ℕ
  pub workspace_id : Option ℕ
  pub status : AgentRunStatus
  pub terminal_reason : Option StopReason
  pub fencing_epoch : ℕ
  pub grant_epoch : ℕ
  pub lease_expires_at : Option ℕ
  pub last_heartbeat_at : Option ℕ
  pub started_at : Option ℕ
  pub finished_at : Option ℕ
  pub result_ref : Option ℕ
  pub sandbox_container_id : Option ℕ
  pub sandbox_exit_unconfirmed : Bool

pub record WorkspaceRow : Type 0 where
  pub task_id : ℕ
  pub work_unit_id : ℕ
  pub state : WorkspaceState
  pub owner_run_id : Option ℕ
  pub fencing_epoch : ℕ
  pub writer_alive : Bool

pub record SideEffectRow : Type 0 where
  pub task_id : ℕ
  pub logical_action_key : ℕ
  pub target_ref : ℕ
  pub action_digest : ℕ
  pub contract_version : ℕ
  pub authorization_ref : Option ℕ
  pub expires_at : Option ℕ
  pub state : SideEffectState
  pub dispatch_attempts : ℕ
  pub supports_idempotent_query : Bool

-- `command_type` with what later code reads of `payload_json`.
pub data Command : Type 0 where
  agent_start : (run_id : ℕ) → Command
  agent_stop : (run_id : ℕ) → StopReason → Command
  side_effect_dispatch : (effect_id : ℕ) → Command
  unknown : ℕ → Command

pub record OutboxRow : Type 0 where
  pub task_id : ℕ
  pub command : Command
  pub status : OutboxStatus
  pub revoke_epoch : ℕ
  pub leased_until : Option ℕ
  pub acked_at : Option ℕ

pub data EventType : Type 0 where
  pause_requested task_paused task_resumed cancel_requested task_aborted side_effect_proposed
        side_effect_dispatching exit_confirmation_requested exit_confirmed run_lost run_created
        work_unit_blocked decision_resolved :
      EventType

pub record EventRow : Type 0 where
  pub task_id : ℕ
  pub sequence_no : ℕ
  pub event_type : EventType
  pub actor_id : Option ℕ
  pub occurred_at : ℕ

pub record PlannerSessionRow : Type 0 where
  pub task_id : ℕ
  pub active_run_id : Option ℕ

-- The `deny_reason` of the broker.
pub data DenyReason : Type 0 where
  run_not_found run_input_unknown authorization_denied run_not_running fencing_conflict
        grant_conflict task_frozen tool_not_granted duplicate_sequence path_escape
        workspace_missing :
      DenyReason

pub data ToolOutcome : Type 0 where
  ok error denied : ToolOutcome
  other : ℕ → ToolOutcome

-- A row of `tool_invocations`; `allowed` is `decision == "ALLOW"`.
pub record ToolInvocationRow : Type 0 where
  pub task_id : ℕ
  pub run_id : ℕ
  pub sequence_no : ℕ
  pub tool_name : Tool
  pub allowed : Bool
  pub deny_reason : Option DenyReason
  pub grant_epoch : ℕ
  pub fencing_epoch : ℕ
  pub outcome : Option ToolOutcome
  pub finished_at : Option ℕ

-- `result_json` of a row of the inbox holds whether the command succeeded, its data and its code. The
-- data of a result is a JSON text, and `none` if it is empty.
pub record InboxRow : Type 0 where
  pub actor_id : ℕ
  pub message_id : ℕ
  pub principal_id : ℕ
  pub task_id : Option ℕ
  pub operation_type : String
  pub payload_hash : ℕ
  pub succeeded : Bool
  pub result_data : Option ℕ
  pub error_code : Option Code

pub record IdempotencyRow : Type 0 where
  pub principal_id : ℕ
  pub task_id : Option ℕ
  pub operation_type : String
  pub idempotency_key : ℕ
  pub payload_hash : ℕ
  pub result_data : Option ℕ

-- From `granted_tools_json` the tools, and the path of the workspace.
pub record RunInputRow : Type 0 where
  pub granted_tools : List Tool
  pub workspace_path : Option ℕ

-- A node of `nodes_json`.
pub record StoredNode : Type 0 where
  pub work_unit_id : ℕ
  pub spec_version : ℕ
  pub workspace_id : Option ℕ

-- The ACTIVE plan of a task: the nodes and edges of its PlanRow.
pub record PlanRow : Type 0 where
  pub plan_version : ℕ
  pub nodes : List StoredNode
  pub edges : List PlanEdge

-- The database. The marker tables map a task, a work unit or a planner session to the contract
-- version or the run that is active; `published` lists the runs that registered an artifact with
-- stored content; `drawn` counts the identifiers that `new_id` has handed out.
pub record Store : Type 0 where
  pub tasks : Table TaskRow
  pub contracts : List ContractRow
  pub active_contracts : Table ℕ
  pub decisions : Table DecisionRow
  pub gates : Table GateRow
  pub plans : Table PlanRow
  pub work_units : Table WorkUnitExecutionRow
  pub runs : Table AgentRunRow
  pub workspaces : Table WorkspaceRow
  pub execute_markers : Table ℕ
  pub plan_markers : Table ℕ
  pub planner_sessions : Table PlannerSessionRow
  pub side_effects : Table SideEffectRow
  pub outbox : Table OutboxRow
  pub events : List EventRow
  pub run_inputs : Table RunInputRow
  pub tool_invocations : Table ToolInvocationRow
  pub published : List ℕ
  pub inbox : List InboxRow
  pub idempotency : List IdempotencyRow
  pub drawn : ℕ
