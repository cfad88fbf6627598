-- ===== src/Domain/Guards.antt =====
-- src/hibiki/domain/guards.py: who may run an operation, and when runs and side effects may go out.
pub mod Laws
use hibiki.Prelude.{
  ℕ, Bool, true, false, not, ◌&&◌, ◌||◌, Option, none, some, String, ◌==◌, if◌then◌else◌, is_some,
}
use hibiki.Domain.Enums.{ActorType, DecisionKind, SideEffectState, TaskState}
use hibiki.Domain.Errors.{Result, ok, raise, raise_if, ErrorClass, Code, ◌>>=◌, ◌>>◌}
use hibiki.Domain.Transitions.{can_dispatch_business_run, is_terminal_task}
use hibiki.Domain.Types.{AuthContext, Scope, is_human, is_human_type, is_internal_type, has_scope}

-- The operation names; `unknown` is any string that no handler is registered for.
pub data Operation : Type 0 where
  create_task submit_contract approve_contract resolve_decision activate_minimal_plan activate_plan
        dispatch_ready_runs submit_result pause_task resume_task cancel_task runtime_quiescent
        cancellation_settled accept_result prepare_acceptance propose_side_effect
        approve_side_effect dispatch_side_effect reconcile_side_effect confirm_run_exit
        open_blocking_gate record_model_usage set_writer_alive register_sandbox_identity heartbeat
        publish_artifact context_append seed_profile replace_planner_generation submit_plan_proposal
        apply_contract_delta dispatch_planner_run advance_planner_checkpoint post_task_message
        request_spawn close_planner_session request_repair_plan :
      Operation
  unknown : String → Operation

-- HUMAN_ONLY_OPS
abbrev pub in_human_only_ops : Operation → Bool
in_human_only_ops Operation.approve_contract = true
in_human_only_ops Operation.approve_side_effect = true
in_human_only_ops Operation.resolve_decision = true
in_human_only_ops Operation.accept_result = true
in_human_only_ops Operation.resume_task = true
in_human_only_ops Operation.apply_contract_delta = true
in_human_only_ops _ = false

-- INTERRUPT_OPS
abbrev pub in_interrupt_ops : Operation → Bool
in_interrupt_ops Operation.pause_task = true
in_interrupt_ops Operation.cancel_task = true
in_interrupt_ops _ = false

-- INTERNAL_ONLY_OPS
abbrev pub in_internal_only_ops : Operation → Bool
in_internal_only_ops Operation.submit_result = true
in_internal_only_ops Operation.set_writer_alive = true
in_internal_only_ops Operation.register_sandbox_identity = true
in_internal_only_ops Operation.heartbeat = true
in_internal_only_ops Operation.publish_artifact = true
in_internal_only_ops Operation.context_append = true
in_internal_only_ops Operation.record_model_usage = true
in_internal_only_ops _ = false

-- EXIT_CONFIRM_OPS
abbrev pub in_exit_confirm_ops : Operation → Bool
in_exit_confirm_ops Operation.confirm_run_exit = true
in_exit_confirm_ops _ = false

-- HUMAN_TASK_ORCHESTRATION_OPS
abbrev pub in_human_task_orchestration_ops : Operation → Bool
in_human_task_orchestration_ops Operation.dispatch_ready_runs = true
in_human_task_orchestration_ops Operation.activate_plan = true
in_human_task_orchestration_ops Operation.activate_minimal_plan = true
in_human_task_orchestration_ops Operation.dispatch_planner_run = true
in_human_task_orchestration_ops Operation.replace_planner_generation = true
in_human_task_orchestration_ops Operation.request_repair_plan = true
in_human_task_orchestration_ops Operation.close_planner_session = true
in_human_task_orchestration_ops Operation.request_spawn = true
in_human_task_orchestration_ops _ = false

-- PLANNER_BOUND_OPS
abbrev pub in_planner_bound_ops : Operation → Bool
in_planner_bound_ops Operation.submit_plan_proposal = true
in_planner_bound_ops Operation.advance_planner_checkpoint = true
in_planner_bound_ops _ = false

-- HUMAN_DECISION_KINDS
abbrev pub guard_decision_kind_human : DecisionKind → Bool
guard_decision_kind_human DecisionKind.contract_approval = true
guard_decision_kind_human DecisionKind.contract_delta = true
guard_decision_kind_human DecisionKind.side_effect_approval = true
guard_decision_kind_human DecisionKind.final_acceptance = true
guard_decision_kind_human _ = false

pub require_human : AuthContext → Result (Unit {0})
require_human auth =
    raise_if (not (is_human_type auth.actor_type)) ErrorClass.authorization
      Code.authorization_denied

pub require_internal : AuthContext → Result (Unit {0})
require_internal auth =
    raise_if (not (is_internal_type auth.actor_type)) ErrorClass.authorization
      Code.authorization_denied

pub require_interrupt_scope : AuthContext → Result (Unit {0})
require_interrupt_scope auth =
    if is_human auth
    then ok tt
    else raise_if (not (has_scope auth Scope.task_interrupt)) ErrorClass.authorization
        Code.authorization_denied

pub require_exit_confirm_actor : AuthContext → Result (Unit {0})
require_exit_confirm_actor auth =
    raise_if (not (is_human_type auth.actor_type || is_internal_type auth.actor_type))
      ErrorClass.authorization Code.authorization_denied

unfoldable pub guard_operation : AuthContext → Operation → Result (Unit {0})
unfolding require_human require_internal require_interrupt_scope require_exit_confirm_actor
guard_operation auth operation =
    if in_human_only_ops operation
    then require_human auth
    else if in_human_task_orchestration_ops operation
    then require_human auth
    else if in_interrupt_ops operation
    then require_interrupt_scope auth
    else if in_internal_only_ops operation
    then require_internal auth
    else if in_exit_confirm_ops operation
    then require_exit_confirm_actor auth
    else if in_planner_bound_ops operation
    then require_exit_confirm_actor auth
    else ok tt

unfoldable pub guard_human_decision : AuthContext → DecisionKind → Result (Unit {0})
unfolding require_human
guard_human_decision auth kind =
    if guard_decision_kind_human kind then require_human auth else ok tt

unfoldable pub guard_dispatch : TaskState → Bool → Bool → Bool → Bool → Result (Unit {0})
guard_dispatch task_state has_active_contract has_blocking_gate cancel_intent pause_intent = do
  raise_if (not (can_dispatch_business_run task_state)) ErrorClass.precondition
      Code.dispatch_blocked_state
  raise_if (not has_active_contract) ErrorClass.precondition Code.no_active_contract
  raise_if has_blocking_gate ErrorClass.precondition Code.dispatch_frozen_gate
  raise_if cancel_intent ErrorClass.precondition Code.dispatch_frozen_cancel
  raise_if pause_intent ErrorClass.precondition Code.dispatch_frozen_pause

abbrev pub is_cancelling : TaskState → Bool
is_cancelling TaskState.cancelling = true
is_cancelling _ = false

abbrev pub is_pausing_or_paused : TaskState → Bool
is_pausing_or_paused TaskState.pausing = true
is_pausing_or_paused TaskState.paused = true
is_pausing_or_paused _ = false

-- `effect_contract_version is not None and effect_contract_version != active_contract_version`
abbrev pub is_superseded : Option ℕ → ℕ → Bool
is_superseded none _ = false
is_superseded (some v) active = not (v == active)

-- The keyword arguments of `guard_side_effect_send`. `allowed_states` is the set as a test.
pub record SendRequest : Type 0 where
  pub task_state : TaskState
  pub cancel_intent : Bool
  pub pause_intent : Bool
  pub has_blocking_gate : Bool
  pub has_active_contract : Bool
  pub effect_contract_version : Option ℕ
  pub active_contract_version : Option ℕ
  pub approval_expired : Bool
  pub effect_state : SideEffectState
  pub allowed_states : SideEffectState → Bool

-- `not has_active_contract or active_contract_version is None` comes first, so the version that
-- the next test compares is there.
abbrev pub check_contract : Bool → Option ℕ → Option ℕ → Result (Unit {0})
check_contract false _ _ = raise ErrorClass.precondition Code.no_active_contract
check_contract true none _ = raise ErrorClass.precondition Code.no_active_contract
check_contract true (some active) effect =
    raise_if (is_superseded effect active) ErrorClass.precondition Code.contract_replaced

unfoldable pub guard_side_effect_send : SendRequest → Result (Unit {0})
guard_side_effect_send r = do
  raise_if (r.cancel_intent || is_cancelling r.task_state) ErrorClass.precondition
      Code.dispatch_frozen_cancel
  raise_if (r.pause_intent || is_pausing_or_paused r.task_state) ErrorClass.precondition
      Code.dispatch_frozen_pause
  raise_if (is_terminal_task r.task_state) ErrorClass.precondition Code.dispatch_blocked_state
  raise_if r.has_blocking_gate ErrorClass.precondition Code.dispatch_frozen_gate
  check_contract r.has_active_contract r.active_contract_version r.effect_contract_version
  raise_if r.approval_expired ErrorClass.precondition Code.approval_expired
  raise_if (not (r.allowed_states r.effect_state)) ErrorClass.precondition Code.not_authorized

abbrev pub is_completed : TaskState → Bool
is_completed TaskState.completed = true
is_completed _ = false

unfoldable pub guard_final_complete : TaskState → Bool → Result (Unit {0})
guard_final_complete task_state has_acceptance = do
  raise_if (is_terminal_task task_state && not (is_completed task_state)) ErrorClass.precondition
      Code.already_terminal
  raise_if (not has_acceptance) ErrorClass.precondition Code.acceptance_required
