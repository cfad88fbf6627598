-- ===== src/Domain/Transitions.antt =====
-- src/hibiki/domain/transitions.py. A table `(state, event) -> state` is a partial function: a key
pub mod Laws
-- that is not in the Python dict has no value. An event is the string that keys the table, and
-- `other` is any string that occurs in no key.
use hibiki.Prelude.{Option, none, some, Bool, true, false, String}
use hibiki.Domain.Enums.{TaskState, WorkUnitStatus, AgentRunStatus, SideEffectState}
use hibiki.Domain.Errors.{Result, ok, raise, ErrorClass, Code}

pub data TaskEvent : Type 0 where
  clarification contract_submitted contract_approved contract_approved_simple clarification_answered
        decision_resolved decision_resolved_waiting plan_activated blocking_gate_opened
        required_outputs_ready verification_failed acceptance_ready final_accepted pause_requested
        runtime_quiescent resume_requested resume_requested_runnable cancel_requested
        cancellation_settled task_failed :
      TaskEvent
  other : String → TaskEvent

abbrev pub task_transitions : TaskState → TaskEvent → Option TaskState
task_transitions TaskState.new TaskEvent.clarification = some TaskState.waiting_human
task_transitions TaskState.new TaskEvent.contract_submitted = some TaskState.waiting_human
task_transitions TaskState.waiting_human TaskEvent.contract_submitted = some TaskState.waiting_human
task_transitions TaskState.waiting_human TaskEvent.contract_approved = some TaskState.planning
task_transitions TaskState.waiting_human TaskEvent.contract_approved_simple =
    some TaskState.executing
task_transitions TaskState.waiting_human TaskEvent.clarification_answered = some TaskState.new
task_transitions TaskState.waiting_human TaskEvent.decision_resolved = some TaskState.executing
task_transitions TaskState.waiting_human TaskEvent.decision_resolved_waiting =
    some TaskState.waiting_human
task_transitions TaskState.planning TaskEvent.plan_activated = some TaskState.executing
task_transitions TaskState.executing TaskEvent.plan_activated = some TaskState.executing
task_transitions TaskState.verifying TaskEvent.plan_activated = some TaskState.executing
task_transitions TaskState.waiting_human TaskEvent.blocking_gate_opened =
    some TaskState.waiting_human
task_transitions TaskState.planning TaskEvent.blocking_gate_opened = some TaskState.waiting_human
task_transitions TaskState.executing TaskEvent.blocking_gate_opened = some TaskState.waiting_human
task_transitions TaskState.verifying TaskEvent.blocking_gate_opened = some TaskState.waiting_human
task_transitions TaskState.executing TaskEvent.required_outputs_ready = some TaskState.verifying
task_transitions TaskState.verifying TaskEvent.verification_failed = some TaskState.executing
task_transitions TaskState.executing TaskEvent.acceptance_ready = some TaskState.waiting_human
task_transitions TaskState.verifying TaskEvent.acceptance_ready = some TaskState.waiting_human
task_transitions TaskState.planning TaskEvent.acceptance_ready = some TaskState.waiting_human
task_transitions TaskState.waiting_human TaskEvent.final_accepted = some TaskState.completed
task_transitions TaskState.new TaskEvent.pause_requested = some TaskState.pausing
task_transitions TaskState.waiting_human TaskEvent.pause_requested = some TaskState.pausing
task_transitions TaskState.planning TaskEvent.pause_requested = some TaskState.pausing
task_transitions TaskState.executing TaskEvent.pause_requested = some TaskState.pausing
task_transitions TaskState.verifying TaskEvent.pause_requested = some TaskState.pausing
task_transitions TaskState.pausing TaskEvent.runtime_quiescent = some TaskState.paused
task_transitions TaskState.paused TaskEvent.resume_requested = some TaskState.waiting_human
task_transitions TaskState.paused TaskEvent.resume_requested_runnable = some TaskState.executing
task_transitions TaskState.new TaskEvent.cancel_requested = some TaskState.cancelling
task_transitions TaskState.waiting_human TaskEvent.cancel_requested = some TaskState.cancelling
task_transitions TaskState.planning TaskEvent.cancel_requested = some TaskState.cancelling
task_transitions TaskState.executing TaskEvent.cancel_requested = some TaskState.cancelling
task_transitions TaskState.verifying TaskEvent.cancel_requested = some TaskState.cancelling
task_transitions TaskState.pausing TaskEvent.cancel_requested = some TaskState.cancelling
task_transitions TaskState.paused TaskEvent.cancel_requested = some TaskState.cancelling
task_transitions TaskState.cancelling TaskEvent.cancellation_settled = some TaskState.aborted
task_transitions TaskState.new TaskEvent.task_failed = some TaskState.failed
task_transitions TaskState.waiting_human TaskEvent.task_failed = some TaskState.failed
task_transitions TaskState.planning TaskEvent.task_failed = some TaskState.failed
task_transitions TaskState.executing TaskEvent.task_failed = some TaskState.failed
task_transitions TaskState.verifying TaskEvent.task_failed = some TaskState.failed
task_transitions TaskState.pausing TaskEvent.task_failed = some TaskState.failed
task_transitions TaskState.paused TaskEvent.task_failed = some TaskState.failed
task_transitions _ _ = none

pub data WorkUnitEvent : Type 0 where
  run_started run_retryable_failed run_blocked run_completed block_cleared unit_failed
        unit_cancelled :
      WorkUnitEvent
  other : String → WorkUnitEvent

abbrev pub work_unit_transitions : WorkUnitStatus → WorkUnitEvent → Option WorkUnitStatus
work_unit_transitions WorkUnitStatus.pending WorkUnitEvent.run_started = some WorkUnitStatus.running
work_unit_transitions WorkUnitStatus.running WorkUnitEvent.run_retryable_failed =
    some WorkUnitStatus.pending
work_unit_transitions WorkUnitStatus.running WorkUnitEvent.run_blocked = some WorkUnitStatus.blocked
work_unit_transitions WorkUnitStatus.running WorkUnitEvent.run_completed = some WorkUnitStatus.done
work_unit_transitions WorkUnitStatus.blocked WorkUnitEvent.block_cleared =
    some WorkUnitStatus.pending
work_unit_transitions WorkUnitStatus.pending WorkUnitEvent.unit_failed = some WorkUnitStatus.failed
work_unit_transitions WorkUnitStatus.running WorkUnitEvent.unit_failed = some WorkUnitStatus.failed
work_unit_transitions WorkUnitStatus.blocked WorkUnitEvent.unit_failed = some WorkUnitStatus.failed
work_unit_transitions WorkUnitStatus.pending WorkUnitEvent.unit_cancelled =
    some WorkUnitStatus.cancelled
work_unit_transitions WorkUnitStatus.running WorkUnitEvent.unit_cancelled =
    some WorkUnitStatus.cancelled
work_unit_transitions WorkUnitStatus.blocked WorkUnitEvent.unit_cancelled =
    some WorkUnitStatus.cancelled
work_unit_transitions _ _ = none

pub data RunEvent : Type 0 where
  start fail cancel succeed timeout lost : RunEvent
  other : String → RunEvent

abbrev pub run_transitions : AgentRunStatus → RunEvent → Option AgentRunStatus
run_transitions AgentRunStatus.created RunEvent.start = some AgentRunStatus.running
run_transitions AgentRunStatus.created RunEvent.fail = some AgentRunStatus.failed
run_transitions AgentRunStatus.created RunEvent.cancel = some AgentRunStatus.cancelled
run_transitions AgentRunStatus.running RunEvent.succeed = some AgentRunStatus.succeeded
run_transitions AgentRunStatus.running RunEvent.fail = some AgentRunStatus.failed
run_transitions AgentRunStatus.running RunEvent.timeout = some AgentRunStatus.timed_out
run_transitions AgentRunStatus.running RunEvent.cancel = some AgentRunStatus.cancelled
run_transitions AgentRunStatus.running RunEvent.lost = some AgentRunStatus.lost
run_transitions _ _ = none

pub data SideEffectEvent : Type 0 where
  request_approval preauthorize approve reject claim_dispatch cancel succeed fail_confirmed
        uncertain :
      SideEffectEvent
  other : String → SideEffectEvent

abbrev pub side_effect_transitions : SideEffectState → SideEffectEvent → Option SideEffectState
side_effect_transitions SideEffectState.proposed SideEffectEvent.request_approval =
    some SideEffectState.waiting_approval
side_effect_transitions SideEffectState.proposed SideEffectEvent.preauthorize =
    some SideEffectState.authorized
side_effect_transitions SideEffectState.waiting_approval SideEffectEvent.approve =
    some SideEffectState.authorized
side_effect_transitions SideEffectState.waiting_approval SideEffectEvent.reject =
    some SideEffectState.cancelled
side_effect_transitions SideEffectState.authorized SideEffectEvent.claim_dispatch =
    some SideEffectState.dispatching
side_effect_transitions SideEffectState.authorized SideEffectEvent.cancel =
    some SideEffectState.cancelled
side_effect_transitions SideEffectState.dispatching SideEffectEvent.succeed =
    some SideEffectState.succeeded
side_effect_transitions SideEffectState.dispatching SideEffectEvent.fail_confirmed =
    some SideEffectState.failed_confirmed
side_effect_transitions SideEffectState.dispatching SideEffectEvent.uncertain =
    some SideEffectState.unknown
side_effect_transitions SideEffectState.proposed SideEffectEvent.cancel =
    some SideEffectState.cancelled
side_effect_transitions SideEffectState.waiting_approval SideEffectEvent.cancel =
    some SideEffectState.cancelled
side_effect_transitions _ _ = none

-- `table[key]`, or InvalidTransitionError.
abbrev pub transition {ℓ κ} : {S : Type ℓ} {E : Type κ} → (S → E → Option S) → S → E → Result S
transition table current event = elim (table current event) [
  | none ↦ raise ErrorClass.invalid_transition Code.invalid_transition
  | some next ↦ ok next
]

abbrev pub transition_task : TaskState → TaskEvent → Result TaskState
transition_task = transition task_transitions

abbrev pub transition_work_unit : WorkUnitStatus → WorkUnitEvent → Result WorkUnitStatus
transition_work_unit = transition work_unit_transitions

abbrev pub transition_run : AgentRunStatus → RunEvent → Result AgentRunStatus
transition_run = transition run_transitions

abbrev pub transition_side_effect : SideEffectState → SideEffectEvent → Result SideEffectState
transition_side_effect = transition side_effect_transitions

-- DISPATCHABLE_TASK_STATES
abbrev pub can_dispatch_business_run : TaskState → Bool
can_dispatch_business_run TaskState.planning = true
can_dispatch_business_run TaskState.executing = true
can_dispatch_business_run TaskState.verifying = true
can_dispatch_business_run _ = false

-- TERMINAL_TASK_STATES
abbrev pub is_terminal_task : TaskState → Bool
is_terminal_task TaskState.completed = true
is_terminal_task TaskState.failed = true
is_terminal_task TaskState.aborted = true
is_terminal_task _ = false

-- TERMINAL_RUN
abbrev pub is_terminal_run : AgentRunStatus → Bool
is_terminal_run AgentRunStatus.succeeded = true
is_terminal_run AgentRunStatus.failed = true
is_terminal_run AgentRunStatus.timed_out = true
is_terminal_run AgentRunStatus.cancelled = true
is_terminal_run AgentRunStatus.lost = true
is_terminal_run _ = false

-- TERMINAL_WORK_UNIT
abbrev pub is_terminal_work_unit : WorkUnitStatus → Bool
is_terminal_work_unit WorkUnitStatus.done = true
is_terminal_work_unit WorkUnitStatus.failed = true
is_terminal_work_unit WorkUnitStatus.cancelled = true
is_terminal_work_unit _ = false
