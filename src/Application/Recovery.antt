-- ===== src/Application/Recovery.antt =====
-- service.py: the recovery of a lost run, and the state of a task after a gate is resolved.
pub mod Laws
use hibiki.Prelude.{
  ℕ, zero, suc, ◌+◌, ◌-◌, Bool, true, false, not, ◌&&◌, ◌||◌, Option, none, some, List, [], ◌∷◌,
  Table, get, select, any_row, map_rows, ltb, leb, ◌==◌, is_some, if◌then◌else◌,
}
use hibiki.Domain.Defaults.{defaults}
use hibiki.Domain.Enums.{
  TaskState, SideEffectState, OutboxStatus, WaitingReason, AgentRunStatus, WorkspaceState,
  WorkUnitStatus,
}
use hibiki.Domain.Execution.{Tool}
use hibiki.Domain.Transitions.{TaskEvent, WorkUnitEvent, transition_work_unit, is_terminal_task}
use hibiki.Persistence.Models.{
  Store, TaskRow, AgentRunRow, WorkspaceRow, WorkUnitExecutionRow, SideEffectRow, OutboxRow,
  Command, Reason, StopReason, EventType, ToolInvocationRow, ToolOutcome,
}
use hibiki.Persistence.Session.{Env, M, gets, modify, lift, pure, ◌>>=◌, ◌>>◌}
use hibiki.Application.Base.{
  set_run, set_work_unit, set_workspace, set_effect, set_outbox, set_task_state, append_event,
  has_blocking_gate, is_active_run, is_waiting_human, for_some,
}
use hibiki.Application.Effects.{dispatching_or_unknown}
use hibiki.Application.External.{block_task, block_owner}
use hibiki.Application.Occupancy.{clear_run_occupancy}
use hibiki.Application.Outbox.{is_leased}
use hibiki.Application.Stops.{is_in_flight, is_running_unit, mark_acked, fence_claimed_agent_start}

-- The verdicts of `lost_run_recovery_policy`.
pub data Recovery : Type 0 where
  blocked retry : Recovery

unfoldable pub lost_run_recovery_policy : Bool → ℕ → ℕ → Recovery
lost_run_recovery_policy has_effect attempts max_attempts =
    if has_effect
    then Recovery.blocked
    else if leb max_attempts attempts
    then Recovery.blocked
    else Recovery.retry

abbrev pub may_have_effect : Tool → Bool
may_have_effect Tool.shell_run = true
may_have_effect Tool.artifact_publish = true
may_have_effect _ = false

abbrev pub in_runs : ℕ → List ℕ → Bool
in_runs run_id [] = false
in_runs run_id (r ∷ rs) = r == run_id || in_runs run_id rs

abbrev pub is_ok_outcome : Option ToolOutcome → Bool
is_ok_outcome (some ToolOutcome.ok) = true
is_ok_outcome _ = false

-- A submitted result, a command or a publication that went through, or an artifact of the run.
unfoldable pub had_effect : ℕ → AgentRunRow → Store → Bool
had_effect run_id run s =
    is_some run.result_ref
    || any_row
        (λ t.
          t.run_id == run_id && may_have_effect t.tool_name && t.allowed && is_ok_outcome t.outcome)
        s.tool_invocations
    || in_runs run_id s.published

abbrev pub nth_or_last : ℕ → List ℕ → ℕ
nth_or_last k [] = 0
nth_or_last k (x ∷ []) = x
nth_or_last zero (x ∷ y ∷ xs) = x
nth_or_last (suc k) (x ∷ y ∷ xs) = nth_or_last k (y ∷ xs)

-- `retry_backoff_seconds[min(max(attempts - 1, 0), len - 1)]`, where ℕ stops at 0.
abbrev pub retry_backoff : ℕ → ℕ
retry_backoff attempts = nth_or_last (attempts - 1) defaults.retry_backoff_seconds

abbrev pub block_unit : Reason → WorkUnitStatus → WorkUnitExecutionRow → WorkUnitExecutionRow
block_unit reason status w = record w {
  status = status;
  blocked_reason = some reason;
  next_retry_at = none;
}

abbrev pub retry_unit : Env → WorkUnitStatus → WorkUnitExecutionRow → WorkUnitExecutionRow
retry_unit env status w = record w {
  status = status;
  next_retry_at = some (env.now + retry_backoff w.attempt_count);
  blocked_reason = none;
}

-- The unit is BLOCKED, and its task waits for a human.
abbrev pub give_up : Env → ℕ → ℕ → Reason → WaitingReason → M (Unit {0})
give_up env work_unit_id task_id reason waiting = do
  status ← lift (transition_work_unit WorkUnitStatus.running WorkUnitEvent.run_blocked)
  modify (set_work_unit work_unit_id (block_unit reason status))
  task ← gets (λ s. get task_id s.tasks)
  block_task env task_id task waiting

abbrev pub try_again : Env → ℕ → M (Unit {0})
try_again env work_unit_id = do
  status ← lift (transition_work_unit WorkUnitStatus.running WorkUnitEvent.run_retryable_failed)
  modify (set_work_unit work_unit_id (retry_unit env status))

abbrev pub recover_as : Env → ℕ → ℕ → Bool → Recovery → M (Unit {0})
recover_as env work_unit_id task_id true Recovery.blocked =
    give_up env work_unit_id task_id Reason.lost_run_effect_unknown
      WaitingReason.execution_uncertain
recover_as env work_unit_id task_id false Recovery.blocked =
    give_up env work_unit_id task_id Reason.attempts_exhausted WaitingReason.execution_blocked
recover_as env work_unit_id task_id _ Recovery.retry = try_again env work_unit_id

abbrev pub recover_unit : Env → ℕ → AgentRunRow → ℕ → Option WorkUnitExecutionRow → M (Unit {0})
recover_unit env run_id run work_unit_id none = pure tt
recover_unit env run_id run work_unit_id (some w) = do
  effect ← gets (had_effect run_id run)
  elim (is_running_unit w.status) [
    | false ↦ pure tt
    | true ↦
        recover_as env work_unit_id run.task_id effect
          (lost_run_recovery_policy effect w.attempt_count defaults.max_work_unit_attempts)
  ]

abbrev pub recover_for : Env → ℕ → AgentRunRow → Option ℕ → M (Unit {0})
recover_for env run_id run none = pure tt
recover_for env run_id run (some work_unit_id) = do
  w ← gets (λ s. get work_unit_id s.work_units)
  recover_unit env run_id run work_unit_id w

unfoldable pub recover_work_unit_after_lost_run : Env → ℕ → AgentRunRow → M (Unit {0})
unfolding set_task_state had_effect lost_run_recovery_policy
recover_work_unit_after_lost_run env run_id run = recover_for env run_id run run.work_unit_id

abbrev pub is_blocked_unit : WorkUnitStatus → Bool
is_blocked_unit WorkUnitStatus.blocked = true
is_blocked_unit _ = false

-- `wu.blocked_reason in {"paused", "attempts_exhausted"}`
abbrev pub stays_blocked : Option Reason → Bool
stays_blocked (some Reason.paused) = true
stays_blocked (some Reason.attempts_exhausted) = true
stays_blocked _ = false

-- A BLOCKED unit takes the event block.cleared, which leads to PENDING.
abbrev pub clear_unit : ℕ → WorkUnitExecutionRow → WorkUnitExecutionRow
clear_unit task_id w =
    if w.task_id == task_id && is_blocked_unit w.status && not (stays_blocked w.blocked_reason)
    then record w { status = WorkUnitStatus.pending; blocked_reason = none; active_run_id = none }
    else w

abbrev pub leave_waiting : Env → ℕ → Bool → M (Unit {0})
leave_waiting env task_id true = pure tt
leave_waiting env task_id false = do
  modify (λ s. record s { work_units = map_rows (clear_unit task_id) s.work_units })
  set_task_state env task_id TaskEvent.decision_resolved none

-- `task` is the row as the caller holds it.
unfoldable pub recompute_runnable_state : Env → ℕ → TaskRow → M (Unit {0})
unfolding set_task_state has_blocking_gate
recompute_runnable_state env task_id task = do
  gate ← gets (has_blocking_gate task_id)
  leave_waiting env task_id (
      not (is_waiting_human task.state)
      || gate
      || task.cancel_intent
      || is_terminal_task task.state)
