-- ===== src/Application/Control.antt =====
-- service.py: pause, quiescence, resume, cancel and settlement of a task.
pub mod Moves
pub mod Cancel
pub mod Pause
pub mod Settle
pub mod Quiet
pub mod Quarantine
use hibiki.Prelude.{
  ℕ, ◌+◌, Bool, true, false, not, ◌&&◌, ◌||◌, Option, none, some, List, [], ◌∷◌, foldl, Table, get,
  any_row, map_rows, map_entries, select, ◌==◌, if◌then◌else◌,
}
use hibiki.Domain.Enums.{
  TaskState, AgentRunStatus, OutboxStatus, SideEffectState, WorkUnitStatus, WorkspaceState,
  WaitingReason,
}
use hibiki.Domain.Errors.{ErrorClass, Code}
use hibiki.Domain.Guards.{is_cancelling}
use hibiki.Domain.Transitions.{TaskEvent}
use hibiki.Domain.Types.{AuthContext}
use hibiki.Persistence.Models.{
  Store, TaskRow, AgentRunRow, WorkUnitExecutionRow, SideEffectRow, OutboxRow, Command, Reason,
  StopReason, EventType,
}
use hibiki.Persistence.Session.{
  Env, M, gets, modify, fail, fail_if, pure, ◌>>=◌, ◌>>◌, CommandResult, success,
}
use hibiki.Application.Base.{
  set_task, set_run, set_workspace, for_some, is_active_run, get_task, append_event, set_task_state,
  has_blocking_gate, adapter_may_be_alive, task_has_live_writer, assert_no_live_writers, TaskReply,
  reply_task,
}
use hibiki.Application.Occupancy.{clear_run_occupancy}
use hibiki.Application.Stops.{
  is_pending, invalidate_pending_outbox, enqueue_stops, is_running_unit, is_dispatching,
}

unfoldable pub pause_task : Env → AuthContext → ℕ → M (CommandResult TaskReply)
unfolding get_task set_task_state invalidate_pending_outbox enqueue_stops append_event reply_task
pause_task env auth task_id = do
  task ← get_task task_id
  fail_if (is_cancelling task.state) ErrorClass.precondition Code.cancelling
  flushed ← gets (λ s. s.outbox)
  modify (set_task task_id (λ t. record t { pause_intent = true }))
  set_task_state env task_id TaskEvent.pause_requested none
  modify (invalidate_pending_outbox env task_id)
  modify (enqueue_stops env task_id flushed StopReason.pause)
  modify (append_event env task_id EventType.pause_requested (some auth.actor_id))
  reply_task task_id

abbrev pub is_pausing : TaskState → Bool
is_pausing TaskState.pausing = true
is_pausing _ = false

abbrev pub is_paused : TaskState → Bool
is_paused TaskState.paused = true
is_paused _ = false

-- One run of the loop that quarantines the workspaces of runs that may be alive.
abbrev pub quarantine_one : Env → Store → ℕ × AgentRunRow → Store
quarantine_one env s (run_id, run) =
    if adapter_may_be_alive env run_id
    then for_some run.workspace_id
        (λ ws.
          set_workspace ws
            (λ w. record w { state = WorkspaceState.quarantined; writer_alive = true }))
        s
    else s

abbrev pub quarantine_live : Env → ℕ → Store → Store
quarantine_live env task_id s =
    foldl (quarantine_one env) s (select (λ _ r. r.task_id == task_id) s.runs)

-- The running work units of the task are blocked as paused.
abbrev pub pause_unit : ℕ → WorkUnitExecutionRow → WorkUnitExecutionRow
pause_unit task_id w =
    if w.task_id == task_id && is_running_unit w.status
    then record w {
      status = WorkUnitStatus.blocked;
      blocked_reason = some Reason.paused;
      active_run_id = none;
    }
    else w

abbrev pub cancel_active_run : Env → Store → ℕ × AgentRunRow → Store
cancel_active_run env s (run_id, run) = clear_run_occupancy run_id run true (
    set_run run_id
      (λ r. record r {
        status = AgentRunStatus.cancelled;
        finished_at = some env.now;
        terminal_reason = some StopReason.paused;
      })
      s)

abbrev pub is_active_of : ℕ → ℕ → AgentRunRow → Bool
is_active_of task_id _ r = r.task_id == task_id && is_active_run r.status

unfoldable pub quiesce : Env → ℕ → Store → Store
unfolding clear_run_occupancy
quiesce env task_id s =
    let s1 = record s { work_units = map_rows (pause_unit task_id) s.work_units } in
    let s2 = foldl (cancel_active_run env) s1 (select (is_active_of task_id) s1.runs) in
    set_task task_id (λ t. record t { pause_intent = false }) s2

-- The quarantine of a live writer is written before the error is raised.
abbrev pub refuse_live : Env → ℕ → Bool → M (Unit {0})
refuse_live env task_id false = pure tt
refuse_live env task_id true = do
  modify (quarantine_live env task_id)
  fail ErrorClass.precondition Code.writer_alive

unfoldable pub runtime_quiescent : Env → AuthContext → ℕ → M (CommandResult TaskReply)
unfolding get_task set_task_state append_event reply_task quiesce task_has_live_writer
    adapter_may_be_alive
runtime_quiescent env auth task_id = do
  task ← get_task task_id
  fail_if (not (is_pausing task.state)) ErrorClass.precondition Code.invalid_state
  live ← gets (task_has_live_writer env task_id)
  refuse_live env task_id live
  modify (quiesce env task_id)
  set_task_state env task_id TaskEvent.runtime_quiescent none
  modify (append_event env task_id EventType.task_paused (some auth.actor_id))
  reply_task task_id

-- `task.state_reason or WaitingReason.CONTRACT_APPROVAL`
abbrev pub reason_or_approval : Option Reason → Option Reason
reason_or_approval none = some (Reason.waiting WaitingReason.contract_approval)
reason_or_approval (some r) = some r

abbrev pub is_blocked_paused : WorkUnitStatus → Option Reason → Bool
is_blocked_paused WorkUnitStatus.blocked (some Reason.paused) = true
is_blocked_paused _ _ = false

abbrev pub resume_unit : ℕ → WorkUnitExecutionRow → WorkUnitExecutionRow
resume_unit task_id w =
    if w.task_id == task_id && is_blocked_paused w.status w.blocked_reason
    then record w { status = WorkUnitStatus.pending; blocked_reason = none }
    else w

abbrev pub wake_units : ℕ → Store → Store
wake_units task_id s = record s { work_units = map_rows (resume_unit task_id) s.work_units }

abbrev pub resume_with : Env → ℕ → Option Reason → Bool → M (Unit {0})
resume_with env task_id reason true =
    set_task_state env task_id TaskEvent.resume_requested (reason_or_approval reason)
resume_with env task_id reason false = do
  set_task_state env task_id TaskEvent.resume_requested_runnable none
  modify (wake_units task_id)

unfoldable pub resume_task : Env → AuthContext → ℕ → M (CommandResult TaskReply)
unfolding get_task set_task_state append_event reply_task has_blocking_gate
resume_task env auth task_id = do
  task ← get_task task_id
  fail_if (not (is_paused task.state)) ErrorClass.precondition Code.invalid_state
  gate ← gets (has_blocking_gate task_id)
  resume_with env task_id task.state_reason gate
  modify (append_event env task_id EventType.task_resumed (some auth.actor_id))
  reply_task task_id

abbrev pub is_effect_command : ℕ → Command → Bool
is_effect_command effect_id (Command.side_effect_dispatch e) = e == effect_id
is_effect_command effect_id _ = false

-- `still_pending`: a dispatch of the effect waits in the outbox.
abbrev pub has_pending_dispatch : ℕ → ℕ → Table OutboxRow → Bool
has_pending_dispatch task_id effect_id rows =
    any_row
      (λ ob.
        ob.task_id == task_id && is_effect_command effect_id ob.command && is_pending ob.status)
      rows

abbrev pub is_before_dispatch : SideEffectState → Bool
is_before_dispatch SideEffectState.proposed = true
is_before_dispatch SideEffectState.waiting_approval = true
is_before_dispatch SideEffectState.authorized = true
is_before_dispatch _ = false

-- The loops of `_cancel_task` select by the rows in the database (`stored`), where nothing of the
-- command is flushed yet, and write the objects of the session, as `_invalidate_pending_outbox` left
-- them.
abbrev pub is_cancellable : ℕ → SideEffectRow → Bool
is_cancellable task_id e =
    e.task_id == task_id && (is_before_dispatch e.state || is_dispatching e.state)

abbrev pub satisfies {ℓ} : {V : Type ℓ} → (V → Bool) → Option V → Bool
satisfies p none = false
satisfies p (some v) = p v

-- One run of the loop over the side effects of the task.
abbrev pub cancel_effect : ℕ → Store → ℕ → SideEffectRow → SideEffectRow
cancel_effect task_id stored effect_id e =
    if satisfies (is_cancellable task_id) (get effect_id stored.side_effects)
      && (not (is_dispatching e.state) || has_pending_dispatch task_id effect_id stored.outbox)
    then record e { state = SideEffectState.cancelled }
    else e

abbrev pub is_pending_or_blocked : WorkUnitStatus → Bool
is_pending_or_blocked WorkUnitStatus.pending = true
is_pending_or_blocked WorkUnitStatus.blocked = true
is_pending_or_blocked _ = false

abbrev pub is_open_unit : ℕ → WorkUnitExecutionRow → Bool
is_open_unit task_id w = w.task_id == task_id && is_pending_or_blocked w.status

abbrev pub cancel_unit : ℕ → Store → ℕ → WorkUnitExecutionRow → WorkUnitExecutionRow
cancel_unit task_id stored work_unit_id w =
    if satisfies (is_open_unit task_id) (get work_unit_id stored.work_units)
    then record w { status = WorkUnitStatus.cancelled }
    else w

unfoldable pub cancel_work : ℕ → Store → Store → Store
cancel_work task_id stored s = record s {
  side_effects = map_entries (cancel_effect task_id stored) s.side_effects;
  work_units = map_entries (cancel_unit task_id stored) s.work_units;
}

unfoldable pub cancel_task : Env → AuthContext → ℕ → M (CommandResult TaskReply)
unfolding get_task set_task_state invalidate_pending_outbox enqueue_stops append_event reply_task
    cancel_work
cancel_task env auth task_id = do
  get_task task_id
  stored ← gets (λ s. s)
  modify
      (set_task task_id (λ t. record t { cancel_intent = true; revoke_epoch = t.revoke_epoch + 1 }))
  set_task_state env task_id TaskEvent.cancel_requested none
  modify (invalidate_pending_outbox env task_id)
  modify (cancel_work task_id stored)
  modify (enqueue_stops env task_id stored.outbox StopReason.cancel)
  modify (append_event env task_id EventType.cancel_requested (some auth.actor_id))
  reply_task task_id

abbrev pub is_uncertain : SideEffectState → Bool
is_uncertain SideEffectState.unknown = true
is_uncertain SideEffectState.dispatching = true
is_uncertain _ = false

abbrev pub has_uncertain_effect : ℕ → Store → Bool
has_uncertain_effect task_id s =
    any_row (λ e. e.task_id == task_id && is_uncertain e.state) s.side_effects

abbrev pub settle_run : Env → ℕ → AgentRunRow → AgentRunRow
settle_run env task_id r =
    if r.task_id == task_id && is_active_run r.status
    then record r { status = AgentRunStatus.cancelled; finished_at = some env.now }
    else r

unfoldable pub cancellation_settled : Env → AuthContext → ℕ → Bool → M (CommandResult TaskReply)
unfolding get_task set_task_state append_event reply_task assert_no_live_writers
cancellation_settled env auth task_id accept_unknown = do
  task ← get_task task_id
  fail_if (not (is_cancelling task.state)) ErrorClass.precondition Code.invalid_state
  unknowns ← gets (has_uncertain_effect task_id)
  fail_if (unknowns && not accept_unknown) ErrorClass.precondition Code.unresolved_external
  assert_no_live_writers env task_id
  modify (λ s. record s { runs = map_rows (settle_run env task_id) s.runs })
  set_task_state env task_id TaskEvent.cancellation_settled none
  modify (append_event env task_id EventType.task_aborted (some auth.actor_id))
  reply_task task_id
