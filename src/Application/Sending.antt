-- ===== src/Application/Sending.antt =====
-- service.py: what the dispatcher writes around a call of an adapter. The answers of the adapters
-- are arguments.
pub mod Laws
use hibiki.Prelude.{
  ℕ, ◌+◌, Bool, true, false, not, ◌&&◌, ◌||◌, Option, none, some, [], ◌∷◌, get, ◌==◌, if◌then◌else◌,
  is_key,
}
use hibiki.Domain.Enums.{
  TaskState, SideEffectState, OutboxStatus, WaitingReason, AgentRunStatus, WorkspaceState,
  WorkUnitStatus,
}
use hibiki.Domain.Defaults.{defaults}
use hibiki.Domain.Errors.{Result, ok, err}
use hibiki.Domain.Guards.{is_cancelling}
use hibiki.Domain.Transitions.{can_dispatch_business_run, is_terminal_task, TaskEvent}
use hibiki.Persistence.Models.{
  Store, TaskRow, SideEffectRow, OutboxRow, Command, Reason, StopReason, AgentRunRow, WorkspaceRow,
  WorkUnitExecutionRow, EventType,
}
use hibiki.Persistence.Session.{Env, M, gets, modify, pure, ◌>>=◌, ◌>>◌}
use hibiki.Application.Base.{
  set_run, set_work_unit, set_workspace, set_effect, set_outbox, set_task_state, append_event,
  has_blocking_gate, is_active_run, is_waiting_human, for_some,
}
use hibiki.Application.Effects.{
  guard_side_effect_eligibility, Receipt, receipt_state, dispatching_or_authorized,
}
use hibiki.Application.Occupancy.{clear_run_occupancy, keep_start_occupancy}
use hibiki.Application.Stops.{
  is_in_flight, is_dispatching, is_created, is_running_unit, mark_acked, enqueue_stops_for_runs,
  fence_claimed_agent_start,
}

abbrev pub is_dead : OutboxStatus → Bool
is_dead OutboxStatus.dead = true
is_dead _ = false

-- The part of the test of `_start_send_allowed` that reads the rows.
abbrev pub may_send : OutboxRow → TaskRow → AgentRunRow → Bool → Bool
may_send row task run gate =
    is_active_run run.status
    && row.revoke_epoch == task.revoke_epoch
    && not task.cancel_intent
    && not task.pause_intent
    && not gate
    && can_dispatch_business_run task.state

abbrev pub may_send_for : OutboxRow → Option TaskRow → Option AgentRunRow → Store → Bool
may_send_for row (some task) (some run) s = may_send row task run (has_blocking_gate row.task_id s)
may_send_for row _ _ s = false

abbrev pub send_or_fence : Env → ℕ → ℕ → ℕ → Bool → Store → Bool × Store
send_or_fence env outbox_id task_id run_id true s = (true, s)
send_or_fence env outbox_id task_id run_id false s =
    (false, fence_claimed_agent_start env outbox_id task_id run_id StopReason.start_send_revoked s)

abbrev pub start_send_row : Env → ℕ → ℕ → Option OutboxRow → Store → Bool × Store
start_send_row env outbox_id run_id none s = (false, s)
start_send_row env outbox_id run_id (some row) s =
    let allowed = may_send_for row (get row.task_id s.tasks) (get run_id s.runs) s in
    let decided = send_or_fence env outbox_id row.task_id run_id allowed s in
    if is_in_flight row.status then decided else (false, s)

-- The last test before the agent adapter is called; a refusal fences the claimed start.
unfoldable pub start_send_allowed : Env → ℕ → ℕ → Store → Bool × Store
unfolding has_blocking_gate fence_claimed_agent_start
start_send_allowed env outbox_id run_id s =
    start_send_row env outbox_id run_id (get outbox_id s.outbox) s

-- The states in which an acknowledgement does not promote the run.
abbrev pub is_frozen_state : TaskState → Bool
is_frozen_state TaskState.waiting_human = true
is_frozen_state TaskState.pausing = true
is_frozen_state TaskState.paused = true
is_frozen_state TaskState.cancelling = true
is_frozen_state _ = false

abbrev pub is_frozen : ℕ → Option TaskRow → Store → Bool
is_frozen task_id none s = false
is_frozen task_id (some task) s =
    task.cancel_intent
    || task.pause_intent
    || is_frozen_state task.state
    || has_blocking_gate task_id s

abbrev pub is_cancelled_run : AgentRunStatus → Bool
is_cancelled_run AgentRunStatus.cancelled = true
is_cancelled_run _ = false

abbrev pub is_dead_row : Option OutboxRow → Bool
is_dead_row none = true
is_dead_row (some row) = is_dead row.status

abbrev pub is_revoked_run : Option AgentRunRow → Store → Bool
is_revoked_run none s = false
is_revoked_run (some run) s =
    is_frozen run.task_id (get run.task_id s.tasks) s || is_cancelled_run run.status

abbrev pub with_epoch : Option TaskRow → OutboxRow → OutboxRow
with_epoch none ob = ob
with_epoch (some task) ob = record ob { revoke_epoch = task.revoke_epoch }

abbrev pub task_of : Option AgentRunRow → Store → Option TaskRow
task_of none s = none
task_of (some run) s = get run.task_id s.tasks

-- The row of an acknowledgement that comes too late.
abbrev pub kill_in_flight : Option TaskRow → OutboxRow → OutboxRow
kill_in_flight task ob =
    if is_in_flight ob.status
    then with_epoch task (record ob { status = OutboxStatus.dead })
    else ob

abbrev pub stop_started : Env → ℕ → Option AgentRunRow → Option TaskRow → Store → Store
stop_started env run_id (some run) (some task) s =
    enqueue_stops_for_runs env run.task_id s.outbox (run_id ∷ []) StopReason.start_ack_fenced
      (keep_start_occupancy run_id run s)
stop_started env run_id _ _ s = s

abbrev pub promote : Env → AgentRunRow → AgentRunRow
promote env r =
    if is_created r.status
    then record r { status = AgentRunStatus.running; started_at = some env.now }
    else r

unfoldable pub ack_outbox_and_mark_running : Env → ℕ → ℕ → Store → Store
unfolding has_blocking_gate enqueue_stops_for_runs keep_start_occupancy
ack_outbox_and_mark_running env outbox_id run_id s =
    let row = get outbox_id s.outbox in
    let run = get run_id s.runs in
    let task = task_of run s in
    if is_dead_row row || is_revoked_run run s
    then stop_started env run_id run task (set_outbox outbox_id (kill_in_flight task) s)
    else set_run run_id (promote env) (set_outbox outbox_id (mark_acked env) s)

abbrev pub ack_outbox : Env → ℕ → Bool → Store → Store
ack_outbox env outbox_id dead = set_outbox outbox_id (λ ob. record ob {
  status = if dead then OutboxStatus.dead else OutboxStatus.acked;
  acked_at = some env.now;
})

-- What `_ack_stop` writes on the workspace that the run owns.
abbrev pub is_quarantined : WorkspaceState → Bool
is_quarantined WorkspaceState.quarantined = true
is_quarantined _ = false

abbrev pub settle_workspace : ℕ → Bool → WorkspaceRow → WorkspaceRow
settle_workspace run_id stopped ws =
    if is_key ws.owner_run_id run_id
    then if stopped
      then if is_quarantined ws.state
        then record ws { writer_alive = false }
        else record ws { writer_alive = false; state = WorkspaceState.ready; owner_run_id = none }
      else record ws { state = WorkspaceState.quarantined; writer_alive = true }
    else ws

-- `run.terminal_reason or payload["reason"] or ...`; a stop always carries its reason.
abbrev pub reason_or : Option StopReason → StopReason → Option StopReason
reason_or none reason = some reason
reason_or (some r) reason = some r

abbrev pub cancel_stopped : Env → StopReason → AgentRunRow → AgentRunRow
cancel_stopped env reason r = record r {
  status = AgentRunStatus.cancelled;
  finished_at = some env.now;
  terminal_reason = reason_or r.terminal_reason reason;
}

abbrev pub free_unit_as : WorkUnitStatus → WorkUnitExecutionRow → WorkUnitExecutionRow
free_unit_as held w = elim w.blocked_reason [
  | none ↦ record w { status = WorkUnitStatus.pending; active_run_id = none }
  | some _ ↦ record w { status = held; active_run_id = none }
]

-- A unit that is blocked for a reason is BLOCKED after the stop of a RUNNING run, and keeps its
-- status after that of a CREATED one.
abbrev pub free_unit : WorkUnitStatus → WorkUnitExecutionRow → WorkUnitExecutionRow
free_unit held w = if is_running_unit w.status then free_unit_as held w else w

abbrev pub finish_stopped : Env → ℕ → AgentRunRow → StopReason → WorkUnitStatus → Store → Store
finish_stopped env run_id run reason held s =
    for_some run.work_unit_id (λ w. set_work_unit w (free_unit held))
      (clear_run_occupancy run_id run true (set_run run_id (cancel_stopped env reason) s))

abbrev pub finish_if : Env → ℕ → AgentRunRow → StopReason → AgentRunStatus → Store → Store
finish_if env run_id run reason AgentRunStatus.running s =
    finish_stopped env run_id run reason WorkUnitStatus.blocked s
finish_if env run_id run reason AgentRunStatus.created s =
    finish_stopped env run_id run reason WorkUnitStatus.running s
finish_if env run_id run reason _ s = s

abbrev pub confirm_stop : Env → ℕ → AgentRunRow → StopReason → Bool → Store → Store
confirm_stop env run_id run reason false s = s
confirm_stop env run_id run reason true s =
    append_event env run.task_id EventType.exit_confirmed none
      (finish_if env run_id run reason run.status s)

abbrev pub ack_stop_run : Env → ℕ → StopReason → Bool → Option AgentRunRow → Store → Store
ack_stop_run env run_id reason stopped none s = s
ack_stop_run env run_id reason stopped (some run) s =
    confirm_stop env run_id run reason stopped
      (for_some run.workspace_id (λ w. set_workspace w (settle_workspace run_id stopped)) s)

-- `stopped`: the adapter's answer says the start is revoked, and neither process nor writer lives.
unfoldable pub ack_stop : Env → ℕ → ℕ → StopReason → Bool → Store → Store
unfolding clear_run_occupancy append_event
ack_stop env outbox_id run_id reason stopped s =
    ack_stop_run env run_id reason stopped (get run_id s.runs)
      (set_outbox outbox_id (mark_acked env) s)
