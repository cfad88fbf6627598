-- ===== src/Application/Stops.antt =====
-- service.py: stop commands, and the revocation of starts and dispatches that were not sent.
pub mod Frame
pub mod Kept
pub mod Revoke
use hibiki.Prelude.{
  ℕ, suc, Bool, true, false, not, ◌&&◌, ◌||◌, Option, none, some, List, [], ◌∷◌, ◌++◌, foldl, Table,
  get, add, any_row, select, keys, ◌==◌, if◌then◌else◌,
}
use hibiki.Domain.Enums.{AgentRunStatus, OutboxStatus, SideEffectState, WorkUnitStatus}
use hibiki.Persistence.Models.{
  Store, TaskRow, AgentRunRow, OutboxRow, Command, StopReason, WorkUnitExecutionRow, SideEffectRow,
}
use hibiki.Persistence.Session.{Env}
use hibiki.Application.Base.{
  set_run, set_work_unit, set_effect, set_outbox, for_some, get_some, is_active_run,
  adapter_may_be_alive, owns, writer_flag,
}
use hibiki.Application.Occupancy.{clear_run_occupancy, keep_start_occupancy}

abbrev pub is_unsettled : OutboxStatus → Bool
is_unsettled OutboxStatus.pending = true
is_unsettled OutboxStatus.in_flight = true
is_unsettled _ = false

abbrev pub is_in_flight : OutboxStatus → Bool
is_in_flight OutboxStatus.in_flight = true
is_in_flight _ = false

abbrev pub is_pending : OutboxStatus → Bool
is_pending OutboxStatus.pending = true
is_pending _ = false

abbrev pub stops_run : ℕ → Command → Bool
stops_run run_id (Command.agent_stop r _) = r == run_id
stops_run run_id _ = false

-- `session.add(OutboxRow(...))`, with a fresh identifier.
abbrev pub add_outbox : Env → ℕ → ℕ → Command → Store → Store
add_outbox env task_id revoke_epoch command s = record s {
  outbox =
      add (env.new_id s.drawn)
        (record {
          task_id = task_id;
          command = command;
          status = OutboxStatus.pending;
          revoke_epoch = revoke_epoch;
          leased_until = none;
          acked_at = none;
        })
        s.outbox;
  drawn = suc s.drawn;
}

abbrev pub has_pending_stop : ℕ → Table OutboxRow → ℕ → Bool
has_pending_stop task_id rows run_id =
    any_row (λ ob. ob.task_id == task_id && stops_run run_id ob.command && is_unsettled ob.status)
      rows

abbrev pub epoch_of : Option TaskRow → ℕ
epoch_of none = 0
epoch_of (some task) = task.revoke_epoch

-- The stops that are pending are read once, before the loop, and from the rows that were last
-- flushed: the session does not flush before a query, so a stop that the same transaction has just
-- added is not among them.
unfoldable pub enqueue_stops_for_runs :
    Env → ℕ → Table OutboxRow → List ℕ → StopReason → Store → Store
enqueue_stops_for_runs env task_id flushed run_ids reason s =
    foldl
      (λ t run_id.
        if has_pending_stop task_id flushed run_id
        then t
        else add_outbox env task_id (epoch_of (get task_id s.tasks))
            (Command.agent_stop run_id reason) t)
      s run_ids

-- A run that is not terminal, or that owns a workspace with a writer that may be alive.
abbrev pub requires_stop : Env → ℕ → Store → ℕ → AgentRunRow → Bool
requires_stop env task_id s run_id run =
    let ws = get_some run.workspace_id s.workspaces in
    run.task_id == task_id
    && (is_active_run run.status
        || (owns ws run_id && (adapter_may_be_alive env run_id || writer_flag ws)))

unfoldable pub runs_requiring_stop : Env → ℕ → Store → List ℕ
unfolding adapter_may_be_alive
runs_requiring_stop env task_id s = keys (select (requires_stop env task_id s) s.runs)

unfoldable pub enqueue_stops : Env → ℕ → Table OutboxRow → StopReason → Store → Store
unfolding enqueue_stops_for_runs runs_requiring_stop
enqueue_stops env task_id flushed reason s =
    enqueue_stops_for_runs env task_id flushed (runs_requiring_stop env task_id s) reason s

abbrev pub keep_if_run : ℕ → Option AgentRunRow → Store → Store
keep_if_run run_id none s = s
keep_if_run run_id (some run) s = keep_start_occupancy run_id run s

abbrev pub stop_if : Env → ℕ → ℕ → Option TaskRow → Option AgentRunRow → StopReason → Store → Store
stop_if env task_id run_id (some _) (some _) reason s =
    enqueue_stops_for_runs env task_id s.outbox (run_id ∷ []) reason s
stop_if env task_id run_id _ _ reason s = s

abbrev pub revoke_row : Option TaskRow → OutboxRow → OutboxRow
revoke_row none ob = record ob { status = OutboxStatus.dead; leased_until = none }
revoke_row (some task) ob = record ob {
  status = OutboxStatus.dead;
  leased_until = none;
  revoke_epoch = task.revoke_epoch;
}

-- `_fence_claimed_agent_start`, for a row of the given task that starts the given run.
unfoldable pub fence_claimed_agent_start : Env → ℕ → ℕ → ℕ → StopReason → Store → Store
unfolding keep_start_occupancy enqueue_stops_for_runs
fence_claimed_agent_start env outbox_id task_id run_id reason s =
    let task = get task_id s.tasks in
    let run = get run_id s.runs in
    let s1 = set_outbox outbox_id (revoke_row task) s in
    stop_if env task_id run_id task run reason (keep_if_run run_id run s1)

abbrev pub is_dispatching : SideEffectState → Bool
is_dispatching SideEffectState.dispatching = true
is_dispatching _ = false

-- `if effect and effect.state == DISPATCHING: effect.state = ...`
abbrev pub settle_dispatching : SideEffectState → SideEffectRow → SideEffectRow
settle_dispatching next e = if is_dispatching e.state then record e { state = next } else e

abbrev pub is_created : AgentRunStatus → Bool
is_created AgentRunStatus.created = true
is_created _ = false

abbrev pub is_running_unit : WorkUnitStatus → Bool
is_running_unit WorkUnitStatus.running = true
is_running_unit _ = false

abbrev pub requeue_unit : WorkUnitExecutionRow → WorkUnitExecutionRow
requeue_unit w =
    if is_running_unit w.status
    then record w { status = WorkUnitStatus.pending; blocked_reason = none; active_run_id = none }
    else w

abbrev pub cancel_unsent : Env → ℕ → AgentRunRow → Store → Store
cancel_unsent env run_id run s =
    for_some run.work_unit_id (λ w. set_work_unit w requeue_unit)
      (clear_run_occupancy run_id run true (
        set_run run_id
          (λ r. record r {
            status = AgentRunStatus.cancelled;
            finished_at = some env.now;
            terminal_reason = some StopReason.start_revoked;
          })
          s))

-- A run whose start was certainly not sent is cancelled, and its work unit is free again.
abbrev pub revoke_unsent : Env → ℕ → Option AgentRunRow → Store → Store
revoke_unsent env run_id none s = s
revoke_unsent env run_id (some run) s =
    if is_created run.status then cancel_unsent env run_id run s else s

abbrev pub mark_dead : TaskRow → OutboxRow → OutboxRow
mark_dead task ob = record ob { status = OutboxStatus.dead; revoke_epoch = task.revoke_epoch }

abbrev pub mark_acked : Env → OutboxRow → OutboxRow
mark_acked env ob = record ob { status = OutboxStatus.acked; acked_at = some env.now }

-- One row of the loop of `_invalidate_pending_outbox`, on the database and the runs whose start may
-- have been sent. A row with another command is not selected by the query.
unfoldable pub invalidate_one : Env → TaskRow → Store × List ℕ → ℕ × OutboxRow → Store × List ℕ
unfolding clear_run_occupancy keep_start_occupancy adapter_may_be_alive
invalidate_one env task (s, inflight) (outbox_id, ob) = elim ob.command [
  | Command.side_effect_dispatch effect_id ↦
      if is_in_flight ob.status
      then (
        set_outbox outbox_id (mark_acked env)
            (set_effect effect_id (settle_dispatching SideEffectState.unknown) s),
        inflight,
      )
      else (
        set_effect effect_id
            (settle_dispatching (
              if task.cancel_intent then SideEffectState.cancelled else SideEffectState.authorized))
            (set_outbox outbox_id (mark_dead task) s),
        inflight,
      )
  | Command.agent_start run_id ↦
      let s1 = set_outbox outbox_id (mark_dead task) s in
      if is_in_flight ob.status || adapter_may_be_alive env run_id
      then (keep_if_run run_id (get run_id s.runs) s1, inflight ++ (run_id ∷ []))
      else (revoke_unsent env run_id (get run_id s.runs) s1, inflight)
  | Command.agent_stop _ _ ↦ (s, inflight)
  | Command.unknown _ ↦ (s, inflight)
]

abbrev pub is_start_or_dispatch : Command → Bool
is_start_or_dispatch (Command.agent_start _) = true
is_start_or_dispatch (Command.side_effect_dispatch _) = true
is_start_or_dispatch _ = false

-- The query of `_invalidate_pending_outbox`.
abbrev pub is_revocable : ℕ → ℕ → OutboxRow → Bool
is_revocable task_id _ ob =
    ob.task_id == task_id && is_unsettled ob.status && is_start_or_dispatch ob.command

abbrev pub stop_inflight : Env → ℕ → Table OutboxRow → Store × List ℕ → Store
stop_inflight env task_id flushed (s, run_ids) =
    enqueue_stops_for_runs env task_id flushed run_ids StopReason.start_inflight_revoked s

-- `task` is the row as it stands when the handler calls, and the outbox is as it was flushed.
abbrev pub invalidate_for : Env → ℕ → Option TaskRow → Store → Store
invalidate_for env task_id none s = s
invalidate_for env task_id (some task) s =
    stop_inflight env task_id s.outbox
      (foldl (invalidate_one env task) (s, []) (select (is_revocable task_id) s.outbox))

unfoldable pub invalidate_pending_outbox : Env → ℕ → Store → Store
unfolding invalidate_one enqueue_stops_for_runs
invalidate_pending_outbox env task_id s = invalidate_for env task_id (get task_id s.tasks) s
