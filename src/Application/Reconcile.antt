-- ===== src/Application/Reconcile.antt =====
-- service.py: startup reconciliation of the outbox and of the runs.
pub mod Laws
use hibiki.Prelude.{
  ℕ, zero, suc, ◌+◌, ◌-◌, Bool, true, false, not, ◌&&◌, ◌||◌, Option, none, some, List, [], ◌∷◌,
  Table, get, select, any_row, map_rows, ltb, leb, ◌==◌, is_some, if◌then◌else◌,
}
use hibiki.Domain.Defaults.{defaults}
use hibiki.Domain.Enums.{
  TaskState, SideEffectState, OutboxStatus, WaitingReason, AgentRunStatus, WorkspaceState,
  WorkUnitStatus,
}
use hibiki.Domain.Execution.{Tool}
use hibiki.Domain.Transitions.{TaskEvent, WorkUnitEvent, transition_work_unit, is_terminal_task}
use hibiki.Persistence.Models.{
  Store, TaskRow, AgentRunRow, WorkspaceRow, WorkUnitExecutionRow, SideEffectRow, OutboxRow,
  Command, Reason, StopReason, EventType, ToolInvocationRow,
}
use hibiki.Persistence.Session.{Env, M, gets, modify, lift, pure, ◌>>=◌, ◌>>◌}
use hibiki.Application.Base.{
  set_run, set_work_unit, set_workspace, set_effect, set_outbox, set_task_state, append_event,
  has_blocking_gate, is_active_run, is_waiting_human, for_some,
}
use hibiki.Application.Effects.{dispatching_or_unknown}
use hibiki.Application.External.{block_task, block_owner}
use hibiki.Application.Occupancy.{clear_run_occupancy}
use hibiki.Application.Outbox.{is_leased}
use hibiki.Application.Stops.{is_in_flight, is_running_unit, mark_acked, fence_claimed_agent_start}
use hibiki.Application.Recovery.{
  Recovery, lost_run_recovery_policy, may_have_effect, in_runs, had_effect, nth_or_last,
  retry_backoff, block_unit, retry_unit, give_up, try_again, recover_as, recover_unit, recover_for,
  recover_work_unit_after_lost_run, is_blocked_unit, stays_blocked, clear_unit, leave_waiting,
  recompute_runnable_state,
}

abbrev pub reclaim : OutboxRow → OutboxRow
reclaim ob = record ob { status = OutboxStatus.pending; leased_until = none }

abbrev pub doubt_effect : Env → ℕ → Option SideEffectRow → M (Unit {0})
doubt_effect env effect_id none = pure tt
doubt_effect env effect_id (some effect) = elim (dispatching_or_unknown effect.state) [
  | false ↦ pure tt
  | true ↦ do
    modify (set_effect effect_id (λ e. record e { state = SideEffectState.unknown }))
    block_owner env effect
]

abbrev pub reconcile_command : Env → ℕ → OutboxRow → Command → M (Unit {0})
reconcile_command env outbox_id row (Command.side_effect_dispatch effect_id) = do
  effect ← gets (λ s. get effect_id s.side_effects)
  doubt_effect env effect_id effect
  modify (set_outbox outbox_id (mark_acked env))
reconcile_command env outbox_id row (Command.agent_start run_id) =
    modify (
      fence_claimed_agent_start env outbox_id row.task_id run_id StopReason.outbox_inflight_timeout)
reconcile_command env outbox_id row _ = modify (set_outbox outbox_id reclaim)

-- One IN_FLIGHT row: a lease that has not run out is left alone.
unfoldable pub reconcile_row : Env → ℕ → OutboxRow → M (Unit {0})
unfolding set_task_state fence_claimed_agent_start
reconcile_row env outbox_id row = elim (is_leased row.leased_until env.now) [
  | true ↦ pure tt
  | false ↦ reconcile_command env outbox_id row row.command
]

abbrev pub for_each {ℓ} : {V : Type ℓ} → (ℕ → V → M (Unit {0})) → Table V → M (Unit {0})
for_each step [] = pure tt
for_each step ((k, v) ∷ rows) = do step k v; for_each step rows

abbrev pub lose_run : Env → AgentRunRow → AgentRunRow
lose_run env r = record r {
  status = AgentRunStatus.lost;
  terminal_reason = some StopReason.process_missing;
  finished_at = some env.now;
}

abbrev pub hold_unconfirmed : WorkspaceRow → WorkspaceRow
hold_unconfirmed ws = record ws { state = WorkspaceState.quarantined; writer_alive = true }

abbrev pub quarantine : WorkspaceRow → WorkspaceRow
quarantine ws = record ws { state = WorkspaceState.quarantined }

abbrev pub declare_lost : Env → ℕ → ℕ → AgentRunRow → M (Unit {0})
declare_lost env task_id run_id run = do
  modify (set_run run_id (lose_run env))
  modify (clear_run_occupancy run_id run true)
  recover_work_unit_after_lost_run env run_id run
  modify (append_event env task_id EventType.run_lost none)

abbrev pub is_overdue : Option ℕ → ℕ → Bool
is_overdue none now = false
is_overdue (some lease) now = ltb lease now

abbrev pub check_lease : Env → AgentRunRow → M (Unit {0})
check_lease env run = elim (is_overdue run.lease_expires_at env.now) [
  | true ↦ modify (for_some run.workspace_id (λ ws. set_workspace ws quarantine))
  | false ↦ pure tt
]

-- `_sandbox_container_alive` is true for an unconfirmed exit, and asks about a container that is
-- known.
abbrev pub sandbox_may_run : Env → ℕ → AgentRunRow → Bool
sandbox_may_run env run_id run =
    run.sandbox_exit_unconfirmed || is_some run.sandbox_container_id && env.container_alive run_id

-- A CREATED run is left alone, and so is a RUNNING one that is alive under its lease.
abbrev pub inspect_run : Env → ℕ → ℕ → AgentRunRow → AgentRunStatus → Bool → M (Unit {0})
inspect_run env task_id run_id run AgentRunStatus.running false =
    declare_lost env task_id run_id run
inspect_run env task_id run_id run AgentRunStatus.running true = check_lease env run
inspect_run env task_id run_id run _ _ = pure tt

unfoldable pub reconcile_run : Env → ℕ → ℕ → AgentRunRow → M (Unit {0})
unfolding clear_run_occupancy recover_work_unit_after_lost_run append_event
reconcile_run env task_id run_id run = elim (sandbox_may_run env run_id run) [
  | true ↦ modify (for_some run.workspace_id (λ ws. set_workspace ws hold_unconfirmed))
  | false ↦ inspect_run env task_id run_id run run.status (env.inspect run_id).alive
]

abbrev pub is_kept : TaskState → Bool
is_kept TaskState.paused = true
is_kept TaskState.waiting_human = true
is_kept TaskState.cancelling = true
is_kept _ = false

abbrev pub reconcile_task : Env → ℕ → TaskRow → M (Unit {0})
reconcile_task env task_id task = elim (is_kept task.state) [
  | true ↦ pure tt
  | false ↦ do
    runs ← gets (λ s. select (λ _ r. r.task_id == task_id && is_active_run r.status) s.runs)
    for_each (reconcile_run env task_id) runs
]

unfoldable pub reconcile : Env → M (Unit {0})
unfolding reconcile_row reconcile_run
reconcile env = do
  rows ← gets (λ s. select (λ _ ob. is_in_flight ob.status) s.outbox)
  for_each (reconcile_row env) rows
  tasks ← gets (λ s. s.tasks)
  for_each (reconcile_task env) tasks
