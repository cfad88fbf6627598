-- ===== src/Application/Outbox.antt =====
-- service.py: the dispatcher's transactions on the outbox. The answers of the agent adapter and of
-- the external adapter are arguments; between two transactions the dispatcher calls the adapter.
-- The table is in the order of insertion, which is the order of `created_at`.
pub mod Claim
use hibiki.Prelude.{
  ℕ, ◌+◌, Bool, true, false, not, ◌&&◌, ◌||◌, Option, none, some, List, [], ◌∷◌, Table, get, ltb,
  ◌==◌, if◌then◌else◌, is_key,
}
use hibiki.Domain.Defaults.{defaults}
use hibiki.Domain.Enums.{
  TaskState, SideEffectState, OutboxStatus, WaitingReason, AgentRunStatus, WorkspaceState,
  WorkUnitStatus,
}
use hibiki.Domain.Errors.{Result, ok, err}
use hibiki.Domain.Guards.{is_cancelling}
use hibiki.Domain.Transitions.{can_dispatch_business_run, is_terminal_task, TaskEvent}
use hibiki.Persistence.Models.{
  Store, TaskRow, SideEffectRow, OutboxRow, Command, Reason, StopReason, AgentRunRow, WorkspaceRow,
  WorkUnitExecutionRow, EventType,
}
use hibiki.Persistence.Session.{Env, M, gets, modify, pure, ◌>>=◌, ◌>>◌}
use hibiki.Application.Base.{
  set_run, set_work_unit, set_workspace, set_effect, set_outbox, set_task_state, append_event,
  has_blocking_gate, is_active_run, is_waiting_human, for_some,
}
use hibiki.Application.Effects.{
  guard_side_effect_eligibility, dispatching_or_authorized, Receipt, receipt_state,
}
use hibiki.Application.Occupancy.{clear_run_occupancy, keep_start_occupancy}
use hibiki.Application.Stops.{
  is_pending, is_in_flight, is_dispatching, is_created, is_running_unit, mark_acked, keep_if_run,
  enqueue_stops_for_runs, fence_claimed_agent_start, stop_if,
}

-- `leased_until is not None and leased_until > now`
abbrev pub is_leased : Option ℕ → ℕ → Bool
is_leased none now = false
is_leased (some t) now = ltb now t

abbrev pub first_pending : Table OutboxRow → Option (ℕ × OutboxRow)
first_pending [] = none
first_pending ((k, ob) ∷ t) = if is_pending ob.status then some (k, ob) else first_pending t

abbrev pub first_claimable : ℕ → Table OutboxRow → Option (ℕ × OutboxRow)
first_claimable now [] = none
first_claimable now ((k, ob) ∷ t) =
    if is_pending ob.status && not (is_leased ob.leased_until now)
    then some (k, ob)
    else first_claimable now t

abbrev pub pick_from : ℕ → Table OutboxRow → Option (ℕ × OutboxRow) → Option (ℕ × OutboxRow)
pick_from now rows none = none
pick_from now rows (some (k, ob)) =
    if is_leased ob.leased_until now then first_claimable now rows else some (k, ob)

-- The first PENDING row, or, if a backoff holds it, the first whose backoff is over.
unfoldable pub pick : ℕ → Table OutboxRow → Option (ℕ × OutboxRow)
pick now rows = pick_from now rows (first_pending rows)

pub record Claimed : Type 0 where
  pub outbox_id : ℕ
  pub task_id : ℕ
  pub command : Command

abbrev pub kill : ℕ → Store → Store
kill outbox_id = set_outbox outbox_id (λ ob. record ob { status = OutboxStatus.dead })

abbrev pub take_lease : Env → ℕ → OutboxRow → Store → Option Claimed × Store
take_lease env outbox_id row s = (
  some (record { outbox_id = outbox_id; task_id = row.task_id; command = row.command }),
  set_outbox outbox_id
      (λ ob. record ob { status = OutboxStatus.in_flight; leased_until = some (env.now + 30) }) s,
)

abbrev pub is_start_revoked : OutboxRow → TaskRow → Bool
is_start_revoked row task =
    ltb row.revoke_epoch task.revoke_epoch
    || task.cancel_intent
    || task.pause_intent
    || not (can_dispatch_business_run task.state)

abbrev pub claim_start : Env → ℕ → OutboxRow → Bool → Store → Option Claimed × Store
claim_start env outbox_id row true s = (none, kill outbox_id s)
claim_start env outbox_id row false s = take_lease env outbox_id row s

-- The effect of a claim that the guard refuses.
abbrev pub give_back : TaskRow → SideEffectRow → SideEffectRow
give_back task e = elim e.state [
  | SideEffectState.dispatching ↦
      if task.cancel_intent || is_cancelling task.state
      then record e { state = SideEffectState.cancelled }
      else record e { state = SideEffectState.authorized }
  | SideEffectState.authorized ↦
      if task.cancel_intent || is_cancelling task.state
      then record e { state = SideEffectState.cancelled }
      else e
  | _ ↦ e
]

-- The effect of a claim of an old revoke epoch.
abbrev pub give_back_stale : TaskRow → SideEffectRow → SideEffectRow
give_back_stale task e =
    if is_dispatching e.state
    then record e {
      state = if task.cancel_intent then SideEffectState.cancelled else SideEffectState.authorized;
    }
    else e

abbrev pub begin_dispatch : SideEffectRow → SideEffectRow
begin_dispatch e = elim e.state [
  | SideEffectState.authorized ↦ record e { state = SideEffectState.dispatching }
  | _ ↦ e
]

abbrev pub claim_current : Env → ℕ → OutboxRow → TaskRow → ℕ → Bool → Store → Option Claimed × Store
claim_current env outbox_id row task effect_id true s =
    (none, set_effect effect_id (give_back_stale task) (kill outbox_id s))
claim_current env outbox_id row task effect_id false s =
    take_lease env outbox_id row (set_effect effect_id begin_dispatch s)

-- Every error of the guard is a PreconditionError, which the claim catches.
abbrev pub claim_guarded :
    Env → ℕ → OutboxRow → TaskRow → ℕ → Result (Unit {0}) → Store → Option Claimed × Store
claim_guarded env outbox_id row task effect_id (err _) s =
    (none, set_effect effect_id (give_back task) (kill outbox_id s))
claim_guarded env outbox_id row task effect_id (ok _) s =
    claim_current env outbox_id row task effect_id (ltb row.revoke_epoch task.revoke_epoch) s

unfoldable pub claim_effect :
    Env → ℕ → OutboxRow → TaskRow → ℕ → Option SideEffectRow → Store → Option Claimed × Store
unfolding guard_side_effect_eligibility
claim_effect env outbox_id row task effect_id none s = (none, kill outbox_id s)
claim_effect env outbox_id row task effect_id (some effect) s =
    claim_guarded env outbox_id row task effect_id
      (guard_side_effect_eligibility env row.task_id task effect dispatching_or_authorized s) s

abbrev pub claim_command : Env → ℕ → OutboxRow → TaskRow → Command → Store → Option Claimed × Store
claim_command env outbox_id row task (Command.agent_start _) s =
    claim_start env outbox_id row (is_start_revoked row task) s
claim_command env outbox_id row task (Command.side_effect_dispatch effect_id) s =
    claim_effect env outbox_id row task effect_id (get effect_id s.side_effects) s
claim_command env outbox_id row task _ s = take_lease env outbox_id row s

abbrev pub claim_for : Env → ℕ → OutboxRow → Option TaskRow → Store → Option Claimed × Store
claim_for env outbox_id row none s = take_lease env outbox_id row s
claim_for env outbox_id row (some task) s = claim_command env outbox_id row task row.command s

abbrev pub claim_row : Env → Option (ℕ × OutboxRow) → Store → Option Claimed × Store
claim_row env none s = (none, s)
claim_row env (some (k, row)) s = claim_for env k row (get row.task_id s.tasks) s

unfoldable pub claim_one_outbox : Env → Store → Option Claimed × Store
unfolding pick claim_effect
claim_one_outbox env s = claim_row env (pick env.now s.outbox) s
