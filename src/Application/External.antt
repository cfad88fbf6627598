-- ===== src/Application/External.antt =====
-- service.py: the dispatch of a side effect to the external adapter, and a failed dispatch. The
-- adapter's receipt is an argument.
pub mod Laws
pub mod Uncertain
use hibiki.Prelude.{
  ℕ, ◌+◌, Bool, true, false, not, ◌&&◌, ◌||◌, Option, none, some, List, [], ◌∷◌, get, ◌==◌,
  if◌then◌else◌,
}
use hibiki.Domain.Enums.{TaskState, SideEffectState, OutboxStatus, WaitingReason}
use hibiki.Domain.Defaults.{defaults}
use hibiki.Domain.Errors.{Result, ok, err}
use hibiki.Domain.Guards.{is_cancelling}
use hibiki.Domain.Transitions.{is_terminal_task, TaskEvent}
use hibiki.Persistence.Models.{
  Store, TaskRow, SideEffectRow, OutboxRow, Command, Reason, StopReason,
}
use hibiki.Persistence.Session.{Env, M, gets, modify, pure, ◌>>=◌, ◌>>◌}
use hibiki.Application.Base.{set_effect, set_outbox, set_task_state, is_waiting_human}
use hibiki.Application.Effects.{
  guard_side_effect_eligibility, Receipt, receipt_state, dispatching_or_authorized,
}
use hibiki.Application.Sending.{is_dead}
use hibiki.Application.Stops.{is_dispatching, mark_acked, fence_claimed_agent_start}

abbrev pub only_dispatching : SideEffectState → Bool
only_dispatching SideEffectState.dispatching = true
only_dispatching _ = false

-- The effect of a send that the guard refuses.
abbrev pub hold_back : TaskRow → SideEffectRow → SideEffectRow
hold_back task e =
    if is_dispatching e.state
    then record e {
      state =
          if task.cancel_intent || is_cancelling task.state
          then SideEffectState.cancelled
          else SideEffectState.authorized;
    }
    else e

abbrev pub kill_row : ℕ → Store → Store
kill_row outbox_id = set_outbox outbox_id (λ ob. record ob { status = OutboxStatus.dead })

-- Every error of the guard is a PreconditionError, which the transaction catches.
abbrev pub send_if : ℕ → ℕ → TaskRow → Result (Unit {0}) → Store → Bool × Store
send_if outbox_id effect_id task (ok _) s = (true, s)
send_if outbox_id effect_id task (err _) s =
    (false, set_effect effect_id (hold_back task) (kill_row outbox_id s))

-- The task of the claimed item, or else that of the effect, with its key.
abbrev pub owner_of : ℕ → SideEffectRow → Store → Option (ℕ × TaskRow)
owner_of task_id effect s = elim (get task_id s.tasks) [
  | some task ↦ some (task_id, task)
  | none ↦ elim (get effect.task_id s.tasks) [
    | some task ↦ some (effect.task_id, task)
    | none ↦ none
  ]
]

abbrev pub precheck_owned :
    Env → ℕ → ℕ → SideEffectRow → Option (ℕ × TaskRow) → Bool → Store → Bool × Store
precheck_owned env outbox_id effect_id effect none dead s = (false, kill_row outbox_id s)
precheck_owned env outbox_id effect_id effect (some _) true s = (false, kill_row outbox_id s)
precheck_owned env outbox_id effect_id effect (some (task_id, task)) false s =
    send_if outbox_id effect_id task
      (guard_side_effect_eligibility env task_id task effect only_dispatching s) s

abbrev pub precheck_rows :
    Env → ℕ → ℕ → ℕ → Option OutboxRow → Option SideEffectRow → Store → Bool × Store
precheck_rows env outbox_id task_id effect_id (some row) (some effect) s =
    precheck_owned env outbox_id effect_id effect (owner_of task_id effect s) (is_dead row.status) s
precheck_rows env outbox_id task_id effect_id _ _ s = (false, s)

-- `_precheck` of `_do_external_dispatch`.
unfoldable pub precheck : Env → ℕ → ℕ → ℕ → Store → Bool × Store
unfolding guard_side_effect_eligibility
precheck env outbox_id task_id effect_id s =
    precheck_rows env outbox_id task_id effect_id (get outbox_id s.outbox)
      (get effect_id s.side_effects) s

-- `if task and not is_terminal_task(...): if task.state != WAITING_HUMAN: ...`
abbrev pub block_task : Env → ℕ → Option TaskRow → WaitingReason → M (Unit {0})
block_task env task_id none reason = pure tt
block_task env task_id (some task) reason =
    elim (is_terminal_task task.state || is_waiting_human task.state) [
      | true ↦ pure tt
      | false ↦
          set_task_state env task_id TaskEvent.blocking_gate_opened (some (Reason.waiting reason))
    ]

abbrev pub block_owner : Env → SideEffectRow → M (Unit {0})
block_owner env effect = do
  task ← gets (λ s. get effect.task_id s.tasks)
  block_task env effect.task_id task WaitingReason.execution_uncertain

abbrev pub apply_to_effect : Env → ℕ → Receipt → Option SideEffectRow → M (Unit {0})
apply_to_effect env effect_id receipt none = pure tt
apply_to_effect env effect_id Receipt.unclear (some effect) = do
  modify (set_effect effect_id (λ e. record e { state = SideEffectState.unknown }))
  block_owner env effect
apply_to_effect env effect_id receipt (some effect) =
    modify (set_effect effect_id (λ e. record e { state = receipt_state receipt }))

-- `_apply` of `_do_external_dispatch`.
unfoldable pub apply_receipt : Env → ℕ → ℕ → Receipt → M (Unit {0})
unfolding set_task_state
apply_receipt env outbox_id effect_id receipt = do
  modify (set_outbox outbox_id (mark_acked env))
  effect ← gets (λ s. get effect_id s.side_effects)
  apply_to_effect env effect_id receipt effect

abbrev pub fail_effect : Env → ℕ → Option SideEffectRow → M (Unit {0})
fail_effect env effect_id none = pure tt
fail_effect env effect_id (some effect) = elim (dispatching_or_authorized effect.state) [
  | false ↦ pure tt
  | true ↦ do
    modify (set_effect effect_id (λ e. record e { state = SideEffectState.unknown }))
    block_owner env effect
]

abbrev pub head_or : ℕ → List ℕ → ℕ
head_or d [] = d
head_or d (x ∷ _) = x

abbrev pub back_off : Env → OutboxRow → OutboxRow
back_off env ob = record ob {
  status = OutboxStatus.pending;
  leased_until = some (env.now + head_or 0 defaults.retry_backoff_seconds);
}

abbrev pub fail_command : Env → ℕ → OutboxRow → Command → M (Unit {0})
fail_command env outbox_id row (Command.side_effect_dispatch effect_id) = do
  effect ← gets (λ s. get effect_id s.side_effects)
  fail_effect env effect_id effect
  modify (set_outbox outbox_id (mark_acked env))
fail_command env outbox_id row (Command.agent_start run_id) = modify (λ s. elim row.status [
  | OutboxStatus.dead ↦ s
  | _ ↦
      fence_claimed_agent_start env outbox_id row.task_id run_id StopReason.start_dispatch_failed s
])
fail_command env outbox_id row _ =
    modify
      (λ s. elim row.status [ OutboxStatus.dead ↦ s | _ ↦ set_outbox outbox_id (back_off env) s ])

abbrev pub fail_row : Env → ℕ → Option OutboxRow → M (Unit {0})
fail_row env outbox_id none = pure tt
fail_row env outbox_id (some row) = fail_command env outbox_id row row.command

unfoldable pub fail_outbox : Env → ℕ → M (Unit {0})
unfolding set_task_state fence_claimed_agent_start
fail_outbox env outbox_id = do row ← gets (λ s. get outbox_id s.outbox); fail_row env outbox_id row
