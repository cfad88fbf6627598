-- ===== src/Domain/Guards/Laws.antt =====
-- What a request that passes the guards of domain/guards.py is known to satisfy, and back.
use hibiki.Prelude.{ℕ, ◌≡◌, ◌↔◌, ◌⊎◌, Bool, true, false, not, ◌||◌, none, some, arith}
use hibiki.Domain.Enums.{ActorType, TaskState}
use hibiki.Domain.Errors.{ok}
use hibiki.Domain.Transitions.{can_dispatch_business_run, is_terminal_task}
use hibiki.Domain.Types.{AuthContext, Scope}
use hibiki.Domain.Guards.{
  Operation, in_human_only_ops, in_interrupt_ops, in_internal_only_ops, in_exit_confirm_ops,
  in_human_task_orchestration_ops, in_planner_bound_ops, guard_operation, guard_dispatch,
  guard_side_effect_send, SendRequest, is_cancelling, is_pausing_or_paused,
}

-- The operations that no set of guards.py names: every actor may send them.
abbrev pub is_open_operation : Operation → Bool
is_open_operation operation = not (
    in_human_only_ops operation
    || in_human_task_orchestration_ops operation
    || in_interrupt_ops operation
    || in_internal_only_ops operation
    || in_exit_confirm_ops operation
    || in_planner_bound_ops operation)

-- A User Agent passes the operation guard only with an operation that is open to everybody, or
-- with an interrupt for which it holds the scope task:interrupt.
pub user_agent_reach :
    (auth : AuthContext) (operation : Operation)
    → auth.actor_type ≡ ActorType.user_agent
    → (guard_operation auth operation ≡ ok tt) ↔ (
        (is_open_operation operation ≡ true)
        ⊎ (in_interrupt_ops operation ≡ true) × (auth.scopes Scope.task_interrupt ≡ true))
unfolding guard_operation
user_agent_reach auth operation h = (λ p. ground arith, λ p. ground arith)

-- An operation that is reserved to Humans passes the guard only for a Human, and one that is reserved
-- to the runtime only for an Internal credential.
pub reserved_operations :
    (auth : AuthContext) (operation : Operation)
    → guard_operation auth operation ≡ ok tt
    → (((in_human_only_ops operation || in_human_task_orchestration_ops operation) ≡ false)
        ⊎ (auth.actor_type ≡ ActorType.human))
      × ((in_internal_only_ops operation ≡ false) ⊎ (auth.actor_type ≡ ActorType.internal))
unfolding guard_operation
reserved_operations auth operation h = (ground arith, ground arith)

-- A run may be dispatched exactly when the task is PLANNING, EXECUTING or VERIFYING, has an ACTIVE
-- contract and no blocking gate, and neither a cancel nor a pause is intended.
pub guard_dispatch_iff :
    (s : TaskState) (contract gate cancel pause : Bool)
    → (guard_dispatch s contract gate cancel pause ≡ ok tt) ↔ (
        (can_dispatch_business_run s ≡ true)
        × (contract ≡ true)
        × (gate ≡ false)
        × (cancel ≡ false)
        × (pause ≡ false))
unfolding guard_dispatch
guard_dispatch_iff s contract gate cancel pause = (λ h. ground arith, λ h. ground arith)

-- A side effect may be sent exactly when nothing freezes the task, the approval has not expired, the
-- effect is in an allowed state, and it was authorized under the version that is ACTIVE (or under
-- none).
pub guard_side_effect_send_iff :
    (r : SendRequest) (v : ℕ)
    → r.active_contract_version ≡ some v
    → (guard_side_effect_send r ≡ ok tt) ↔ (
        (r.cancel_intent ≡ false)
        × (r.pause_intent ≡ false)
        × (is_cancelling r.task_state ≡ false)
        × (is_pausing_or_paused r.task_state ≡ false)
        × (is_terminal_task r.task_state ≡ false)
        × (r.has_blocking_gate ≡ false)
        × (r.has_active_contract ≡ true)
        × ((r.effect_contract_version ≡ none) ⊎ (r.effect_contract_version ≡ some v))
        × (r.approval_expired ≡ false)
        × (r.allowed_states r.effect_state ≡ true))
unfolding guard_side_effect_send
guard_side_effect_send_iff r v e = (λ h. ground arith, λ h. ground arith)
