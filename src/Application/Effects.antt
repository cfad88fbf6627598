-- ===== src/Application/Effects.antt =====
-- service.py: external side effects, from the proposal to the receipt. The digest of a request and
-- the answers of the external adapter are arguments.
pub mod Eligible
pub mod Dispatch
use hibiki.Prelude.{
  ℕ, suc, ◌+◌, ◌*◌, Bool, true, false, not, ◌&&◌, ◌||◌, Option, none, some, List, [], ◌∷◌, Table,
  get, add, ltb, ◌==◌, if◌then◌else◌,
}
use hibiki.Domain.Defaults.{defaults}
use hibiki.Domain.Enums.{
  TaskState, SideEffectState, DecisionKind, DecisionStatus, GateLifecycle, WaitingReason,
}
use hibiki.Domain.Errors.{Result, ErrorClass, Code}
use hibiki.Domain.Guards.{SendRequest, guard_side_effect_send}
use hibiki.Domain.Transitions.{TaskEvent, SideEffectEvent, transition_side_effect}
use hibiki.Domain.Types.{AuthContext}
use hibiki.Persistence.Models.{
  Store, TaskRow, ContractRow, SideEffectRow, Command, Reason, EventType,
}
use hibiki.Persistence.Session.{
  Env, M, gets, modify, lift, require, fail_if, pure, ◌>>=◌, ◌>>◌, CommandResult, success,
}
use hibiki.Application.Base.{
  set_effect, get_task, append_event, set_task_state, has_blocking_gate, active_contract,
}
use hibiki.Application.Stops.{add_outbox, settle_dispatching}

-- `effect.expires_at and effect.expires_at < now`
abbrev pub is_expired : Option ℕ → ℕ → Bool
is_expired none now = false
is_expired (some t) now = ltb t now

abbrev pub version_of : Option ContractRow → Option ℕ
version_of none = none
version_of (some c) = some c.contract_version

abbrev pub has_contract : Option ContractRow → Bool
has_contract none = false
has_contract (some _) = true

-- The arguments of the guard, read from the database.
abbrev pub send_request :
    Env → ℕ → TaskRow → SideEffectRow → (SideEffectState → Bool) → Store → SendRequest
send_request env task_id task effect allowed s =
    let contract = active_contract task_id s in
    record {
      task_state = task.state;
      cancel_intent = task.cancel_intent;
      pause_intent = task.pause_intent;
      has_blocking_gate = has_blocking_gate task_id s;
      has_active_contract = has_contract contract;
      effect_contract_version = some effect.contract_version;
      active_contract_version = version_of contract;
      approval_expired = is_expired effect.expires_at env.now;
      effect_state = effect.state;
      allowed_states = allowed;
    }

unfoldable pub guard_side_effect_eligibility :
    Env → ℕ → TaskRow → SideEffectRow → (SideEffectState → Bool) → Store → Result (Unit {0})
unfolding guard_side_effect_send has_blocking_gate active_contract
guard_side_effect_eligibility env task_id task effect allowed s =
    guard_side_effect_send (send_request env task_id task effect allowed s)

abbrev pub only_authorized : SideEffectState → Bool
only_authorized SideEffectState.authorized = true
only_authorized _ = false

abbrev pub dispatching_or_authorized : SideEffectState → Bool
dispatching_or_authorized SideEffectState.dispatching = true
dispatching_or_authorized SideEffectState.authorized = true
dispatching_or_authorized _ = false

abbrev pub dispatching_or_unknown : SideEffectState → Bool
dispatching_or_unknown SideEffectState.dispatching = true
dispatching_or_unknown SideEffectState.unknown = true
dispatching_or_unknown _ = false

pub record EffectReply : Type 0 where
  pub effect_id : ℕ
  pub state : SideEffectState

unfoldable pub get_effect : ℕ → M SideEffectRow
get_effect effect_id = do
  row ← gets (λ s. get effect_id s.side_effects)
  require row ErrorClass.not_found Code.not_found

unfoldable pub reply_effect : ℕ → M (CommandResult EffectReply)
unfolding get_effect
reply_effect effect_id = do
  effect ← get_effect effect_id
  pure (success (record { effect_id = effect_id; state = effect.state }))

unfoldable pub dispatch_side_effect : Env → AuthContext → ℕ → M (CommandResult EffectReply)
unfolding get_task get_effect append_event reply_effect guard_side_effect_eligibility
dispatch_side_effect env auth effect_id = do
  effect ← get_effect effect_id
  task ← get_task effect.task_id
  verdict ← gets (guard_side_effect_eligibility env effect.task_id task effect only_authorized)
  lift verdict
  claimed ← lift (transition_side_effect effect.state SideEffectEvent.claim_dispatch)
  modify (
      set_effect effect_id
        (λ e. record e { state = claimed; dispatch_attempts = e.dispatch_attempts + 1 }))
  modify (append_event env effect.task_id EventType.side_effect_dispatching (some auth.actor_id))
  modify (add_outbox env effect.task_id task.revoke_epoch (Command.side_effect_dispatch effect_id))
  reply_effect effect_id

-- The states in which `_reconcile_side_effect` leaves the task alone.
abbrev pub needs_no_gate : TaskState → Bool
needs_no_gate TaskState.waiting_human = true
needs_no_gate TaskState.cancelling = true
needs_no_gate TaskState.aborted = true
needs_no_gate _ = false

abbrev pub open_uncertain : Env → ℕ → Bool → M (Unit {0})
open_uncertain env task_id true = pure tt
open_uncertain env task_id false =
    set_task_state env task_id TaskEvent.blocking_gate_opened
      (some (Reason.waiting WaitingReason.execution_uncertain))

-- The status of a query or a receipt of the external adapter; None and any other are `unclear`.
pub data Receipt : Type 0 where
  succeeded failed unclear : Receipt

abbrev pub receipt_state : Receipt → SideEffectState
receipt_state Receipt.succeeded = SideEffectState.succeeded
receipt_state Receipt.failed = SideEffectState.failed_confirmed
receipt_state Receipt.unclear = SideEffectState.unknown

abbrev pub reconcile_blind : Env → ℕ → SideEffectRow → M (CommandResult EffectReply)
reconcile_blind env effect_id effect = do
  modify (set_effect effect_id (settle_dispatching SideEffectState.unknown))
  task ← get_task effect.task_id
  open_uncertain env effect.task_id (needs_no_gate task.state)
  reply_effect effect_id

abbrev pub reconcile_open : Env → ℕ → SideEffectRow → Receipt → Bool → M (CommandResult EffectReply)
reconcile_open env effect_id effect query false = reconcile_blind env effect_id effect
reconcile_open env effect_id effect query true = do
  modify (set_effect effect_id (λ e. record e { state = receipt_state query }))
  reply_effect effect_id

abbrev pub reconcile_if : Env → ℕ → SideEffectRow → Receipt → Bool → M (CommandResult EffectReply)
reconcile_if env effect_id effect query false = reply_effect effect_id
reconcile_if env effect_id effect query true =
    reconcile_open env effect_id effect query effect.supports_idempotent_query

-- `query` is the answer of the adapter, which is asked only if the effect supports it.
unfoldable pub reconcile_side_effect :
    Env → AuthContext → ℕ → Receipt → M (CommandResult EffectReply)
unfolding get_task get_effect set_task_state reply_effect
reconcile_side_effect env auth effect_id query = do
  effect ← get_effect effect_id
  reconcile_if env effect_id effect query (dispatching_or_unknown effect.state)
