-- ===== src/Application/Proposals.antt =====
-- service.py: the proposal of an external side effect.
use hibiki.Prelude.{
  ℕ, suc, ◌+◌, ◌*◌, Bool, true, false, not, ◌&&◌, ◌||◌, Option, none, some, List, [], ◌∷◌, Table,
  add, ◌==◌, if◌then◌else◌,
}
use hibiki.Domain.Defaults.{defaults}
use hibiki.Domain.Enums.{
  SideEffectState, DecisionKind, DecisionStatus, GateLifecycle, WaitingReason,
}
use hibiki.Domain.Errors.{ErrorClass, Code}
use hibiki.Domain.Transitions.{TaskEvent}
use hibiki.Domain.Types.{AuthContext}
use hibiki.Persistence.Models.{Store, ContractRow, SideEffectRow, Reason, EventType}
use hibiki.Persistence.Session.{
  Env, M, gets, modify, require, fail_if, pure, ◌>>=◌, ◌>>◌, CommandResult, success,
}
use hibiki.Application.Base.{set_effect, get_task, append_event, set_task_state, active_contract}
use hibiki.Application.Effects.{EffectReply, reply_effect}

-- What `propose_side_effect` is given: the key of the action, its target, and the digest of its
-- type, target and parameters.
pub record Proposal : Type 0 where
  pub logical_action_key : ℕ
  pub target_ref : ℕ
  pub action_digest : ℕ
  pub supports_idempotent_query : Bool

abbrev pub in_list : ℕ → List ℕ → Bool
in_list k [] = false
in_list k (j ∷ js) = j == k || in_list k js

-- The first effect of the task with the key.
abbrev pub find_effect : ℕ → ℕ → Table SideEffectRow → Option (ℕ × SideEffectRow)
find_effect task_id key [] = none
find_effect task_id key ((k, e) ∷ t) =
    if e.task_id == task_id && e.logical_action_key == key
    then some (k, e)
    else find_effect task_id key t

abbrev pub add_effect : Env → ℕ → ContractRow → Proposal → SideEffectState → Store → Store
add_effect env task_id contract p state s = record s {
  side_effects =
      add (env.new_id s.drawn)
        (record {
          task_id = task_id;
          logical_action_key = p.logical_action_key;
          target_ref = p.target_ref;
          action_digest = p.action_digest;
          contract_version = contract.contract_version;
          authorization_ref = none;
          expires_at = none;
          state = state;
          dispatch_attempts = 0;
          supports_idempotent_query = p.supports_idempotent_query;
        })
        s.side_effects;
  drawn = suc s.drawn;
}

-- A PENDING decision of the task with an OPEN gate.
abbrev pub add_decision : Env → ℕ → DecisionKind → ℕ → ℕ → ℕ → Reason → Store → Store
add_decision env task_id kind target_ref target_hash expires_at reason s =
    let decision_id = env.new_id s.drawn in
    record s {
      decisions =
          add decision_id
            (record {
              task_id = task_id;
              decision_kind = kind;
              target_ref = target_ref;
              target_version = 1;
              target_hash = target_hash;
              status = DecisionStatus.pending;
              expires_at = expires_at;
              gate_lifecycle = GateLifecycle.opened;
            })
            s.decisions;
      gates =
          add (env.new_id (suc s.drawn))
            (record {
              task_id = task_id;
              decision_id = decision_id;
              reason = reason;
              lifecycle = GateLifecycle.opened;
              resolved_at = none;
            })
            s.gates;
      drawn = suc (suc s.drawn);
    }

-- An effect that the contract does not allow in advance waits for an approval, behind a gate.
abbrev pub request_approval : Env → ℕ → Proposal → ℕ → Bool → M (Unit {0})
request_approval env task_id p effect_id true = pure tt
request_approval env task_id p effect_id false = do
  modify (
      add_decision env task_id DecisionKind.side_effect_approval effect_id p.action_digest
        (env.now + defaults.side_effect_approval_ttl_minutes * 60)
        (Reason.waiting WaitingReason.side_effect_approval))
  modify (set_effect effect_id (λ e. record e { state = SideEffectState.waiting_approval }))
  set_task_state env task_id TaskEvent.blocking_gate_opened
      (some (Reason.waiting WaitingReason.side_effect_approval))

abbrev pub propose_new :
    Env → AuthContext → ℕ → ContractRow → Proposal → M (CommandResult EffectReply)
propose_new env auth task_id contract p = do
  effect_id ← gets (λ s. env.new_id s.drawn)
  let preauthorized = in_list p.logical_action_key contract.allowed_side_effects
  modify (
      add_effect env task_id contract p
        (if preauthorized then SideEffectState.authorized else SideEffectState.proposed))
  request_approval env task_id p effect_id preauthorized
  modify (append_event env task_id EventType.side_effect_proposed (some auth.actor_id))
  reply_effect effect_id

abbrev pub reuse_or_new :
    Env
    → AuthContext
    → ℕ
    → ContractRow
    → Proposal
    → Option (ℕ × SideEffectRow)
    → M (CommandResult EffectReply)
reuse_or_new env auth task_id contract p none = propose_new env auth task_id contract p
reuse_or_new env auth task_id contract p (some (k, e)) = do
  fail_if (not (e.action_digest == p.action_digest)) ErrorClass.conflict
      Code.side_effect_digest_conflict
  pure (success (record { effect_id = k; state = e.state }))

unfoldable pub propose_side_effect :
    Env → AuthContext → ℕ → Proposal → M (CommandResult EffectReply)
unfolding get_task set_task_state active_contract append_event reply_effect
propose_side_effect env auth task_id p = do
  get_task task_id
  active ← gets (active_contract task_id)
  contract ← require active ErrorClass.precondition Code.no_active_contract
  existing ← gets (λ s. find_effect task_id p.logical_action_key s.side_effects)
  reuse_or_new env auth task_id contract p existing
