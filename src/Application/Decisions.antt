-- ===== src/Application/Decisions.antt =====
-- service.py: the decision of a human on a contract, a side effect, a contract delta or a question. The
-- acceptance of a final result, and whether a delta has its payload, are arguments.
pub mod Contracts
pub mod Reject
use hibiki.Prelude.{
  ℕ, Bool, true, false, not, ◌&&◌, ◌+◌, ◌*◌, Option, none, some, List, [], ◌∷◌, get, add, remove,
  map_rows, ltb, ◌==◌, if◌then◌else◌,
}
use hibiki.Domain.Defaults.{defaults}
use hibiki.Domain.Enums.{
  ContractStatus, DecisionKind, DecisionStatus, GateLifecycle, TaskState, WaitingReason,
}
use hibiki.Domain.Errors.{ErrorClass, Code}
use hibiki.Domain.Guards.{guard_human_decision}
use hibiki.Domain.Transitions.{TaskEvent, SideEffectEvent, transition_side_effect}
use hibiki.Domain.Types.{AuthContext}
use hibiki.Persistence.Models.{
  Store, TaskRow, ContractRow, DecisionRow, GateRow, EventType, Reason, SideEffectRow,
}
use hibiki.Persistence.Session.{
  Env, M, gets, modify, lift, require, fail, fail_if, pure, ◌>>=◌, ◌>>◌, CommandResult, success,
}
use hibiki.Application.Base.{
  get_task, set_task, set_effect, set_decision, set_task_state, append_event, find_contract,
  is_waiting_human,
}
use hibiki.Application.Recovery.{recompute_runnable_state}
use hibiki.Application.Runs.{differs}

-- The payload: any choice but APPROVE is a rejection.
pub record Resolution : Type 0 where
  pub decision_id : ℕ
  pub approve : Bool
  pub expected_target_version : Option ℕ
  pub expected_target_hash : Option ℕ

pub record Acceptance : Type 0 where
  pub accept_result : ℕ → DecisionRow → M (Unit {0})
  pub has_payload : ℕ → Bool

pub record DecisionReply : Type 0 where
  pub decision_id : ℕ
  pub status : DecisionStatus
  pub task_state : Option TaskState
  pub replayed : Bool

abbrev pub set_contract : ℕ → ℕ → (ContractRow → ContractRow) → List ContractRow → List ContractRow
set_contract task_id version f [] = []
set_contract task_id version f (c ∷ cs) =
    (if c.task_id == task_id && c.contract_version == version then f c else c)
    ∷ set_contract task_id version f cs

abbrev pub with_status : ContractStatus → ContractRow → ContractRow
with_status status c = record c { status = status }

-- The contract that was active is superseded.
abbrev pub supersede : ℕ → Option ℕ → List ContractRow → List ContractRow
supersede task_id none cs = cs
supersede task_id (some version) cs =
    set_contract task_id version (with_status ContractStatus.superseded) cs

abbrev pub close_gate : Env → ℕ → GateRow → GateRow
close_gate env decision_id g =
    if g.decision_id == decision_id
    then record g { lifecycle = GateLifecycle.resolved; resolved_at = some env.now }
    else g

abbrev pub resolve_gates : Env → ℕ → Store → Store
resolve_gates env decision_id s = record s { gates = map_rows (close_gate env decision_id) s.gates }

abbrev pub limit_calls : Option ℕ → ℕ → ℕ
limit_calls none limit = limit
limit_calls (some n) limit = n

abbrev pub bind_contract : ContractRow → TaskRow → TaskRow
bind_contract c t = record t {
  contract_version = some c.contract_version;
  model_call_limit = limit_calls c.model_call_limit t.model_call_limit;
}

unfoldable pub activate : Env → ℕ → ℕ → ContractRow → Store → Store
activate env task_id decision_id c s =
    set_decision decision_id (λ d. record d { gate_lifecycle = GateLifecycle.resolved })
      (resolve_gates env decision_id (
        set_task task_id (bind_contract c) (record s {
          contracts =
              set_contract task_id c.contract_version (with_status ContractStatus.active)
                (supersede task_id (get task_id s.active_contracts) s.contracts);
          active_contracts = add task_id c.contract_version (remove task_id s.active_contracts);
        })))

abbrev pub approval_event : Bool → TaskEvent
approval_event true = TaskEvent.contract_approved_simple
approval_event false = TaskEvent.contract_approved

unfoldable pub approve_contract : Env → ℕ → DecisionRow → M (Unit {0})
unfolding set_task_state activate
approve_contract env decision_id d = do
  row ← gets (λ s. find_contract d.task_id d.target_version s.contracts)
  c ← require row ErrorClass.integrity Code.no_result
  modify (activate env d.task_id decision_id c)
  set_task_state env d.task_id (approval_event c.simple) none

unfoldable pub settle : Env → ℕ → ℕ → M (Unit {0})
unfolding get_task recompute_runnable_state
settle env task_id decision_id = do
  modify (resolve_gates env decision_id)
  task ← get_task task_id
  recompute_runnable_state env task_id task

unfoldable pub approve_effect : Env → ℕ → DecisionRow → M (Unit {0})
unfolding settle
approve_effect env decision_id d = do
  row ← gets (λ s. get d.target_ref s.side_effects)
  e ← require row ErrorClass.not_found Code.not_found
  fail_if (not (e.action_digest == d.target_hash)) ErrorClass.conflict Code.target_hash_conflict
  state ← lift (transition_side_effect e.state SideEffectEvent.approve)
  modify (
      set_effect d.target_ref (λ e. record e {
        state = state;
        authorization_ref = some decision_id;
        expires_at = some (env.now + defaults.side_effect_approval_ttl_minutes * 60);
      }))
  settle env d.task_id decision_id

abbrev pub hold_gate : ℕ → GateRow → GateRow
hold_gate decision_id g =
    if g.decision_id == decision_id
    then record g { lifecycle = GateLifecycle.approved_pending_apply }
    else g

unfoldable pub wait_for_delta : Env → ℕ → Bool → M (Unit {0})
unfolding set_task_state
wait_for_delta env task_id true = modify (
    set_task task_id
      (λ t. record t { state_reason = some (Reason.waiting WaitingReason.contract_delta) }))
wait_for_delta env task_id false =
    set_task_state env task_id TaskEvent.blocking_gate_opened
      (some (Reason.waiting WaitingReason.contract_delta))

-- The gate stays closed until the delta is applied.
unfoldable pub approve_delta : Env → ℕ → DecisionRow → Bool → M (Unit {0})
unfolding get_task wait_for_delta
approve_delta env decision_id d has_payload = do
  fail_if (not has_payload) ErrorClass.precondition Code.delta_payload_missing
  modify (λ s. record s { gates = map_rows (hold_gate decision_id) s.gates })
  modify (
      set_decision decision_id
        (λ d. record d { gate_lifecycle = GateLifecycle.approved_pending_apply }))
  task ← get_task d.task_id
  wait_for_delta env d.task_id (is_waiting_human task.state)

unfoldable pub apply_kind : Env → Acceptance → ℕ → DecisionRow → DecisionKind → M (Unit {0})
unfolding approve_contract approve_effect approve_delta settle
apply_kind env x decision_id d DecisionKind.contract_approval = approve_contract env decision_id d
apply_kind env x decision_id d DecisionKind.final_acceptance = x.accept_result decision_id d
apply_kind env x decision_id d DecisionKind.side_effect_approval = approve_effect env decision_id d
apply_kind env x decision_id d DecisionKind.contract_delta =
    approve_delta env decision_id d (x.has_payload decision_id)
apply_kind env x decision_id d _ = settle env d.task_id decision_id

unfoldable pub apply_approved_decision : Env → Acceptance → ℕ → DecisionRow → M (Unit {0})
unfolding apply_kind
apply_approved_decision env x decision_id d = apply_kind env x decision_id d d.decision_kind

abbrev pub decide : DecisionStatus → DecisionRow → DecisionRow
decide status d = record d { status = status }

unfoldable pub apply_choice : Env → Acceptance → ℕ → DecisionRow → Bool → M DecisionStatus
unfolding apply_approved_decision settle
apply_choice env x decision_id d true = do
  modify (set_decision decision_id (decide DecisionStatus.approved))
  apply_approved_decision env x decision_id d
  pure DecisionStatus.approved
apply_choice env x decision_id d false = do
  modify (set_decision decision_id (decide DecisionStatus.rejected))
  settle env d.task_id decision_id
  pure DecisionStatus.rejected

-- EXPIRED is written before the error, and rolled back with it.
abbrev pub refuse_expired : ℕ → Bool → M (Unit {0})
refuse_expired decision_id false = pure tt
refuse_expired decision_id true = do
  modify (set_decision decision_id (decide DecisionStatus.expired))
  fail ErrorClass.precondition Code.decision_expired

abbrev pub same_contract : DecisionRow → ContractRow → M (Unit {0})
same_contract d c =
    fail_if (not (c.content_hash == d.target_hash)) ErrorClass.conflict Code.target_hash_conflict

abbrev pub check_target : DecisionKind → DecisionRow → M (Unit {0})
check_target DecisionKind.contract_approval d = do
  row ← gets (λ s. find_contract d.task_id d.target_version s.contracts)
  c ← require row ErrorClass.integrity Code.no_result
  same_contract d c
check_target _ d = pure tt

unfoldable pub resolve_pending :
    Env → AuthContext → Acceptance → Resolution → DecisionRow → M (CommandResult DecisionReply)
unfolding apply_choice append_event get_task
resolve_pending env auth x p d = do
  refuse_expired p.decision_id (ltb d.expires_at env.now)
  fail_if (differs p.expected_target_version d.target_version) ErrorClass.conflict
      Code.target_version_conflict
  fail_if (differs p.expected_target_hash d.target_hash) ErrorClass.conflict
      Code.target_hash_conflict
  check_target d.decision_kind d
  status ← apply_choice env x p.decision_id d p.approve
  modify (append_event env d.task_id EventType.decision_resolved (some auth.actor_id))
  task ← get_task d.task_id
  pure (
      success (record {
        decision_id = p.decision_id;
        status = status;
        task_state = some task.state;
        replayed = false;
      }))

-- A decision that was taken is answered again; one that is expired or superseded is refused.
unfoldable pub resolve_as :
    Env
    → AuthContext
    → Acceptance
    → Resolution
    → DecisionRow
    → DecisionStatus
    → M (CommandResult DecisionReply)
unfolding resolve_pending
resolve_as env auth x p d DecisionStatus.pending = resolve_pending env auth x p d
resolve_as env auth x p d DecisionStatus.expired =
    fail ErrorClass.precondition Code.decision_not_pending
resolve_as env auth x p d DecisionStatus.superseded =
    fail ErrorClass.precondition Code.decision_not_pending
resolve_as env auth x p d status = pure (
    success
      (record { decision_id = p.decision_id; status = status; task_state = none; replayed = true }))

unfoldable pub resolve_decision :
    Env → AuthContext → Acceptance → Resolution → M (CommandResult DecisionReply)
unfolding get_task guard_human_decision resolve_as
resolve_decision env auth x p = do
  row ← gets (λ s. get p.decision_id s.decisions)
  d ← require row ErrorClass.not_found Code.decision_not_found
  lift (guard_human_decision auth d.decision_kind)
  task ← get_task d.task_id
  fail_if (not (task.principal_id == auth.principal_id)) ErrorClass.authorization
      Code.authorization_denied
  resolve_as env auth x p d d.status
