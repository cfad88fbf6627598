-- ===== src/Application/Decisions/Reject.antt =====
-- What a rejection leaves alone.
use mathlib.Core.Path.{subst}
use hibiki.Prelude.{
  ℕ, ◌≡◌, refl, sym, ap, Bool, true, false, not, ◌||◌, none, some, List, Table, get, ltb, ◌==◌,
}
use hibiki.Domain.Enums.{DecisionKind, DecisionStatus}
use hibiki.Domain.Errors.{ErrorClass, Code}
use hibiki.Domain.Guards.{guard_human_decision}
use hibiki.Domain.Transitions.{TaskEvent, is_terminal_task}
use hibiki.Domain.Types.{AuthContext}
use hibiki.Persistence.Models.{Store, TaskRow, ContractRow, DecisionRow, SideEffectRow}
use hibiki.Persistence.Session.{Env, done, success, CommandResult}
use hibiki.Persistence.Session.Frame.{
  Keeps, bind-Keeps, gets-Keeps, pure-Keeps, fail-Keeps, require-Keeps, lift-Keeps, fail_if-Keeps,
  modify-Keeps,
}
use hibiki.Application.Base.{append_event, find_contract, has_blocking_gate, is_waiting_human}
use hibiki.Application.Base.Frame.{get_task-Keeps, set_task_state-Keeps}
use hibiki.Application.Recovery.{recompute_runnable_state, leave_waiting}
use hibiki.Application.Runs.{differs}
use hibiki.Application.Decisions.{
  Acceptance, Resolution, DecisionReply, resolve_gates, settle, apply_choice, refuse_expired,
  check_target, resolve_pending, resolve_as, resolve_decision,
}

-- What an approval would change: side effects and contracts.
abbrev pub approvals : Store → Table SideEffectRow × List ContractRow × Table ℕ
approvals s = (s.side_effects, s.contracts, s.active_contracts)

leave_waiting-Keeps :
    (env : Env) (task_id : ℕ) (b : Bool) → Keeps approvals (leave_waiting env task_id b)
leave_waiting-Keeps env task_id true = pure-Keeps approvals tt
leave_waiting-Keeps env task_id false =
    bind-Keeps approvals _ _ (modify-Keeps approvals _ (λ s. refl)) (λ _.
      set_task_state-Keeps approvals (λ k f s. refl) env task_id TaskEvent.decision_resolved none)

recompute_runnable_state-Keeps :
    (env : Env) (task_id : ℕ) (task : TaskRow)
    → Keeps approvals (recompute_runnable_state env task_id task)
unfolding recompute_runnable_state
recompute_runnable_state-Keeps env task_id task =
    bind-Keeps approvals _ _ (gets-Keeps approvals (has_blocking_gate task_id)) (λ gate.
      leave_waiting-Keeps env task_id (
        not (is_waiting_human task.state)
        || gate
        || task.cancel_intent
        || is_terminal_task task.state))

settle-Keeps :
    (env : Env) (task_id decision_id : ℕ) → Keeps approvals (settle env task_id decision_id)
unfolding settle
settle-Keeps env task_id decision_id =
    bind-Keeps approvals _ _ (modify-Keeps approvals (resolve_gates env decision_id) (λ s. refl))
      (λ _.
        bind-Keeps approvals _ _ (get_task-Keeps approvals task_id)
          (λ task. recompute_runnable_state-Keeps env task_id task))

apply_choice-Keeps :
    (env : Env) (x : Acceptance) (decision_id : ℕ) (d : DecisionRow)
    → Keeps approvals (apply_choice env x decision_id d false)
unfolding apply_choice
apply_choice-Keeps env x decision_id d =
    bind-Keeps approvals _ _ (modify-Keeps approvals _ (λ s. refl)) (λ _.
      bind-Keeps approvals _ _ (settle-Keeps env d.task_id decision_id)
        (λ _. pure-Keeps approvals DecisionStatus.rejected))

refuse_expired-Keeps : (decision_id : ℕ) (b : Bool) → Keeps approvals (refuse_expired decision_id b)
refuse_expired-Keeps decision_id false = pure-Keeps approvals tt
refuse_expired-Keeps decision_id true =
    bind-Keeps approvals _ _ (modify-Keeps approvals _ (λ s. refl))
      (λ _. fail-Keeps approvals ErrorClass.precondition Code.decision_expired)

check_target-Keeps : (k : DecisionKind) (d : DecisionRow) → Keeps approvals (check_target k d)
check_target-Keeps DecisionKind.contract_approval d =
    bind-Keeps approvals _ _
      (gets-Keeps approvals (λ s. find_contract d.task_id d.target_version s.contracts))
      (λ row.
        bind-Keeps approvals _ _ (require-Keeps approvals row ErrorClass.integrity Code.no_result)
          (λ c.
            fail_if-Keeps approvals (not (c.content_hash == d.target_hash)) ErrorClass.conflict
              Code.target_hash_conflict))
check_target-Keeps DecisionKind.contract_delta d = pure-Keeps approvals tt
check_target-Keeps DecisionKind.side_effect_approval d = pure-Keeps approvals tt
check_target-Keeps DecisionKind.final_acceptance d = pure-Keeps approvals tt
check_target-Keeps DecisionKind.clarification d = pure-Keeps approvals tt
check_target-Keeps DecisionKind.resource_limit d = pure-Keeps approvals tt

module _ (env : Env) (auth : AuthContext) (x : Acceptance) (p : Resolution)
    (rejects : p.approve ≡ false) where
  resolve_pending-Keeps : (d : DecisionRow) → Keeps approvals (resolve_pending env auth x p d)
  unfolding resolve_pending append_event
  resolve_pending-Keeps d =
      bind-Keeps approvals _ _ (refuse_expired-Keeps p.decision_id (ltb d.expires_at env.now)) (λ _.
        bind-Keeps approvals _ _
          (fail_if-Keeps approvals (differs p.expected_target_version d.target_version)
            ErrorClass.conflict Code.target_version_conflict)
          (λ _.
            bind-Keeps approvals _ _
              (fail_if-Keeps approvals (differs p.expected_target_hash d.target_hash)
                ErrorClass.conflict Code.target_hash_conflict)
              (λ _. bind-Keeps approvals _ _ (check_target-Keeps d.decision_kind d) (λ _.
                bind-Keeps approvals (apply_choice env x p.decision_id d p.approve) _
                  (subst (λ b. Keeps approvals (apply_choice env x p.decision_id d b)) (sym rejects)
                    (apply_choice-Keeps env x p.decision_id d))
                  (λ status. bind-Keeps approvals _ _ (modify-Keeps approvals _ (λ s. refl)) (λ _.
                    bind-Keeps approvals _ _ (get_task-Keeps approvals d.task_id) (λ task.
                      pure-Keeps approvals (
                        success (record {
                          decision_id = p.decision_id;
                          status = status;
                          task_state = some task.state;
                          replayed = false;
                        })))))))))

  resolve_as-Keeps :
      (d : DecisionRow) (st : DecisionStatus) → Keeps approvals (resolve_as env auth x p d st)
  unfolding resolve_as
  resolve_as-Keeps d DecisionStatus.pending = resolve_pending-Keeps d
  resolve_as-Keeps d DecisionStatus.expired =
      fail-Keeps approvals ErrorClass.precondition Code.decision_not_pending
  resolve_as-Keeps d DecisionStatus.superseded =
      fail-Keeps approvals ErrorClass.precondition Code.decision_not_pending
  resolve_as-Keeps d DecisionStatus.approved = pure-Keeps approvals _
  resolve_as-Keeps d DecisionStatus.rejected = pure-Keeps approvals _

resolve_decision-Keeps :
    (env : Env) (auth : AuthContext) (x : Acceptance) (p : Resolution)
    → p.approve ≡ false
    → Keeps approvals (resolve_decision env auth x p)
unfolding resolve_decision
resolve_decision-Keeps env auth x p rejects =
    bind-Keeps approvals _ _ (gets-Keeps approvals (λ s. get p.decision_id s.decisions)) (λ row.
      bind-Keeps approvals _ _
        (require-Keeps approvals row ErrorClass.not_found Code.decision_not_found)
        (λ d.
          bind-Keeps approvals _ _
            (lift-Keeps approvals (guard_human_decision auth d.decision_kind))
            (λ _. bind-Keeps approvals _ _ (get_task-Keeps approvals d.task_id) (λ task.
              bind-Keeps approvals _ _
                (fail_if-Keeps approvals (not (task.principal_id == auth.principal_id))
                  ErrorClass.authorization Code.authorization_denied)
                (λ _. resolve_as-Keeps env auth x p rejects d d.status)))))

-- A rejection that returns changes no side effect, no contract and no active contract: a side effect
-- whose approval is rejected stays WAITING_APPROVAL, and a rejected contract stays as it was.
pub resolve_decision-rejects :
    (env : Env) (auth : AuthContext) (x : Acceptance) (p : Resolution) (s s' : Store)
    (r : CommandResult DecisionReply)
    → p.approve ≡ false
    → resolve_decision env auth x p s ≡ done r s'
    → (s'.side_effects ≡ s.side_effects)
      × (s'.contracts ≡ s.contracts)
      × (s'.active_contracts ≡ s.active_contracts)
resolve_decision-rejects env auth x p s s' r rejects h =
    let same = resolve_decision-Keeps env auth x p rejects s r s' h in
    (ap (λ y. y.0) same, ap (λ y. y.1) same, ap (λ y. y.2) same)
