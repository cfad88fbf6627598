-- ===== src/Application/Decisions/Contracts.antt =====
-- The contract that an approval activates.
use mathlib.Core.Path.{subst}
use mathlib.Core.Option
use hibiki.Prelude.{
  ℕ, ◌≡◌, refl, sym, ap, ◌∙◌, Bool, true, not, Option, none, some, List, [], ◌∷◌, arith, get, add,
  remove, get-add, get-remove, ◌==◌, ==_iff, Option-cases, Bool-cases, inl, inr, if◌then◌else◌,
  Table, ltb,
}
use hibiki.Domain.Enums.{ContractStatus, DecisionKind, DecisionStatus}
use hibiki.Domain.Errors.{ErrorClass, Code}
use hibiki.Domain.Guards.{guard_human_decision}
use hibiki.Domain.Types.{AuthContext}
use hibiki.Persistence.Models.{Store, ContractRow, DecisionRow, EventType}
use hibiki.Persistence.Session.{
  Env, M, done, require, lift, fail_if, modify, pure, ◌>>=◌, ◌>>◌, CommandResult,
}
use hibiki.Persistence.Session.Frame.{Ensures, Ensures-of, Ensures-done, bind-Ensures}
use hibiki.Application.Base.{
  active_contract, contract_of, find_contract, set_task_state, append_event, get_task, set_decision,
}
use hibiki.Application.Base.Frame.{get_task-Keeps, set_task_state-Keeps}
use hibiki.Application.Runs.{differs}
use hibiki.Application.Decisions.{
  Acceptance, Resolution, DecisionReply, set_contract, with_status, supersede, activate,
  approve_contract, approval_event, apply_approved_decision, apply_choice, refuse_expired,
  same_contract, check_target, resolve_pending, resolve_as, resolve_decision, apply_kind, decide,
}

find_contract-set :
    (task_id v w : ℕ) (status : ContractStatus) (cs : List ContractRow)
    → find_contract task_id v (set_contract task_id w (with_status status) cs) ≡ (
        if w == v
        then Option.map (with_status status) (find_contract task_id v cs)
        else find_contract task_id v cs)
find_contract-set task_id v w status [] = ground arith
find_contract-set task_id v w status (c ∷ cs) =
    ground (arith, find_contract-set task_id v w status cs)

-- Whatever was superseded before, the approved contract is found ACTIVE.
activated-contract :
    (task_id v : ℕ) (prev : Option ℕ) (cs : List ContractRow) (c : ContractRow)
    → find_contract task_id v cs ≡ some c
    → find_contract task_id v
        (set_contract task_id v (with_status ContractStatus.active) (supersede task_id prev cs))
      ≡ some (with_status ContractStatus.active c)
activated-contract task_id v none cs c f =
    ground (arith, find_contract-set task_id v v ContractStatus.active cs)
activated-contract task_id v (some w) cs c f =
    let older = set_contract task_id w (with_status ContractStatus.superseded) cs in
    ground (
      arith,
      find_contract-set task_id v v ContractStatus.active older,
      find_contract-set task_id v w ContractStatus.superseded cs,
    )

marker_moves : (k v : ℕ) (t : Table ℕ) → get k (add k v (remove k t)) ≡ some v
marker_moves k v t = ground (arith, get-add k k v (remove k t), get-remove k k t)

found_version :
    (task_id v : ℕ) (cs : List ContractRow) (c : ContractRow)
    → find_contract task_id v cs ≡ some c
    → c.contract_version ≡ v
found_version task_id v [] c f = ground arith
found_version task_id v (x ∷ cs) c f =
    ground (arith, found_version task_id v cs c, ==_iff x.contract_version v)

activate-active :
    (env : Env) (task_id decision_id v : ℕ) (c : ContractRow) (s : Store)
    → find_contract task_id v s.contracts ≡ some c
    → active_contract task_id (activate env task_id decision_id c s)
      ≡ some (with_status ContractStatus.active c)
unfolding activate active_contract
activate-active env task_id decision_id v c s f =
    let version = found_version task_id v s.contracts c f in
    let same = subst (λ n. find_contract task_id n s.contracts ≡ some c) (sym version) f in
    let written =
      set_contract task_id c.contract_version (with_status ContractStatus.active)
        (supersede task_id (get task_id s.active_contracts) s.contracts) in
    ap (contract_of task_id written) (marker_moves task_id c.contract_version s.active_contracts)
    ∙ activated-contract task_id c.contract_version (get task_id s.active_contracts) s.contracts c
        same

-- The active contract of the task is ACTIVE, and is the one that the decision is about.
abbrev pub IsInForce : DecisionRow → Store → Type 0
IsInForce d s =
    (c : ContractRow) × (active_contract d.task_id s ≡ some c)
    × (c.status ≡ ContractStatus.active)
    × ((c.content_hash == d.target_hash) ≡ true)
    × (c.contract_version ≡ d.target_version)

-- The contract is there, with the content that was shown.
abbrev HasTarget : DecisionRow → Store → Type 0
HasTarget d s =
    (c : ContractRow) × (find_contract d.task_id d.target_version s.contracts ≡ some c)
    × ((c.content_hash == d.target_hash) ≡ true)

abbrev contracts_of : Store → List ContractRow × Table ℕ
contracts_of s = (s.contracts, s.active_contracts)

IsInForce-same :
    (d : DecisionRow) (s s' : Store)
    → contracts_of s' ≡ contracts_of s
    → IsInForce d s
    → IsInForce d s'
unfolding active_contract
IsInForce-same d s s' e (c, a, st, h, v) =
    (c, ap (λ x. contract_of d.task_id x.0 (get d.task_id x.1)) e ∙ a, st, h, v)

abbrev InForce {ℓ} : {A : Type ℓ} → DecisionRow → A → Store → Type 0
InForce d a s = IsInForce d s

approve_contract-InForce :
    (env : Env) (decision_id : ℕ) (d : DecisionRow) (s : Store)
    → HasTarget d s
    → Ensures (InForce d) (approve_contract env decision_id d s)
unfolding approve_contract
approve_contract-InForce env decision_id d s (c, f, h) =
    let write = λ (x : ContractRow).
      modify (activate env d.task_id decision_id x)
      >> set_task_state env d.task_id (approval_event x.simple) none in
    let after = activate env d.task_id decision_id c s in
    let move = set_task_state env d.task_id (approval_event c.simple) none in
    let active = activate-active env d.task_id decision_id d.target_version c s f in
    let keeps =
      set_task_state-Keeps contracts_of (λ k f s. refl) env d.task_id (approval_event c.simple)
        none in
    subst (λ o. Ensures (InForce d) ((require o ErrorClass.integrity Code.no_result >>= write) s))
      (sym f)
      (Ensures-of (InForce d) move after (λ u s' e. IsInForce-same d after s' (keeps after u s' e) (
        with_status ContractStatus.active c,
        active,
        refl,
        h,
        found_version d.task_id d.target_version s.contracts c f,
      )))

abbrev Target : DecisionRow → Unit {0} → Store → Type 0
Target d _ s = HasTarget d s

same_contract-Ensures :
    (d : DecisionRow) (c : ContractRow) (s : Store)
    → find_contract d.task_id d.target_version s.contracts ≡ some c
    → Ensures (Target d) (same_contract d c s)
same_contract-Ensures d c s f =
    let refused = λ (b : Bool).
      Ensures (Target d) (fail_if (not b) ErrorClass.conflict Code.target_hash_conflict s) in
    elim (Bool-cases (c.content_hash == d.target_hash)) [
      | inl same ↦ subst refused (sym same) (c, f, same)
      | inr other ↦ subst refused (sym other) tt
    ]

check_target-Ensures :
    (d : DecisionRow) (s : Store)
    → Ensures (Target d) (check_target DecisionKind.contract_approval d s)
check_target-Ensures d s =
    elim (Option-cases (find_contract d.task_id d.target_version s.contracts)) [
      | inl n ↦
          subst
            (λ o.
              Ensures (Target d)
                ((require o ErrorClass.integrity Code.no_result >>= same_contract d) s))
            (sym n) tt
      | inr (c, f) ↦
          subst
            (λ o.
              Ensures (Target d)
                ((require o ErrorClass.integrity Code.no_result >>= same_contract d) s))
            (sym f) (same_contract-Ensures d c s f)
    ]

apply_contract-InForce :
    (env : Env) (x : Acceptance) (decision_id : ℕ) (d : DecisionRow) (s : Store)
    → d.decision_kind ≡ DecisionKind.contract_approval
    → HasTarget d s
    → Ensures (InForce d) (apply_approved_decision env x decision_id d s)
unfolding apply_approved_decision apply_kind
apply_contract-InForce env x decision_id d s k target =
    subst (λ y. Ensures (InForce d) (apply_kind env x decision_id d y s)) (sym k)
      (approve_contract-InForce env decision_id d s target)

apply_choice-InForce :
    (env : Env) (x : Acceptance) (decision_id : ℕ) (d : DecisionRow) (s : Store)
    → d.decision_kind ≡ DecisionKind.contract_approval
    → HasTarget d s
    → Ensures (InForce d) (apply_choice env x decision_id d true s)
unfolding apply_choice
apply_choice-InForce env x decision_id d s k target =
    let marked = set_decision decision_id (decide DecisionStatus.approved) s in
    let apply_it = apply_approved_decision env x decision_id d in
    bind-Ensures (InForce d) apply_it (λ _. pure DecisionStatus.approved) marked
      (λ u s1 e.
        Ensures-done (InForce d) apply_it marked u s1
          (apply_contract-InForce env x decision_id d marked k target) e)

resolve_pending-InForce :
    (env : Env) (auth : AuthContext) (x : Acceptance) (p : Resolution) (d : DecisionRow) (s : Store)
    → d.decision_kind ≡ DecisionKind.contract_approval
    → p.approve ≡ true
    → Ensures (InForce d) (resolve_pending env auth x p d s)
unfolding resolve_pending append_event
resolve_pending-InForce env auth x p d s k a =
    bind-Ensures (InForce d) (refuse_expired p.decision_id (ltb d.expires_at env.now)) _ s
      (λ _ s1 _.
        bind-Ensures (InForce d)
          (fail_if (differs p.expected_target_version d.target_version) ErrorClass.conflict
            Code.target_version_conflict)
          _ s1
          (λ _ s2 _.
            bind-Ensures (InForce d)
              (fail_if (differs p.expected_target_hash d.target_hash) ErrorClass.conflict
                Code.target_hash_conflict)
              _ s2
              (λ _ s3 _. bind-Ensures (InForce d) (check_target d.decision_kind d) _ s3 (λ u s4 e.
                let target =
                  Ensures-done (Target d) (check_target d.decision_kind d) s3 u s4
                    (subst (λ y. Ensures (Target d) (check_target y d s3)) (sym k)
                      (check_target-Ensures d s3))
                    e in
                bind-Ensures (InForce d) (apply_choice env x p.decision_id d p.approve) _ s4
                  (λ st s5 f.
                    let done_so =
                      Ensures-done (InForce d) (apply_choice env x p.decision_id d p.approve) s4 st
                        s5
                        (subst (λ b. Ensures (InForce d) (apply_choice env x p.decision_id d b s4))
                          (sym a) (apply_choice-InForce env x p.decision_id d s4 k target))
                        f in
                    let noted =
                      append_event env d.task_id EventType.decision_resolved (some auth.actor_id)
                        s5 in
                    bind-Ensures (InForce d) (get_task d.task_id) _ noted (λ task s6 h.
                      IsInForce-same d s5 s6 (get_task-Keeps contracts_of d.task_id noted task s6 h)
                        done_so))))))

-- The part of `_resolve_decision` that follows the lookup.
abbrev decide_on :
    Env → AuthContext → Acceptance → Resolution → DecisionRow → M (CommandResult DecisionReply)
decide_on env auth x p d =
    lift (guard_human_decision auth d.decision_kind)
    >> (get_task d.task_id >>= λ task.
        fail_if (not (task.principal_id == auth.principal_id)) ErrorClass.authorization
          Code.authorization_denied
        >> resolve_as env auth x p d d.status)

decide_on-InForce :
    (env : Env) (auth : AuthContext) (x : Acceptance) (p : Resolution) (s : Store) (d : DecisionRow)
    → d.decision_kind ≡ DecisionKind.contract_approval
    → d.status ≡ DecisionStatus.pending
    → p.approve ≡ true
    → Ensures (InForce d) (decide_on env auth x p d s)
unfolding resolve_as
decide_on-InForce env auth x p s d k st a =
    let goal = InForce {A = CommandResult DecisionReply} d in
    bind-Ensures goal (lift (guard_human_decision auth d.decision_kind)) _ s (λ _ s1 _.
      bind-Ensures goal (get_task d.task_id) _ s1 (λ task s2 _.
        bind-Ensures goal
          (fail_if (not (task.principal_id == auth.principal_id)) ErrorClass.authorization
            Code.authorization_denied)
          (λ _. resolve_as env auth x p d d.status) s2
          (λ _ s3 _.
            subst (λ y. Ensures goal (resolve_as env auth x p d y s3)) (sym st)
              (resolve_pending-InForce env auth x p d s3 k a))))

resolve_decision-Ensures :
    (env : Env) (auth : AuthContext) (x : Acceptance) (p : Resolution) (s : Store) (d : DecisionRow)
    → get p.decision_id s.decisions ≡ some d
    → d.decision_kind ≡ DecisionKind.contract_approval
    → d.status ≡ DecisionStatus.pending
    → p.approve ≡ true
    → Ensures (InForce d) (resolve_decision env auth x p s)
unfolding resolve_decision
resolve_decision-Ensures env auth x p s d g k st a =
    subst
      (λ o.
        Ensures (InForce d)
          ((require o ErrorClass.not_found Code.decision_not_found >>= decide_on env auth x p) s))
      (sym g) (decide_on-InForce env auth x p s d k st a)

-- The approval of a contract that returns puts it in force: the active contract of the task is ACTIVE,
-- with the version and the content hash of the decision, so nothing but what was shown is approved.
pub resolve_decision-IsInForce :
    (env : Env) (auth : AuthContext) (x : Acceptance) (p : Resolution) (s s' : Store)
    (d : DecisionRow) (r : CommandResult DecisionReply)
    → get p.decision_id s.decisions ≡ some d
    → d.decision_kind ≡ DecisionKind.contract_approval
    → d.status ≡ DecisionStatus.pending
    → p.approve ≡ true
    → resolve_decision env auth x p s ≡ done r s'
    → IsInForce d s'
resolve_decision-IsInForce env auth x p s s' d r g k st a h =
    Ensures-done (InForce d) (resolve_decision env auth x p) s r s'
      (resolve_decision-Ensures env auth x p s d g k st a) h
