-- ===== src/Domain/Errors.antt =====
-- src/hibiki/domain/errors.py. An exception is its class and its `code`; messages are for logs only.
-- `integrity` is no class of the source: it stands for an exception of sqlalchemy, of a row that
-- violates a unique constraint of its table, or of `.one()` where no row is found.
use hibiki.Prelude.{Bool, true, false}

pub data ErrorClass : Type 0 where
  domain invalid_transition authorization precondition conflict idempotency_conflict not_found
        schema_startup integrity :
      ErrorClass

-- The codes that the modelled commands raise or return.
pub data Code : Type 0 where
  invalid_transition authorization_denied precondition_failed conflict not_found
        dispatch_blocked_state no_active_contract dispatch_frozen_gate dispatch_frozen_cancel
        dispatch_frozen_pause contract_replaced approval_expired not_authorized already_terminal
        acceptance_required plan_empty plan_duplicate_node plan_dangling_edge
        plan_missing_artifact_hash plan_cycle plan_permission task_not_found run_not_found
        decision_not_found decision_not_pending decision_expired target_version_conflict
        target_hash_conflict cancelling invalid_state writer_alive unresolved_external
        side_effect_digest_conflict fencing_required fencing_conflict workspace_unbound
        delta_payload_missing resource_limit no_active_plan model_call_budget_exhausted
        invalid_usage inbox_conflict idempotency_conflict unknown_operation unique_constraint
        no_result invocation_not_found invocation_already_finished :
      Code

pub record DomainError : Type 0 where
  pub class : ErrorClass
  pub code : Code

pub data Result {ℓ} (A : Type ℓ) : Type ℓ where
  ok : A → Result A
  err : DomainError → Result A

abbrev pub raise {ℓ} : {A : Type ℓ} → ErrorClass → Code → Result A
raise c k = err (record { class = c; code = k })

infixl 5 ◌>>◌ ◌>>=◌
-- The statement after one that may have raised.
abbrev pub ◌>>◌ {κ} : {V : Type κ} → Result (Unit {0}) → Result V → Result V
ok _ >> rest = rest
err raised >> rest = err raised

-- The same, where the statement binds a value.
abbrev pub ◌>>=◌ {κ ℓ} : {V : Type κ} {W : Type ℓ} → Result V → (V → Result W) → Result W
◌>>=◌ statement rest = elim statement [ err raised ↦ err raised | ok value ↦ rest value ]

-- `if test: raise ...`
abbrev pub raise_if : Bool → ErrorClass → Code → Result (Unit {0})
raise_if true c k = raise c k
raise_if false c k = ok tt

abbrev pub is_ok {ℓ} : {A : Type ℓ} → Result A → Bool
is_ok (ok _) = true
is_ok (err _) = false
