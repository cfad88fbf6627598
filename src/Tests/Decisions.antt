-- ===== src/Tests/Decisions.antt =====
-- Decisions at concrete inputs.
use hibiki.Prelude.{◌≡◌, refl, true, false, none, some, [], ◌∷◌}
use hibiki.Domain.Enums.{
  TaskState, AgentRunStatus, SideEffectState, DecisionKind, DecisionStatus, GateLifecycle,
  WaitingReason,
}
use hibiki.Domain.Guards.{guard_human_decision}
use hibiki.Persistence.Models.{Store, DecisionRow, GateRow, Reason}
use hibiki.Persistence.Session.{pure, run, success}
use hibiki.Application.Base.{
  get_task, set_task_state, append_event, active_contract, has_blocking_gate,
}
use hibiki.Application.Decisions.{
  Acceptance, Resolution, resolve_decision, resolve_as, resolve_pending, apply_choice, settle,
  apply_approved_decision, apply_kind, approve_contract, activate,
}
use hibiki.Application.Decisions.Contracts.{IsInForce, resolve_decision-IsInForce}
use hibiki.Application.Decisions.Reject.{resolve_decision-rejects}
use hibiki.Application.Recovery.{recompute_runnable_state}
use hibiki.Tests.Data.{env, human, store_of}

abbrev acceptance : Acceptance
acceptance = record { accept_result = λ _ _. pure tt; has_payload = λ _. false }

-- Version 1 of the contract of task 7 waits for approval.
abbrev asked : DecisionRow
asked = record {
  task_id = 7;
  decision_kind = DecisionKind.contract_approval;
  target_ref = 0;
  target_version = 1;
  target_hash = 55;
  status = DecisionStatus.pending;
  expires_at = 200;
  gate_lifecycle = GateLifecycle.opened;
}

abbrev gate : GateRow
gate = record {
  task_id = 7;
  decision_id = 50;
  reason = Reason.waiting WaitingReason.contract_approval;
  lifecycle = GateLifecycle.opened;
  resolved_at = none;
}

abbrev waiting : Store
waiting =
    record (store_of TaskState.waiting_human AgentRunStatus.lost SideEffectState.proposed []) {
      decisions = (50, asked) ∷ [];
      gates = (51, gate) ∷ [];
    }

abbrev yes : Resolution
yes = record {
  decision_id = 50;
  approve = true;
  expected_target_version = some 1;
  expected_target_hash = none;
}

abbrev approved : Store
approved = (run (resolve_decision env human acceptance yes) waiting).1

resolve_decision-IsInForce_example : IsInForce asked approved
unfolding run resolve_decision guard_human_decision resolve_as resolve_pending apply_choice
    apply_approved_decision apply_kind approve_contract activate get_task set_task_state
    append_event active_contract
resolve_decision-IsInForce_example =
    resolve_decision-IsInForce env human acceptance yes waiting approved asked
      (success (record {
        decision_id = 50;
        status = DecisionStatus.approved;
        task_state = some TaskState.executing;
        replayed = false;
      }))
      refl refl refl refl refl

abbrev no_thanks : Resolution
no_thanks = record yes { approve = false }

abbrev rejected : Store
rejected = (run (resolve_decision env human acceptance no_thanks) waiting).1

resolve_decision-rejects_example :
    (rejected.side_effects ≡ waiting.side_effects)
    × (rejected.contracts ≡ waiting.contracts)
    × (rejected.active_contracts ≡ waiting.active_contracts)
unfolding run resolve_decision guard_human_decision resolve_as resolve_pending apply_choice settle
    recompute_runnable_state has_blocking_gate get_task set_task_state append_event
resolve_decision-rejects_example =
    resolve_decision-rejects env human acceptance no_thanks waiting rejected
      (success (record {
        decision_id = 50;
        status = DecisionStatus.rejected;
        task_state = some TaskState.executing;
        replayed = false;
      }))
      refl refl
