-- ===== src/Domain/Enums.antt =====
-- src/hibiki/domain/enums.py: the closed sets of values that rows and commands carry. `opened` is
-- GateLifecycle.OPEN, since `open` is no name here.

pub data ActorType : Type 0 where
  human user_agent internal : ActorType

pub data TaskState : Type 0 where
  new waiting_human planning executing verifying pausing paused cancelling completed failed
        aborted :
      TaskState

pub data ContractStatus : Type 0 where
  draft pending_approval active superseded rejected : ContractStatus

pub data DecisionKind : Type 0 where
  contract_approval contract_delta side_effect_approval final_acceptance clarification
        resource_limit :
      DecisionKind

pub data DecisionStatus : Type 0 where
  pending approved rejected expired superseded : DecisionStatus

pub data GateLifecycle : Type 0 where
  opened approved_pending_apply resolved : GateLifecycle

pub data PlanStatus : Type 0 where
  proposed active superseded rejected : PlanStatus

pub data WorkUnitStatus : Type 0 where
  pending running blocked done failed cancelled : WorkUnitStatus

pub data AgentRunStatus : Type 0 where
  created running succeeded failed timed_out cancelled lost : AgentRunStatus

pub data AssignmentKind : Type 0 where
  plan execute : AssignmentKind

pub data SideEffectState : Type 0 where
  proposed waiting_approval authorized dispatching succeeded failed_confirmed unknown cancelled :
      SideEffectState

pub data WorkspaceState : Type 0 where
  ready locked quarantined archived : WorkspaceState

pub data Verdict : Type 0 where
  pass fail blocked : Verdict

pub data DependencyPredicate : Type 0 where
  done verdict_pass : DependencyPredicate

pub data OutboxStatus : Type 0 where
  pending in_flight acked dead : OutboxStatus

pub data WaitingReason : Type 0 where
  clarification contract_approval contract_delta side_effect_approval final_acceptance
        resource_limit execution_blocked execution_uncertain :
      WaitingReason
