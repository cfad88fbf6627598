-- ===== src/Application/Dispatch/Handler.antt =====
-- service.py: `_dispatch_ready_runs`, and the gate for an exhausted budget.
use hibiki.Prelude.{
  ℕ, ◌+◌, ◌*◌, Bool, true, false, not, Option, none, some, List, [], get, leb, ◌==◌,
}
use hibiki.Domain.Defaults.{defaults}
use hibiki.Domain.Enums.{DecisionKind, WaitingReason}
use hibiki.Domain.Errors.{Result, ok, err, ErrorClass, Code}
use hibiki.Domain.Guards.{guard_dispatch}
use hibiki.Domain.Transitions.{TaskEvent}
use hibiki.Domain.Types.{AuthContext}
use hibiki.Persistence.Models.{Store, TaskRow, PlanRow, Reason}
use hibiki.Persistence.Session.{
  Env, M, gets, modify, fail_if, pure, ◌>>=◌, ◌>>◌, CommandResult, success, failure,
}
use hibiki.Application.Base.{
  get_task, set_task_state, has_blocking_gate, active_contract, count_active_runs,
}
use hibiki.Application.Effects.{has_contract}
use hibiki.Application.Proposals.{add_decision}
use hibiki.Application.Dispatch.{Surroundings}
use hibiki.Application.Dispatch.Rounds.{dispatch_nodes}

-- `hash` stands for the hash of the limit, and 0 for "budget".
unfoldable pub open_resource_gate : Env → ℕ → ℕ → M (Unit {0})
unfolding set_task_state
open_resource_gate env task_id hash = do
  modify (
      add_decision env task_id DecisionKind.resource_limit 0 hash
        (env.now + defaults.decision_ttl_hours * 3600)
        (Reason.waiting WaitingReason.resource_limit))
  set_task_state env task_id TaskEvent.blocking_gate_opened
      (some (Reason.waiting WaitingReason.resource_limit))

unfoldable pub run_plan :
    Env → Surroundings → AuthContext → ℕ → TaskRow → Option PlanRow → M (CommandResult (List ℕ))
unfolding dispatch_nodes count_active_runs
run_plan env i auth task_id task none = pure (failure Code.no_active_plan)
run_plan env i auth task_id task (some plan) = do
  global ← gets (count_active_runs none)
  own ← gets (count_active_runs (some task_id))
  r ←
      dispatch_nodes env i auth task_id task plan.edges plan.nodes
        (record { global_active = global; task_active = own; created = [] })
  pure (success r.created)

unfoldable pub within_budget :
    Env → Surroundings → AuthContext → ℕ → TaskRow → ℕ → Bool → M (CommandResult (List ℕ))
unfolding run_plan open_resource_gate
within_budget env i auth task_id task hash true = do
  open_resource_gate env task_id hash
  pure (failure Code.resource_limit)
within_budget env i auth task_id task hash false = do
  plan ← gets (λ s. get task_id s.plans)
  run_plan env i auth task_id task plan

unfoldable pub dispatch_guard : ℕ → TaskRow → Store → Result (Unit {0})
unfolding guard_dispatch active_contract has_blocking_gate
dispatch_guard task_id task s =
    guard_dispatch task.state (has_contract (active_contract task_id s))
      (has_blocking_gate task_id s) task.cancel_intent task.pause_intent

unfoldable pub unless_refused :
    Env
    → Surroundings
    → AuthContext
    → ℕ
    → TaskRow
    → ℕ
    → Result (Unit {0})
    → M (CommandResult (List ℕ))
unfolding within_budget
unless_refused env i auth task_id task hash (err e) = pure (failure e.code)
unless_refused env i auth task_id task hash (ok _) =
    within_budget env i auth task_id task hash (leb task.model_call_limit task.model_calls_used)

unfoldable pub dispatch_ready_runs :
    Env → Surroundings → AuthContext → ℕ → (ℕ → ℕ) → M (CommandResult (List ℕ))
unfolding get_task dispatch_guard unless_refused
dispatch_ready_runs env i auth task_id hash_of = do
  task ← get_task task_id
  fail_if (not (auth.principal_id == task.principal_id)) ErrorClass.authorization
      Code.authorization_denied
  refusal ← gets (dispatch_guard task_id task)
  unless_refused env i auth task_id task (hash_of task.model_call_limit) refusal
