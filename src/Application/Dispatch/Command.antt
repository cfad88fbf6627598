-- ===== src/Application/Dispatch/Command.antt =====
-- What the loop of a dispatch keeps of runs and workspaces, the whole command keeps.
use hibiki.Prelude.{
  ℕ, ◌≡◌, refl, ◌∙◌, Bool, true, false, Option, none, some, List, [], get, not, ◌==◌, leb,
}
use hibiki.Domain.Enums.{WaitingReason}
use hibiki.Domain.Errors.{Result, ok, err, ErrorClass, Code}
use hibiki.Domain.Transitions.{TaskEvent}
use hibiki.Domain.Types.{AuthContext}
use hibiki.Persistence.Models.{Store, TaskRow, PlanRow, Reason, AgentRunRow, WorkspaceRow}
use hibiki.Persistence.Session.{Env, done, CommandResult, fail_if}
use hibiki.Persistence.Session.Frame.{
  Keeps, bind-Keeps, modify-Keeps, fail_if-Keeps, Ensures, Ensures-done, bind-Ensures,
}
use hibiki.Prelude.{Table}
use hibiki.Application.Base.{count_active_runs, get_task}
use hibiki.Application.Base.Frame.{get_task-Keeps, set_task_state-Keeps}
use hibiki.Application.Dispatch.{Surroundings}
use hibiki.Application.Dispatch.Rounds.{Round, dispatch_nodes}
use hibiki.Application.Dispatch.Handler.{
  open_resource_gate, run_plan, within_budget, unless_refused, dispatch_guard, dispatch_ready_runs,
}

-- What a dispatch reads of its surroundings to decide who may write.
abbrev pub places : Store → Table AgentRunRow × Table WorkspaceRow
places s = (s.runs, s.workspaces)

open_resource_gate-Keeps :
    (env : Env) (task_id hash : ℕ) → Keeps places (open_resource_gate env task_id hash)
unfolding open_resource_gate
open_resource_gate-Keeps env task_id hash =
    bind-Keeps places _ _ (modify-Keeps places _ (λ s. refl)) (λ _.
      set_task_state-Keeps places (λ k f s. refl) env task_id TaskEvent.blocking_gate_opened
        (some (Reason.waiting WaitingReason.resource_limit)))

-- The counters with which the loop starts.
abbrev pub first_round : ℕ → Store → Round
first_round task_id s = record {
  global_active = count_active_runs none s;
  task_active = count_active_runs (some task_id) s;
  created = [];
}

module _ (env : Env) (i : Surroundings) (auth : AuthContext) (task_id : ℕ) (hash_of : ℕ → ℕ)
    (p : Store → Type 0) (stable : (s s' : Store) → places s' ≡ places s → p s → p s')
    (loop : (task : TaskRow) (plan : PlanRow) (s : Store)
      → p s
      → Ensures
          (λ _ s'. p s')
          (dispatch_nodes env i auth task_id task plan.edges plan.nodes
            (first_round task_id s)
            s)) where
  abbrev Kept : CommandResult (List ℕ) → Store → Type 0
  Kept r s = p s

  abbrev LoopKept : Round → Store → Type 0
  LoopKept r s = p s

  run_plan-Kept :
      (task : TaskRow) (plan : Option PlanRow) (s : Store)
      → p s
      → Ensures Kept (run_plan env i auth task_id task plan s)
  unfolding run_plan
  run_plan-Kept task none s b = b
  run_plan-Kept task (some plan) s b =
      let visit =
        dispatch_nodes env i auth task_id task plan.edges plan.nodes (first_round task_id s) in
      bind-Ensures Kept visit _ s
        (λ r s1 e. Ensures-done LoopKept visit s r s1 (loop task plan s b) e)

  within_budget-Kept :
      (task : TaskRow) (hash : ℕ) (b : Bool) (s : Store)
      → p s
      → Ensures Kept (within_budget env i auth task_id task hash b s)
  unfolding within_budget
  within_budget-Kept task hash true s b =
      bind-Ensures Kept (open_resource_gate env task_id hash) _ s
        (λ u s1 e. stable s s1 (open_resource_gate-Keeps env task_id hash s u s1 e) b)
  within_budget-Kept task hash false s b = run_plan-Kept task (get task_id s.plans) s b

  unless_refused-Kept :
      (task : TaskRow) (hash : ℕ) (g : Result (Unit {0})) (s : Store)
      → p s
      → Ensures Kept (unless_refused env i auth task_id task hash g s)
  unfolding unless_refused
  unless_refused-Kept task hash (err e) s b = b
  unless_refused-Kept task hash (ok _) s b =
      within_budget-Kept task hash (leb task.model_call_limit task.model_calls_used) s b

  dispatch-Kept :
      (s : Store) → p s → Ensures Kept (dispatch_ready_runs env i auth task_id hash_of s)
  unfolding dispatch_ready_runs
  dispatch-Kept s b = bind-Ensures Kept (get_task task_id) _ s (λ task s1 e.
      let refuses = not (auth.principal_id == task.principal_id) in
      bind-Ensures Kept (fail_if refuses ErrorClass.authorization Code.authorization_denied) _ s1
        (λ _ s2 f.
          unless_refused-Kept task (hash_of task.model_call_limit) (dispatch_guard task_id task s2)
            s2
            (stable s s2
              (fail_if-Keeps places refuses ErrorClass.authorization Code.authorization_denied s1 tt
                  s2 f
                ∙ get_task-Keeps places task_id s task s1 e)
              b)))

  pub dispatch_ready_runs-keeps :
      (s s' : Store) (r : CommandResult (List ℕ))
      → p s
      → dispatch_ready_runs env i auth task_id hash_of s ≡ done r s'
      → p s'
  dispatch_ready_runs-keeps s s' r b h =
      Ensures-done Kept (dispatch_ready_runs env i auth task_id hash_of) s r s' (dispatch-Kept s b)
        h
