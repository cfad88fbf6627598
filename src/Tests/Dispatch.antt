-- ===== src/Tests/Dispatch.antt =====
-- Dispatches at concrete inputs.
use hibiki.Prelude.{◌+◌, ◌≡◌, ◌≤◌, ◌⊎◌, refl, true, false, none, some, [], ◌∷◌, get, arith}
use hibiki.Domain.Enums.{TaskState, AgentRunStatus, SideEffectState, WorkUnitStatus, ActorType}
use hibiki.Domain.Execution.{Tool, in_catalog, has_tool, normalize_ceiling_tools, sort_tools}
use hibiki.Domain.Types.{AuthContext}
use hibiki.Persistence.Models.{Store, PlanRow, AgentRunRow, StoredNode}
use hibiki.Persistence.Session.{run, success}
use hibiki.Domain.Guards.{guard_dispatch}
use hibiki.Application.Base.{
  count_active_runs, get_task, append_event, active_contract, has_blocking_gate,
}
use hibiki.Application.Dispatch.{
  Surroundings, is_held, is_ready, deps_satisfied, node_workspace, is_free,
}
use hibiki.Application.Dispatch.Start.{write_start, frozen_tools, new_run}
use hibiki.Application.Dispatch.Rounds.{
  dispatch_nodes, dispatch_node, dispatch_unit, consider, begin, attempt, start_unless, start_run,
}
use hibiki.Application.Dispatch.Handler.{
  dispatch_ready_runs, unless_refused, within_budget, run_plan, dispatch_guard,
}
use hibiki.Application.Dispatch.Limits.{dispatch_ready_runs-bounded}
use hibiki.Application.Dispatch.Writers.{dispatch_ready_runs-held}
use hibiki.Application.Dispatch.Grants.{allowed_in_contract, contract_tools}
use hibiki.Tools.Broker.{ToolRequest, authorize_in_tx, authorize_run, record_decision}
use hibiki.Tests.Data.{env, human, store_of, workspace, work_unit, task_in}

abbrev places : Surroundings
places = record {
  workspace_name = λ k. k + 20;
  instance_name = λ k. k + 1;
  workspace_path = λ k. some k;
  overflows = λ _ _. false;
}

abbrev node : StoredNode
node = record { work_unit_id = 10; spec_version = 1; workspace_id = none }

abbrev plan : PlanRow
plan = record { plan_version = 1; nodes = node ∷ []; edges = [] }

-- The plan of task 7 has one node, work unit 10, which is PENDING; run 20 owned its workspace.
abbrev planned : AgentRunStatus → Store
planned status = record (store_of TaskState.executing status SideEffectState.authorized []) {
  plans = (7, plan) ∷ [];
  execute_markers = [];
  work_units = (10, record work_unit { status = WorkUnitStatus.pending }) ∷ [];
}

abbrev dispatched : Store
dispatched = (run (dispatch_ready_runs env places human 7 (λ n. n)) (planned AgentRunStatus.lost)).1

dispatch_ready_runs-bounded_example :
    (count_active_runs none dispatched ≤ 4) × (count_active_runs (some 7) dispatched ≤ 2)
unfolding run dispatch_ready_runs get_task dispatch_guard guard_dispatch active_contract
    has_blocking_gate unless_refused within_budget run_plan dispatch_nodes dispatch_node
    dispatch_unit consider is_ready deps_satisfied node_workspace is_free is_held begin attempt
    start_unless start_run write_start frozen_tools append_event count_active_runs
dispatch_ready_runs-bounded_example =
    dispatch_ready_runs-bounded env places human 7 (λ n. n) (planned AgentRunStatus.lost) dispatched
      (success (1000 ∷ [])) (omega arith) (omega arith) refl

dispatch_ready_runs-held_example :
    (get 30 (planned AgentRunStatus.running).workspaces ≡ some workspace)
    × (is_held workspace (planned AgentRunStatus.running).runs ≡ true)
unfolding dispatch_ready_runs get_task dispatch_guard guard_dispatch active_contract
    has_blocking_gate unless_refused within_budget run_plan dispatch_nodes dispatch_node
    dispatch_unit consider is_ready deps_satisfied node_workspace is_free is_held begin attempt
    start_unless start_run write_start frozen_tools append_event count_active_runs
dispatch_ready_runs-held_example =
    dispatch_ready_runs-held env places human 7 (λ n. n) (planned AgentRunStatus.running)
      (planned AgentRunStatus.running) (success []) 30 workspace refl refl refl

-- A credential for run 1000, which the dispatch has started and which is RUNNING now.
abbrev worker : AuthContext
worker = record human {
  actor_type = ActorType.internal;
  actor_id = 1001;
  bound_task_id = some 7;
  bound_run_id = some 1000;
  bound_fencing_epoch = some 2;
  bound_grant_epoch = some 3;
}

abbrev shell : ToolRequest
shell = record {
  run_id = 1000;
  task_id = some 7;
  work_unit_id = some 10;
  tool_name = Tool.shell_run;
  grant_epoch = 3;
  fencing_epoch = 2;
  sequence_no = 1;
}

abbrev started : Store
started =
    write_start env places human 7 (task_in TaskState.executing) node (some (30, workspace)) 1000
      WorkUnitStatus.running (planned AgentRunStatus.lost)

abbrev its_run : AgentRunRow
its_run =
    record (new_run env places 7 (task_in TaskState.executing) node (some (30, workspace)) 1000) {
      status = AgentRunStatus.running;
    }

abbrev working : Store
working = record started { runs = (1000, its_run) ∷ [] }

allowed_in_contract_example :
    (in_catalog Tool.shell_run ≡ true)
    × ((Tool.shell_run ≡ Tool.fs_read)
        ⊎ (has_tool Tool.shell_run
              (contract_tools (task_in TaskState.executing) 7 (planned AgentRunStatus.lost))
            ≡ true))
unfolding write_start frozen_tools append_event authorize_in_tx authorize_run record_decision
    normalize_ceiling_tools sort_tools has_blocking_gate
allowed_in_contract_example =
    allowed_in_contract env env places human worker 7 (task_in TaskState.executing)
      (task_in TaskState.executing) node (some (30, workspace)) WorkUnitStatus.running
      (planned AgentRunStatus.lost) working shell its_run refl refl refl refl refl
