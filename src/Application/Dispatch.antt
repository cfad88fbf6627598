-- ===== src/Application/Dispatch.antt =====
-- service.py: the dispatch of the ready work units of a plan. The context manifest is left out; what
-- it reports of its size, and the names of workspaces, agents and paths, are an argument.
pub mod Start
pub mod Rounds
pub mod Handler
pub mod Counts
pub mod Limits
pub mod Held
pub mod Command
pub mod Writers
pub mod Grants
use hibiki.Prelude.{
  ℕ, Bool, true, false, not, ◌&&◌, ◌||◌, Option, none, some, List, [], ◌∷◌, get, ltb, leb, ◌==◌,
  is_key, is_some, Table, if◌then◌else◌, eq_option,
}
use hibiki.Domain.Enums.{WorkUnitStatus, WorkspaceState, Verdict, DependencyPredicate}
use hibiki.Domain.Plan.{PlanEdge, is_verdict_pass}
use hibiki.Persistence.Models.{Store, WorkUnitExecutionRow, WorkspaceRow, AgentRunRow, StoredNode}
use hibiki.Persistence.Session.{Env}
use hibiki.Application.Base.{is_active_run}

-- `f"ws_{wu_id}"`, `f"local:{run_id}"`, the path below the root, and whether the mandatory context of
-- a work unit is larger than its budget.
pub record Surroundings : Type 0 where
  pub workspace_name : ℕ → ℕ
  pub instance_name : ℕ → ℕ
  pub workspace_path : ℕ → Option ℕ
  pub overflows : ℕ → Store → Bool

abbrev pub is_done : WorkUnitStatus → Bool
is_done WorkUnitStatus.done = true
is_done _ = false

abbrev pub is_pending_unit : WorkUnitStatus → Bool
is_pending_unit WorkUnitStatus.pending = true
is_pending_unit _ = false

abbrev pub is_pass : Option Verdict → Bool
is_pass (some Verdict.pass) = true
is_pass _ = false

-- `needed and dep.verified_artifact_hash != needed` does not hold.
abbrev pub has_artifact : Option ℕ → Option ℕ → Bool
has_artifact none hash = true
has_artifact (some needed) hash = is_key hash needed

abbrev pub meets : DependencyPredicate → Option ℕ → WorkUnitExecutionRow → Bool
meets DependencyPredicate.done hash dep = is_done dep.status
meets DependencyPredicate.verdict_pass hash dep =
    is_done dep.status
    && is_pass dep.selected_verdict
    && has_artifact hash dep.verified_artifact_hash

abbrev pub edge_holds : PlanEdge → Option WorkUnitExecutionRow → Bool
edge_holds e none = false
edge_holds e (some dep) = meets e.predicate e.artifact_hash dep

unfoldable pub deps_satisfied : ℕ → List PlanEdge → Store → Bool
deps_satisfied wu_id [] s = true
deps_satisfied wu_id (e ∷ es) s =
    let rest = deps_satisfied wu_id es s in
    if e.to_work_unit_id == wu_id
    then edge_holds e (get e.from_work_unit_id s.work_units) && rest
    else rest

-- `next_retry_at` lies in the future.
abbrev pub is_waiting_retry : Env → Option ℕ → Bool
is_waiting_retry env none = false
is_waiting_retry env (some at) = ltb env.now at

-- The key of the first workspace of the work unit, and its row.
abbrev pub workspace_of_unit : ℕ → Table WorkspaceRow → Option ℕ
workspace_of_unit wu_id [] = none
workspace_of_unit wu_id ((k, w) ∷ t) =
    if w.work_unit_id == wu_id then some k else workspace_of_unit wu_id t

abbrev pub with_key : ℕ → Option WorkspaceRow → Option (ℕ × WorkspaceRow)
with_key k none = none
with_key k (some w) = some (k, w)

abbrev pub row_at : Option ℕ → Table WorkspaceRow → Option (ℕ × WorkspaceRow)
row_at none t = none
row_at (some k) t = with_key k (get k t)

abbrev pub or_row :
    Option (ℕ × WorkspaceRow) → Option (ℕ × WorkspaceRow) → Option (ℕ × WorkspaceRow)
or_row none other = other
or_row (some row) other = some row

abbrev pub or_name : Option ℕ → ℕ → ℕ
or_name none name = name
or_name (some k) name = k

unfoldable pub node_workspace : Surroundings → StoredNode → Store → Option (ℕ × WorkspaceRow)
node_workspace i node s =
    let ws_id = or_name node.workspace_id (i.workspace_name node.work_unit_id) in
    or_row (row_at (some ws_id) s.workspaces)
      (row_at (workspace_of_unit node.work_unit_id s.workspaces) s.workspaces)

abbrev pub is_quarantined_state : WorkspaceState → Bool
is_quarantined_state WorkspaceState.quarantined = true
is_quarantined_state _ = false

abbrev pub is_live : Option AgentRunRow → Bool
is_live none = false
is_live (some run) = is_active_run run.status

abbrev pub live_owner : Option ℕ → Table AgentRunRow → Bool
live_owner none runs = false
live_owner (some run_id) runs = is_live (get run_id runs)

-- No second writer: the workspace is quarantined, has a writer, or its owner is CREATED or RUNNING.
unfoldable pub is_held : WorkspaceRow → Table AgentRunRow → Bool
is_held w runs =
    is_quarantined_state w.state
    || (w.writer_alive && is_some w.owner_run_id)
    || live_owner w.owner_run_id runs

unfoldable pub is_free : Option (ℕ × WorkspaceRow) → Table AgentRunRow → Bool
unfolding is_held
is_free none runs = true
is_free (some (k, w)) runs = not (is_held w runs)

-- The marker of a run that is CREATED or RUNNING.
abbrev pub has_live_marker : ℕ → Store → Bool
has_live_marker wu_id s = live_owner (get wu_id s.execute_markers) s.runs

unfoldable pub is_ready :
    Env → Surroundings → List PlanEdge → StoredNode → WorkUnitExecutionRow → Store → Bool
unfolding deps_satisfied node_workspace is_free
is_ready env i edges node wu s =
    not (is_waiting_retry env wu.next_retry_at)
    && deps_satisfied node.work_unit_id edges s
    && is_free (node_workspace i node s) s.runs
    && not (has_live_marker node.work_unit_id s)
