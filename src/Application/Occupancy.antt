-- ===== src/Application/Occupancy.antt =====
-- service.py: who occupies a work unit, a planner session and a workspace, and when that ends.
pub mod Frame
use hibiki.Prelude.{
  ℕ, Bool, true, false, ◌&&◌, Option, none, some, Table, get, remove, is_key, if◌then◌else◌,
}
use hibiki.Domain.Enums.{AssignmentKind, WorkspaceState}
use hibiki.Domain.Transitions.{is_terminal_run}
use hibiki.Persistence.Models.{
  Store, AgentRunRow, WorkspaceRow, WorkUnitExecutionRow, PlannerSessionRow,
}
use hibiki.Application.Base.{set_work_unit, set_workspace, for_some}
use hibiki.Prelude.{alter}

abbrev pub is_plan : AssignmentKind → Bool
is_plan AssignmentKind.plan = true
is_plan AssignmentKind.execute = false

-- Delete the marker if it names the run.
abbrev pub drop_marker : ℕ → ℕ → Table ℕ → Table ℕ
drop_marker run_id key markers =
    if is_key (get key markers) run_id then remove key markers else markers

abbrev pub vacate_session : ℕ → PlannerSessionRow → PlannerSessionRow
vacate_session run_id p =
    if is_key p.active_run_id run_id then record p { active_run_id = none } else p

abbrev pub vacate_work_unit : ℕ → WorkUnitExecutionRow → WorkUnitExecutionRow
vacate_work_unit run_id w =
    if is_key w.active_run_id run_id then record w { active_run_id = none } else w

-- The workspace is handed back, unless the sandbox exit of the run is unconfirmed.
abbrev pub vacate_workspace : Bool → ℕ → WorkspaceRow → WorkspaceRow
vacate_workspace unconfirmed run_id w =
    if is_key w.owner_run_id run_id
    then if unconfirmed
      then record w { writer_alive = true; state = WorkspaceState.quarantined }
      else record w { writer_alive = false; state = WorkspaceState.ready; owner_run_id = none }
    else w

abbrev pub clear_planner : ℕ → ℕ → Store → Store
clear_planner run_id session_id s = record s {
  plan_markers = drop_marker run_id session_id s.plan_markers;
  planner_sessions = alter session_id (vacate_session run_id) s.planner_sessions;
}

abbrev pub clear_work_unit : ℕ → ℕ → Store → Store
clear_work_unit run_id work_unit_id s = record s {
  execute_markers = drop_marker run_id work_unit_id s.execute_markers;
  work_units = alter work_unit_id (vacate_work_unit run_id) s.work_units;
}

unfoldable pub clear_run_occupancy : ℕ → AgentRunRow → Bool → Store → Store
clear_run_occupancy run_id run release_workspace s =
    let s1 =
      if is_plan run.assignment_kind
      then for_some run.planner_session_id (clear_planner run_id) s
      else s in
    let s2 = for_some run.work_unit_id (clear_work_unit run_id) s1 in
    if release_workspace
    then for_some run.workspace_id
        (λ ws. set_workspace ws (vacate_workspace run.sandbox_exit_unconfirmed run_id)) s2
    else s2

unfoldable pub release_workspace_after_confirmed_exit : ℕ → AgentRunRow → Store → Store
release_workspace_after_confirmed_exit run_id run s =
    if is_terminal_run run.status
    then for_some run.workspace_id (λ ws. set_workspace ws (vacate_workspace false run_id)) s
    else s

abbrev pub hold_workspace : ℕ → WorkspaceRow → WorkspaceRow
hold_workspace run_id w =
    if is_key w.owner_run_id run_id then record w { writer_alive = true } else w

-- `_keep_start_occupancy`: the start may have reached the adapter.
unfoldable pub keep_start_occupancy : ℕ → AgentRunRow → Store → Store
keep_start_occupancy run_id run s =
    for_some run.workspace_id (λ ws. set_workspace ws (hold_workspace run_id)) s
