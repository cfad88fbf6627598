-- ===== src/Application/Dispatch/Start.antt =====
-- service.py: what `_dispatch_ready_runs` writes for a run that it starts, and the run's frozen grant.
use hibiki.Prelude.{ℕ, ◌+◌, true, false, Option, none, some, List, add, remove}
use hibiki.Domain.Defaults.{defaults}
use hibiki.Domain.Enums.{AgentRunStatus, AssignmentKind, WorkUnitStatus, WorkspaceState}
use hibiki.Domain.Execution.{Tool, Ceiling, normalize_ceiling_tools}
use hibiki.Domain.Types.{AuthContext}
use hibiki.Persistence.Models.{
  Store, TaskRow, ContractRow, WorkUnitExecutionRow, WorkspaceRow, AgentRunRow, RunInputRow,
  StoredNode, Command, EventType, Reason,
}
use hibiki.Persistence.Session.{Env}
use hibiki.Application.Base.{set_work_unit, set_workspace, append_event, contract_of}
use hibiki.Application.Stops.{add_outbox}
use hibiki.Application.Dispatch.{Surroundings}

-- The tools of the permission ceiling of the task's contract.
abbrev pub ceiling_of : Option ContractRow → Ceiling
ceiling_of none = Ceiling.dict none
ceiling_of (some c) = Ceiling.dict c.tools

unfoldable pub frozen_tools : TaskRow → ℕ → Store → List Tool
unfolding normalize_ceiling_tools
frozen_tools task task_id s =
    (normalize_ceiling_tools (ceiling_of (contract_of task_id s.contracts task.contract_version))).0

abbrev pub key_of_workspace : Option (ℕ × WorkspaceRow) → Option ℕ
key_of_workspace none = none
key_of_workspace (some (k, w)) = some k

abbrev pub next_fencing : Option (ℕ × WorkspaceRow) → ℕ
next_fencing none = 1
next_fencing (some (k, w)) = w.fencing_epoch + 1

abbrev pub new_run :
    Env → Surroundings → ℕ → TaskRow → StoredNode → Option (ℕ × WorkspaceRow) → ℕ → AgentRunRow
new_run env i task_id task node ws run_id = record {
  task_id = task_id;
  assignment_kind = AssignmentKind.execute;
  planner_session_id = none;
  work_unit_id = some node.work_unit_id;
  agent_instance_id = i.instance_name run_id;
  workspace_id = key_of_workspace ws;
  status = AgentRunStatus.created;
  terminal_reason = none;
  fencing_epoch = next_fencing ws;
  grant_epoch = task.revoke_epoch;
  lease_expires_at = some (env.now + defaults.lease_seconds);
  last_heartbeat_at = none;
  started_at = none;
  finished_at = none;
  result_ref = none;
  sandbox_container_id = none;
  sandbox_exit_unconfirmed = false;
}

abbrev pub path_below : Surroundings → Option ℕ → Option ℕ
path_below i none = none
path_below i (some k) = i.workspace_path k

abbrev pub lock_for : ℕ → WorkspaceRow → WorkspaceRow
lock_for run_id w = record w {
  state = WorkspaceState.locked;
  owner_run_id = some run_id;
  fencing_epoch = w.fencing_epoch + 1;
  writer_alive = true;
}

abbrev pub lock_workspace : Option (ℕ × WorkspaceRow) → ℕ → Store → Store
lock_workspace none run_id s = s
lock_workspace (some (k, w)) run_id s = set_workspace k (lock_for run_id) s

abbrev pub occupy : ℕ → WorkUnitStatus → StoredNode → WorkUnitExecutionRow → WorkUnitExecutionRow
occupy run_id status node w = record w {
  status = status;
  active_run_id = some run_id;
  attempt_count = w.attempt_count + 1;
  spec_version = node.spec_version;
}

abbrev pub add_run : ℕ → AgentRunRow → RunInputRow → ℕ → Store → Store
add_run run_id run input wu_id s = record s {
  runs = add run_id run s.runs;
  run_inputs = add run_id input s.run_inputs;
  execute_markers = add wu_id run_id s.execute_markers;
}

-- The run, its frozen input, the marker, the work unit, the workspace, the start command, the event.
unfoldable pub write_start :
    Env
    → Surroundings
    → AuthContext
    → ℕ
    → TaskRow
    → StoredNode
    → Option (ℕ × WorkspaceRow)
    → ℕ
    → WorkUnitStatus
    → Store
    → Store
unfolding append_event frozen_tools
write_start env i auth task_id task node ws run_id status s =
    append_event env task_id EventType.run_created (some auth.actor_id) (
      add_outbox env task_id task.revoke_epoch (Command.agent_start run_id) (
        lock_workspace ws run_id (
          set_work_unit node.work_unit_id (occupy run_id status node) (
            add_run run_id (new_run env i task_id task node ws run_id)
              (record {
                granted_tools = frozen_tools task task_id s;
                workspace_path = path_below i (key_of_workspace ws);
              })
              node.work_unit_id s))))

abbrev pub drop_stale_marker : ℕ → Store → Store
drop_stale_marker wu_id s = record s { execute_markers = remove wu_id s.execute_markers }

abbrev pub bind_spec : StoredNode → WorkUnitExecutionRow → WorkUnitExecutionRow
bind_spec node w = record w { spec_version = node.spec_version }

abbrev pub block_for : Reason → WorkUnitExecutionRow → WorkUnitExecutionRow
block_for reason w = record w { status = WorkUnitStatus.blocked; blocked_reason = some reason }

abbrev pub draw : ℕ → Store → Store
draw n s = record s { drawn = n + s.drawn }
