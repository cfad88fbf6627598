-- ===== src/Application/Dispatch/Grants.antt =====
-- Which tools a run that was dispatched may use: the frozen grant, and what the broker makes of it.
use hibiki.Prelude.{
  ℕ, ◌≡◌, ◌∙◌, refl, ap, ◌⊎◌, inl, inr, true, ◌&&◌, Option, none, some, List, arith, get, add,
  get-add,
}
use hibiki.Domain.Enums.{WorkUnitStatus}
use hibiki.Domain.Execution.{Tool, in_catalog, has_tool, requested}
use hibiki.Domain.Execution.Laws.{normalize_ceiling_tools_iff}
use hibiki.Domain.Types.{AuthContext}
use hibiki.Persistence.Models.{Store, TaskRow, WorkspaceRow, AgentRunRow, RunInputRow, StoredNode}
use hibiki.Persistence.Session.{Env}
use hibiki.Application.Base.{append_event, contract_of, set_work_unit}
use hibiki.Application.Dispatch.{Surroundings}
use hibiki.Application.Dispatch.Start.{
  write_start, frozen_tools, ceiling_of, path_below, key_of_workspace, lock_workspace, occupy,
  add_run, new_run,
}
use hibiki.Tools.Broker.{ToolRequest, authorize_in_tx}
use hibiki.Tools.Broker.Authorize.{was_allowed, authorize_in_tx_iff}

abbrev pub contract_tools : TaskRow → ℕ → Store → List Tool
contract_tools task task_id s =
    requested (ceiling_of (contract_of task_id s.contracts task.contract_version))

abbrev frozen_input : Surroundings → TaskRow → ℕ → Option (ℕ × WorkspaceRow) → Store → RunInputRow
frozen_input i task task_id ws s = record {
  granted_tools = frozen_tools task task_id s;
  workspace_path = path_below i (key_of_workspace ws);
}

lock_workspace-run_inputs :
    (ws : Option (ℕ × WorkspaceRow)) (run_id : ℕ) (s : Store)
    → (lock_workspace ws run_id s).run_inputs ≡ s.run_inputs
lock_workspace-run_inputs none run_id s = refl
lock_workspace-run_inputs (some (k, w)) run_id s = refl

fresh_input :
    (run_id : ℕ) (input : RunInputRow) (s : Store)
    → get run_id s.run_inputs ≡ none
    → get run_id (add run_id input s.run_inputs) ≡ some input
fresh_input run_id input s n = ground (arith, get-add run_id run_id input s.run_inputs)

write_start-input :
    (env : Env) (i : Surroundings) (auth : AuthContext) (task_id : ℕ) (task : TaskRow)
    (node : StoredNode) (ws : Option (ℕ × WorkspaceRow)) (run_id : ℕ) (status : WorkUnitStatus)
    (s : Store)
    → get run_id s.run_inputs ≡ none
    → get run_id (write_start env i auth task_id task node ws run_id status s).run_inputs
      ≡ some (frozen_input i task task_id ws s)
unfolding write_start append_event
write_start-input env i auth task_id task node ws run_id status s n =
    let input = frozen_input i task task_id ws s in
    let before =
      set_work_unit node.work_unit_id (occupy run_id status node)
        (add_run run_id (new_run env i task_id task node ws run_id) input node.work_unit_id s) in
    ap (get run_id) (lock_workspace-run_inputs ws run_id before) ∙ fresh_input run_id input s n

granted_in_contract :
    (t : Tool) (task : TaskRow) (task_id : ℕ) (s : Store)
    → (in_catalog t && has_tool t (frozen_tools task task_id s)) ≡ true
    → (in_catalog t ≡ true)
      × ((t ≡ Tool.fs_read) ⊎ (has_tool t (contract_tools task task_id s) ≡ true))
unfolding frozen_tools
granted_in_contract t task task_id s h =
    let ceiling = ceiling_of (contract_of task_id s.contracts task.contract_version) in
    let (to, from) = (normalize_ceiling_tools_iff t ceiling).0 in
    elim (to (ground arith)) [
      | inl read ↦ (ground arith, inl read)
      | inr (cat, asked) ↦ (cat, inr asked)
    ]

-- A tool call that the broker allows to a run is a call of a catalog tool that the contract in force
-- when the run was started asks for, or a read: the dispatch freezes the grant, and what the
-- contract becomes later does not matter. The run's input must not have been written before.
pub allowed_in_contract :
    (env later : Env) (i : Surroundings) (auth worker : AuthContext) (task_id : ℕ)
    (task now : TaskRow) (node : StoredNode) (ws : Option (ℕ × WorkspaceRow))
    (status : WorkUnitStatus) (s s' : Store) (q : ToolRequest) (r : AgentRunRow)
    → get q.run_id s.run_inputs ≡ none
    → get q.run_id s'.run_inputs
      ≡ get q.run_id (write_start env i auth task_id task node ws q.run_id status s).run_inputs
    → get q.run_id s'.runs ≡ some r
    → get r.task_id s'.tasks ≡ some now
    → was_allowed (authorize_in_tx later worker q s') ≡ true
    → (in_catalog q.tool_name ≡ true)
      × ((q.tool_name ≡ Tool.fs_read)
          ⊎ (has_tool q.tool_name (contract_tools task task_id s) ≡ true))
allowed_in_contract env later i auth worker task_id task now node ws status s s' q r n kept e t h =
    let input = frozen_input i task task_id ws s in
    let found = kept ∙ write_start-input env i auth task_id task node ws q.run_id status s n in
    let (_, _, _, _, _, granted, _) =
      (authorize_in_tx_iff later worker q s' r input now e found t).0 h in
    granted_in_contract q.tool_name task task_id s granted
