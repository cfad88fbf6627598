-- ===== src/Tests/Broker.antt =====
-- Tool calls at concrete inputs.
use hibiki.Prelude.{ℕ, ◌≡◌, ◌↔◌, ◌≤◌, refl, true, false, none, some, List, [], ◌∷◌, ◌&&◌, ◌==◌, ltb}
use hibiki.Domain.Enums.{TaskState, AgentRunStatus, SideEffectState}
use hibiki.Domain.Errors.{ok, err}
use hibiki.Domain.Execution.{Tool, in_catalog, has_tool}
use hibiki.Persistence.Models.{Store, RunInputRow, ToolOutcome, DenyReason}
use hibiki.Persistence.Session.{run}
use hibiki.Application.Base.{has_blocking_gate}
use hibiki.Tools.Broker.{
  ToolRequest, authorize_in_tx, authorize_run, record_decision, binding_error, is_running_status,
  task_frozen, sequence_taken, decision_of, invocation_row,
}
use hibiki.Tools.Broker.Finish.{record_outcome, bound_invocation, eq_outcome}
use hibiki.Tools.Broker.Files.{FileSystem, FileReply, ToolParameters, value, fs_read, take, length}
use hibiki.Tools.Broker.Authorize.{
  was_allowed, unique_constraint, IsAudited, authorize_in_tx_iff, authorize_in_tx-audits,
  authorize_in_tx-taken,
}
use hibiki.Tools.Broker.Audit.{fs_read-limits, record_outcome-final}
use hibiki.Tests.Data.{env, store_of, run_in, task_in}
use hibiki.Tests.Runs.{runtime}

abbrev input : RunInputRow
input = record { granted_tools = Tool.fs_read ∷ Tool.fs_write ∷ []; workspace_path = some 5 }

-- Run 20 is RUNNING with a frozen input.
abbrev ready : Store
ready = record (store_of TaskState.executing AgentRunStatus.running SideEffectState.authorized []) {
  run_inputs = (20, input) ∷ [];
}

abbrev ask : Tool → ToolRequest
ask tool = record {
  run_id = 20;
  task_id = some 7;
  work_unit_id = none;
  tool_name = tool;
  grant_epoch = 1;
  fencing_epoch = 1;
  sequence_no = 1;
}

authorize_in_tx_iff_example :
    (was_allowed (authorize_in_tx env runtime (ask Tool.fs_read) ready) ≡ true) ↔ (
      (binding_error runtime 20
          (run_in AgentRunStatus.running)
          (task_in TaskState.executing)
          (some (ask Tool.fs_read))
        ≡ false)
      × (is_running_status AgentRunStatus.running ≡ true)
      × ((1 == 1) ≡ true)
      × ((1 == 1) ≡ true)
      × (task_frozen 7 (task_in TaskState.executing) ready ≡ false)
      × ((in_catalog Tool.fs_read && has_tool Tool.fs_read (Tool.fs_read ∷ Tool.fs_write ∷ []))
          ≡ true)
      × (sequence_taken 7 (ask Tool.fs_read) ready ≡ false))
authorize_in_tx_iff_example =
    authorize_in_tx_iff env runtime (ask Tool.fs_read) ready (run_in AgentRunStatus.running) input
      (task_in TaskState.executing) refl refl refl

-- After a call of shell.run, which is not granted.
abbrev refused : Store
refused = (run (authorize_in_tx env runtime (ask Tool.shell_run)) ready).1

authorize_in_tx-audits_example :
    IsAudited env
      (run_in AgentRunStatus.running)
      (ask Tool.shell_run)
      ready
      (decision_of (some DenyReason.tool_not_granted) 1000)
      refused
unfolding run authorize_in_tx authorize_run record_decision has_blocking_gate
authorize_in_tx-audits_example =
    authorize_in_tx-audits env runtime (ask Tool.shell_run) ready refused
      (run_in AgentRunStatus.running) (decision_of (some DenyReason.tool_not_granted) 1000) refl
      refl

authorize_in_tx-taken_example :
    run (authorize_in_tx env runtime (ask Tool.fs_read)) refused ≡ (err unique_constraint, refused)
unfolding run authorize_in_tx authorize_run record_decision has_blocking_gate
authorize_in_tx-taken_example =
    authorize_in_tx-taken env runtime (ask Tool.fs_read) refused (run_in AgentRunStatus.running)
      refl refl

abbrev file : List ℕ
file = 1 ∷ 2 ∷ 3 ∷ []

-- Every file holds three bytes, which are ASCII.
abbrev disk : FileSystem
disk = record {
  is_dir = λ _. true;
  realpath = λ p. p;
  is_inside = λ _ _. true;
  read_file = λ _ _. value file;
  list_dir = λ _ _. value [];
  atomic_write = λ _ _ _. value 4;
  decode = λ bytes. bytes;
  sha256 = λ bytes. length bytes;
}

abbrev two_bytes : ToolParameters
two_bytes = record { path = some 8; max_bytes = some 2; content = none }

fs_read-limits_example :
    (fs_read disk (value 5) two_bytes
      ≡ value (FileReply.read (take 2 file) 2 (length (take 2 file)) (ltb 2 (length file))))
    × (length (take 2 file) ≤ 2)
fs_read-limits_example = fs_read-limits disk 5 8 2 file two_bytes refl refl refl

-- After the decision that allows a read.
abbrev allowed : Store
allowed = (run (authorize_in_tx env runtime (ask Tool.fs_read)) ready).1

-- After the call.
abbrev finished : Store
finished = (run (record_outcome env runtime 1000 ToolOutcome.ok) allowed).1

record_outcome-final_example : eq_outcome ToolOutcome.ok ToolOutcome.ok ≡ true
unfolding run authorize_in_tx authorize_run record_decision has_blocking_gate record_outcome
    bound_invocation
record_outcome-final_example =
    record_outcome-final env runtime 1000 ToolOutcome.ok finished finished
      (record (invocation_row env (run_in AgentRunStatus.running) (ask Tool.fs_read) none) {
        outcome = some ToolOutcome.ok;
        finished_at = some 100;
      })
      ToolOutcome.ok refl refl refl
