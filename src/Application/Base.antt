-- ===== src/Application/Base.antt =====
-- service.py, the helpers: rows, audit events, the task state, gates and live writers.
pub mod Frame
use hibiki.Prelude.{
  ℕ, ◌+◌, Bool, true, false, not, ◌&&◌, ◌||◌, Option, none, some, List, [], ◌∷◌, ◌++◌, Table, get,
  alter, any_row, any_entry, count_rows, ◌==◌, is_key, leb, if◌then◌else◌,
}
use hibiki.Domain.Enums.{TaskState, GateLifecycle, AgentRunStatus}
use hibiki.Domain.Errors.{ErrorClass, Code}
use hibiki.Domain.Transitions.{TaskEvent, transition_task}
use hibiki.Persistence.Models.{
  Store, TaskRow, ContractRow, DecisionRow, WorkUnitExecutionRow, AgentRunRow, WorkspaceRow,
  SideEffectRow, OutboxRow, EventRow, EventType, Reason,
}
use hibiki.Persistence.Session.{
  Env, M, gets, modify, lift, require, fail_if, pure, ◌>>=◌, CommandResult, success,
}

-- `row.column = value` on the row of a key.
abbrev pub set_task : ℕ → (TaskRow → TaskRow) → Store → Store
set_task k f s = record s { tasks = alter k f s.tasks }

abbrev pub set_run : ℕ → (AgentRunRow → AgentRunRow) → Store → Store
set_run k f s = record s { runs = alter k f s.runs }

abbrev pub set_work_unit : ℕ → (WorkUnitExecutionRow → WorkUnitExecutionRow) → Store → Store
set_work_unit k f s = record s { work_units = alter k f s.work_units }

abbrev pub set_workspace : ℕ → (WorkspaceRow → WorkspaceRow) → Store → Store
set_workspace k f s = record s { workspaces = alter k f s.workspaces }

abbrev pub set_effect : ℕ → (SideEffectRow → SideEffectRow) → Store → Store
set_effect k f s = record s { side_effects = alter k f s.side_effects }

abbrev pub set_outbox : ℕ → (OutboxRow → OutboxRow) → Store → Store
set_outbox k f s = record s { outbox = alter k f s.outbox }

abbrev pub set_decision : ℕ → (DecisionRow → DecisionRow) → Store → Store
set_decision k f s = record s { decisions = alter k f s.decisions }

-- `if key: ...`
abbrev pub for_some : Option ℕ → (ℕ → Store → Store) → Store → Store
for_some none f s = s
for_some (some k) f s = f k s

-- `session.get` on an optional key.
abbrev pub get_some {ℓ} : {V : Type ℓ} → Option ℕ → Table V → Option V
get_some none t = none
get_some (some k) t = get k t

abbrev pub is_active_run : AgentRunStatus → Bool
is_active_run AgentRunStatus.created = true
is_active_run AgentRunStatus.running = true
is_active_run _ = false

-- OPEN and APPROVED_PENDING_APPLY.
abbrev pub is_blocking : GateLifecycle → Bool
is_blocking GateLifecycle.resolved = false
is_blocking _ = true

abbrev pub is_waiting_human : TaskState → Bool
is_waiting_human TaskState.waiting_human = true
is_waiting_human _ = false

unfoldable pub get_task : ℕ → M TaskRow
get_task task_id = do
  row ← gets (λ s. get task_id s.tasks)
  require row ErrorClass.not_found Code.task_not_found

-- The largest sequence number of the task, 0 if there is none.
abbrev pub max_seq : ℕ → List EventRow → ℕ
max_seq task_id [] = 0
max_seq task_id (e ∷ es) =
    let rest = max_seq task_id es in
    if e.task_id == task_id && leb rest e.sequence_no then e.sequence_no else rest

abbrev pub next_event_seq : ℕ → Store → ℕ
next_event_seq task_id s = max_seq task_id s.events + 1

unfoldable pub append_event : Env → ℕ → EventType → Option ℕ → Store → Store
append_event env task_id event_type actor s = record s {
  events =
      s.events
      ++ (record {
        task_id = task_id;
        sequence_no = next_event_seq task_id s;
        event_type = event_type;
        actor_id = actor;
        occurred_at = env.now;
      }
          ∷ []);
}

-- The task that a handler holds is in the database, so `get_task` finds it here.
unfoldable pub set_task_state : Env → ℕ → TaskEvent → Option Reason → M (Unit {0})
unfolding get_task
set_task_state env task_id event reason = do
  task ← get_task task_id
  new_state ← lift (transition_task task.state event)
  modify (
      set_task task_id (λ t. record t {
        state = new_state;
        state_reason = reason;
        state_revision = t.state_revision + 1;
        updated_at = env.now;
      }))

unfoldable pub has_blocking_gate : ℕ → Store → Bool
has_blocking_gate task_id s = any_row (λ g. g.task_id == task_id && is_blocking g.lifecycle) s.gates

-- `_other_blocking_gates` is not empty.
unfoldable pub has_other_gate : ℕ → ℕ → Store → Bool
has_other_gate task_id decision_id s =
    any_row
      (λ g. g.task_id == task_id && is_blocking g.lifecycle && not (g.decision_id == decision_id))
      s.gates

abbrev pub find_contract : ℕ → ℕ → List ContractRow → Option ContractRow
find_contract task_id version [] = none
find_contract task_id version (c ∷ cs) =
    if c.task_id == task_id && c.contract_version == version
    then some c
    else find_contract task_id version cs

abbrev pub contract_of : ℕ → List ContractRow → Option ℕ → Option ContractRow
contract_of task_id cs none = none
contract_of task_id cs (some version) = find_contract task_id version cs

-- A marker whose contract row is gone, on which `.one()` raises, counts as no contract.
unfoldable pub active_contract : ℕ → Store → Option ContractRow
active_contract task_id s = contract_of task_id s.contracts (get task_id s.active_contracts)

unfoldable pub count_active_runs : Option ℕ → Store → ℕ
count_active_runs none s = count_rows (λ r. is_active_run r.status) s.runs
count_active_runs (some task_id) s =
    count_rows (λ r. is_active_run r.status && r.task_id == task_id) s.runs

unfoldable pub adapter_may_be_alive : Env → ℕ → Bool
adapter_may_be_alive env run_id = let insp = env.inspect run_id in insp.alive || insp.writer_alive

abbrev pub owns : Option WorkspaceRow → ℕ → Bool
owns none run_id = false
owns (some ws) run_id = is_key ws.owner_run_id run_id

abbrev pub writer_flag : Option WorkspaceRow → Bool
writer_flag none = false
writer_flag (some ws) = ws.writer_alive

-- One run of the loop of `_task_has_live_writer`.
abbrev pub is_live_writer : Env → ℕ → Store → ℕ → AgentRunRow → Bool
is_live_writer env task_id s run_id run =
    let ws = get_some run.workspace_id s.workspaces in
    run.task_id == task_id
    && ((is_active_run run.status && adapter_may_be_alive env run_id)
        || (owns ws run_id && (adapter_may_be_alive env run_id || writer_flag ws)))

unfoldable pub task_has_live_writer : Env → ℕ → Store → Bool
unfolding adapter_may_be_alive
task_has_live_writer env task_id s = any_entry (is_live_writer env task_id s) s.runs

unfoldable pub assert_no_live_writers : Env → ℕ → M (Unit {0})
unfolding task_has_live_writer
assert_no_live_writers env task_id = do
  live ← gets (task_has_live_writer env task_id)
  fail_if live ErrorClass.precondition Code.writer_alive

-- The data that the control commands hand back.
pub record TaskReply : Type 0 where
  pub task_id : ℕ
  pub state : TaskState
  pub revoke_epoch : ℕ

unfoldable pub reply_task : ℕ → M (CommandResult TaskReply)
unfolding get_task
reply_task task_id = do
  task ← get_task task_id
  pure
      (success (record { task_id = task_id; state = task.state; revoke_epoch = task.revoke_epoch }))
