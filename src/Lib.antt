-- ===== src/Lib.antt =====
-- Hibiki, a task-centred agent execution system: a model of its deterministic Core and the theorems
-- that make it correct.
--
-- The program. The Core keeps tasks, contracts, plans, runs, workspaces, side effects and an outbox
-- in one SQL database. A command is one transaction: it is authorized, changes rows, and commits,
-- or raises and is rolled back. What must reach the outside world, a start or a stop of an agent
-- and a call of an external system, is written to the outbox in that transaction. A dispatcher claims
-- the rows of the outbox, checks again, calls an adapter, and records the answer. Control commands
-- (pause, resume, cancel) revoke what was not sent and stop what runs.
--
-- The files, with the code that each models (paths from the repository's root):
--   Prelude                 tables by primary key, Boolean tests, loops over selected rows
--   Domain/Enums, Errors, Types, Defaults
--                           src/hibiki/domain/enums.py, errors.py, types.py, defaults.py
--   Domain/Transitions      src/hibiki/domain/transitions.py: the four transition tables
--   Domain/Guards           src/hibiki/domain/guards.py: guard_operation, guard_dispatch,
--                           guard_side_effect_send and the sets of operations
--   Domain/Plan             src/hibiki/domain/plan.py: validate_dag with its depth-first search
--   Domain/Execution        src/hibiki/domain/execution.py: normalize_ceiling_tools
--   Tools/Paths             src/hibiki/tools/paths.py: WorkspacePaths._validate
--   Tools/Broker            src/hibiki/tools/broker.py: the decision on a tool call, its audit row, its
--                           outcome, and the filesystem tools
--   Persistence/Models      src/hibiki/persistence/models.py: the columns that are read or written
--   Persistence/Session     src/hibiki/persistence/session.py: a transaction with its rollback
--   Application/Base        src/hibiki/application/service.py: the shared helpers, audit events,
--                           gates, _set_task_state and live writers
--   Application/Occupancy   service.py: who holds a work unit and a workspace
--   Application/Stops       service.py: _enqueue_stops and _invalidate_pending_outbox
--   Application/Control     service.py: _pause_task, _runtime_quiescent, _resume_task, _cancel_task,
--                           _cancellation_settled
--   Application/Effects     service.py: _dispatch_side_effect, _reconcile_side_effect and the
--                           eligibility of an effect
--   Application/Proposals   service.py: _propose_side_effect
--   Application/Outbox      service.py: _claim_one_outbox
--   Application/Sending     service.py: _start_send_allowed, the acknowledgements of starts and stops
--   Application/External    service.py: _do_external_dispatch around the call, and _fail_outbox;
--                           Uncertain: what an uncertain call leaves, here and at a restart
--   Application/Recovery    service.py: _recover_work_unit_after_lost_run, _recompute_runnable_state
--   Application/Reconcile   service.py: reconcile, the startup reconciliation
--   Application/Runs        service.py: _assert_run_write_binding, _heartbeat, _set_writer_alive,
--                           _register_sandbox_identity, _confirm_run_exit
--   Application/Decisions   service.py: _resolve_decision, _apply_approved_decision without the
--                           acceptance of a final result
--   Application/Usage       service.py: _record_model_usage
--   Application/Routing     service.py: execute, _execute_in_tx, _command_task_id, the inbox and the
--                           idempotency keys
--   Application/Dispatch    service.py: _dispatch_ready_runs, _deps_satisfied, _open_resource_gate
--   Tests                   concrete inputs, and each theorem of the list below at one of them
--
-- The correspondence. A function of the code that writes the database is a function from the
-- database to its answer and a new database; one that can raise keeps what it had written when it
-- raised, and `run` rolls that back as the session executor does. Row objects that the code holds are read
-- again from their table. Identifiers, times, hashes and texts that are only compared are numbers.
-- The clock, `new_id` and the adapter's `inspect` are the fields of `Env`; the answers of adapters to
-- calls are arguments, and so are the handlers of the command router, the
-- acceptance of a final result, the file system of the tool
-- broker with the decoding and the digest of bytes, and what the context manifest of a run reports of its size. os.path.isabs and ntpath.splitdrive are parameters of the path model.
-- JSON columns and the payloads of audit events are left out, but for the parts that the code reads.
--
-- Queries. The session factory of persistence/models.py has autoflush off: a SELECT filters the rows
-- that were last flushed and hands back the objects of the session. Where a command queries after
-- unflushed writes that its filter reads, the model passes the stored tables along: to the loops of
-- _cancel_task and to the search for pending stops in _enqueue_stops_for_runs. In the loop of the
-- startup reconciliation a stop that was added for an earlier row counts as stored, which differs from
-- the code only if two claimed starts name the same run.
--
-- Fuel. Only the depth-first search of `validate_dag` takes fuel: the number of nodes and one more,
-- which Domain/Plan/Cycles shows to be enough for any plan whose edges join its nodes.
--
-- Constraints. A row that violates a unique constraint of its table raises, with the class
-- `integrity`; this is modelled for the inbox, the idempotency keys and the tool invocations, where the
-- code can reach it, and identifiers that `new_id` draws are taken to be new.
--
-- Not modelled: result submission, acceptance and artifacts, the submission of contracts, the
-- application of deltas, plan activation, context manifests and the planner commands (all in service.py), the
-- sandbox and the rest of the workspace file operations (src/hibiki/tools), the agent loops and model
-- clients (src/hibiki/runtime), and the command line and runners (src/hibiki/interfaces), which are
-- mostly input and output.
pub mod Prelude
pub mod Domain
pub mod Tools
pub mod Persistence
pub mod Application
pub mod Tests
