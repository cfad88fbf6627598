-- ===== src/Tools/Broker/Finish.antt =====
-- broker.py: how an invocation is finished, or refused after the fact.
use hibiki.Prelude.{ℕ, Bool, true, false, not, Option, none, some, get, alter, ◌==◌}
use hibiki.Domain.Errors.{ErrorClass, Code}
use hibiki.Domain.Types.{AuthContext}
use hibiki.Persistence.Models.{Store, ToolInvocationRow, DenyReason, ToolOutcome}
use hibiki.Persistence.Session.{Env, M, gets, modify, require, fail_if, pure, ◌>>=◌, ◌>>◌}
use hibiki.Tools.Broker.{binding_error}

abbrev pub eq_outcome : ToolOutcome → ToolOutcome → Bool
eq_outcome ToolOutcome.ok ToolOutcome.ok = true
eq_outcome ToolOutcome.error ToolOutcome.error = true
eq_outcome ToolOutcome.denied ToolOutcome.denied = true
eq_outcome (ToolOutcome.other a) (ToolOutcome.other b) = a == b
eq_outcome _ _ = false

-- `row.outcome is not None and row.outcome != outcome`
abbrev pub ended_otherwise : Option ToolOutcome → ToolOutcome → Bool
ended_otherwise none o = false
ended_otherwise (some was) o = not (eq_outcome was o)

abbrev pub stamp : Env → Option ℕ → Option ℕ
stamp env none = some env.now
stamp env (some at) = some at

abbrev pub finish_row : Env → ToolOutcome → ToolInvocationRow → ToolInvocationRow
finish_row env o t = record t { outcome = some o; finished_at = stamp env t.finished_at }

abbrev pub refuse_row : Env → DenyReason → ToolInvocationRow → ToolInvocationRow
refuse_row env reason t = record t {
  allowed = false;
  deny_reason = some reason;
  outcome = some ToolOutcome.denied;
  finished_at = stamp env t.finished_at;
}

abbrev pub set_invocation : ℕ → (ToolInvocationRow → ToolInvocationRow) → Store → Store
set_invocation k f s = record s { tool_invocations = alter k f s.tool_invocations }

-- The row, if the credential is bound to the run it belongs to. The refusal names a missing task by
-- the code of a missing run.
unfoldable pub bound_invocation : AuthContext → ℕ → Code → M ToolInvocationRow
bound_invocation auth invocation_id no_task = do
  row ← gets (λ s. get invocation_id s.tool_invocations)
  t ← require row ErrorClass.not_found Code.invocation_not_found
  run ← gets (λ s. get t.run_id s.runs)
  r ← require run ErrorClass.not_found Code.run_not_found
  found ← gets (λ s. get r.task_id s.tasks)
  task ← require found ErrorClass.not_found no_task
  fail_if (binding_error auth t.run_id r task none) ErrorClass.authorization
      Code.authorization_denied
  pure t

-- The outcome is a text that is not empty.
unfoldable pub record_outcome : Env → AuthContext → ℕ → ToolOutcome → M (Unit {0})
unfolding bound_invocation
record_outcome env auth invocation_id o = do
  t ← bound_invocation auth invocation_id Code.task_not_found
  fail_if (ended_otherwise t.outcome o) ErrorClass.conflict Code.invocation_already_finished
  modify (set_invocation invocation_id (finish_row env o))

unfoldable pub record_refusal : Env → AuthContext → ℕ → DenyReason → M (Unit {0})
unfolding bound_invocation
record_refusal env auth invocation_id reason = do
  _ ← bound_invocation auth invocation_id Code.run_not_found
  modify (set_invocation invocation_id (refuse_row env reason))
