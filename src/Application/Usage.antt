-- ===== src/Application/Usage.antt =====
-- service.py: the account of model calls against the limits of the task and of its contract.
pub mod Laws
use hibiki.Prelude.{
  ℕ, zero, suc, ◌+◌, Bool, true, false, not, ◌&&◌, Option, none, some, get, ltb, leb, if◌then◌else◌,
}
use hibiki.Domain.Errors.{ErrorClass, Code}
use hibiki.Domain.Types.{AuthContext}
use hibiki.Persistence.Models.{Store, TaskRow, ContractRow}
use hibiki.Persistence.Session.{
  M, gets, modify, fail, pure, ◌>>=◌, ◌>>◌, CommandResult, success, failure,
}
use hibiki.Application.Base.{get_task, set_task, contract_of}
use hibiki.Application.Runs.{RunPayload, assert_run_write_binding, get_run}

-- `payload.get("calls")`: absent, a number, or a number below 0.
pub data Calls : Type 0 where
  absent : Calls
  number : ℕ → Calls
  negative : Calls

-- `int(payload.get("calls") or 1)`: 0 counts as 1. None is left for a number below 0.
abbrev pub calls_of : Calls → Option ℕ
calls_of Calls.absent = some 1
calls_of (Calls.number zero) = some 1
calls_of (Calls.number (suc n)) = some (suc n)
calls_of Calls.negative = none

-- `_int_or`: the number if it is above 0.
abbrev pub int_or : Option ℕ → ℕ → ℕ
int_or none fallback = fallback
int_or (some zero) fallback = fallback
int_or (some (suc n)) fallback = suc n

abbrev pub contract_limit : Option ContractRow → ℕ → ℕ
contract_limit none limit = int_or none limit
contract_limit (some c) limit = int_or c.max_model_calls limit

abbrev pub min : ℕ → ℕ → ℕ
min a b = if leb a b then a else b

-- A limit of 0 is no limit.
abbrev pub tighten : ℕ → ℕ → ℕ
tighten limit zero = limit
tighten zero (suc c) = suc c
tighten (suc l) (suc c) = min (suc l) (suc c)

unfoldable pub call_limit : ℕ → TaskRow → Store → ℕ
call_limit task_id task s =
    tighten task.model_call_limit
      (contract_limit (contract_of task_id s.contracts task.contract_version) task.model_call_limit)

abbrev pub exceeds : ℕ → ℕ → Bool
exceeds total limit = ltb 0 limit && ltb limit total

pub record Usage : Type 0 where
  pub model_calls_used : ℕ
  pub limit : ℕ

abbrev pub spend : ℕ → TaskRow → TaskRow
spend calls t = record t { model_calls_used = t.model_calls_used + calls }

abbrev pub spend_unless : Bool → ℕ → TaskRow → ℕ → ℕ → M (CommandResult Usage)
spend_unless true task_id task calls limit = pure (failure Code.model_call_budget_exhausted)
spend_unless false task_id task calls limit = do
  modify (set_task task_id (spend calls))
  pure (success (record { model_calls_used = task.model_calls_used + calls; limit = limit }))

unfoldable pub spend_calls : ℕ → TaskRow → Option ℕ → M (CommandResult Usage)
unfolding call_limit
spend_calls task_id task none = fail ErrorClass.precondition Code.invalid_usage
spend_calls task_id task (some calls) = do
  limit ← gets (call_limit task_id task)
  spend_unless (exceeds (task.model_calls_used + calls) limit) task_id task calls limit

unfoldable pub record_model_usage : AuthContext → ℕ → RunPayload → Calls → M (CommandResult Usage)
unfolding assert_run_write_binding get_run get_task spend_calls
record_model_usage auth run_id payload calls = do
  r ← get_run run_id
  assert_run_write_binding auth run_id r payload false
  task ← get_task r.task_id
  spend_calls r.task_id task (calls_of calls)
