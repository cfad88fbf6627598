-- ===== src/Application/Recovery/Laws.antt =====
-- What becomes of the work unit of a lost run, and of a task after its gate.
use hibiki.Prelude.{
  List, ℕ, ◌+◌, ◌≤◌, refl, ◌||◌, Option, none, [], ◌∷◌, is_some, ◌≡◌, Bool, true, false, not, ◌&&◌,
  some, get, any_row, any_row-map_rows, map_rows, arith, ◌==◌,
}
use hibiki.Domain.Enums.{TaskState, WorkUnitStatus}
use hibiki.Domain.Execution.{Tool, eq_tool}
use hibiki.Domain.Errors.{ok, err, ErrorClass, Code}
use hibiki.Domain.Transitions.{TaskEvent, transition_task}
use hibiki.Persistence.Models.{
  Store, TaskRow, AgentRunRow, WorkUnitExecutionRow, ToolOutcome, Reason,
}
use hibiki.Persistence.Session.{Env, done, run}
use hibiki.Application.Base.{set_task_state, get_task, has_blocking_gate, set_task}
use hibiki.Application.Control.Moves.{set_task_state-eq, moved, get-alter_self}
use hibiki.Application.Recovery.{
  recover_work_unit_after_lost_run, had_effect, in_runs, lost_run_recovery_policy,
  recompute_runnable_state, clear_unit, is_blocked_unit, stays_blocked,
}
use hibiki.Application.Stops.{is_running_unit}

abbrev pub went_through : Option ToolOutcome → Bool
went_through (some ToolOutcome.ok) = true
went_through _ = false

abbrev pub has_published : ℕ → List ℕ → Bool
has_published run_id [] = false
has_published run_id (r ∷ rs) = r == run_id || has_published run_id rs

-- The run handed in a result, a shell command or a publication of it was allowed and went through, or
-- it published an artifact.
abbrev pub left_effect : ℕ → AgentRunRow → Store → Bool
left_effect run_id r s =
    is_some r.result_ref
    || any_row
        (λ t.
          t.run_id == run_id
          && (eq_tool t.tool_name Tool.shell_run || eq_tool t.tool_name Tool.artifact_publish)
          && t.allowed
          && went_through t.outcome)
        s.tool_invocations
    || has_published run_id s.published

-- What recovery makes of a RUNNING work unit: the new row, by the effect of the run and the attempts.
abbrev pub IsRecovered : Env → Bool → WorkUnitExecutionRow → Option WorkUnitExecutionRow → Type 0
IsRecovered env true w y =
    y
    ≡ some (record w {
      status = WorkUnitStatus.blocked;
      blocked_reason = some Reason.lost_run_effect_unknown;
      next_retry_at = none;
    })
IsRecovered env false w y =
    (3 ≤ w.attempt_count
      → y
        ≡ some (record w {
          status = WorkUnitStatus.blocked;
          blocked_reason = some Reason.attempts_exhausted;
          next_retry_at = none;
        }))
    × (w.attempt_count ≡ 2
        → y
          ≡ some (record w {
            status = WorkUnitStatus.pending;
            next_retry_at = some (env.now + 5);
            blocked_reason = none;
          }))
    × (w.attempt_count ≤ 1
        → y
          ≡ some (record w {
            status = WorkUnitStatus.pending;
            next_retry_at = some (env.now + 2);
            blocked_reason = none;
          }))

in_runs-published : (run_id : ℕ) (rs : List ℕ) → in_runs run_id rs ≡ has_published run_id rs
in_runs-published run_id [] = refl
in_runs-published run_id (r ∷ rs) = ground (arith, in_runs-published run_id rs)

-- The recovery of a lost run whose task is PAUSING raises if the run may have had an effect, since
-- no gate can be opened on a PAUSING task.
pub recover_work_unit-pausing :
    (env : Env) (run_id work_unit_id : ℕ) (r : AgentRunRow) (w : WorkUnitExecutionRow) (s : Store)
    (task : TaskRow)
    → r.work_unit_id ≡ some work_unit_id
    → get work_unit_id s.work_units ≡ some w
    → is_running_unit w.status ≡ true
    → had_effect run_id r s ≡ true
    → get r.task_id s.tasks ≡ some task
    → task.state ≡ TaskState.pausing
    → run (recover_work_unit_after_lost_run env run_id r) s
      ≡ (err (record { class = ErrorClass.invalid_transition; code = Code.invalid_transition }), s)
unfolding recover_work_unit_after_lost_run set_task_state get_task lost_run_recovery_policy run
recover_work_unit-pausing env run_id work_unit_id r w s task u e n f t p = ground arith

abbrev pub is_stuck : ℕ → WorkUnitExecutionRow → Bool
is_stuck task_id w =
    w.task_id == task_id && is_blocked_unit w.status && not (stays_blocked w.blocked_reason)

-- A WAITING_HUMAN task without a blocking gate that nobody cancels goes on as EXECUTING, and its work
-- units are BLOCKED only for a pause or for exhausted attempts.
pub recompute_runnable_state-resumes :
    (env : Env) (task_id : ℕ) (s : Store) (t : TaskRow)
    → get task_id s.tasks ≡ some t
    → t.state ≡ TaskState.waiting_human
    → t.cancel_intent ≡ false
    → has_blocking_gate task_id s ≡ false
    → (s' : Store) × (recompute_runnable_state env task_id t s ≡ done tt s')
      × (get task_id s'.tasks ≡ some (moved env TaskState.executing t))
      × (any_row (is_stuck task_id) s'.work_units ≡ false)
unfolding recompute_runnable_state
recompute_runnable_state-resumes env task_id s t e w c g =
    let s1 = record s { work_units = map_rows (clear_unit task_id) s.work_units } in
    let accepted : transition_task t.state TaskEvent.decision_resolved ≡ ok TaskState.executing =
      ground arith in
    (
      set_task task_id (moved env TaskState.executing) s1,
      ground (
        arith,
        set_task_state-eq env task_id TaskEvent.decision_resolved s1 t TaskState.executing e
            accepted,
      ),
      get-alter_self task_id (moved env TaskState.executing) s1 t e,
      any_row-map_rows (is_stuck task_id) (clear_unit task_id) s.work_units (λ v. ground arith),
    )
