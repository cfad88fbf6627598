-- ===== src/Tests/Recovery.antt =====
-- Recovery at concrete inputs.
use hibiki.Prelude.{◌≡◌, refl, true, false, some, [], ◌∷◌, get, any_row}
use hibiki.Domain.Enums.{TaskState, AgentRunStatus, SideEffectState, OutboxStatus}
use hibiki.Domain.Errors.{err, ErrorClass, Code}
use hibiki.Persistence.Models.{Store, AgentRunRow}
use hibiki.Persistence.Session.{done, run}
use hibiki.Application.Base.{set_task_state, get_task, has_blocking_gate}
use hibiki.Application.Control.Moves.{moved}
use hibiki.Application.Recovery.{
  recover_work_unit_after_lost_run, had_effect, recompute_runnable_state,
}
use hibiki.Application.Reconcile.{reconcile_row}
use hibiki.Application.Recovery.Laws.{
  is_stuck, recover_work_unit-pausing, recompute_runnable_state-resumes,
}
use hibiki.Application.External.Uncertain.{IsNeverSent, reconcile_row-never_sends}
use hibiki.Tests.Data.{env, task_in, run_in, effect_in, store_of, dispatch_row, work_unit}

-- A run that is RUNNING, and a dispatch in flight without a lease.
abbrev in_state : TaskState → Store
in_state state =
    store_of state AgentRunStatus.running SideEffectState.dispatching
      ((51, dispatch_row OutboxStatus.in_flight) ∷ [])

abbrev recovered_store : Store
recovered_store =
    (run (recover_work_unit_after_lost_run env 20 (run_in AgentRunStatus.running))
      (in_state TaskState.executing)).1

abbrev with_result : AgentRunRow
with_result = record (run_in AgentRunStatus.running) { result_ref = some 77 }

recover_work_unit-pausing_example :
    run (recover_work_unit_after_lost_run env 20 with_result) (in_state TaskState.pausing) ≡ (
      err (record { class = ErrorClass.invalid_transition; code = Code.invalid_transition }),
      in_state TaskState.pausing,
    )
unfolding had_effect
recover_work_unit-pausing_example =
    recover_work_unit-pausing env 20 10 with_result work_unit (in_state TaskState.pausing)
      (task_in TaskState.pausing) refl refl refl refl refl refl

abbrev reconciled : Store
reconciled =
    (run (reconcile_row env 51 (dispatch_row OutboxStatus.in_flight))
      (in_state TaskState.executing)).1

reconcile_row-never_sends_example :
    (get 51 reconciled.outbox
      ≡ some (record (dispatch_row OutboxStatus.in_flight) {
        status = OutboxStatus.acked;
        acked_at = some 100;
      }))
    × (get 40 reconciled.side_effects
        ≡ some (record (effect_in SideEffectState.dispatching) { state = SideEffectState.unknown }))
    × IsNeverSent 40 reconciled
unfolding reconcile_row run set_task_state get_task
reconcile_row-never_sends_example =
    reconcile_row-never_sends env 51 40 (in_state TaskState.executing) reconciled
      (dispatch_row OutboxStatus.in_flight) refl refl refl refl

abbrev unconfirmed : AgentRunRow
unconfirmed = record (run_in AgentRunStatus.running) { sandbox_exit_unconfirmed = true }

recompute_runnable_state-resumes_example :
    (s' : Store) × (recompute_runnable_state env 7
        (task_in TaskState.waiting_human)
        (in_state TaskState.waiting_human)
      ≡ done tt s')
    × (get 7 s'.tasks ≡ some (moved env TaskState.executing (task_in TaskState.waiting_human)))
    × (any_row (is_stuck 7) s'.work_units ≡ false)
unfolding has_blocking_gate
recompute_runnable_state-resumes_example =
    recompute_runnable_state-resumes env 7 (in_state TaskState.waiting_human)
      (task_in TaskState.waiting_human) refl refl refl refl
