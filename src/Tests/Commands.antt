-- ===== src/Tests/Commands.antt =====
-- The control commands at concrete inputs.
use hibiki.Prelude.{ℕ, ◌≡◌, ◌↔◌, refl, true, false, not, ◌&&◌, none, some, [], ◌∷◌, get, any_entry}
use hibiki.Domain.Enums.{
  TaskState, AgentRunStatus, SideEffectState, OutboxStatus, GateLifecycle, WaitingReason,
}
use hibiki.Domain.Errors.{err, is_ok, ErrorClass, Code}
use hibiki.Persistence.Models.{Store, AgentRunRow, WorkspaceRow, Reason}
use hibiki.Persistence.Session.{done, raised, run, success}
use hibiki.Application.Base.{task_has_live_writer, adapter_may_be_alive}
use hibiki.Application.Control.{
  cancel_task, pause_task, runtime_quiescent, cancellation_settled, has_uncertain_effect,
}
use hibiki.Application.Control.Cancel.{IsRevoked, intend_cancel, cancel_task_revokes}
use hibiki.Application.Control.Moves.{moved}
use hibiki.Application.Control.Pause.{pause_task_revokes, intend_pause}
use hibiki.Application.Control.Quiet.{runtime_quiescent_pauses, IsQuiet, drop_pause}
use hibiki.Application.Control.Quarantine.{IsHeld, runtime_quiescent_rolls_back}
use hibiki.Application.Control.Settle.{cancellation_settled_iff}
use hibiki.Application.Stops.{is_revocable, invalidate_pending_outbox}
use hibiki.Application.Stops.Revoke.{invalidate_pending_outbox-settles}
use hibiki.Tests.Data.{env, busy_env, human, task_in, store_of, start_row, dispatch_row}

-- A running task whose start and dispatch wait in the outbox.
abbrev busy : Store
busy =
    store_of TaskState.executing AgentRunStatus.created SideEffectState.dispatching
      ((50, start_row OutboxStatus.in_flight) ∷ (51, dispatch_row OutboxStatus.pending) ∷ [])

abbrev in_state : TaskState → Store
in_state state = store_of state AgentRunStatus.running SideEffectState.authorized []

cancel_task_revokes_example :
    (s' : Store) × (cancel_task env human 7 busy
      ≡ done (success (record { task_id = 7; state = TaskState.cancelling; revoke_epoch = 4 })) s')
    × (get 7 s'.tasks
        ≡ some (moved env TaskState.cancelling (intend_cancel (task_in TaskState.executing))))
    × IsRevoked 7 busy s'
cancel_task_revokes_example =
    cancel_task_revokes env human 7 busy (task_in TaskState.executing) refl refl

pause_task_revokes_example :
    (s' : Store) × (pause_task env human 7 busy
      ≡ done (success (record { task_id = 7; state = TaskState.pausing; revoke_epoch = 3 })) s')
    × (get 7 s'.tasks
        ≡ some (moved env TaskState.pausing (intend_pause (task_in TaskState.executing))))
    × (any_entry (is_revocable 7) s'.outbox ≡ false)
pause_task_revokes_example =
    pause_task_revokes env human 7 busy (task_in TaskState.executing) refl refl

invalidate_pending_outbox-settles_example :
    any_entry (is_revocable 7) (invalidate_pending_outbox env 7 busy).outbox ≡ false
invalidate_pending_outbox-settles_example =
    invalidate_pending_outbox-settles env 7 busy (task_in TaskState.executing) refl

runtime_quiescent_pauses_example :
    (s' : Store) × (runtime_quiescent env human 7 (in_state TaskState.pausing)
      ≡ done (success (record { task_id = 7; state = TaskState.paused; revoke_epoch = 3 })) s')
    × (get 7 s'.tasks ≡ some (moved env TaskState.paused (drop_pause (task_in TaskState.pausing))))
    × IsQuiet 7 s'
unfolding task_has_live_writer
runtime_quiescent_pauses_example =
    runtime_quiescent_pauses env human 7 (in_state TaskState.pausing) (task_in TaskState.pausing)
      refl refl refl

runtime_quiescent_rolls_back_example :
    (s1 : Store) × (runtime_quiescent busy_env human 7 (in_state TaskState.pausing)
      ≡ raised (record { class = ErrorClass.precondition; code = Code.writer_alive }) s1)
    × ((k w : ℕ) (r : AgentRunRow) (v : WorkspaceRow)
        → get k (in_state TaskState.pausing).runs ≡ some r
        → r.task_id ≡ 7
        → adapter_may_be_alive busy_env k ≡ true
        → r.workspace_id ≡ some w
        → get w (in_state TaskState.pausing).workspaces ≡ some v
        → IsHeld (get w s1.workspaces))
    × (run (runtime_quiescent busy_env human 7) (in_state TaskState.pausing) ≡ (
      err (record { class = ErrorClass.precondition; code = Code.writer_alive }),
      in_state TaskState.pausing,
    ))
unfolding task_has_live_writer
runtime_quiescent_rolls_back_example =
    runtime_quiescent_rolls_back busy_env human 7 (in_state TaskState.pausing)
      (task_in TaskState.pausing) refl refl refl

cancellation_settled_iff_example :
    (is_ok (run (cancellation_settled env human 7 false) (in_state TaskState.cancelling)).0 ≡ true)
    ↔ ((TaskState.cancelling ≡ TaskState.cancelling)
        × ((has_uncertain_effect 7 (in_state TaskState.cancelling) && not false) ≡ false)
        × (task_has_live_writer env 7 (in_state TaskState.cancelling) ≡ false))
cancellation_settled_iff_example =
    cancellation_settled_iff env human 7 false (in_state TaskState.cancelling)
      (task_in TaskState.cancelling) refl

abbrev gated : Store
gated = record (in_state TaskState.paused) {
  gates =
      (
        60,
        record {
          task_id = 7;
          decision_id = 59;
          reason = Reason.waiting WaitingReason.contract_approval;
          lifecycle = GateLifecycle.opened;
          resolved_at = none;
        },
      )
      ∷ [];
}
