-- ===== src/Application/Sending/Laws.antt =====
-- When a start may be sent, when its acknowledgement promotes the run, and what a confirmed stop does.
use hibiki.Prelude.{
  ℕ, ◌≡◌, refl, ◌∙◌, ◌↔◌, Bool, true, false, ◌||◌, Option, none, some, [], ◌∷◌, get, alter,
  get-alter, arith, ◌==◌, if◌then◌else◌, Option-cases, inl, inr,
}
use hibiki.Domain.Enums.{TaskState, AgentRunStatus, WorkUnitStatus}
use hibiki.Domain.Transitions.{can_dispatch_business_run}
use hibiki.Persistence.Models.{Store, TaskRow, OutboxRow, AgentRunRow, StopReason}
use hibiki.Persistence.Session.{Env}
use hibiki.Application.Base.{
  has_blocking_gate, is_active_run, append_event, set_outbox, set_run, set_work_unit, set_workspace,
  for_some,
}
use hibiki.Application.Sending.{
  start_send_allowed, ack_outbox_and_mark_running, ack_stop, is_dead, promote, stop_started,
  kill_in_flight, task_of, cancel_stopped, free_unit, settle_workspace, finish_stopped,
}
use hibiki.Application.Stops.{is_in_flight, mark_acked}
use hibiki.Application.Stops.Frame.{enqueue_stops_for_runs-SameButOutbox}
use hibiki.Application.Occupancy.{keep_start_occupancy, clear_run_occupancy}
use hibiki.Application.Occupancy.Frame.{
  keep_start_occupancy-SameRecords, clear_run_occupancy-SameRecords,
}

-- A claimed start may be sent exactly when its row is still IN_FLIGHT under the current revoke
-- epoch, the run is not terminal, and its task is PLANNING, EXECUTING or VERIFYING, with no blocking
-- gate and nobody who means to pause or cancel it.
pub start_send_allowed_iff :
    (env : Env) (outbox_id run_id : ℕ) (s : Store) (row : OutboxRow) (task : TaskRow)
    (run : AgentRunRow)
    → get outbox_id s.outbox ≡ some row
    → get row.task_id s.tasks ≡ some task
    → get run_id s.runs ≡ some run
    → ((start_send_allowed env outbox_id run_id s).0 ≡ true) ↔ (
        (is_in_flight row.status ≡ true)
        × (is_active_run run.status ≡ true)
        × ((row.revoke_epoch == task.revoke_epoch) ≡ true)
        × (task.cancel_intent ≡ false)
        × (task.pause_intent ≡ false)
        × (has_blocking_gate row.task_id s ≡ false)
        × (can_dispatch_business_run task.state ≡ true))
unfolding start_send_allowed
start_send_allowed_iff env outbox_id run_id s row task run e t r =
    (λ h. ground arith, λ h. ground arith)

stop_started-runs :
    (env : Env) (run_id : ℕ) (run : Option AgentRunRow) (task : Option TaskRow) (s : Store)
    → (stop_started env run_id run task s).runs ≡ s.runs
stop_started-runs env run_id (some run) (some task) s =
    (enqueue_stops_for_runs-SameButOutbox env run.task_id s.outbox (run_id ∷ [])
      StopReason.start_ack_fenced (keep_start_occupancy run_id run s)).runs
    ∙ (keep_start_occupancy-SameRecords run_id run s).runs
stop_started-runs env run_id none task s = refl
stop_started-runs env run_id (some run) none s = refl

abbrev pub is_halted : TaskState → Bool
is_halted TaskState.waiting_human = true
is_halted TaskState.pausing = true
is_halted TaskState.paused = true
is_halted TaskState.cancelling = true
is_halted _ = false

-- The acknowledgement of a start whose row, run and task are there makes a CREATED run RUNNING,
-- started now, unless its row is DEAD, somebody means to cancel or pause its task, a gate blocks the
-- task, or the task is WAITING_HUMAN, PAUSING, PAUSED or CANCELLING; then it leaves the run as it is.
pub ack_outbox_and_mark_running-run :
    (env : Env) (outbox_id run_id : ℕ) (s : Store) (row : OutboxRow) (run : AgentRunRow)
    (task : TaskRow)
    → get outbox_id s.outbox ≡ some row
    → get run_id s.runs ≡ some run
    → get run.task_id s.tasks ≡ some task
    → run.status ≡ AgentRunStatus.created
    → get run_id (ack_outbox_and_mark_running env outbox_id run_id s).runs
      ≡ some (
          if is_dead row.status
            || task.cancel_intent
            || task.pause_intent
            || has_blocking_gate run.task_id s
            || is_halted task.state
          then run
          else record run { status = AgentRunStatus.running; started_at = some env.now })
unfolding ack_outbox_and_mark_running
ack_outbox_and_mark_running-run env outbox_id run_id s row run task e r t c =
    let owner = task_of (get run_id s.runs) s in
    ground (
      arith,
      stop_started-runs env run_id (get run_id s.runs) owner
          (set_outbox outbox_id (kill_in_flight owner) s),
      get-alter run_id run_id (promote env) s.runs,
    )

stopped_unit-runs :
    (env : Env) (k : Option ℕ) (held : WorkUnitStatus) (s : Store)
    → (for_some k (λ w. set_work_unit w (free_unit held)) s).runs ≡ s.runs
stopped_unit-runs env none held s = refl
stopped_unit-runs env (some k) held s = refl

settled_workspace-runs :
    (k : Option ℕ) (run_id : ℕ) (stopped : Bool) (s : Store)
    → (for_some k (λ w. set_workspace w (settle_workspace run_id stopped)) s).runs ≡ s.runs
settled_workspace-runs none run_id stopped s = refl
settled_workspace-runs (some k) run_id stopped s = refl

finish_stopped-runs :
    (env : Env) (run_id : ℕ) (run : AgentRunRow) (reason : StopReason) (held : WorkUnitStatus)
    (s : Store)
    → (finish_stopped env run_id run reason held s).runs
      ≡ alter run_id (cancel_stopped env reason) s.runs
finish_stopped-runs env run_id run reason held s =
    let s1 = set_run run_id (cancel_stopped env reason) s in
    stopped_unit-runs env run.work_unit_id held (clear_run_occupancy run_id run true s1)
    ∙ (clear_run_occupancy-SameRecords run_id run true s1).runs

-- A stop that the adapter confirms ends a CREATED or RUNNING run as CANCELLED, with the reason that
-- it had or else that of the stop.
pub ack_stop-cancels :
    (env : Env) (outbox_id run_id : ℕ) (reason : StopReason) (s : Store) (run : AgentRunRow)
    → get run_id s.runs ≡ some run
    → is_active_run run.status ≡ true
    → get run_id (ack_stop env outbox_id run_id reason true s).runs
      ≡ some (cancel_stopped env reason run)
unfolding ack_stop append_event
ack_stop-cancels env outbox_id run_id reason s run e a =
    let s1 = set_outbox outbox_id (mark_acked env) s in
    let s2 = for_some run.workspace_id (λ w. set_workspace w (settle_workspace run_id true)) s1 in
    ground (
      arith,
      settled_workspace-runs run.workspace_id run_id true s1,
      finish_stopped-runs env run_id run reason WorkUnitStatus.blocked s2,
      finish_stopped-runs env run_id run reason WorkUnitStatus.running s2,
      get-alter run_id run_id (cancel_stopped env reason) s.runs,
    )

-- A stop that the adapter does not confirm leaves every run as it is.
pub ack_stop-keeps :
    (env : Env) (outbox_id run_id : ℕ) (reason : StopReason) (s : Store)
    → (ack_stop env outbox_id run_id reason false s).runs ≡ s.runs
unfolding ack_stop
ack_stop-keeps env outbox_id run_id reason s = elim (Option-cases (get run_id s.runs)) [
  | inl e ↦ ground arith
  | inr (run, e) ↦ ground (
    arith,
    settled_workspace-runs run.workspace_id run_id false (set_outbox outbox_id (mark_acked env) s),
  )
]
