-- ===== src/Application/Control/Settle.antt =====
-- When a cancellation is settled, and how a paused task is resumed.
use hibiki.Prelude.{
  ℕ, ◌≡◌, refl, ◌↔◌, Bool, true, false, not, ◌&&◌, Option, some, get, map_rows, any_row,
  any_row-map_rows, arith, ◌==◌,
}
use hibiki.Domain.Enums.{TaskState}
use hibiki.Domain.Errors.{ok, is_ok}
use hibiki.Domain.Transitions.{TaskEvent, transition_task}
use hibiki.Domain.Types.{AuthContext}
use hibiki.Persistence.Models.{Store, WorkUnitExecutionRow, TaskRow, EventType, Reason}
use hibiki.Persistence.Session.{Env, done, run, success}
use hibiki.Application.Base.{
  set_task, append_event, task_has_live_writer, assert_no_live_writers, is_active_run,
  has_blocking_gate,
}
use hibiki.Application.Control.Moves.{
  moved, moved_for, set_task_state-eq_for, set_task_state-eq, reply_task-eq, get_task-eq,
  get-alter_self,
}
use hibiki.Application.Control.{
  cancellation_settled, has_uncertain_effect, settle_run, resume_task, resume_unit,
  is_blocked_paused, wake_units, reason_or_approval,
}

-- The database that `cancellation_settled` commits.
abbrev settled : Env → AuthContext → ℕ → Store → Store
settled env auth task_id s = append_event env task_id EventType.task_aborted (some auth.actor_id) (
    set_task task_id (moved env TaskState.aborted)
      (record s { runs = map_rows (settle_run env task_id) s.runs }))

cancellation_settled-eq :
    (env : Env) (auth : AuthContext) (task_id : ℕ) (accept : Bool) (s : Store) (t : TaskRow)
    → get task_id s.tasks ≡ some t
    → t.state ≡ TaskState.cancelling
    → (has_uncertain_effect task_id s && not accept) ≡ false
    → task_has_live_writer env task_id s ≡ false
    → cancellation_settled env auth task_id accept s
      ≡ done
          (success (record {
            task_id = task_id;
            state = TaskState.aborted;
            revoke_epoch = t.revoke_epoch;
          }))
          (settled env auth task_id s)
unfolding cancellation_settled assert_no_live_writers append_event
cancellation_settled-eq env auth task_id accept s t e p u w =
    let s1 = record s { runs = map_rows (settle_run env task_id) s.runs } in
    let accepted : transition_task t.state TaskEvent.cancellation_settled ≡ ok TaskState.aborted =
      ground arith in
    ground (
      arith,
      get_task-eq task_id s t e,
      set_task_state-eq env task_id TaskEvent.cancellation_settled s1 t TaskState.aborted e
          accepted,
      reply_task-eq task_id (settled env auth task_id s) (moved env TaskState.aborted t)
          (get-alter_self task_id (moved env TaskState.aborted) s1 t e),
    )

refused_unless :
    (env : Env) (auth : AuthContext) (task_id : ℕ) (accept : Bool) (s : Store) (t : TaskRow)
    → get task_id s.tasks ≡ some t
    → is_ok (run (cancellation_settled env auth task_id accept) s).0 ≡ true
    → (t.state ≡ TaskState.cancelling)
      × ((has_uncertain_effect task_id s && not accept) ≡ false)
      × (task_has_live_writer env task_id s ≡ false)
unfolding run cancellation_settled assert_no_live_writers
refused_unless env auth task_id accept s t e h = ground (arith, get_task-eq task_id s t e)

-- A cancellation can be settled exactly when the task is CANCELLING, the caller accepts the
-- uncertain side effects or there are none, and no writer may be alive.
pub cancellation_settled_iff :
    (env : Env) (auth : AuthContext) (task_id : ℕ) (accept : Bool) (s : Store) (t : TaskRow)
    → get task_id s.tasks ≡ some t
    → (is_ok (run (cancellation_settled env auth task_id accept) s).0 ≡ true) ↔ (
        (t.state ≡ TaskState.cancelling)
        × ((has_uncertain_effect task_id s && not accept) ≡ false)
        × (task_has_live_writer env task_id s ≡ false))
unfolding run
cancellation_settled_iff env auth task_id accept s t e = (
  refused_unless env auth task_id accept s t e,
  λ (p, u, w). ground (arith, cancellation_settled-eq env auth task_id accept s t e p u w),
)

-- A settled cancellation leaves the task ABORTED and none of its runs CREATED or RUNNING.
pub cancellation_settled_aborts :
    (env : Env) (auth : AuthContext) (task_id : ℕ) (accept : Bool) (s : Store) (t : TaskRow)
    → get task_id s.tasks ≡ some t
    → t.state ≡ TaskState.cancelling
    → (has_uncertain_effect task_id s && not accept) ≡ false
    → task_has_live_writer env task_id s ≡ false
    → (s' : Store) × (run (cancellation_settled env auth task_id accept) s ≡ (
      ok (
          success (record {
            task_id = task_id;
            state = TaskState.aborted;
            revoke_epoch = t.revoke_epoch;
          })),
      s',
    ))
      × (get task_id s'.tasks ≡ some (moved env TaskState.aborted t))
      × (any_row (λ r. r.task_id == task_id && is_active_run r.status) s'.runs ≡ false)
unfolding run append_event
cancellation_settled_aborts env auth task_id accept s t e p u w = (
  settled env auth task_id s,
  ground (arith, cancellation_settled-eq env auth task_id accept s t e p u w),
  get-alter_self task_id (moved env TaskState.aborted)
      (record s { runs = map_rows (settle_run env task_id) s.runs }) t e,
  any_row-map_rows (λ r. r.task_id == task_id && is_active_run r.status) (settle_run env task_id)
      s.runs (λ r. ground arith),
)

abbrev pub paused_of : ℕ → WorkUnitExecutionRow → Bool
paused_of task_id w = w.task_id == task_id && is_blocked_paused w.status w.blocked_reason

-- The database that `resume_task` commits, by whether a gate blocks the task.
abbrev resumed : Env → AuthContext → ℕ → Option Reason → Bool → Store → Store
resumed env auth task_id reason true s =
    append_event env task_id EventType.task_resumed (some auth.actor_id)
      (set_task task_id (moved_for env TaskState.waiting_human (reason_or_approval reason)) s)
resumed env auth task_id reason false s =
    append_event env task_id EventType.task_resumed (some auth.actor_id)
      (wake_units task_id (set_task task_id (moved env TaskState.executing) s))

abbrev state_after : Bool → TaskState
state_after true = TaskState.waiting_human
state_after false = TaskState.executing

resume_task-eq :
    (env : Env) (auth : AuthContext) (task_id : ℕ) (s : Store) (t : TaskRow) (gate : Bool)
    → get task_id s.tasks ≡ some t
    → t.state ≡ TaskState.paused
    → has_blocking_gate task_id s ≡ gate
    → resume_task env auth task_id s
      ≡ done
          (success
            (record { task_id = task_id; state = state_after gate; revoke_epoch = t.revoke_epoch }))
          (resumed env auth task_id t.state_reason gate s)
unfolding resume_task append_event
resume_task-eq env auth task_id s t true e p g =
    let reason = reason_or_approval t.state_reason in
    let accepted : transition_task t.state TaskEvent.resume_requested ≡ ok TaskState.waiting_human =
      ground arith in
    ground (
      arith,
      get_task-eq task_id s t e,
      set_task_state-eq_for env task_id TaskEvent.resume_requested reason s t
          TaskState.waiting_human e accepted,
      reply_task-eq task_id (resumed env auth task_id t.state_reason true s)
          (moved_for env TaskState.waiting_human reason t)
          (get-alter_self task_id (moved_for env TaskState.waiting_human reason) s t e),
    )
resume_task-eq env auth task_id s t false e p g =
    let accepted : transition_task t.state TaskEvent.resume_requested_runnable
        ≡ ok TaskState.executing =
      ground arith in
    ground (
      arith,
      get_task-eq task_id s t e,
      set_task_state-eq env task_id TaskEvent.resume_requested_runnable s t TaskState.executing e
          accepted,
      reply_task-eq task_id (resumed env auth task_id t.state_reason false s)
          (moved env TaskState.executing t)
          (get-alter_self task_id (moved env TaskState.executing) s t e),
    )

-- A PAUSED task that no gate blocks is resumed as EXECUTING, and none of its work units stays
-- BLOCKED for the pause.
pub resume_task_runs :
    (env : Env) (auth : AuthContext) (task_id : ℕ) (s : Store) (t : TaskRow)
    → get task_id s.tasks ≡ some t
    → t.state ≡ TaskState.paused
    → has_blocking_gate task_id s ≡ false
    → (s' : Store) × (run (resume_task env auth task_id) s ≡ (
      ok (
          success (record {
            task_id = task_id;
            state = TaskState.executing;
            revoke_epoch = t.revoke_epoch;
          })),
      s',
    ))
      × (any_row (paused_of task_id) s'.work_units ≡ false)
unfolding run append_event
resume_task_runs env auth task_id s t e p g = (
  resumed env auth task_id t.state_reason false s,
  ground (arith, resume_task-eq env auth task_id s t false e p g),
  any_row-map_rows (paused_of task_id) (resume_unit task_id) s.work_units (λ w. ground arith),
)

-- A PAUSED task that a gate blocks is resumed as WAITING_HUMAN, with the reason that it had, or else
-- with contract_approval; its work units stay as they are.
pub resume_task_waits :
    (env : Env) (auth : AuthContext) (task_id : ℕ) (s : Store) (t : TaskRow)
    → get task_id s.tasks ≡ some t
    → t.state ≡ TaskState.paused
    → has_blocking_gate task_id s ≡ true
    → (s' : Store) × (run (resume_task env auth task_id) s ≡ (
      ok (
          success (record {
            task_id = task_id;
            state = TaskState.waiting_human;
            revoke_epoch = t.revoke_epoch;
          })),
      s',
    ))
      × (get task_id s'.tasks
          ≡ some (moved_for env TaskState.waiting_human (reason_or_approval t.state_reason) t))
      × (s'.work_units ≡ s.work_units)
unfolding run append_event
resume_task_waits env auth task_id s t e p g = (
  resumed env auth task_id t.state_reason true s,
  ground (arith, resume_task-eq env auth task_id s t true e p g),
  get-alter_self task_id (moved_for env TaskState.waiting_human (reason_or_approval t.state_reason))
      s t e,
  refl,
)
