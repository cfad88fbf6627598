-- ===== src/Application/Control/Pause.antt =====
-- Pausing a task: what is revoked when a pause is requested, when the task is PAUSED, and how it is
-- resumed.
use hibiki.Prelude.{ℕ, ◌≡◌, ◌∙◌, Bool, true, false, not, ◌||◌, some, get, any_entry, arith}
use hibiki.Domain.Enums.{TaskState}
use hibiki.Domain.Errors.{ok}
use hibiki.Domain.Guards.{is_cancelling}
use hibiki.Domain.Transitions.{is_terminal_task, TaskEvent, transition_task}
use hibiki.Domain.Types.{AuthContext}
use hibiki.Persistence.Models.{Store, TaskRow, StopReason, EventType}
use hibiki.Persistence.Session.{Env, done, success}
use hibiki.Application.Base.{set_task, append_event}
use hibiki.Application.Stops.{is_revocable, invalidate_pending_outbox, enqueue_stops}
use hibiki.Application.Stops.Frame.{enqueue_stops-SameButOutbox}
use hibiki.Application.Stops.Revoke.{
  invalidate_pending_outbox-settles, invalidate_pending_outbox-tasks,
}
use hibiki.Application.Control.Moves.{
  moved, set_task_state-eq, reply_task-eq, get_task-eq, get-alter_self,
}
use hibiki.Application.Control.{pause_task, is_pausing}

abbrev pub intend_pause : TaskRow → TaskRow
intend_pause t = record t { pause_intent = true }

-- The database that `pause_task` commits.
abbrev pausing : Env → AuthContext → ℕ → Store → Store
pausing env auth task_id s =
    let s1 = set_task task_id intend_pause s in
    let s2 = set_task task_id (moved env TaskState.pausing) s1 in
    let s3 = invalidate_pending_outbox env task_id s2 in
    let s4 = enqueue_stops env task_id s.outbox StopReason.pause s3 in
    append_event env task_id EventType.pause_requested (some auth.actor_id) s4

pausing-tasks :
    (env : Env) (auth : AuthContext) (task_id : ℕ) (s : Store) (t : TaskRow)
    → get task_id s.tasks ≡ some t
    → get task_id (pausing env auth task_id s).tasks
      ≡ some (moved env TaskState.pausing (intend_pause t))
unfolding append_event
pausing-tasks env auth task_id s t e =
    let s1 = set_task task_id intend_pause s in
    let s2 = set_task task_id (moved env TaskState.pausing) s1 in
    let s3 = invalidate_pending_outbox env task_id s2 in
    let e1 = get-alter_self task_id intend_pause s t e in
    ground (
      arith,
      (enqueue_stops-SameButOutbox env task_id s.outbox StopReason.pause s3).tasks,
      (invalidate_pending_outbox-tasks env task_id s2).0,
      get-alter_self task_id (moved env TaskState.pausing) s1 (intend_pause t) e1,
    )

pausing-revokes :
    (env : Env) (auth : AuthContext) (task_id : ℕ) (s : Store) (t : TaskRow)
    → get task_id s.tasks ≡ some t
    → any_entry (is_revocable task_id) (pausing env auth task_id s).outbox ≡ false
unfolding append_event
pausing-revokes env auth task_id s t e =
    let s1 = set_task task_id intend_pause s in
    let s2 = set_task task_id (moved env TaskState.pausing) s1 in
    let s3 = invalidate_pending_outbox env task_id s2 in
    let e1 = get-alter_self task_id intend_pause s t e in
    let e2 = get-alter_self task_id (moved env TaskState.pausing) s1 (intend_pause t) e1 in
    (enqueue_stops-SameButOutbox env task_id s.outbox StopReason.pause s3).revocable task_id
    ∙ invalidate_pending_outbox-settles env task_id s2
        (moved env TaskState.pausing (intend_pause t)) e2

abbrev is_paused_state : TaskState → Bool
is_paused_state TaskState.paused = true
is_paused_state _ = false

-- NEW, WAITING_HUMAN, PLANNING, EXECUTING and VERIFYING.
abbrev pub is_pausable : TaskState → Bool
is_pausable state =
    not (is_terminal_task state || is_cancelling state || is_pausing state || is_paused_state state)

pause_task-eq :
    (env : Env) (auth : AuthContext) (task_id : ℕ) (s : Store) (t : TaskRow)
    → get task_id s.tasks ≡ some t
    → is_pausable t.state ≡ true
    → pause_task env auth task_id s
      ≡ done
          (success (record {
            task_id = task_id;
            state = TaskState.pausing;
            revoke_epoch = t.revoke_epoch;
          }))
          (pausing env auth task_id s)
unfolding pause_task
pause_task-eq env auth task_id s t e live =
    let s1 = set_task task_id intend_pause s in
    let e1 = get-alter_self task_id intend_pause s t e in
    let accepted : transition_task t.state TaskEvent.pause_requested ≡ ok TaskState.pausing =
      ground arith in
    let here : is_cancelling t.state ≡ false = ground arith in
    ground (
      arith,
      get_task-eq task_id s t e,
      set_task_state-eq env task_id TaskEvent.pause_requested s1 (intend_pause t) TaskState.pausing
          e1 accepted,
      reply_task-eq task_id (pausing env auth task_id s)
          (moved env TaskState.pausing (intend_pause t)) (pausing-tasks env auth task_id s t e),
    )

-- A task in one of the states NEW, WAITING_HUMAN, PLANNING, EXECUTING and VERIFYING is paused: the
-- command succeeds, the task is PAUSING with the intent recorded and the same revoke epoch, and no
-- start or dispatch of it waits or is in flight.
pub pause_task_revokes :
    (env : Env) (auth : AuthContext) (task_id : ℕ) (s : Store) (t : TaskRow)
    → get task_id s.tasks ≡ some t
    → is_pausable t.state ≡ true
    → (s' : Store) × (pause_task env auth task_id s
        ≡ done
            (success (record {
              task_id = task_id;
              state = TaskState.pausing;
              revoke_epoch = t.revoke_epoch;
            }))
            s')
      × (get task_id s'.tasks ≡ some (moved env TaskState.pausing (intend_pause t)))
      × (any_entry (is_revocable task_id) s'.outbox ≡ false)
pause_task_revokes env auth task_id s t e live = (
  pausing env auth task_id s,
  pause_task-eq env auth task_id s t e live,
  pausing-tasks env auth task_id s t e,
  pausing-revokes env auth task_id s t e,
)
