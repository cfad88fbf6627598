-- ===== src/Application/Control/Cancel.antt =====
-- What a cancelled task can no longer do, and which tasks can be cancelled.
use hibiki.Prelude.{
  ℕ, ◌+◌, ◌≡◌, ◌∙◌, true, false, ◌||◌, some, get, get-alter, any_entry, get-map_entries, arith,
}
use hibiki.Domain.Enums.{TaskState, SideEffectState, WorkUnitStatus}
use hibiki.Domain.Errors.{ok}
use hibiki.Domain.Guards.{is_cancelling}
use hibiki.Domain.Transitions.{is_terminal_task, TaskEvent, transition_task}
use hibiki.Domain.Types.{AuthContext}
use hibiki.Persistence.Models.{
  Store, TaskRow, SideEffectRow, WorkUnitExecutionRow, StopReason, EventType,
}
use hibiki.Persistence.Session.{Env, done, success}
use hibiki.Application.Base.{set_task, append_event}
use hibiki.Application.Stops.Kept.{
  EffectKept, UnitKept, EffectKept-found, UnitKept-found, invalidate_pending_outbox-AllKept,
}
use hibiki.Application.Stops.{
  is_revocable, is_dispatching, invalidate_pending_outbox, enqueue_stops,
}
use hibiki.Application.Stops.Frame.{enqueue_stops-SameButOutbox}
use hibiki.Application.Stops.Revoke.{
  invalidate_pending_outbox-settles, invalidate_pending_outbox-tasks,
}
use hibiki.Application.Control.Moves.{
  moved, set_task_state-eq, reply_task-eq, get_task-eq, get-alter_self,
}
use hibiki.Application.Control.{
  cancel_task, cancel_work, cancel_effect, cancel_unit, is_before_dispatch, is_pending_or_blocked,
}

-- What a task that was in the database `s` has lost in `s'`.
pub record IsRevoked (task_id : ℕ) (s s' : Store) : Type 0 where
  pub no_send : any_entry (is_revocable task_id) s'.outbox ≡ false
  pub early_effects :
      (k : ℕ) (e : SideEffectRow)
      → get k s.side_effects ≡ some e
      → e.task_id ≡ task_id
      → is_before_dispatch e.state ≡ true
      → (e' : SideEffectRow) × (get k s'.side_effects ≡ some e')
        × (e'.state ≡ SideEffectState.cancelled)
  pub open_units :
      (k : ℕ) (w : WorkUnitExecutionRow)
      → get k s.work_units ≡ some w
      → w.task_id ≡ task_id
      → is_pending_or_blocked w.status ≡ true
      → (w' : WorkUnitExecutionRow) × (get k s'.work_units ≡ some w')
        × (w'.status ≡ WorkUnitStatus.cancelled)

-- An effect that was found before its dispatch, after the loop.
cancel_effect-early :
    (task_id k : ℕ) (stored s : Store) (e : SideEffectRow)
    → get k stored.side_effects ≡ some e
    → e.task_id ≡ task_id
    → is_before_dispatch e.state ≡ true
    → EffectKept (some e) (get k s.side_effects)
    → (e' : SideEffectRow) × (get k (cancel_work task_id stored s).side_effects ≡ some e')
      × (e'.state ≡ SideEffectState.cancelled)
unfolding cancel_work
cancel_effect-early task_id k stored s e found mine early (e1, f, same, state) =
    let idle : is_dispatching e.state ≡ false = ground arith in
    let state1 = state idle in
    (
      cancel_effect task_id stored k e1,
      ground (arith, get-map_entries k (cancel_effect task_id stored) s.side_effects),
      ground (arith, state1),
    )

cancel_unit-open :
    (task_id k : ℕ) (stored s : Store) (w : WorkUnitExecutionRow)
    → get k stored.work_units ≡ some w
    → w.task_id ≡ task_id
    → is_pending_or_blocked w.status ≡ true
    → UnitKept (some w) (get k s.work_units)
    → (w' : WorkUnitExecutionRow) × (get k (cancel_work task_id stored s).work_units ≡ some w')
      × (w'.status ≡ WorkUnitStatus.cancelled)
unfolding cancel_work
cancel_unit-open task_id k stored s w found mine early (w1, f) = (
  cancel_unit task_id stored k w1,
  ground (arith, get-map_entries k (cancel_unit task_id stored) s.work_units),
  ground arith,
)

abbrev pub intend_cancel : TaskRow → TaskRow
intend_cancel t = record t { cancel_intent = true; revoke_epoch = t.revoke_epoch + 1 }

-- The database that `cancel_task` commits.
abbrev cancelled : Env → AuthContext → ℕ → Store → Store
cancelled env auth task_id s =
    let s1 = set_task task_id intend_cancel s in
    let s2 = set_task task_id (moved env TaskState.cancelling) s1 in
    let s3 = invalidate_pending_outbox env task_id s2 in
    let s4 = cancel_work task_id s s3 in
    let s5 = enqueue_stops env task_id s.outbox StopReason.cancel s4 in
    append_event env task_id EventType.cancel_requested (some auth.actor_id) s5

cancelled-tasks :
    (env : Env) (auth : AuthContext) (task_id : ℕ) (s : Store) (t : TaskRow)
    → get task_id s.tasks ≡ some t
    → get task_id (cancelled env auth task_id s).tasks
      ≡ some (moved env TaskState.cancelling (intend_cancel t))
unfolding append_event cancel_work
cancelled-tasks env auth task_id s t e =
    let s1 = set_task task_id intend_cancel s in
    let s2 = set_task task_id (moved env TaskState.cancelling) s1 in
    let s3 = invalidate_pending_outbox env task_id s2 in
    let s4 = cancel_work task_id s s3 in
    ground (
      arith,
      (enqueue_stops-SameButOutbox env task_id s.outbox StopReason.cancel s4).tasks,
      (invalidate_pending_outbox-tasks env task_id s2).0,
      get-alter task_id task_id (moved env TaskState.cancelling) s1.tasks,
      get-alter task_id task_id intend_cancel s.tasks,
    )

cancelled-IsRevoked :
    (env : Env) (auth : AuthContext) (task_id : ℕ) (s : Store) (t : TaskRow)
    → get task_id s.tasks ≡ some t
    → IsRevoked task_id s (cancelled env auth task_id s)
unfolding append_event cancel_work
cancelled-IsRevoked env auth task_id s t e =
    let s1 = set_task task_id intend_cancel s in
    let s2 = set_task task_id (moved env TaskState.cancelling) s1 in
    let s3 = invalidate_pending_outbox env task_id s2 in
    let s4 = cancel_work task_id s s3 in
    let stops = enqueue_stops-SameButOutbox env task_id s.outbox StopReason.cancel s4 in
    let kept = invalidate_pending_outbox-AllKept env task_id s2 in
    let e1 = get-alter_self task_id intend_cancel s t e in
    let e2 = get-alter_self task_id (moved env TaskState.cancelling) s1 (intend_cancel t) e1 in
    record {
      no_send =
          stops.revocable task_id
          ∙ invalidate_pending_outbox-settles env task_id s2
              (moved env TaskState.cancelling (intend_cancel t)) e2;
      early_effects = λ k x found mine early. rw stops.effects (
          cancel_effect-early task_id k s s3 x found mine early (
            EffectKept-found (get k s.side_effects) (get k s3.side_effects) x found
              (kept.effects k)));
      open_units = λ k w found mine early. rw stops.work_units (
          cancel_unit-open task_id k s s3 w found mine early
            (UnitKept-found (get k s.work_units) (get k s3.work_units) w found (kept.units k)));
    }

cancel_task-eq :
    (env : Env) (auth : AuthContext) (task_id : ℕ) (s : Store) (t : TaskRow)
    → get task_id s.tasks ≡ some t
    → (is_terminal_task t.state || is_cancelling t.state) ≡ false
    → cancel_task env auth task_id s
      ≡ done
          (success (record {
            task_id = task_id;
            state = TaskState.cancelling;
            revoke_epoch = t.revoke_epoch + 1;
          }))
          (cancelled env auth task_id s)
unfolding cancel_task
cancel_task-eq env auth task_id s t e live =
    let s1 = set_task task_id intend_cancel s in
    let e1 = get-alter_self task_id intend_cancel s t e in
    let accepted : transition_task t.state TaskEvent.cancel_requested ≡ ok TaskState.cancelling =
      ground arith in
    ground (
      arith,
      get_task-eq task_id s t e,
      set_task_state-eq env task_id TaskEvent.cancel_requested s1 (intend_cancel t)
          TaskState.cancelling e1 accepted,
      reply_task-eq task_id (cancelled env auth task_id s)
          (moved env TaskState.cancelling (intend_cancel t))
          (cancelled-tasks env auth task_id s t e),
    )

-- A task that is neither terminal nor already CANCELLING is cancelled: the command succeeds, the
-- task is CANCELLING with the intent recorded and a higher revoke epoch, no start or dispatch of it
-- waits or is in flight, each of its side effects that was PROPOSED, WAITING_APPROVAL or AUTHORIZED
-- before the command is CANCELLED, and so is each of its work units that was PENDING or BLOCKED
-- before the command.
pub cancel_task_revokes :
    (env : Env) (auth : AuthContext) (task_id : ℕ) (s : Store) (t : TaskRow)
    → get task_id s.tasks ≡ some t
    → (is_terminal_task t.state || is_cancelling t.state) ≡ false
    → (s' : Store) × (cancel_task env auth task_id s
        ≡ done
            (success (record {
              task_id = task_id;
              state = TaskState.cancelling;
              revoke_epoch = t.revoke_epoch + 1;
            }))
            s')
      × (get task_id s'.tasks ≡ some (moved env TaskState.cancelling (intend_cancel t)))
      × IsRevoked task_id s s'
cancel_task_revokes env auth task_id s t e live = (
  cancelled env auth task_id s,
  cancel_task-eq env auth task_id s t e live,
  cancelled-tasks env auth task_id s t e,
  cancelled-IsRevoked env auth task_id s t e,
)
