-- ===== src/Application/Control/Quiet.antt =====
-- A task that pauses becomes quiet.
use hibiki.Prelude.{
  ℕ, ◌≡◌, refl, ◌∙◌, ap, Bool, true, false, ◌&&◌, some, [], ◌∷◌, foldl, Table, get, map_rows,
  any_row, any_entry, any_row-map_rows, any_row-alter, select, arith, ◌==◌, Option-cases, inl, inr,
}
use hibiki.Prelude.Sweep.{sweep}
use hibiki.Domain.Enums.{TaskState, AgentRunStatus}
use hibiki.Domain.Errors.{ok}
use hibiki.Domain.Transitions.{TaskEvent, transition_task}
use hibiki.Domain.Types.{AuthContext}
use hibiki.Persistence.Models.{
  Store, TaskRow, AgentRunRow, WorkUnitExecutionRow, StopReason, EventType,
}
use hibiki.Persistence.Session.{Env, done, success}
use hibiki.Application.Base.{set_task, set_run, append_event, task_has_live_writer}
use hibiki.Application.Occupancy.{clear_run_occupancy, vacate_work_unit}
use hibiki.Application.Occupancy.Frame.{clear_run_occupancy-SameRecords}
use hibiki.Application.Stops.{is_running_unit}
use hibiki.Application.Control.Moves.{
  moved, set_task_state-eq, reply_task-eq, get_task-eq, get-alter_self,
}
use hibiki.Application.Control.{
  runtime_quiescent, quiesce, cancel_active_run, is_active_of, pause_unit,
}

abbrev is_running_of : ℕ → WorkUnitExecutionRow → Bool
is_running_of task_id w = w.task_id == task_id && is_running_unit w.status

clear_run_occupancy-units :
    (task_id run_id : ℕ) (r : AgentRunRow) (s : Store)
    → any_row (is_running_of task_id) s.work_units ≡ false
    → any_row (is_running_of task_id) (clear_run_occupancy run_id r true s).work_units ≡ false
unfolding clear_run_occupancy
clear_run_occupancy-units task_id run_id r s h = elim (Option-cases r.work_unit_id) [
  | inl e ↦ ground arith
  | inr (w, e) ↦ ground (
    arith,
    any_row-alter (is_running_of task_id) w (vacate_work_unit run_id) s.work_units
        (λ v g. ground arith) h,
  )
]

abbrev mark_paused_run : Env → AgentRunRow → AgentRunRow
mark_paused_run env r = record r {
  status = AgentRunStatus.cancelled;
  finished_at = some env.now;
  terminal_reason = some StopReason.paused;
}

abbrev mark_paused : Env → ℕ → Store → Store
mark_paused env k s = set_run k (mark_paused_run env) s

-- What the loop over the active runs keeps.
record Kept (task_id : ℕ) (s t : Store) : Type 0 where
  tasks : t.tasks ≡ s.tasks
  units : any_row (is_running_of task_id) t.work_units ≡ false

runs_loop :
    (env : Env) (task_id : ℕ) (rows : Table AgentRunRow) (s : Store)
    → any_row (is_running_of task_id) s.work_units ≡ false
    → Kept task_id s (foldl (cancel_active_run env) s rows)
runs_loop env task_id [] s h = record { tasks = refl; units = h }
runs_loop env task_id ((k, r) ∷ rows) s h =
    let marked = mark_paused env k s in
    let rest =
      runs_loop env task_id rows (cancel_active_run env s (k, r))
        (clear_run_occupancy-units task_id k r marked h) in
    record {
      tasks = rest.tasks ∙ (clear_run_occupancy-SameRecords k r true marked).tasks;
      units = rest.units;
    }

paused_round :
    (env : Env) (s : Store) (k : ℕ) (r : AgentRunRow)
    → (cancel_active_run env s (k, r)).runs ≡ (mark_paused env k s).runs
paused_round env s k r = (clear_run_occupancy-SameRecords k r true (mark_paused env k s)).runs

no_active_run :
    (env : Env) (task_id : ℕ) (s : Store)
    → any_entry
        (is_active_of task_id)
        (foldl (cancel_active_run env) s (select (is_active_of task_id) s.runs)).runs
      ≡ false
no_active_run env task_id s =
    sweep (is_active_of task_id) (λ (a : Store). a.runs) (cancel_active_run env)
      (λ a k r b. (mark_paused_run env, paused_round env a k r, λ w. ground arith)) s

-- What a quiet task satisfies.
pub record IsQuiet (task_id : ℕ) (s : Store) : Type 0 where
  pub no_run : any_entry (is_active_of task_id) s.runs ≡ false
  pub no_running_unit : any_row (is_running_of task_id) s.work_units ≡ false

abbrev pub drop_pause : TaskRow → TaskRow
drop_pause t = record t { pause_intent = false }

quiesce-lem :
    (env : Env) (task_id : ℕ) (s : Store) (t : TaskRow)
    → get task_id s.tasks ≡ some t
    → (get task_id (quiesce env task_id s).tasks ≡ some (drop_pause t))
      × IsQuiet task_id (quiesce env task_id s)
unfolding quiesce
quiesce-lem env task_id s t e =
    let s1 = record s { work_units = map_rows (pause_unit task_id) s.work_units } in
    let kept = runs_loop env task_id (select (is_active_of task_id) s1.runs) s1 (
      any_row-map_rows (is_running_of task_id) (pause_unit task_id) s.work_units
        (λ w. ground arith)) in
    let s2 = foldl (cancel_active_run env) s1 (select (is_active_of task_id) s1.runs) in
    (
      get-alter_self task_id drop_pause s2 t (ap (get task_id) kept.tasks ∙ e),
      record { no_run = no_active_run env task_id s1; no_running_unit = kept.units },
    )

-- The database that `runtime_quiescent` commits.
abbrev quiet : Env → AuthContext → ℕ → Store → Store
quiet env auth task_id s =
    append_event env task_id EventType.task_paused (some auth.actor_id)
      (set_task task_id (moved env TaskState.paused) (quiesce env task_id s))

runtime_quiescent-eq :
    (env : Env) (auth : AuthContext) (task_id : ℕ) (s : Store) (t : TaskRow)
    → get task_id s.tasks ≡ some t
    → t.state ≡ TaskState.pausing
    → task_has_live_writer env task_id s ≡ false
    → runtime_quiescent env auth task_id s
      ≡ done
          (success
            (record { task_id = task_id; state = TaskState.paused; revoke_epoch = t.revoke_epoch }))
          (quiet env auth task_id s)
unfolding runtime_quiescent append_event
runtime_quiescent-eq env auth task_id s t e p quiet_writers =
    let s2 = quiesce env task_id s in
    let e2 = (quiesce-lem env task_id s t e).0 in
    let e3 = get-alter_self task_id (moved env TaskState.paused) s2 (drop_pause t) e2 in
    let accepted : transition_task t.state TaskEvent.runtime_quiescent ≡ ok TaskState.paused =
      ground arith in
    ground (
      arith,
      get_task-eq task_id s t e,
      set_task_state-eq env task_id TaskEvent.runtime_quiescent s2 (drop_pause t) TaskState.paused
          e2 accepted,
      reply_task-eq task_id (quiet env auth task_id s) (moved env TaskState.paused (drop_pause t))
          e3,
    )

-- A PAUSING task without a live writer becomes PAUSED: the command succeeds, the intent is dropped,
-- and no run of the task is CREATED or RUNNING and none of its work units RUNNING.
pub runtime_quiescent_pauses :
    (env : Env) (auth : AuthContext) (task_id : ℕ) (s : Store) (t : TaskRow)
    → get task_id s.tasks ≡ some t
    → t.state ≡ TaskState.pausing
    → task_has_live_writer env task_id s ≡ false
    → (s' : Store) × (runtime_quiescent env auth task_id s
        ≡ done
            (success (record {
              task_id = task_id;
              state = TaskState.paused;
              revoke_epoch = t.revoke_epoch;
            }))
            s')
      × (get task_id s'.tasks ≡ some (moved env TaskState.paused (drop_pause t)))
      × IsQuiet task_id s'
unfolding append_event
runtime_quiescent_pauses env auth task_id s t e p w =
    let (e2, calm) = quiesce-lem env task_id s t e in
    let s2 = quiesce env task_id s in
    (
      quiet env auth task_id s,
      runtime_quiescent-eq env auth task_id s t e p w,
      get-alter_self task_id (moved env TaskState.paused) s2 (drop_pause t) e2,
      record { no_run = calm.no_run; no_running_unit = calm.no_running_unit },
    )
