-- ===== src/Application/Control/Moves.antt =====
-- The task state under `_set_task_state`, and what a control command reads and hands back.
use hibiki.Prelude.{ℕ, ◌+◌, ◌≡◌, Option, none, some, get, alter, get-alter, arith}
use hibiki.Domain.Enums.{TaskState}
use hibiki.Domain.Errors.{ok}
use hibiki.Domain.Transitions.{TaskEvent, transition_task}
use hibiki.Persistence.Models.{Reason, Store, TaskRow}
use hibiki.Persistence.Session.{Env, done, success}
use hibiki.Application.Base.{set_task, set_task_state, get_task, reply_task}

-- The row that `_set_task_state` writes.
abbrev pub moved_for : Env → TaskState → Option Reason → TaskRow → TaskRow
moved_for env state reason t = record t {
  state = state;
  state_reason = reason;
  state_revision = t.state_revision + 1;
  updated_at = env.now;
}

abbrev pub moved : Env → TaskState → TaskRow → TaskRow
moved env state t = moved_for env state none t

-- With an accepted event `_set_task_state` writes the row of the task, and nothing else.
pub set_task_state-eq_for :
    (env : Env) (task_id : ℕ) (event : TaskEvent) (reason : Option Reason) (s : Store) (t : TaskRow)
    (next : TaskState)
    → get task_id s.tasks ≡ some t
    → transition_task t.state event ≡ ok next
    → set_task_state env task_id event reason s
      ≡ done tt (set_task task_id (moved_for env next reason) s)
unfolding set_task_state
set_task_state-eq_for env task_id event reason s t next e h = ground arith

pub set_task_state-eq :
    (env : Env) (task_id : ℕ) (event : TaskEvent) (s : Store) (t : TaskRow) (next : TaskState)
    → get task_id s.tasks ≡ some t
    → transition_task t.state event ≡ ok next
    → set_task_state env task_id event none s ≡ done tt (set_task task_id (moved env next) s)
set_task_state-eq env task_id event s t next e h =
    set_task_state-eq_for env task_id event none s t next e h

-- What a handler hands back for a task that is there.
pub reply_task-eq :
    (task_id : ℕ) (s : Store) (t : TaskRow)
    → get task_id s.tasks ≡ some t
    → reply_task task_id s
      ≡ done
          (success (record { task_id = task_id; state = t.state; revoke_epoch = t.revoke_epoch }))
          s
unfolding reply_task
reply_task-eq task_id s t e = ground arith

pub get_task-eq :
    (task_id : ℕ) (s : Store) (t : TaskRow)
    → get task_id s.tasks ≡ some t
    → get_task task_id s ≡ done t s
unfolding get_task
get_task-eq task_id s t e = ground arith

pub get-alter_self :
    (k : ℕ) (f : TaskRow → TaskRow) (s : Store) (t : TaskRow)
    → get k s.tasks ≡ some t
    → get k (alter k f s.tasks) ≡ some (f t)
get-alter_self k f s t e = ground (arith, get-alter k k f s.tasks)
