-- ===== src/Application/Base/Frame.antt =====
-- What the helpers leave alone.
use hibiki.Prelude.{ℕ, ◌≡◌, Option, get}
use hibiki.Domain.Errors.{ErrorClass, Code}
use hibiki.Domain.Transitions.{TaskEvent, transition_task}
use hibiki.Persistence.Models.{Store, TaskRow, Reason}
use hibiki.Persistence.Session.{Env}
use hibiki.Persistence.Session.Frame.{
  Keeps, bind-Keeps, gets-Keeps, require-Keeps, lift-Keeps, modify-Keeps,
}
use hibiki.Application.Base.{get_task, set_task, set_task_state}

module _ {ℓ} {A : Type ℓ} (g : Store → A) where
  pub get_task-Keeps : (task_id : ℕ) → Keeps g (get_task task_id)
  unfolding get_task
  get_task-Keeps task_id =
      bind-Keeps g _ _ (gets-Keeps g (λ s. get task_id s.tasks))
        (λ row. require-Keeps g row ErrorClass.not_found Code.task_not_found)

  -- A change of state leaves alone what a change of a task does.
  pub set_task_state-Keeps :
      ((k : ℕ) (f : TaskRow → TaskRow) (s : Store) → g (set_task k f s) ≡ g s)
      → (env : Env) (task_id : ℕ) (event : TaskEvent) (reason : Option Reason)
      → Keeps g (set_task_state env task_id event reason)
  unfolding set_task_state
  set_task_state-Keeps h env task_id event reason =
      bind-Keeps g _ _ (get_task-Keeps task_id) (λ task.
        bind-Keeps g _ _ (lift-Keeps g (transition_task task.state event))
          (λ next. modify-Keeps g _ (h task_id _)))
