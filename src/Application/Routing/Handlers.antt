-- ===== src/Application/Routing/Handlers.antt =====
-- Handlers leave the inbox alone.
use hibiki.Prelude.{ℕ, ◌≡◌, Bool, true, false, not, Option, get, is_some, ◌==◌}
use hibiki.Domain.Errors.{ErrorClass, Code}
use hibiki.Domain.Types.{AuthContext}
use hibiki.Persistence.Models.{Store, AgentRunRow}
use hibiki.Persistence.Session.{Env, success, fail_if}
use hibiki.Persistence.Session.Frame.{
  Keeps, bind-Keeps, gets-Keeps, pure-Keeps, require-Keeps, fail_if-Keeps, modify-Keeps,
}
use hibiki.Application.Base.{set_run}
use hibiki.Application.Base.Frame.{get_task-Keeps}
use hibiki.Application.Runs.{
  RunPayload, assert_run_write_binding, get_run, heartbeat, check_fencing, differs, is_bound,
  renew_lease,
}

module _ {A : Type 0} (g : Store → A) where
  get_run-Keeps : (run_id : ℕ) → Keeps g (get_run run_id)
  unfolding get_run
  get_run-Keeps run_id =
      bind-Keeps g _ _ (gets-Keeps g (λ s. get run_id s.runs))
        (λ row. require-Keeps g row ErrorClass.not_found Code.run_not_found)

  check_fencing-Keeps :
      (b : Bool) (epoch : Option ℕ) (current : ℕ) → Keeps g (check_fencing b epoch current)
  check_fencing-Keeps false epoch current = pure-Keeps g tt
  check_fencing-Keeps true epoch current =
      bind-Keeps g _ _
        (fail_if-Keeps g (not (is_some epoch)) ErrorClass.conflict Code.fencing_required)
        (λ _. fail_if-Keeps g (differs epoch current) ErrorClass.conflict Code.fencing_conflict)

  refuse-Keeps : (b : Bool) → Keeps g (fail_if b ErrorClass.authorization Code.authorization_denied)
  refuse-Keeps b = fail_if-Keeps g b ErrorClass.authorization Code.authorization_denied

  pub assert_run_write_binding-Keeps :
      (auth : AuthContext) (run_id : ℕ) (r : AgentRunRow) (p : RunPayload) (b : Bool)
      → Keeps g (assert_run_write_binding auth run_id r p b)
  unfolding assert_run_write_binding
  assert_run_write_binding-Keeps auth run_id r p b =
      bind-Keeps g _ _ (get_task-Keeps g r.task_id) (λ task.
        bind-Keeps g _ _ (refuse-Keeps (not (auth.principal_id == task.principal_id))) (λ _.
          bind-Keeps g _ _ (check_fencing-Keeps b p.fencing_epoch r.fencing_epoch) (λ _.
            bind-Keeps g _ _ (refuse-Keeps (differs p.task_id r.task_id)) (λ _.
              bind-Keeps g _ _ (refuse-Keeps (differs p.run_id run_id))
                (λ _. refuse-Keeps (not (is_bound auth run_id r)))))))

  -- What a heartbeat leaves alone: all that a change of a run does.
  pub heartbeat-Keeps :
      ((k : ℕ) (f : AgentRunRow → AgentRunRow) (s : Store) → g (set_run k f s) ≡ g s)
      → (env : Env) (auth : AuthContext) (run_id : ℕ) (p : RunPayload)
      → Keeps g (heartbeat env auth run_id p)
  unfolding heartbeat
  heartbeat-Keeps h env auth run_id p = bind-Keeps g _ _ (get_run-Keeps run_id) (λ r.
      bind-Keeps g _ _ (assert_run_write_binding-Keeps auth run_id r p true) (λ _.
        bind-Keeps g _ _ (modify-Keeps g _ (h run_id (renew_lease env)))
          (λ _. pure-Keeps g (success run_id))))
