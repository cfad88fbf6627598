-- ===== src/Application/Runs/Laws.antt =====
-- Which credential may write for a run.
use hibiki.Prelude.{
  is_key_iff, ℕ, ◌≡◌, ◌↔◌, Bool, true, false, Option, some, get, arith, ◌==◌, is_key,
}
use hibiki.Domain.Errors.{is_ok}
use hibiki.Domain.Types.{AuthContext}
use hibiki.Persistence.Models.{Store, TaskRow, AgentRunRow, WorkspaceRow}
use hibiki.Persistence.Session.{Env, done, run}
use hibiki.Application.Base.{get_task}
use hibiki.Application.Runs.{
  RunPayload, assert_run_write_binding, differs, get_run, heartbeat, set_writer_alive,
  register_sandbox_identity,
}

-- A write is bound to a run exactly when the principal is that of its task, the payload carries the
-- run's fencing epoch and names no other task or run, the credential names the run's task, the run,
-- its fencing epoch and its grant epoch, and the actor is the agent of the run.
pub assert_run_write_binding_iff :
    (auth : AuthContext) (run_id : ℕ) (r : AgentRunRow) (p : RunPayload) (s : Store) (t : TaskRow)
    → get r.task_id s.tasks ≡ some t
    → (assert_run_write_binding auth run_id r p true s ≡ done tt s) ↔ (
        ((auth.principal_id == t.principal_id) ≡ true)
        × (p.fencing_epoch ≡ some r.fencing_epoch)
        × (differs p.task_id r.task_id ≡ false)
        × (differs p.run_id run_id ≡ false)
        × (auth.bound_task_id ≡ some r.task_id)
        × (auth.bound_run_id ≡ some run_id)
        × (auth.bound_fencing_epoch ≡ some r.fencing_epoch)
        × (auth.bound_grant_epoch ≡ some r.grant_epoch)
        × ((auth.actor_id == r.agent_instance_id) ≡ true))
unfolding assert_run_write_binding get_task
assert_run_write_binding_iff auth run_id r p s t e =
    let epoch = is_key_iff p.fencing_epoch r.fencing_epoch in
    let task = is_key_iff auth.bound_task_id r.task_id in
    let own = is_key_iff auth.bound_run_id run_id in
    let fencing = is_key_iff auth.bound_fencing_epoch r.fencing_epoch in
    let grant = is_key_iff auth.bound_grant_epoch r.grant_epoch in
    (
      λ h. ground (arith, epoch.0, task.0, own.0, fencing.0, grant.0),
      λ h. ground (arith, epoch.1, task.1, own.1, fencing.1, grant.1),
    )

-- A payload with another fencing epoch than the run's, or with none, is refused by a heartbeat, by a
-- change of the writer flag of the workspace that the run owns, and by a sandbox registration.
pub stale_run_refused :
    (env : Env) (auth : AuthContext) (run_id workspace_id : ℕ) (p : RunPayload) (s : Store)
    (t : TaskRow) (r : AgentRunRow) (ws : WorkspaceRow) (alive quarantine : Bool)
    (container : Option ℕ) (confirmed : Option Bool)
    → get run_id s.runs ≡ some r
    → get r.task_id s.tasks ≡ some t
    → get workspace_id s.workspaces ≡ some ws
    → ws.owner_run_id ≡ some run_id
    → p.run_id ≡ some run_id
    → is_key p.fencing_epoch r.fencing_epoch ≡ false
    → (is_ok (run (heartbeat env auth run_id p) s).0 ≡ false)
      × (is_ok (run (set_writer_alive auth workspace_id p alive quarantine) s).0 ≡ false)
      × (is_ok (run (register_sandbox_identity auth run_id p container confirmed) s).0 ≡ false)
unfolding run heartbeat set_writer_alive register_sandbox_identity assert_run_write_binding get_run
    get_task
stale_run_refused env auth run_id workspace_id p s t r ws alive quarantine container confirmed e f w
      o i k =
    (ground arith, ground arith, ground arith)
