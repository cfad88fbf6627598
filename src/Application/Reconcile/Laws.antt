-- ===== src/Application/Reconcile/Laws.antt =====
-- What reconciliation makes of a run in a sandbox.
use hibiki.Prelude.{ℕ, ◌≡◌, refl, true, some, get, alter, get-alter, arith}
use hibiki.Persistence.Models.{Store, AgentRunRow, WorkspaceRow}
use hibiki.Persistence.Session.{Env, done}
use hibiki.Application.Reconcile.{reconcile_run, sandbox_may_run, hold_unconfirmed}

-- While the sandbox of a run may still run, reconciliation keeps the run as it is and its workspace
-- QUARANTINED under the same owner, with the writer flagged as alive.
pub reconcile_run-holds :
    (env : Env) (task_id run_id workspace_id : ℕ) (r : AgentRunRow) (ws : WorkspaceRow) (s : Store)
    → sandbox_may_run env run_id r ≡ true
    → r.workspace_id ≡ some workspace_id
    → get workspace_id s.workspaces ≡ some ws
    → (s' : Store) × (reconcile_run env task_id run_id r s ≡ done tt s')
      × (s'.runs ≡ s.runs)
      × (get workspace_id s'.workspaces ≡ some (hold_unconfirmed ws))
unfolding reconcile_run
reconcile_run-holds env task_id run_id workspace_id r ws s h w e = (
  record s { workspaces = alter workspace_id hold_unconfirmed s.workspaces },
  ground arith,
  refl,
  ground (arith, get-alter workspace_id workspace_id hold_unconfirmed s.workspaces),
)
