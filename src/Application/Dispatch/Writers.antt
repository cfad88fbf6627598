-- ===== src/Application/Dispatch/Writers.antt =====
-- A dispatch never takes a workspace from its writer.
use hibiki.Prelude.{ℕ, ◌≡◌, ap, ◌∙◌, true, some, List, get}
use hibiki.Domain.Types.{AuthContext}
use hibiki.Persistence.Models.{Store, WorkspaceRow}
use hibiki.Persistence.Session.{Env, done, CommandResult}
use hibiki.Application.Dispatch.{Surroundings, is_held}
use hibiki.Application.Dispatch.Handler.{dispatch_ready_runs}
use hibiki.Application.Dispatch.Command.{places, first_round, dispatch_ready_runs-keeps}
use hibiki.Application.Dispatch.Held.{IsHeldAs, dispatch_nodes-Held}

held-places :
    (k : ℕ) (w : WorkspaceRow) (s s' : Store)
    → places s' ≡ places s
    → IsHeldAs k w s
    → IsHeldAs k w s'
held-places k w s s' e (g, h) = (ap (λ x. get k x.1) e ∙ g, ap (λ x. is_held w x.0) e ∙ h)

-- A dispatch leaves a workspace as it is that is quarantined, that has a writer, or whose owner is
-- CREATED or RUNNING, and this still holds of it afterwards.
pub dispatch_ready_runs-held :
    (env : Env) (i : Surroundings) (auth : AuthContext) (task_id : ℕ) (hash_of : ℕ → ℕ)
    (s s' : Store) (r : CommandResult (List ℕ)) (k : ℕ) (w : WorkspaceRow)
    → get k s.workspaces ≡ some w
    → is_held w s.runs ≡ true
    → dispatch_ready_runs env i auth task_id hash_of s ≡ done r s'
    → (get k s'.workspaces ≡ some w) × (is_held w s'.runs ≡ true)
dispatch_ready_runs-held env i auth task_id hash_of s s' r k w g h e =
    dispatch_ready_runs-keeps env i auth task_id hash_of (IsHeldAs k w) (held-places k w)
      (λ task plan s b.
        dispatch_nodes-Held env i auth task_id task plan.edges k w plan.nodes
          (first_round task_id s) s b)
      s s' r (g, h) e
