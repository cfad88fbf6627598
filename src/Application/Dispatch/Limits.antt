-- ===== src/Application/Dispatch/Limits.antt =====
-- The limits on active runs, over the whole command.
use mathlib.Core.Path.{subst}
use hibiki.Prelude.{ℕ, ◌≤◌, ◌≡◌, refl, sym, ap, none, some, List}
use hibiki.Domain.Defaults.{defaults}
use hibiki.Domain.Types.{AuthContext}
use hibiki.Persistence.Models.{Store, TaskRow}
use hibiki.Persistence.Session.{Env, Step, raised, done, CommandResult}
use hibiki.Persistence.Session.Frame.{Ensures}
use hibiki.Application.Base.{count_active_runs}
use hibiki.Application.Dispatch.{Surroundings}
use hibiki.Application.Dispatch.Rounds.{Round}
use hibiki.Application.Dispatch.Handler.{dispatch_ready_runs}
use hibiki.Application.Dispatch.Command.{places, first_round, dispatch_ready_runs-keeps}
use hibiki.Domain.Plan.{PlanEdge}
use hibiki.Application.Dispatch.Counts.{IsBounded, dispatch_nodes-Ensures, count_active_runs-runs}

-- Both counts are within their limits.
abbrev IsWithinLimits : ℕ → Store → Type 0
IsWithinLimits task_id s =
    (count_active_runs none s ≤ defaults.global_run_concurrency)
    × (count_active_runs (some task_id) s ≤ defaults.per_task_run_concurrency)

within-places :
    (task_id : ℕ) (s s' : Store)
    → places s' ≡ places s
    → IsWithinLimits task_id s
    → IsWithinLimits task_id s'
within-places task_id s s' e (g, t) =
    let same = ap (λ x. x.0) e in
    (
      subst (λ n. n ≤ defaults.global_run_concurrency) (sym (count_active_runs-runs none s s' same))
          g,
      subst (λ n. n ≤ defaults.per_task_run_concurrency)
          (sym (count_active_runs-runs (some task_id) s s' same)) t,
    )

abbrev LoopWithin : ℕ → Round → Store → Type 0
LoopWithin task_id r s = IsWithinLimits task_id s

bounded-within :
    (env : Env) (i : Surroundings) (auth : AuthContext) (task_id : ℕ) (task : TaskRow)
    (edges : List PlanEdge) (x : Step Round)
    → Ensures (IsBounded env i auth task_id task edges) x
    → Ensures (LoopWithin task_id) x
bounded-within env i auth task_id task edges (done r s) ((cg, ct), bg, bt) = (
  subst (λ n. n ≤ defaults.global_run_concurrency) (sym cg) bg,
  subst (λ n. n ≤ defaults.per_task_run_concurrency) (sym ct) bt,
)
bounded-within env i auth task_id task edges (raised e s) b = tt

-- A dispatch that returns has at most 4 runs CREATED or RUNNING, and at most 2 of its task, if it
-- found no more than that.
pub dispatch_ready_runs-bounded :
    (env : Env) (i : Surroundings) (auth : AuthContext) (task_id : ℕ) (hash_of : ℕ → ℕ)
    (s s' : Store) (r : CommandResult (List ℕ))
    → count_active_runs none s ≤ 4
    → count_active_runs (some task_id) s ≤ 2
    → dispatch_ready_runs env i auth task_id hash_of s ≡ done r s'
    → (count_active_runs none s' ≤ 4) × (count_active_runs (some task_id) s' ≤ 2)
dispatch_ready_runs-bounded env i auth task_id hash_of s s' r g t h =
    dispatch_ready_runs-keeps env i auth task_id hash_of (IsWithinLimits task_id)
      (within-places task_id)
      (λ task plan s b. bounded-within env i auth task_id task plan.edges _ (
        dispatch_nodes-Ensures env i auth task_id task plan.edges plan.nodes (first_round task_id s)
          s ((refl, refl), b.0, b.1)))
      s s' r (g, t) h
