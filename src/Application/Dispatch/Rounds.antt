-- ===== src/Application/Dispatch/Rounds.antt =====
-- service.py: the loop of `_dispatch_ready_runs` over the nodes of a plan.
use hibiki.Prelude.{
  ℕ, suc, Bool, true, false, ◌&&◌, ◌||◌, Option, none, some, List, [], ◌∷◌, ◌++◌, get, leb, ◌==◌,
}
use hibiki.Domain.Defaults.{defaults}
use hibiki.Domain.Plan.{PlanEdge}
use hibiki.Domain.Transitions.{WorkUnitEvent, transition_work_unit}
use hibiki.Domain.Types.{AuthContext}
use hibiki.Persistence.Models.{TaskRow, WorkUnitExecutionRow, StoredNode, EventType, Reason}
use hibiki.Persistence.Session.{Env, M, gets, modify, lift, pure, ◌>>=◌, ◌>>◌}
use hibiki.Application.Base.{set_work_unit, append_event}
use hibiki.Application.Dispatch.{Surroundings, is_pending_unit, is_ready, node_workspace}
use hibiki.Application.Dispatch.Start.{write_start, drop_stale_marker, bind_spec, block_for, draw}

-- The counters of the loop, and the runs that it has created.
pub record Round : Type 0 where
  pub global_active : ℕ
  pub task_active : ℕ
  pub created : List ℕ

abbrev pub count_run : ℕ → Round → Round
count_run run_id r = record {
  global_active = suc r.global_active;
  task_active = suc r.task_active;
  created = r.created ++ (run_id ∷ []);
}

module _ (env : Env) (i : Surroundings) (auth : AuthContext) (task_id : ℕ) (task : TaskRow)
    (edges : List PlanEdge) where
  unfoldable pub start_run : StoredNode → WorkUnitExecutionRow → ℕ → Round → M Round
  unfolding write_start
  start_run node wu run_id r = do
    ws ← gets (node_workspace i node)
    status ← lift (transition_work_unit wu.status WorkUnitEvent.run_started)
    modify (write_start env i auth task_id task node ws run_id status)
    pure (count_run run_id r)

  -- Mandatory context that is larger than the budget is never trimmed: the work unit is BLOCKED.
  unfoldable pub start_unless : Bool → StoredNode → WorkUnitExecutionRow → ℕ → Round → M Round
  unfolding start_run append_event
  start_unless false node wu run_id r = start_run node wu run_id r
  start_unless true node wu run_id r = do
    modify (λ s.
        append_event env task_id EventType.work_unit_blocked (some auth.actor_id)
          (set_work_unit node.work_unit_id (block_for Reason.context_overflow) s))
    pure r

  -- The attempt that follows the last one that is allowed blocks the work unit.
  unfoldable pub attempt : Bool → StoredNode → WorkUnitExecutionRow → ℕ → Round → M Round
  unfolding start_unless
  attempt true node wu run_id r = do
    modify (set_work_unit node.work_unit_id (block_for Reason.attempts_exhausted))
    pure r
  attempt false node wu run_id r = do
    modify (draw 1)
    too_large ← gets (i.overflows node.work_unit_id)
    start_unless too_large node wu run_id r

  unfoldable pub begin : Bool → StoredNode → WorkUnitExecutionRow → Round → M Round
  unfolding attempt
  begin false node wu r = pure r
  begin true node wu r = do
    modify (drop_stale_marker node.work_unit_id)
    run_id ← gets (λ s. env.new_id s.drawn)
    modify (draw 1)
    attempt (leb defaults.max_work_unit_attempts wu.attempt_count) node wu run_id r

  unfoldable pub consider : Bool → StoredNode → WorkUnitExecutionRow → Round → M Round
  unfolding begin is_ready
  consider false node wu r = pure r
  consider true node wu r = do
    modify (set_work_unit node.work_unit_id (bind_spec node))
    ready ← gets (is_ready env i edges node wu)
    begin ready node wu r

  unfoldable pub dispatch_unit : Option WorkUnitExecutionRow → StoredNode → Round → M Round
  unfolding consider
  dispatch_unit none node r = pure r
  dispatch_unit (some wu) node r =
      consider (is_pending_unit wu.status && wu.task_id == task_id) node wu r

  unfoldable pub dispatch_node : StoredNode → Round → M Round
  unfolding dispatch_unit
  dispatch_node node r = do
    wu ← gets (λ s. get node.work_unit_id s.work_units)
    dispatch_unit wu node r

  abbrev pub at_limit : Round → Bool
  at_limit r =
      leb defaults.global_run_concurrency r.global_active
      || leb defaults.per_task_run_concurrency r.task_active

  -- `break` at a limit.
  abbrev pub unless_limit : Bool → Round → M Round → M Round
  unless_limit true r rest = pure r
  unless_limit false r rest = rest

  unfoldable pub dispatch_nodes : List StoredNode → Round → M Round
  unfolding dispatch_node
  dispatch_nodes [] r = pure r
  dispatch_nodes (node ∷ nodes) r =
      unless_limit (at_limit r) r (dispatch_node node r >>= λ r'. dispatch_nodes nodes r')
