-- ===== src/Application/Dispatch/Counts.antt =====
-- How many runs are active after a dispatch.
use mathlib.Core.Path.{subst}
use hibiki.Prelude.{
  ℕ, suc, ◌≤◌, ◌≡◌, refl, sym, ap, ◌∙◌, Bool, true, false, Option, none, some, List, [], ◌∷◌, arith,
  count_rows, add, Table, if◌then◌else◌, ◌&&◌, ◌==◌,
}
use hibiki.Domain.Defaults.{defaults}
use hibiki.Domain.Enums.{WorkUnitStatus}
use hibiki.Domain.Plan.{PlanEdge}
use hibiki.Domain.Transitions.{WorkUnitEvent, transition_work_unit}
use hibiki.Domain.Types.{AuthContext}
use hibiki.Persistence.Models.{
  Store, TaskRow, WorkUnitExecutionRow, WorkspaceRow, AgentRunRow, StoredNode, Reason,
}
use hibiki.Persistence.Session.{Env, lift, M}
use hibiki.Persistence.Session.Frame.{Ensures, Ensures-done, bind-Ensures, lift-Keeps}
use hibiki.Application.Base.{count_active_runs, is_active_run, append_event, set_work_unit}
use hibiki.Application.Dispatch.{Surroundings, node_workspace}
use hibiki.Application.Dispatch.Start.{
  write_start, new_run, lock_workspace, occupy, add_run, frozen_tools, path_below, key_of_workspace,
  draw, drop_stale_marker, bind_spec, block_for,
}
use hibiki.Application.Dispatch.Rounds.{
  Round, count_run, start_run, start_unless, attempt, begin, consider, dispatch_unit, dispatch_node,
  dispatch_nodes, unless_limit, at_limit,
}

module _ {ℓ} {V : Type ℓ} where
  count_rows-add :
      (p : V → Bool) (k : ℕ) (v : V) (t : Table V)
      → count_rows p (add k v t) ≡ (if p v then suc (count_rows p t) else count_rows p t)
  count_rows-add p k v [] = ground arith
  count_rows-add p k v ((j, w) ∷ t) = ground (arith, count_rows-add p k v t)

-- The counters of the loop are those of the database.
abbrev pub IsCounted : ℕ → Round → Store → Type 0
IsCounted task_id r s =
    (count_active_runs none s ≡ r.global_active)
    × (count_active_runs (some task_id) s ≡ r.task_active)

-- A step counts right, and adds at most one run.
abbrev IsStep : ℕ → Round → Round → Store → Type 0
IsStep task_id r r' s' =
    IsCounted task_id r' s'
    × (r'.global_active ≤ suc r.global_active)
    × (r'.task_active ≤ suc r.task_active)

pub count_active_runs-runs :
    (o : Option ℕ) (s s' : Store)
    → s'.runs ≡ s.runs
    → count_active_runs o s' ≡ count_active_runs o s
unfolding count_active_runs
count_active_runs-runs none s s' e = ap (count_rows (λ r. is_active_run r.status)) e
count_active_runs-runs (some k) s s' e =
    ap (count_rows (λ r. is_active_run r.status && r.task_id == k)) e

lock_workspace-runs :
    (ws : Option (ℕ × WorkspaceRow)) (run_id : ℕ) (s : Store)
    → (lock_workspace ws run_id s).runs ≡ s.runs
lock_workspace-runs none run_id s = refl
lock_workspace-runs (some (k, w)) run_id s = refl

module _ (env : Env) (i : Surroundings) (auth : AuthContext) (task_id : ℕ) (task : TaskRow)
    (edges : List PlanEdge) where
  pub write_start-runs :
      (node : StoredNode) (ws : Option (ℕ × WorkspaceRow)) (run_id : ℕ) (status : WorkUnitStatus)
      (s : Store)
      → (write_start env i auth task_id task node ws run_id status s).runs
        ≡ add run_id (new_run env i task_id task node ws run_id) s.runs
  unfolding write_start append_event
  write_start-runs node ws run_id status s = lock_workspace-runs ws run_id (
      set_work_unit node.work_unit_id (occupy run_id status node) (
        add_run run_id (new_run env i task_id task node ws run_id)
          (record {
            granted_tools = frozen_tools task task_id s;
            workspace_path = path_below i (key_of_workspace ws);
          })
          node.work_unit_id s))

  own_counts : {n m : ℕ} → n ≡ m → (if task_id == task_id then suc n else n) ≡ suc m
  own_counts h = ground arith

  start_counts :
      (node : StoredNode) (ws : Option (ℕ × WorkspaceRow)) (run_id : ℕ) (status : WorkUnitStatus)
      (r : Round) (s : Store)
      → IsCounted task_id r s
      → IsStep task_id r
          (count_run run_id r)
          (write_start env i auth task_id task node ws run_id status s)
  unfolding count_active_runs
  start_counts node ws run_id status r s (g, t) =
      let run = new_run env i task_id task node ws run_id in
      let e = write_start-runs node ws run_id status s in
      let is_active = λ (x : AgentRunRow). is_active_run x.status in
      let is_own = λ (x : AgentRunRow). is_active_run x.status && x.task_id == task_id in
      (
        (
          ap (count_rows is_active) e ∙ count_rows-add is_active run_id run s.runs ∙ ap suc g,
          ap (count_rows is_own) e ∙ count_rows-add is_own run_id run s.runs ∙ own_counts t,
        ),
        omega arith,
        omega arith,
      )

  keep :
      (r : Round) (s s' : Store) → IsCounted task_id r s → s'.runs ≡ s.runs → IsStep task_id r r s'
  keep r s s' (g, t) e = (
    (count_active_runs-runs none s s' e ∙ g, count_active_runs-runs (some task_id) s s' e ∙ t),
    omega arith,
    omega arith,
  )

  module _ (node : StoredNode) (wu : WorkUnitExecutionRow) where
    start_run-Ensures :
        (run_id : ℕ) (r : Round) (s : Store)
        → IsCounted task_id r s
        → Ensures (IsStep task_id r) (start_run env i auth task_id task edges node wu run_id r s)
    unfolding start_run
    start_run-Ensures run_id r s c =
        let ws = node_workspace i node s in
        let move = transition_work_unit wu.status WorkUnitEvent.run_started in
        bind-Ensures (IsStep task_id r) (lift move) _ s (λ status s1 e.
          start_counts node ws run_id status r s1
            (subst (IsCounted task_id r) (sym (lift-Keeps (λ s. s) move s status s1 e)) c))

    start_unless-Ensures :
        (b : Bool) (run_id : ℕ) (r : Round) (s : Store)
        → IsCounted task_id r s
        → Ensures
            (IsStep task_id r)
            (start_unless env i auth task_id task edges b node wu run_id r s)
    unfolding start_unless append_event
    start_unless-Ensures false run_id r s c = start_run-Ensures run_id r s c
    start_unless-Ensures true run_id r s c = keep r s _ c refl

    attempt-Ensures :
        (b : Bool) (run_id : ℕ) (r : Round) (s : Store)
        → IsCounted task_id r s
        → Ensures (IsStep task_id r) (attempt env i auth task_id task edges b node wu run_id r s)
    unfolding attempt count_active_runs
    attempt-Ensures true run_id r s c =
        keep r s (set_work_unit node.work_unit_id (block_for Reason.attempts_exhausted) s) c refl
    attempt-Ensures false run_id r s c = start_unless-Ensures _ run_id r (draw 1 s) c

    begin-Ensures :
        (b : Bool) (r : Round) (s : Store)
        → IsCounted task_id r s
        → Ensures (IsStep task_id r) (begin env i auth task_id task edges b node wu r s)
    unfolding begin count_active_runs
    begin-Ensures false r s c = keep r s s c refl
    begin-Ensures true r s c =
        attempt-Ensures _ (env.new_id s.drawn) r (draw 1 (drop_stale_marker node.work_unit_id s)) c

    consider-Ensures :
        (b : Bool) (r : Round) (s : Store)
        → IsCounted task_id r s
        → Ensures (IsStep task_id r) (consider env i auth task_id task edges b node wu r s)
    unfolding consider count_active_runs
    consider-Ensures false r s c = keep r s s c refl
    consider-Ensures true r s c =
        begin-Ensures _ r (set_work_unit node.work_unit_id (bind_spec node) s) c

  dispatch_unit-Ensures :
      (o : Option WorkUnitExecutionRow) (node : StoredNode) (r : Round) (s : Store)
      → IsCounted task_id r s
      → Ensures (IsStep task_id r) (dispatch_unit env i auth task_id task edges o node r s)
  unfolding dispatch_unit
  dispatch_unit-Ensures none node r s c = keep r s s c refl
  dispatch_unit-Ensures (some wu) node r s c = consider-Ensures node wu _ r s c

  dispatch_node-Ensures :
      (node : StoredNode) (r : Round) (s : Store)
      → IsCounted task_id r s
      → Ensures (IsStep task_id r) (dispatch_node env i auth task_id task edges node r s)
  unfolding dispatch_node
  dispatch_node-Ensures node r s c = dispatch_unit-Ensures _ node r s c

  -- Within both limits, and counted right.
  abbrev pub IsBounded : Round → Store → Type 0
  IsBounded r s =
      IsCounted task_id r s
      × (r.global_active ≤ defaults.global_run_concurrency)
      × (r.task_active ≤ defaults.per_task_run_concurrency)

  below :
      (r : Round)
      → at_limit env i auth task_id task edges r ≡ false
      → (suc r.global_active ≤ defaults.global_run_concurrency)
        × (suc r.task_active ≤ defaults.per_task_run_concurrency)
  below r h = (ground arith, ground arith)

  unless_limit-Ensures :
      (b : Bool) (r : Round) (rest : M Round) (s : Store)
      → at_limit env i auth task_id task edges r ≡ b
      → IsBounded r s
      → (at_limit env i auth task_id task edges r ≡ false → Ensures IsBounded (rest s))
      → Ensures IsBounded (unless_limit env i auth task_id task edges b r rest s)
  unless_limit-Ensures true r rest s e b k = b
  unless_limit-Ensures false r rest s e b k = k e

  pub dispatch_nodes-Ensures :
      (nodes : List StoredNode) (r : Round) (s : Store)
      → IsBounded r s
      → Ensures IsBounded (dispatch_nodes env i auth task_id task edges nodes r s)
  unfolding dispatch_nodes
  dispatch_nodes-Ensures [] r s b = b
  dispatch_nodes-Ensures (node ∷ nodes) r s (c, g, t) =
      let visit = dispatch_node env i auth task_id task edges node r in
      unless_limit-Ensures _ r _ s refl (c, g, t)
        (λ open_.
          let (g1, t1) = below r open_ in
          bind-Ensures IsBounded visit (dispatch_nodes env i auth task_id task edges nodes) s
            (λ r1 s1 e.
              let (c1, g2, t2) =
                Ensures-done (IsStep task_id r) visit s r1 s1 (dispatch_node-Ensures node r s c)
                  e in
              dispatch_nodes-Ensures nodes r1 s1 (c1, omega arith, omega arith)))
