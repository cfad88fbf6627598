-- ===== src/Application/Dispatch/Held.antt =====
-- A dispatch never takes a workspace that has a writer.
use mathlib.Core.Path.{subst}
use hibiki.Prelude.{
  ℕ, ◌≡◌, refl, sym, ap, ◌∙◌, Bool, true, false, Option, none, some, List, [], ◌∷◌, arith, get, add,
  get-add, get-alter, leb, ◌==◌, ==_iff, Bool-cases, inl, inr, ◌&&◌,
}
use hibiki.Domain.Defaults.{defaults}
use hibiki.Domain.Enums.{WorkUnitStatus}
use hibiki.Domain.Plan.{PlanEdge}
use hibiki.Domain.Transitions.{WorkUnitEvent, transition_work_unit}
use hibiki.Domain.Types.{AuthContext}
use hibiki.Persistence.Models.{
  Store, TaskRow, WorkUnitExecutionRow, WorkspaceRow, AgentRunRow, StoredNode,
}
use hibiki.Persistence.Session.{Env, lift, M}
use hibiki.Persistence.Session.Frame.{Ensures, Ensures-done, bind-Ensures, lift-Keeps}
use hibiki.Application.Base.{append_event, set_work_unit}
use hibiki.Application.Dispatch.{
  Surroundings, node_workspace, is_free, is_held, is_ready, row_at, or_row, or_name,
  workspace_of_unit, with_key, live_owner, is_pending_unit,
}
use hibiki.Application.Dispatch.Start.{
  write_start, new_run, lock_workspace, lock_for, occupy, add_run, frozen_tools, path_below,
  key_of_workspace, draw, drop_stale_marker, bind_spec,
}
use hibiki.Application.Dispatch.Rounds.{
  Round, start_run, start_unless, attempt, begin, consider, dispatch_unit, dispatch_node,
  dispatch_nodes, unless_limit, at_limit,
}
use hibiki.Application.Dispatch.Counts.{write_start-runs}

-- The workspace is as it was, and has a writer still.
abbrev pub IsHeldAs : ℕ → WorkspaceRow → Store → Type 0
IsHeldAs k w s = (get k s.workspaces ≡ some w) × (is_held w s.runs ≡ true)

-- A row that is found stands under its key.
abbrev IsFound : Option (ℕ × WorkspaceRow) → Store → Type 0
IsFound none s = Unit
IsFound (some (k, w)) s = get k s.workspaces ≡ some w

with_key-IsFound :
    (k : ℕ) (o : Option WorkspaceRow) (s : Store)
    → get k s.workspaces ≡ o
    → IsFound (with_key k o) s
with_key-IsFound k none s e = tt
with_key-IsFound k (some w) s e = e

row_at-IsFound : (o : Option ℕ) (s : Store) → IsFound (row_at o s.workspaces) s
row_at-IsFound none s = tt
row_at-IsFound (some k) s = with_key-IsFound k (get k s.workspaces) s refl

or_row-IsFound :
    (a b : Option (ℕ × WorkspaceRow)) (s : Store)
    → IsFound a s
    → IsFound b s
    → IsFound (or_row a b) s
or_row-IsFound none b s p q = q
or_row-IsFound (some row) b s p q = p

node_workspace-IsFound :
    (i : Surroundings) (node : StoredNode) (s : Store) → IsFound (node_workspace i node s) s
unfolding node_workspace
node_workspace-IsFound i node s =
    let named = some (or_name node.workspace_id (i.workspace_name node.work_unit_id)) in
    let own = workspace_of_unit node.work_unit_id s.workspaces in
    or_row-IsFound (row_at named s.workspaces) (row_at own s.workspaces) s (row_at-IsFound named s)
      (row_at-IsFound own s)

-- A new run makes no owner dead.
live_owner-add :
    (o : Option ℕ) (run_id : ℕ) (run : AgentRunRow) (s s' : Store)
    → s'.runs ≡ add run_id run s.runs
    → live_owner o s.runs ≡ true
    → live_owner o s'.runs ≡ true
live_owner-add none run_id run s s' e h = h
live_owner-add (some k) run_id run s s' e h =
    ground (arith, ap (get k) e, get-add k run_id run s.runs)

is_held-add :
    (w : WorkspaceRow) (run_id : ℕ) (run : AgentRunRow) (s s' : Store)
    → s'.runs ≡ add run_id run s.runs
    → is_held w s.runs ≡ true
    → is_held w s'.runs ≡ true
unfolding is_held
is_held-add w run_id run s s' e h = ground (arith, live_owner-add w.owner_run_id run_id run s s' e)

lock_workspace-held :
    (k : ℕ) (w : WorkspaceRow) (ws : Option (ℕ × WorkspaceRow)) (run_id : ℕ) (s s1 : Store)
    → s1.workspaces ≡ s.workspaces
    → IsFound ws s
    → is_free ws s.runs ≡ true
    → IsHeldAs k w s
    → get k (lock_workspace ws run_id s1).workspaces ≡ some w
unfolding is_free
lock_workspace-held k w none run_id s s1 e f n (g, h) = ap (get k) e ∙ g
lock_workspace-held k w (some (j, v)) run_id s s1 e f n (g, h) = elim (Bool-cases (j == k)) [
  | inl same ↦
      let here = (==_iff j k).0 same in
      ground
        (arith, get-alter k j (lock_for run_id) s1.workspaces, ap (λ x. get x s.workspaces) here)
  | inr other ↦ ground (arith, get-alter k j (lock_for run_id) s1.workspaces, ap (get k) e)
]

module _ (env : Env) (i : Surroundings) (auth : AuthContext) (task_id : ℕ) (task : TaskRow)
    (edges : List PlanEdge) (k : ℕ) (w : WorkspaceRow) where
  start_holds :
      (node : StoredNode) (run_id : ℕ) (status : WorkUnitStatus) (s : Store)
      → IsHeldAs k w s
      → is_free (node_workspace i node s) s.runs ≡ true
      → IsHeldAs k w
          (write_start env i auth task_id task node (node_workspace i node s) run_id status s)
  unfolding write_start append_event
  start_holds node run_id status s (g, h) f =
      let ws = node_workspace i node s in
      let run = new_run env i task_id task node ws run_id in
      let before = set_work_unit node.work_unit_id (occupy run_id status node) (
        add_run run_id run
          (record {
            granted_tools = frozen_tools task task_id s;
            workspace_path = path_below i (key_of_workspace ws);
          })
          node.work_unit_id s) in
      (
        lock_workspace-held k w ws run_id s before refl (node_workspace-IsFound i node s) f (g, h),
        is_held-add w run_id run s (write_start env i auth task_id task node ws run_id status s)
            (write_start-runs env i auth task_id task edges node ws run_id status s) h,
      )

  abbrev Held : Round → Store → Type 0
  Held r s = IsHeldAs k w s

  module _ (node : StoredNode) (wu : WorkUnitExecutionRow) where
    abbrev IsFree : Store → Type 0
    IsFree s = is_free (node_workspace i node s) s.runs ≡ true

    start_run-Held :
        (run_id : ℕ) (r : Round) (s : Store)
        → IsHeldAs k w s
        → IsFree s
        → Ensures Held (start_run env i auth task_id task edges node wu run_id r s)
    unfolding start_run
    start_run-Held run_id r s h f =
        let move = transition_work_unit wu.status WorkUnitEvent.run_started in
        bind-Ensures Held (lift move) _ s (λ status s1 e.
          let back = sym (lift-Keeps (λ s. s) move s status s1 e) in
          subst
            (λ x.
              IsHeldAs k w (
                write_start env i auth task_id task node (node_workspace i node s) run_id status x))
            back (start_holds node run_id status s h f))

    start_unless-Held :
        (b : Bool) (run_id : ℕ) (r : Round) (s : Store)
        → IsHeldAs k w s
        → IsFree s
        → Ensures Held (start_unless env i auth task_id task edges b node wu run_id r s)
    unfolding start_unless append_event is_held
    start_unless-Held false run_id r s h f = start_run-Held run_id r s h f
    start_unless-Held true run_id r s h f = h

    attempt-Held :
        (b : Bool) (run_id : ℕ) (r : Round) (s : Store)
        → IsHeldAs k w s
        → IsFree s
        → Ensures Held (attempt env i auth task_id task edges b node wu run_id r s)
    unfolding attempt is_held node_workspace is_free
    attempt-Held true run_id r s h f = h
    attempt-Held false run_id r s h f =
        start_unless-Held (i.overflows node.work_unit_id (draw 1 s)) run_id r (draw 1 s) h f

    begin-Held :
        (b : Bool) (r : Round) (s : Store)
        → IsHeldAs k w s
        → (b ≡ true → IsFree s)
        → Ensures Held (begin env i auth task_id task edges b node wu r s)
    unfolding begin is_held node_workspace is_free
    begin-Held false r s h f = h
    begin-Held true r s h f =
        attempt-Held (leb defaults.max_work_unit_attempts wu.attempt_count) (env.new_id s.drawn) r
          (draw 1 (drop_stale_marker node.work_unit_id s)) h (f refl)

    is_ready-IsFree : (s : Store) → is_ready env i edges node wu s ≡ true → IsFree s
    unfolding is_ready
    is_ready-IsFree s h = ground arith

    consider-Held :
        (b : Bool) (r : Round) (s : Store)
        → IsHeldAs k w s
        → Ensures Held (consider env i auth task_id task edges b node wu r s)
    unfolding consider is_held
    consider-Held false r s h = h
    consider-Held true r s h =
        let bound = set_work_unit node.work_unit_id (bind_spec node) s in
        begin-Held (is_ready env i edges node wu bound) r bound h (is_ready-IsFree bound)

  dispatch_unit-Held :
      (o : Option WorkUnitExecutionRow) (node : StoredNode) (r : Round) (s : Store)
      → IsHeldAs k w s
      → Ensures Held (dispatch_unit env i auth task_id task edges o node r s)
  unfolding dispatch_unit
  dispatch_unit-Held none node r s h = h
  dispatch_unit-Held (some wu) node r s h =
      consider-Held node wu (is_pending_unit wu.status && wu.task_id == task_id) r s h

  unless_limit-Held :
      (b : Bool) (r : Round) (rest : M Round) (s : Store)
      → IsHeldAs k w s
      → Ensures Held (rest s)
      → Ensures Held (unless_limit env i auth task_id task edges b r rest s)
  unless_limit-Held true r rest s h e = h
  unless_limit-Held false r rest s h e = e

  -- The loop of a dispatch leaves a workspace alone that is quarantined, that has a writer, or whose
  -- owner is CREATED or RUNNING, and it stays so.
  pub dispatch_nodes-Held :
      (nodes : List StoredNode) (r : Round) (s : Store)
      → IsHeldAs k w s
      → Ensures Held (dispatch_nodes env i auth task_id task edges nodes r s)
  unfolding dispatch_nodes dispatch_node
  dispatch_nodes-Held [] r s h = h
  dispatch_nodes-Held (node ∷ nodes) r s h =
      let visit = dispatch_node env i auth task_id task edges node r in
      unless_limit-Held (at_limit env i auth task_id task edges r) r _ s h (
        bind-Ensures Held visit (dispatch_nodes env i auth task_id task edges nodes) s (λ r1 s1 e.
          dispatch_nodes-Held nodes r1 s1 (
            Ensures-done Held visit s r1 s1
              (dispatch_unit-Held (get node.work_unit_id s.work_units) node r s h) e)))
