-- ===== src/Application/Control/Quarantine.antt =====
-- The quarantine of a task that cannot pause yet, and its rollback.
use hibiki.Prelude.{
  ℕ, ◌≡◌, refl, Bool, true, false, ◌&&◌, Option, none, some, [], ◌∷◌, foldl, Table, get, get-alter,
  is_key, select, arith, ◌==◌, if◌then◌else◌, Bool-cases, inl, inr,
}
use hibiki.Domain.Enums.{TaskState, WorkspaceState}
use hibiki.Domain.Errors.{err, ErrorClass, Code}
use hibiki.Domain.Types.{AuthContext}
use hibiki.Persistence.Models.{Store, TaskRow, AgentRunRow, WorkspaceRow}
use hibiki.Persistence.Session.{Env, raised, run}
use hibiki.Application.Base.{task_has_live_writer, adapter_may_be_alive}
use hibiki.Application.Control.Moves.{get_task-eq}
use hibiki.Application.Control.{runtime_quiescent, quarantine_live, quarantine_one}

-- The workspace that a query finds is QUARANTINED with a writer that may be alive.
abbrev pub IsHeld : Option WorkspaceRow → Type 0
IsHeld y =
    (v : WorkspaceRow) × (y ≡ some v)
    × (v.state ≡ WorkspaceState.quarantined)
    × (v.writer_alive ≡ true)

-- What one round does to a workspace: nothing, or the quarantine.
quarantine_one-found :
    (env : Env) (s : Store) (k w : ℕ) (r : AgentRunRow) (v : WorkspaceRow) (live : Bool)
    (place : Option ℕ)
    → adapter_may_be_alive env k ≡ live
    → r.workspace_id ≡ place
    → get w s.workspaces ≡ some v
    → get w (quarantine_one env s (k, r)).workspaces
      ≡ some (
          if live && is_key place w
          then record v { state = WorkspaceState.quarantined; writer_alive = true }
          else v)
quarantine_one-found env s k w r v false place e p f = ground arith
quarantine_one-found env s k w r v true none e p f = ground arith
quarantine_one-found env s k w r v true (some u) e p f = ground (
  arith,
  get-alter w u (λ x. record x { state = WorkspaceState.quarantined; writer_alive = true })
      s.workspaces,
)

-- A workspace that is held stays held.
quarantine_loop-IsHeld :
    (env : Env) (w : ℕ) (rows : Table AgentRunRow) (s : Store)
    → IsHeld (get w s.workspaces)
    → IsHeld (get w (foldl (quarantine_one env) s rows).workspaces)
quarantine_loop-IsHeld env w [] s h = h
quarantine_loop-IsHeld env w ((k, r) ∷ rows) s (v, f, state, alive) =
    let found =
      quarantine_one-found env s k w r v (adapter_may_be_alive env k) r.workspace_id refl refl f in
    quarantine_loop-IsHeld env w rows (quarantine_one env s (k, r))
      (_, found, ground (arith, state), ground (arith, alive))

-- The loop holds the workspace of each live run that is selected.
quarantine_loop-holds :
    (env : Env) (task_id k w : ℕ) (r : AgentRunRow) (rows : Table AgentRunRow) (s : Store)
    (v : WorkspaceRow)
    → get k rows ≡ some r
    → r.task_id ≡ task_id
    → adapter_may_be_alive env k ≡ true
    → r.workspace_id ≡ some w
    → get w s.workspaces ≡ some v
    → IsHeld (
        get w (foldl (quarantine_one env) s (select (λ _ x. x.task_id == task_id) rows)).workspaces)
quarantine_loop-holds env task_id k w r [] s v f t a p g = absurd (ground arith)
quarantine_loop-holds env task_id k w r ((j, x) ∷ rows) s v f t a p g = elim (Bool-cases (j == k)) [
  | inl here ↦
      let same : x ≡ r = ground arith in
      let round =
        quarantine_one-found env s j w x v true (some w) (ground arith) (ground arith) g in
      let held : IsHeld (get w (quarantine_one env s (j, x)).workspaces) =
        (_, round, ground arith, ground arith) in
      let chosen : (x.task_id == task_id) ≡ true = ground arith in
      rw chosen (
        quarantine_loop-IsHeld env w (select (λ _ y. y.task_id == task_id) rows)
          (quarantine_one env s (j, x)) held)
  | inr away ↦
      let rest : get k rows ≡ some r = ground arith in
      elim (Bool-cases (x.task_id == task_id)) [
        | inl chosen ↦ rw chosen (
            quarantine_loop-holds env task_id k w r rows (quarantine_one env s (j, x)) _ rest t a p
              (quarantine_one-found env s j w x v (adapter_may_be_alive env j) x.workspace_id refl
                refl g))
        | inr other ↦ rw other (quarantine_loop-holds env task_id k w r rows s v rest t a p g)
      ]
]

-- While a writer of a PAUSING task may be alive, the command fails with writer_alive. When it raises,
-- the workspace of each run of the task whose adapter may be alive is QUARANTINED with its writer
-- flag set, and the transaction rolls that back: the database is the one from before the command.
pub runtime_quiescent_rolls_back :
    (env : Env) (auth : AuthContext) (task_id : ℕ) (s : Store) (t : TaskRow)
    → get task_id s.tasks ≡ some t
    → t.state ≡ TaskState.pausing
    → task_has_live_writer env task_id s ≡ true
    → (s1 : Store) × (runtime_quiescent env auth task_id s
        ≡ raised (record { class = ErrorClass.precondition; code = Code.writer_alive }) s1)
      × ((k w : ℕ) (r : AgentRunRow) (v : WorkspaceRow)
          → get k s.runs ≡ some r
          → r.task_id ≡ task_id
          → adapter_may_be_alive env k ≡ true
          → r.workspace_id ≡ some w
          → get w s.workspaces ≡ some v
          → IsHeld (get w s1.workspaces))
      × (run (runtime_quiescent env auth task_id) s
          ≡ (err (record { class = ErrorClass.precondition; code = Code.writer_alive }), s))
unfolding runtime_quiescent run
runtime_quiescent_rolls_back env auth task_id s t e p w = (
  quarantine_live env task_id s,
  ground (arith, get_task-eq task_id s t e),
  λ k u r v f m a o g. quarantine_loop-holds env task_id k u r s.runs s v f m a o g,
  ground (arith, get_task-eq task_id s t e),
)
