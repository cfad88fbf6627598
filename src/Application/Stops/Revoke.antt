-- ===== src/Application/Stops/Revoke.antt =====
-- After `_invalidate_pending_outbox` no start and no dispatch of the task waits or is in flight.
use hibiki.Prelude.{
  ℕ, ◌≡◌, refl, ◌∙◌, true, false, Option, none, some, List, [], ◌∷◌, foldl, any_entry, select,
  alter, get, arith, Bool-cases, Option-cases, inl, inr, Table,
}
use hibiki.Prelude.Sweep.{sweep}
use hibiki.Domain.Enums.{AgentRunStatus}
use hibiki.Persistence.Models.{Store, TaskRow, AgentRunRow, Command, OutboxRow, StopReason}
use hibiki.Persistence.Session.{Env}
use hibiki.Application.Base.{set_run, set_outbox}
use hibiki.Application.Occupancy.Frame.{
  clear_run_occupancy-SameRecords, keep_start_occupancy-SameRecords,
}
use hibiki.Application.Stops.{
  invalidate_one, invalidate_pending_outbox, is_revocable, is_in_flight, mark_dead, mark_acked,
  keep_if_run, revoke_unsent, cancel_unsent,
}
use hibiki.Application.Stops.Frame.{enqueue_stops_for_runs-SameButOutbox}

keep_if_run-outbox :
    (run_id : ℕ) (run : Option AgentRunRow) (s : Store)
    → (keep_if_run run_id run s).outbox ≡ s.outbox
keep_if_run-outbox run_id none s = refl
keep_if_run-outbox run_id (some run) s = (keep_start_occupancy-SameRecords run_id run s).outbox

-- The run row of a start that was not sent.
abbrev mark_cancelled : Env → ℕ → Store → Store
mark_cancelled env run_id s =
    set_run run_id
      (λ r. record r {
        status = AgentRunStatus.cancelled;
        finished_at = some env.now;
        terminal_reason = some StopReason.start_revoked;
      })
      s

cancel_unsent-outbox :
    (env : Env) (run_id : ℕ) (run : AgentRunRow) (s : Store)
    → (cancel_unsent env run_id run s).outbox ≡ s.outbox
cancel_unsent-outbox env run_id run s =
    ground (
      arith,
      (clear_run_occupancy-SameRecords run_id run true (mark_cancelled env run_id s)).outbox,
    )

revoke_unsent-outbox :
    (env : Env) (run_id : ℕ) (run : Option AgentRunRow) (s : Store)
    → (revoke_unsent env run_id run s).outbox ≡ s.outbox
revoke_unsent-outbox env run_id none s = refl
revoke_unsent-outbox env run_id (some run) s = ground (arith, cancel_unsent-outbox env run_id run s)

abbrev Revocation : Env → TaskRow → ℕ → Store × List ℕ → ℕ → OutboxRow → Type 0
Revocation env task task_id s k ob =
    (f : OutboxRow → OutboxRow) × ((invalidate_one env task s (k, ob)).0.outbox
      ≡ alter k f s.0.outbox)
    × ((w : OutboxRow) → is_revocable task_id k (f w) ≡ false)

mark_dead-settled :
    (task_id : ℕ) (task : TaskRow) (k : ℕ) (w : OutboxRow)
    → is_revocable task_id k (mark_dead task w) ≡ false
mark_dead-settled task_id task k w = ground arith

mark_acked-settled :
    (task_id : ℕ) (env : Env) (k : ℕ) (w : OutboxRow)
    → is_revocable task_id k (mark_acked env w) ≡ false
mark_acked-settled task_id env k w = ground arith

-- One round, by the command of its row.
revocation :
    (env : Env) (task : TaskRow) (task_id : ℕ) (s : Store × List ℕ) (k : ℕ) (ob : OutboxRow)
    (c : Command)
    → ob.command ≡ c
    → is_revocable task_id k ob ≡ true
    → Revocation env task task_id s k ob
unfolding invalidate_one
revocation env task task_id (s, inflight) k ob (Command.agent_start r) e b = (
  mark_dead task,
  ground (
    arith,
    keep_if_run-outbox r (get r s.runs) (set_outbox k (mark_dead task) s),
    revoke_unsent-outbox env r (get r s.runs) (set_outbox k (mark_dead task) s),
  ),
  mark_dead-settled task_id task k,
)
revocation env task task_id (s, inflight) k ob (Command.side_effect_dispatch x) e b =
    elim (Bool-cases (is_in_flight ob.status)) [
      | inl p ↦ (mark_acked env, ground arith, mark_acked-settled task_id env k)
      | inr n ↦ (mark_dead task, ground arith, mark_dead-settled task_id task k)
    ]
revocation env task task_id (s, inflight) k ob (Command.agent_stop r x) e b = absurd (ground arith)
revocation env task task_id (s, inflight) k ob (Command.unknown x) e b = absurd (ground arith)

-- No start and no dispatch of the task is left that is PENDING or IN_FLIGHT.
pub invalidate_pending_outbox-settles :
    (env : Env) (task_id : ℕ) (s : Store) (task : TaskRow)
    → get task_id s.tasks ≡ some task
    → any_entry (is_revocable task_id) (invalidate_pending_outbox env task_id s).outbox ≡ false
unfolding invalidate_pending_outbox
invalidate_pending_outbox-settles env task_id s task e =
    let loop = foldl (invalidate_one env task) (s, []) (select (is_revocable task_id) s.outbox) in
    let settled : any_entry (is_revocable task_id) loop.0.outbox ≡ false =
      sweep (is_revocable task_id) (λ (a : Store × List ℕ). a.0.outbox) (invalidate_one env task)
        (λ a k ob b. revocation env task task_id a k ob ob.command refl b) (s, []) in
    rw e (
      (enqueue_stops_for_runs-SameButOutbox env task_id s.outbox loop.1
          StopReason.start_inflight_revoked loop.0).revocable
        task_id
      ∙ settled)

-- One round writes no task and no gate.
record SameTasks (s t : Store) : Type 0 where
  tasks : t.tasks ≡ s.tasks
  gates : t.gates ≡ s.gates

keep_if_run-SameTasks :
    (run_id : ℕ) (run : Option AgentRunRow) (s : Store) → SameTasks s (keep_if_run run_id run s)
keep_if_run-SameTasks run_id none s = record { tasks = refl; gates = refl }
keep_if_run-SameTasks run_id (some run) s =
    let same = keep_start_occupancy-SameRecords run_id run s in
    record { tasks = same.tasks; gates = same.gates }

revoke_unsent-SameTasks :
    (env : Env) (run_id : ℕ) (run : Option AgentRunRow) (s : Store)
    → SameTasks s (revoke_unsent env run_id run s)
revoke_unsent-SameTasks env run_id none s = record { tasks = refl; gates = refl }
revoke_unsent-SameTasks env run_id (some run) s =
    let same = clear_run_occupancy-SameRecords run_id run true (mark_cancelled env run_id s) in
    ground (arith, same.tasks, same.gates)

round-SameTasks :
    (env : Env) (task : TaskRow) (a : Store × List ℕ) (k : ℕ) (ob : OutboxRow) (c : Command)
    → ob.command ≡ c
    → SameTasks a.0 (invalidate_one env task a (k, ob)).0
unfolding invalidate_one
round-SameTasks env task (s, inflight) k ob (Command.agent_start r) e =
    let s1 = set_outbox k (mark_dead task) s in
    let kept = keep_if_run-SameTasks r (get r s.runs) s1 in
    let revoked = revoke_unsent-SameTasks env r (get r s.runs) s1 in
    ground (arith, kept.tasks, kept.gates, revoked.tasks, revoked.gates)
round-SameTasks env task (s, inflight) k ob (Command.side_effect_dispatch x) e = ground arith
round-SameTasks env task (s, inflight) k ob (Command.agent_stop r x) e = ground arith
round-SameTasks env task (s, inflight) k ob (Command.unknown x) e = ground arith

loop-SameTasks :
    (env : Env) (task : TaskRow) (rows : Table OutboxRow) (a : Store × List ℕ)
    → SameTasks a.0 (foldl (invalidate_one env task) a rows).0
loop-SameTasks env task [] a = record { tasks = refl; gates = refl }
loop-SameTasks env task ((k, ob) ∷ rows) a =
    let first = round-SameTasks env task a k ob ob.command refl in
    let rest = loop-SameTasks env task rows (invalidate_one env task a (k, ob)) in
    record { tasks = rest.tasks ∙ first.tasks; gates = rest.gates ∙ first.gates }

pub invalidate_pending_outbox-tasks :
    (env : Env) (task_id : ℕ) (s : Store)
    → ((invalidate_pending_outbox env task_id s).tasks ≡ s.tasks)
      × ((invalidate_pending_outbox env task_id s).gates ≡ s.gates)
unfolding invalidate_pending_outbox
invalidate_pending_outbox-tasks env task_id s = elim (Option-cases (get task_id s.tasks)) [
  | inl e ↦ rw e (refl, refl)
  | inr (task, e) ↦
      let loop = foldl (invalidate_one env task) (s, []) (select (is_revocable task_id) s.outbox) in
      let same = loop-SameTasks env task (select (is_revocable task_id) s.outbox) (s, []) in
      let stops =
        enqueue_stops_for_runs-SameButOutbox env task_id s.outbox loop.1
          StopReason.start_inflight_revoked loop.0 in
      rw e (stops.tasks ∙ same.tasks, stops.gates ∙ same.gates)
]
