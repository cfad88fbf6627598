-- ===== src/Application/Stops/Frame.antt =====
-- Stop commands are added to the outbox, and nothing else is written.
use hibiki.Prelude.{
  ℕ, ◌≡◌, refl, List, [], ◌∷◌, foldl, any_entry, any_entry-add, arith, Bool-cases, inl, inr, Table,
  none, ◌∙◌, get, if◌then◌else◌,
}
use hibiki.Domain.Enums.{OutboxStatus}
use hibiki.Persistence.Models.{Store, Command, StopReason, OutboxRow}
use hibiki.Persistence.Session.{Env}
use hibiki.Application.Stops.{
  enqueue_stops_for_runs, enqueue_stops, runs_requiring_stop, has_pending_stop, add_outbox,
  is_revocable, epoch_of,
}

-- What a loop that enqueues stops keeps.
pub record SameButOutbox (s t : Store) : Type 0 where
  pub tasks : t.tasks ≡ s.tasks
  pub runs : t.runs ≡ s.runs
  pub gates : t.gates ≡ s.gates
  pub effects : t.side_effects ≡ s.side_effects
  pub work_units : t.work_units ≡ s.work_units
  pub workspaces : t.workspaces ≡ s.workspaces
  pub events : t.events ≡ s.events
  pub revocable :
      (task_id : ℕ)
      → any_entry (is_revocable task_id) t.outbox ≡ any_entry (is_revocable task_id) s.outbox

add_stop-SameButOutbox :
    (env : Env) (task_id epoch run_id : ℕ) (reason : StopReason) (s : Store)
    → SameButOutbox s (add_outbox env task_id epoch (Command.agent_stop run_id reason) s)
add_stop-SameButOutbox env task_id epoch run_id reason s = record {
  tasks = refl;
  runs = refl;
  gates = refl;
  effects = refl;
  work_units = refl;
  workspaces = refl;
  events = refl;
  revocable = λ other. ground (
    arith,
    any_entry-add (is_revocable other) (env.new_id s.drawn)
        (record {
          task_id = task_id;
          command = Command.agent_stop run_id reason;
          status = OutboxStatus.pending;
          revoke_epoch = epoch;
          leased_until = none;
          acked_at = none;
        })
        s.outbox,
  );
}

SameButOutbox-refl : (s : Store) → SameButOutbox s s
SameButOutbox-refl s = record {
  tasks = refl;
  runs = refl;
  gates = refl;
  effects = refl;
  work_units = refl;
  workspaces = refl;
  events = refl;
  revocable = λ other. refl;
}

SameButOutbox-trans : (s t u : Store) → SameButOutbox s t → SameButOutbox t u → SameButOutbox s u
SameButOutbox-trans s t u h k = record {
  tasks = k.tasks ∙ h.tasks;
  runs = k.runs ∙ h.runs;
  gates = k.gates ∙ h.gates;
  effects = k.effects ∙ h.effects;
  work_units = k.work_units ∙ h.work_units;
  workspaces = k.workspaces ∙ h.workspaces;
  events = k.events ∙ h.events;
  revocable = λ other. k.revocable other ∙ h.revocable other;
}

-- One round of the loop: nothing for a run whose stop is pending, else a stop is added.
abbrev stop_round : Env → ℕ → ℕ → Table OutboxRow → StopReason → Store → ℕ → Store
stop_round env task_id epoch rows reason t run_id =
    if has_pending_stop task_id rows run_id
    then t
    else add_outbox env task_id epoch (Command.agent_stop run_id reason) t

stops_loop :
    (env : Env) (task_id epoch : ℕ) (rows : Table OutboxRow) (reason : StopReason)
    (run_ids : List ℕ) (s : Store)
    → SameButOutbox s (foldl (stop_round env task_id epoch rows reason) s run_ids)
stops_loop env task_id epoch rows reason [] s = SameButOutbox-refl s
stops_loop env task_id epoch rows reason (r ∷ run_ids) s =
    elim (Bool-cases (has_pending_stop task_id rows r)) [
      | inl p ↦ rw p (stops_loop env task_id epoch rows reason run_ids s)
      | inr n ↦ rw n (
          SameButOutbox-trans s (add_outbox env task_id epoch (Command.agent_stop r reason) s)
            (foldl (stop_round env task_id epoch rows reason)
              (add_outbox env task_id epoch (Command.agent_stop r reason) s) run_ids)
            (add_stop-SameButOutbox env task_id epoch r reason s)
            (stops_loop env task_id epoch rows reason run_ids
              (add_outbox env task_id epoch (Command.agent_stop r reason) s)))
    ]

pub enqueue_stops_for_runs-SameButOutbox :
    (env : Env) (task_id : ℕ) (flushed : Table OutboxRow) (run_ids : List ℕ) (reason : StopReason)
    (s : Store)
    → SameButOutbox s (enqueue_stops_for_runs env task_id flushed run_ids reason s)
unfolding enqueue_stops_for_runs
enqueue_stops_for_runs-SameButOutbox env task_id flushed run_ids reason s =
    stops_loop env task_id (epoch_of (get task_id s.tasks)) flushed reason run_ids s

pub enqueue_stops-SameButOutbox :
    (env : Env) (task_id : ℕ) (flushed : Table OutboxRow) (reason : StopReason) (s : Store)
    → SameButOutbox s (enqueue_stops env task_id flushed reason s)
unfolding enqueue_stops
enqueue_stops-SameButOutbox env task_id flushed reason s =
    enqueue_stops_for_runs-SameButOutbox env task_id flushed (runs_requiring_stop env task_id s)
      reason s
