-- ===== src/Application/Stops/Kept.antt =====
-- What `_invalidate_pending_outbox` keeps of side effects and work units.
use hibiki.Prelude.{
  ℕ, ◌≡◌, refl, Bool, true, false, ◌||◌, Bool-cases, Option, none, some, List, [], ◌∷◌, foldl,
  select, alter, get, get-alter, arith, if◌then◌else◌, ◌==◌, Option-cases, inl, inr, Table,
}
use mathlib.Core.Option
use mathlib.Core.Path.{subst}
use hibiki.Domain.Enums.{SideEffectState}
use hibiki.Persistence.Models.{
  Store, TaskRow, AgentRunRow, Command, OutboxRow, StopReason, SideEffectRow, WorkUnitExecutionRow,
}
use hibiki.Persistence.Session.{Env}
use hibiki.Application.Base.{set_outbox, adapter_may_be_alive}
use hibiki.Application.Occupancy.{clear_run_occupancy, vacate_work_unit, keep_start_occupancy}
use hibiki.Application.Stops.{
  invalidate_one, invalidate_pending_outbox, is_revocable, is_dispatching, mark_dead, keep_if_run,
  revoke_unsent, cancel_unsent, settle_dispatching, requeue_unit, is_created, is_in_flight,
  stop_inflight,
}
use hibiki.Application.Stops.Frame.{enqueue_stops_for_runs-SameButOutbox}

-- The row found before and the row found after: none, or a row of the same task, in the same state
-- unless the effect was DISPATCHING.
abbrev pub EffectKept : Option SideEffectRow → Option SideEffectRow → Type 0
EffectKept none y = y ≡ none
EffectKept (some e) y =
    (e' : SideEffectRow) × (y ≡ some e')
    × (e'.task_id ≡ e.task_id)
    × (is_dispatching e.state ≡ false → e'.state ≡ e.state)

EffectKept-refl : (x : Option SideEffectRow) → EffectKept x x
EffectKept-refl none = refl
EffectKept-refl (some e) = (e, refl, refl, λ _. refl)

pub EffectKept-found :
    (x y : Option SideEffectRow) (e : SideEffectRow)
    → x ≡ some e
    → EffectKept x y
    → EffectKept (some e) y
EffectKept-found x y e h k = subst (λ z. EffectKept z y) h k

EffectKept-trans : (x y z : Option SideEffectRow) → EffectKept x y → EffectKept y z → EffectKept x z
EffectKept-trans none y z h k = ground (arith, h, k)
EffectKept-trans (some e) none z (e', f, _, _) k = absurd (ground (arith, f))
EffectKept-trans (some e) (some m) z (e', f, same, state) (n, g, same', state') =
    (n, g, ground (arith, f, same, same'), λ idle. ground (arith, f, state idle, state'))

EffectKept-settle :
    (next : SideEffectState) (hit : Bool) (x : Option SideEffectRow)
    → EffectKept x (if hit then Option.map (settle_dispatching next) x else x)
EffectKept-settle next hit none = ground arith
EffectKept-settle next false (some e) = EffectKept-refl (some e)
EffectKept-settle next true (some e) =
    (settle_dispatching next e, refl, ground arith, λ idle. ground arith)

EffectKept-alter :
    (j k : ℕ) (next : SideEffectState) (t : Table SideEffectRow)
    → EffectKept (get j t) (get j (alter k (settle_dispatching next) t))
EffectKept-alter j k next t =
    let found = get-alter j k (settle_dispatching next) t in
    rw found (EffectKept-settle next (k == j) (get j t))

-- The unit of the same key is still there.
abbrev pub UnitKept : Option WorkUnitExecutionRow → Option WorkUnitExecutionRow → Type 0
UnitKept none y = y ≡ none
UnitKept (some w) y = (w' : WorkUnitExecutionRow) × (y ≡ some w')

UnitKept-refl : (x : Option WorkUnitExecutionRow) → UnitKept x x
UnitKept-refl none = refl
UnitKept-refl (some w) = (w, refl)

pub UnitKept-found :
    (x y : Option WorkUnitExecutionRow) (w : WorkUnitExecutionRow)
    → x ≡ some w
    → UnitKept x y
    → UnitKept (some w) y
UnitKept-found x y w h k = subst (λ z. UnitKept z y) h k

UnitKept-trans : (x y z : Option WorkUnitExecutionRow) → UnitKept x y → UnitKept y z → UnitKept x z
UnitKept-trans none y z h k = ground (arith, h, k)
UnitKept-trans (some w) none z (w', f) k = absurd (ground (arith, f))
UnitKept-trans (some w) (some m) z h k = k

UnitKept-alter :
    (j k : ℕ) (f : WorkUnitExecutionRow → WorkUnitExecutionRow) (t : Table WorkUnitExecutionRow)
    → UnitKept (get j t) (get j (alter k f t))
UnitKept-alter j k f t = let found = get-alter j k f t in rw found (altered (k == j) (get j t))
  where
    altered :
        (hit : Bool) (x : Option WorkUnitExecutionRow)
        → UnitKept x (if hit then Option.map f x else x)
    altered hit none = ground arith
    altered false (some w) = (w, refl)
    altered true (some w) = (f w, refl)

-- One round keeps every effect and every unit.
pub record AllKept (s t : Store) : Type 0 where
  pub effects : (j : ℕ) → EffectKept (get j s.side_effects) (get j t.side_effects)
  pub units : (j : ℕ) → UnitKept (get j s.work_units) (get j t.work_units)

AllKept-refl : (s : Store) → AllKept s s
AllKept-refl s = record {
  effects = λ j. EffectKept-refl (get j s.side_effects);
  units = λ j. UnitKept-refl (get j s.work_units);
}

AllKept-trans : (s t u : Store) → AllKept s t → AllKept t u → AllKept s u
AllKept-trans s t u h k = record {
  effects = λ j.
      EffectKept-trans (get j s.side_effects) (get j t.side_effects) (get j u.side_effects)
        (h.effects j) (k.effects j);
  units = λ j.
      UnitKept-trans (get j s.work_units) (get j t.work_units) (get j u.work_units) (h.units j)
        (k.units j);
}

keep_if_run-same :
    (run_id : ℕ) (run : Option AgentRunRow) (s : Store)
    → ((keep_if_run run_id run s).side_effects ≡ s.side_effects)
      × ((keep_if_run run_id run s).work_units ≡ s.work_units)
unfolding keep_start_occupancy
keep_if_run-same run_id none s = (refl, refl)
keep_if_run-same run_id (some run) s = ground arith

abbrev freed : ℕ → Option ℕ → Table WorkUnitExecutionRow → Table WorkUnitExecutionRow
freed run_id none t = t
freed run_id (some w) t = alter w requeue_unit (alter w (vacate_work_unit run_id) t)

cancel_unsent-same :
    (env : Env) (run_id : ℕ) (run : AgentRunRow) (unit : Option ℕ) (s : Store)
    → run.work_unit_id ≡ unit
    → ((cancel_unsent env run_id run s).side_effects ≡ s.side_effects)
      × ((cancel_unsent env run_id run s).work_units ≡ freed run_id unit s.work_units)
unfolding clear_run_occupancy
cancel_unsent-same env run_id run none s e = ground arith
cancel_unsent-same env run_id run (some w) s e = ground arith

freed-UnitKept :
    (j run_id : ℕ) (unit : Option ℕ) (t : Table WorkUnitExecutionRow)
    → UnitKept (get j t) (get j (freed run_id unit t))
freed-UnitKept j run_id none t = UnitKept-refl (get j t)
freed-UnitKept j run_id (some w) t =
    let cleared = alter w (vacate_work_unit run_id) t in
    UnitKept-trans (get j t) (get j cleared) (get j (alter w requeue_unit cleared))
      (UnitKept-alter j w (vacate_work_unit run_id) t) (UnitKept-alter j w requeue_unit cleared)

-- Equal tables of effects, and units that are kept.
AllKept-of :
    (s t : Store)
    → t.side_effects ≡ s.side_effects
    → ((j : ℕ) → UnitKept (get j s.work_units) (get j t.work_units))
    → AllKept s t
AllKept-of s t e h = record {
  effects = λ j. rw e (EffectKept-refl (get j s.side_effects));
  units = h;
}

keep_if_run-AllKept :
    (run_id : ℕ) (run : Option AgentRunRow) (s : Store) → AllKept s (keep_if_run run_id run s)
keep_if_run-AllKept run_id run s =
    let same = keep_if_run-same run_id run s in
    AllKept-of s (keep_if_run run_id run s) same.0
      (λ j. rw same.1 (UnitKept-refl (get j s.work_units)))

cancel_unsent-AllKept :
    (env : Env) (run_id : ℕ) (run : AgentRunRow) (s : Store)
    → AllKept s (cancel_unsent env run_id run s)
cancel_unsent-AllKept env run_id run s =
    let same = cancel_unsent-same env run_id run run.work_unit_id s refl in
    AllKept-of s (cancel_unsent env run_id run s) same.0
      (λ j. rw same.1 (freed-UnitKept j run_id run.work_unit_id s.work_units))

revoke_unsent-AllKept :
    (env : Env) (run_id : ℕ) (run : Option AgentRunRow) (s : Store)
    → AllKept s (revoke_unsent env run_id run s)
revoke_unsent-AllKept env run_id none s = AllKept-refl s
revoke_unsent-AllKept env run_id (some run) s = elim (Bool-cases (is_created run.status)) [
  | inl p ↦ rw p (cancel_unsent-AllKept env run_id run s)
  | inr n ↦ rw n (AllKept-refl s)
]

settled-AllKept :
    (effect_id : ℕ) (next : SideEffectState) (s t : Store)
    → t.side_effects ≡ alter effect_id (settle_dispatching next) s.side_effects
    → t.work_units ≡ s.work_units
    → AllKept s t
settled-AllKept effect_id next s t e w = record {
  effects = λ j. rw e (EffectKept-alter j effect_id next s.side_effects);
  units = λ j. rw w (UnitKept-refl (get j s.work_units));
}

over :
    (s : Store) (k : ℕ) (task : TaskRow) (t : Store)
    → AllKept (set_outbox k (mark_dead task) s) t
    → AllKept s t
over s k task t h = record { effects = h.effects; units = h.units }

round-AllKept :
    (env : Env) (task : TaskRow) (a : Store × List ℕ) (k : ℕ) (ob : OutboxRow) (c : Command)
    → ob.command ≡ c
    → AllKept a.0 (invalidate_one env task a (k, ob)).0
unfolding invalidate_one
round-AllKept env task (s, inflight) k ob (Command.agent_start r) e =
    let s1 = set_outbox k (mark_dead task) s in
    elim (Bool-cases (is_in_flight ob.status || adapter_may_be_alive env r)) [
      | inl p ↦ rw e (rw p (over s k task _ (keep_if_run-AllKept r (get r s.runs) s1)))
      | inr n ↦ rw e (rw n (over s k task _ (revoke_unsent-AllKept env r (get r s.runs) s1)))
    ]
round-AllKept env task (s, inflight) k ob (Command.side_effect_dispatch x) e =
    elim (Bool-cases (is_in_flight ob.status)) [
      | inl p ↦ rw e (rw p (settled-AllKept x SideEffectState.unknown s _ refl refl))
      | inr n ↦ rw e (rw n (settled-AllKept x _ s _ refl refl))
    ]
round-AllKept env task (s, inflight) k ob (Command.agent_stop r x) e = rw e (AllKept-refl s)
round-AllKept env task (s, inflight) k ob (Command.unknown x) e = rw e (AllKept-refl s)

loop-AllKept :
    (env : Env) (task : TaskRow) (rows : Table OutboxRow) (a : Store × List ℕ)
    → AllKept a.0 (foldl (invalidate_one env task) a rows).0
loop-AllKept env task [] a = AllKept-refl a.0
loop-AllKept env task ((k, ob) ∷ rows) a =
    let b = invalidate_one env task a (k, ob) in
    AllKept-trans a.0 b.0 (foldl (invalidate_one env task) b rows).0
      (round-AllKept env task a k ob ob.command refl) (loop-AllKept env task rows b)

pub invalidate_pending_outbox-AllKept :
    (env : Env) (task_id : ℕ) (s : Store) → AllKept s (invalidate_pending_outbox env task_id s)
unfolding invalidate_pending_outbox
invalidate_pending_outbox-AllKept env task_id s = elim (Option-cases (get task_id s.tasks)) [
  | inl e ↦ rw e (AllKept-refl s)
  | inr (task, e) ↦
      let loop = foldl (invalidate_one env task) (s, []) (select (is_revocable task_id) s.outbox) in
      let same = loop-AllKept env task (select (is_revocable task_id) s.outbox) (s, []) in
      let stops =
        enqueue_stops_for_runs-SameButOutbox env task_id s.outbox loop.1
          StopReason.start_inflight_revoked loop.0 in
      let here : AllKept loop.0 (stop_inflight env task_id s.outbox loop) = record {
        effects = λ j. rw stops.effects (EffectKept-refl (get j loop.0.side_effects));
        units = λ j. rw stops.work_units (UnitKept-refl (get j loop.0.work_units));
      } in
      rw e (AllKept-trans s loop.0 (stop_inflight env task_id s.outbox loop) same here)
]
