-- ===== src/Application/External/Laws.antt =====
-- What is checked before an external call, and what a refusal leaves.
use hibiki.Prelude.{
  ℕ, ◌≡◌, true, false, ◌||◌, some, get, get-alter, arith, if◌then◌else◌, Option-cases, inl, inr,
}
use hibiki.Domain.Enums.{SideEffectState, OutboxStatus}
use hibiki.Domain.Errors.{ok}
use hibiki.Domain.Guards.{is_cancelling}
use hibiki.Persistence.Models.{Store, TaskRow, OutboxRow, SideEffectRow}
use hibiki.Persistence.Session.{Env}
use hibiki.Application.Effects.{guard_side_effect_eligibility}
use hibiki.Application.Effects.Eligible.{IsEligible, eligible}
use hibiki.Application.External.{precheck, only_dispatching, hold_back}
use hibiki.Application.Sending.{is_dead}

pub precheck-rows :
    (env : Env) (outbox_id task_id effect_id : ℕ) (s : Store)
    → (precheck env outbox_id task_id effect_id s).0 ≡ true
    → (row : OutboxRow) × (effect : SideEffectRow) × (get outbox_id s.outbox ≡ some row)
      × (get effect_id s.side_effects ≡ some effect)
unfolding precheck
precheck-rows env outbox_id task_id effect_id s h = elim (Option-cases (get outbox_id s.outbox)) [
  | inl o ↦ ground arith
  | inr (row, o) ↦ elim (Option-cases (get effect_id s.side_effects)) [
    | inl e ↦ ground arith
    | inr (effect, e) ↦ (row, effect, o, e)
  ]
]

precheck-guard :
    (env : Env) (outbox_id task_id effect_id : ℕ) (s : Store) (row : OutboxRow) (task : TaskRow)
    (effect : SideEffectRow)
    → get outbox_id s.outbox ≡ some row
    → get effect_id s.side_effects ≡ some effect
    → get task_id s.tasks ≡ some task
    → (precheck env outbox_id task_id effect_id s).0 ≡ true
    → guard_side_effect_eligibility env task_id task effect only_dispatching s ≡ ok tt
unfolding precheck
precheck-guard env outbox_id task_id effect_id s row task effect o e t h = ground arith

precheck-pure :
    (env : Env) (outbox_id task_id effect_id : ℕ) (s : Store) (row : OutboxRow)
    (effect : SideEffectRow)
    → get outbox_id s.outbox ≡ some row
    → get effect_id s.side_effects ≡ some effect
    → (precheck env outbox_id task_id effect_id s).0 ≡ true
    → (precheck env outbox_id task_id effect_id s).1 ≡ s
unfolding precheck
precheck-pure env outbox_id task_id effect_id s row effect o e h = ground arith

-- The external adapter is called only for a DISPATCHING effect that nothing holds back, and the
-- check that lets the call through writes nothing.
pub precheck-sends :
    (env : Env) (outbox_id task_id effect_id : ℕ) (s : Store) (task : TaskRow)
    → get task_id s.tasks ≡ some task
    → (precheck env outbox_id task_id effect_id s).0 ≡ true
    → (effect : SideEffectRow) × (get effect_id s.side_effects ≡ some effect)
      × (effect.state ≡ SideEffectState.dispatching)
      × IsEligible env task_id task effect s
      × ((precheck env outbox_id task_id effect_id s).1 ≡ s)
precheck-sends env outbox_id task_id effect_id s task t h =
    let (row, effect, o, e) = precheck-rows env outbox_id task_id effect_id s h in
    let guard = precheck-guard env outbox_id task_id effect_id s row task effect o e t h in
    let (free, allowed) = eligible env task_id task effect only_dispatching s guard in
    (
      effect,
      e,
      ground arith,
      free,
      precheck-pure env outbox_id task_id effect_id s row effect o e h,
    )

-- A send that the check refuses, of a row that is not DEAD, leaves no DISPATCHING effect behind: it
-- is CANCELLED under a cancellation and AUTHORIZED again otherwise, and the row is DEAD.
pub precheck-refuses :
    (env : Env) (outbox_id task_id effect_id : ℕ) (s : Store) (row : OutboxRow) (task : TaskRow)
    (effect : SideEffectRow)
    → get outbox_id s.outbox ≡ some row
    → is_dead row.status ≡ false
    → get task_id s.tasks ≡ some task
    → get effect_id s.side_effects ≡ some effect
    → effect.state ≡ SideEffectState.dispatching
    → (precheck env outbox_id task_id effect_id s).0 ≡ false
    → (get effect_id (precheck env outbox_id task_id effect_id s).1.side_effects
        ≡ some (record effect {
          state =
              if task.cancel_intent || is_cancelling task.state
              then SideEffectState.cancelled
              else SideEffectState.authorized;
        }))
      × (get outbox_id (precheck env outbox_id task_id effect_id s).1.outbox
          ≡ some (record row { status = OutboxStatus.dead }))
unfolding precheck
precheck-refuses env outbox_id task_id effect_id s row task effect o d t e p h = (
  ground (arith, get-alter effect_id effect_id (hold_back task) s.side_effects),
  ground (
    arith,
    get-alter outbox_id outbox_id (λ (ob : OutboxRow). record ob { status = OutboxStatus.dead })
        s.outbox,
  ),
)
