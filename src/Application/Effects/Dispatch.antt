-- ===== src/Application/Effects/Dispatch.antt =====
-- A side effect that is dispatched, and one that is proposed.
use hibiki.Prelude.{
  ℕ, ◌+◌, ◌≡◌, ◌∙◌, ap, true, none, some, arith, get, get-alter, add, [], ◌∷◌, Option-cases, inl,
  inr, Table,
}
use hibiki.Domain.Enums.{SideEffectState, OutboxStatus}
use hibiki.Domain.Errors.{ok}
use hibiki.Domain.Types.{AuthContext}
use hibiki.Persistence.Models.{Store, TaskRow, SideEffectRow, OutboxRow, Command, EventType}
use hibiki.Persistence.Session.{Env, done, CommandResult}
use hibiki.Application.Base.{get_task, append_event, set_effect}
use hibiki.Application.Control.{has_pending_dispatch}
use hibiki.Application.Stops.{add_outbox}
use hibiki.Application.Effects.{
  dispatch_side_effect, get_effect, reply_effect, EffectReply, guard_side_effect_eligibility,
  only_authorized,
}
use hibiki.Application.Effects.Eligible.{IsEligible, eligible}

abbrev pub dispatched : SideEffectRow → SideEffectRow
dispatched e = record e {
  state = SideEffectState.dispatching;
  dispatch_attempts = e.dispatch_attempts + 1;
}

-- The database that the command commits.
abbrev sent : Env → AuthContext → ℕ → SideEffectRow → TaskRow → Store → Store
sent env auth effect_id effect task s =
    add_outbox env effect.task_id task.revoke_epoch (Command.side_effect_dispatch effect_id) (
      append_event env effect.task_id EventType.side_effect_dispatching (some auth.actor_id)
        (set_effect effect_id dispatched s))

dispatch_side_effect-eq :
    (env : Env) (auth : AuthContext) (effect_id : ℕ) (s s' : Store) (r : CommandResult EffectReply)
    (effect : SideEffectRow) (task : TaskRow)
    → dispatch_side_effect env auth effect_id s ≡ done r s'
    → get effect_id s.side_effects ≡ some effect
    → get effect.task_id s.tasks ≡ some task
    → effect.state ≡ SideEffectState.authorized
    → s' ≡ sent env auth effect_id effect task s
unfolding dispatch_side_effect get_task get_effect append_event reply_effect
dispatch_side_effect-eq env auth effect_id s s' r effect task h e t a =
    ground (arith, get-alter effect_id effect_id dispatched s.side_effects)

sent-effect :
    (env : Env) (auth : AuthContext) (effect_id : ℕ) (s : Store) (effect : SideEffectRow)
    (task : TaskRow)
    → get effect_id s.side_effects ≡ some effect
    → get effect_id (sent env auth effect_id effect task s).side_effects ≡ some (dispatched effect)
unfolding append_event
sent-effect env auth effect_id s effect task e =
    ground (arith, get-alter effect_id effect_id dispatched s.side_effects)

add-dispatch :
    (task_id effect_id k epoch : ℕ) (t : Table OutboxRow)
    → has_pending_dispatch task_id effect_id (
        add k
          (record {
            task_id = task_id;
            command = Command.side_effect_dispatch effect_id;
            status = OutboxStatus.pending;
            revoke_epoch = epoch;
            leased_until = none;
            acked_at = none;
          })
          t)
      ≡ true
add-dispatch task_id effect_id k epoch [] = ground arith
add-dispatch task_id effect_id k epoch ((j, w) ∷ t) =
    ground (arith, add-dispatch task_id effect_id k epoch t)

sent-outbox :
    (env : Env) (auth : AuthContext) (effect_id : ℕ) (s : Store) (effect : SideEffectRow)
    (task : TaskRow)
    → has_pending_dispatch effect.task_id effect_id (sent env auth effect_id effect task s).outbox
      ≡ true
unfolding append_event
sent-outbox env auth effect_id s effect task =
    add-dispatch effect.task_id effect_id (env.new_id s.drawn) task.revoke_epoch s.outbox

dispatch_side_effect-read :
    (env : Env) (auth : AuthContext) (effect_id : ℕ) (s s' : Store) (r : CommandResult EffectReply)
    (effect : SideEffectRow) (task : TaskRow)
    → dispatch_side_effect env auth effect_id s ≡ done r s'
    → get effect_id s.side_effects ≡ some effect
    → get effect.task_id s.tasks ≡ some task
    → guard_side_effect_eligibility env effect.task_id task effect only_authorized s ≡ ok tt
unfolding dispatch_side_effect get_task get_effect
dispatch_side_effect-read env auth effect_id s s' r effect task h e t = ground arith

dispatch_side_effect-found :
    (env : Env) (auth : AuthContext) (effect_id : ℕ) (s s' : Store) (r : CommandResult EffectReply)
    → dispatch_side_effect env auth effect_id s ≡ done r s'
    → (effect : SideEffectRow) × (task : TaskRow) × (get effect_id s.side_effects ≡ some effect)
      × (get effect.task_id s.tasks ≡ some task)
unfolding dispatch_side_effect get_task get_effect
dispatch_side_effect-found env auth effect_id s s' r h =
    elim (Option-cases (get effect_id s.side_effects)) [
      | inl e ↦ ground arith
      | inr (effect, e) ↦ elim (Option-cases (get effect.task_id s.tasks)) [
        | inl t ↦ ground arith
        | inr (task, t) ↦ (effect, task, e, t)
      ]
    ]

-- A dispatch that succeeds is of an AUTHORIZED effect that nothing holds back: its task is neither
-- terminal, cancelled nor paused, no gate blocks it, and its contract version is the ACTIVE one. The
-- effect is then DISPATCHING with one attempt more, and a dispatch waits in the outbox.
pub dispatch_side_effect-sends :
    (env : Env) (auth : AuthContext) (effect_id : ℕ) (s s' : Store) (r : CommandResult EffectReply)
    → dispatch_side_effect env auth effect_id s ≡ done r s'
    → (effect : SideEffectRow) × (task : TaskRow) × (get effect_id s.side_effects ≡ some effect)
      × (get effect.task_id s.tasks ≡ some task)
      × (effect.state ≡ SideEffectState.authorized)
      × IsEligible env effect.task_id task effect s
      × (get effect_id s'.side_effects ≡ some (dispatched effect))
      × (has_pending_dispatch effect.task_id effect_id s'.outbox ≡ true)
dispatch_side_effect-sends env auth effect_id s s' r h =
    let (effect, task, e, t) = dispatch_side_effect-found env auth effect_id s s' r h in
    let g = dispatch_side_effect-read env auth effect_id s s' r effect task h e t in
    let (free, allowed) = eligible env effect.task_id task effect only_authorized s g in
    let a : effect.state ≡ SideEffectState.authorized = ground arith in
    let stored = dispatch_side_effect-eq env auth effect_id s s' r effect task h e t a in
    (
      effect,
      task,
      e,
      t,
      a,
      free,
      ap (λ (u : Store). get effect_id u.side_effects) stored
          ∙ sent-effect env auth effect_id s effect task e,
      ap (λ (u : Store). has_pending_dispatch effect.task_id effect_id u.outbox) stored
          ∙ sent-outbox env auth effect_id s effect task,
    )
