-- ===== src/Application/External/Uncertain.antt =====
-- What an uncertain external call leaves: a failed dispatch, and one whose lease ran out.
use hibiki.Prelude.{
  ℕ, ◌≡◌, refl, Bool, true, false, Option, none, some, get, get-alter, arith, if◌then◌else◌,
  Bool-cases, inl, inr,
}
use mathlib.Core.Option
use hibiki.Domain.Enums.{SideEffectState, OutboxStatus}
use hibiki.Domain.Errors.{ok}
use hibiki.Persistence.Models.{Store, TaskRow, OutboxRow, SideEffectRow, Command}
use hibiki.Persistence.Session.{Env, done}
use hibiki.Application.Base.{set_task_state, get_task}
use hibiki.Application.Effects.{guard_side_effect_eligibility}
use hibiki.Application.Effects.Eligible.{eligible}
use hibiki.Application.External.{precheck, precheck_owned, owner_of, fail_outbox, only_dispatching}
use hibiki.Application.External.Laws.{precheck-rows}
use hibiki.Application.Outbox.{is_leased}
use hibiki.Application.Reconcile.{reconcile_row}
use hibiki.Application.Sending.{is_dead}
use hibiki.Application.Stops.{mark_acked}

owned-dispatching :
    (env : Env) (outbox_id effect_id : ℕ) (effect : SideEffectRow) (owner : Option (ℕ × TaskRow))
    (dead : Bool) (s : Store)
    → (precheck_owned env outbox_id effect_id effect owner dead s).0 ≡ true
    → only_dispatching effect.state ≡ true
owned-dispatching env outbox_id effect_id effect none dead s h = ground arith
owned-dispatching env outbox_id effect_id effect (some (task_id, task)) true s h = ground arith
owned-dispatching env outbox_id effect_id effect (some (task_id, task)) false s h =
    let guard : guard_side_effect_eligibility env task_id task effect only_dispatching s ≡ ok tt =
      ground arith in
    (eligible env task_id task effect only_dispatching s guard).1

-- Only an effect that is DISPATCHING passes the check before the call, whatever task the claim names.
precheck-dispatching :
    (env : Env) (outbox_id task_id effect_id : ℕ) (s : Store) (effect : SideEffectRow)
    → get effect_id s.side_effects ≡ some effect
    → (precheck env outbox_id task_id effect_id s).0 ≡ true
    → only_dispatching effect.state ≡ true
unfolding precheck
precheck-dispatching env outbox_id task_id effect_id s effect e h =
    let (row, found, o, f) = precheck-rows env outbox_id task_id effect_id s h in
    owned-dispatching env outbox_id effect_id effect (owner_of task_id effect s)
      (is_dead row.status) s (ground arith)

-- What becomes of an effect whose call is in doubt, in the states that the handler looks for.
abbrev pub doubted : (SideEffectState → Bool) → SideEffectRow → SideEffectRow
doubted looked_for e =
    if looked_for e.state then record e { state = SideEffectState.unknown } else e

abbrev pub is_claimed : SideEffectState → Bool
is_claimed SideEffectState.authorized = true
is_claimed SideEffectState.dispatching = true
is_claimed _ = false

abbrev pub is_sent : SideEffectState → Bool
is_sent SideEffectState.dispatching = true
is_sent SideEffectState.unknown = true
is_sent _ = false

-- No claim of the effect passes the check before the call.
abbrev pub IsNeverSent : ℕ → Store → Type 0
IsNeverSent effect_id s =
    (env : Env) (outbox_id task_id : ℕ) → (precheck env outbox_id task_id effect_id s).0 ≡ false

never_sent :
    (looked_for : SideEffectState → Bool) (effect_id : ℕ) (x : Option SideEffectRow) (s : Store)
    → get effect_id s.side_effects ≡ Option.map (doubted looked_for) x
    → ((state : SideEffectState) → only_dispatching state ≡ true → looked_for state ≡ true)
    → IsNeverSent effect_id s
unfolding precheck
never_sent looked_for effect_id none s e h env outbox_id task_id = ground arith
never_sent looked_for effect_id (some v) s e h env outbox_id task_id =
    elim (Bool-cases ((precheck env outbox_id task_id effect_id s).0)) [
      | inl sent ↦
          let passed =
            precheck-dispatching env outbox_id task_id effect_id s (doubted looked_for v) e sent in
          absurd (ground (arith, passed, h v.state))
      | inr held ↦ held
    ]

fail_outbox-effects :
    (env : Env) (outbox_id effect_id : ℕ) (s s' : Store) (row : OutboxRow)
    (x : Option SideEffectRow)
    → get outbox_id s.outbox ≡ some row
    → row.command ≡ Command.side_effect_dispatch effect_id
    → get effect_id s.side_effects ≡ x
    → fail_outbox env outbox_id s ≡ done tt s'
    → (get effect_id s'.side_effects ≡ Option.map (doubted is_claimed) x)
      × (get outbox_id s'.outbox
          ≡ some (record row { status = OutboxStatus.acked; acked_at = some env.now }))
unfolding fail_outbox set_task_state get_task
fail_outbox-effects env outbox_id effect_id s s' row none o c e h =
    ground (arith, get-alter outbox_id outbox_id (mark_acked env) s.outbox)
fail_outbox-effects env outbox_id effect_id s s' row (some v) o c e h = ground (
  arith,
  get-alter effect_id effect_id
      (λ (x : SideEffectRow). record x { state = SideEffectState.unknown }) s.side_effects,
  get-alter outbox_id outbox_id (mark_acked env) s.outbox,
)

-- When the failure of a dispatch commits, its row is ACKED, an effect that was AUTHORIZED or
-- DISPATCHING is UNKNOWN and one in another state is as it was, and no claim of that effect passes
-- the check before the external call, whatever its row and task.
pub fail_outbox-never_sends :
    (env : Env) (outbox_id effect_id : ℕ) (s s' : Store) (row : OutboxRow)
    → get outbox_id s.outbox ≡ some row
    → row.command ≡ Command.side_effect_dispatch effect_id
    → fail_outbox env outbox_id s ≡ done tt s'
    → (get outbox_id s'.outbox
        ≡ some (record row { status = OutboxStatus.acked; acked_at = some env.now }))
      × (get effect_id s'.side_effects
          ≡ Option.map (doubted is_claimed) (get effect_id s.side_effects))
      × IsNeverSent effect_id s'
fail_outbox-never_sends env outbox_id effect_id s s' row o c h =
    let (effects, acked) =
      fail_outbox-effects env outbox_id effect_id s s' row (get effect_id s.side_effects) o c refl
        h in
    (
      acked,
      effects,
      never_sent is_claimed effect_id (get effect_id s.side_effects) s' effects
          (λ state d. ground arith),
    )

reconcile_row-effects :
    (env : Env) (outbox_id effect_id : ℕ) (s s' : Store) (row : OutboxRow)
    (x : Option SideEffectRow)
    → get outbox_id s.outbox ≡ some row
    → row.command ≡ Command.side_effect_dispatch effect_id
    → is_leased row.leased_until env.now ≡ false
    → get effect_id s.side_effects ≡ x
    → reconcile_row env outbox_id row s ≡ done tt s'
    → (get effect_id s'.side_effects ≡ Option.map (doubted is_sent) x)
      × (get outbox_id s'.outbox
          ≡ some (record row { status = OutboxStatus.acked; acked_at = some env.now }))
unfolding reconcile_row set_task_state get_task
reconcile_row-effects env outbox_id effect_id s s' row none o c l e h =
    ground (arith, get-alter outbox_id outbox_id (mark_acked env) s.outbox)
reconcile_row-effects env outbox_id effect_id s s' row (some v) o c l e h = ground (
  arith,
  get-alter effect_id effect_id
      (λ (x : SideEffectRow). record x { state = SideEffectState.unknown }) s.side_effects,
  get-alter outbox_id outbox_id (mark_acked env) s.outbox,
)

-- When the reconciliation of a dispatch whose lease ran out commits, its row is ACKED, an effect that
-- was DISPATCHING is UNKNOWN and one in another state is as it was, and no claim of that effect
-- passes the check before the external call, whatever its row and task.
pub reconcile_row-never_sends :
    (env : Env) (outbox_id effect_id : ℕ) (s s' : Store) (row : OutboxRow)
    → get outbox_id s.outbox ≡ some row
    → row.command ≡ Command.side_effect_dispatch effect_id
    → is_leased row.leased_until env.now ≡ false
    → reconcile_row env outbox_id row s ≡ done tt s'
    → (get outbox_id s'.outbox
        ≡ some (record row { status = OutboxStatus.acked; acked_at = some env.now }))
      × (get effect_id s'.side_effects
          ≡ Option.map (doubted is_sent) (get effect_id s.side_effects))
      × IsNeverSent effect_id s'
reconcile_row-never_sends env outbox_id effect_id s s' row o c l h =
    let (effects, acked) =
      reconcile_row-effects env outbox_id effect_id s s' row (get effect_id s.side_effects) o c l
        refl h in
    (
      acked,
      effects,
      never_sent is_sent effect_id (get effect_id s.side_effects) s' effects
          (λ state d. ground arith),
    )
