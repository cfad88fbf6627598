-- ===== src/Application/Outbox/Claim.antt =====
-- What a claim of the outbox has checked.
use mathlib.Core.Path.{subst}
use hibiki.Prelude.{
  ℕ, ◌≡◌, refl, ◌∙◌, ap, sym, true, false, some, [], ◌∷◌, Table, get, get-alter, arith,
  Option-cases, inl, inr,
}
use hibiki.Domain.Enums.{SideEffectState}
use hibiki.Domain.Errors.{ok}
use hibiki.Domain.Transitions.{can_dispatch_business_run}
use hibiki.Persistence.Models.{Store, TaskRow, OutboxRow, SideEffectRow, Command}
use hibiki.Persistence.Session.{Env}
use hibiki.Application.Effects.{guard_side_effect_eligibility, dispatching_or_authorized}
use hibiki.Application.Effects.Eligible.{IsEligible, eligible}
use hibiki.Application.Outbox.{
  pick, pick_from, first_pending, first_claimable, claim_one_outbox, claim_effect, Claimed,
  claim_command, begin_dispatch, is_start_revoked,
}

pick_from-lem :
    (now : ℕ) (rows all : Table OutboxRow)
    → first_claimable now all ≡ first_claimable now rows
    → pick_from now all (first_pending rows) ≡ first_claimable now all
pick_from-lem now [] all h = ground arith
pick_from-lem now ((k, ob) ∷ t) all h = ground (arith, pick_from-lem now t all)

-- The row that the dispatcher picks is the first PENDING row whose backoff is over: the shortcut
-- through the first PENDING row gives what a scan of the whole outbox gives.
pub pick-first_claimable :
    (now : ℕ) (rows : Table OutboxRow) → pick now rows ≡ first_claimable now rows
unfolding pick
pick-first_claimable now rows = pick_from-lem now rows rows refl

claim_command-start :
    (env : Env) (k : ℕ) (row : OutboxRow) (task : TaskRow) (s s' : Store) (c : Claimed) (run_id : ℕ)
    → claim_command env k row task (Command.agent_start run_id) s ≡ (some c, s')
    → is_start_revoked row task ≡ false
unfolding claim_effect
claim_command-start env k row task s s' c run_id h = ground arith

claim_command-row :
    (env : Env) (k : ℕ) (row : OutboxRow) (task : TaskRow) (command : Command) (s s' : Store)
    (c : Claimed)
    → claim_command env k row task command s ≡ (some c, s')
    → (c.command ≡ row.command) × (c.task_id ≡ row.task_id)
unfolding claim_effect
claim_command-row env k row task command s s' c h = ground arith

-- A claim is of the row that was picked, and the task's checks were run on it.
claim_one-row :
    (env : Env) (s s' : Store) (c : Claimed) (task : TaskRow)
    → claim_one_outbox env s ≡ (some c, s')
    → get c.task_id s.tasks ≡ some task
    → (k : ℕ) × (row : OutboxRow) × (claim_command env k row task row.command s ≡ (some c, s'))
      × (c.command ≡ row.command)
      × (c.task_id ≡ row.task_id)
unfolding claim_one_outbox claim_effect
claim_one-row env s s' c task h t = elim (Option-cases (pick env.now s.outbox)) [
  | inl p ↦ ground arith
  | inr ((k, row), p) ↦ elim (Option-cases (get row.task_id s.tasks)) [
    | inl q ↦ ground arith
    | inr (u, q) ↦
        let asked : claim_command env k row u row.command s ≡ (some c, s') = ground arith in
        let (same, owner) = claim_command-row env k row u row.command s s' c asked in
        (k, row, ground arith, same, owner)
  ]
]

-- A claimed start of a task that is there belongs to a task that is PLANNING, EXECUTING or
-- VERIFYING and that nobody means to pause or cancel.
pub claim-start :
    (env : Env) (s s' : Store) (c : Claimed) (run_id : ℕ) (task : TaskRow)
    → claim_one_outbox env s ≡ (some c, s')
    → c.command ≡ Command.agent_start run_id
    → get c.task_id s.tasks ≡ some task
    → (can_dispatch_business_run task.state ≡ true)
      × (task.cancel_intent ≡ false)
      × (task.pause_intent ≡ false)
claim-start env s s' c run_id task h e t =
    let (k, row, asked, same, owner) = claim_one-row env s s' c task h t in
    let start : claim_command env k row task (Command.agent_start run_id) s ≡ (some c, s') =
      ground arith in
    ground (arith, claim_command-start env k row task s s' c run_id start)

begun :
    (e : SideEffectRow)
    → dispatching_or_authorized e.state ≡ true
    → begin_dispatch e ≡ record e { state = SideEffectState.dispatching }
begun e h = ground arith

claim_effect-eligible :
    (env : Env) (k : ℕ) (row : OutboxRow) (task : TaskRow) (s s' : Store) (c : Claimed)
    (effect_id : ℕ)
    → claim_command env k row task (Command.side_effect_dispatch effect_id) s ≡ (some c, s')
    → (effect : SideEffectRow) × (get effect_id s.side_effects ≡ some effect)
      × (guard_side_effect_eligibility env row.task_id task effect dispatching_or_authorized s
          ≡ ok tt)
      × (get effect_id s'.side_effects ≡ some (begin_dispatch effect))
unfolding claim_effect
claim_effect-eligible env k row task s s' c effect_id h =
    elim (Option-cases (get effect_id s.side_effects)) [
      | inl q ↦ ground arith
      | inr (effect, q) ↦ (
        effect,
        q,
        ground arith,
        ground (arith, get-alter effect_id effect_id begin_dispatch s.side_effects),
      )
    ]

-- A claimed dispatch of a task that is there is of an effect that nothing holds back: its task is
-- neither terminal, cancelled nor paused, no gate blocks it, and its contract version is the ACTIVE
-- one. An AUTHORIZED or DISPATCHING effect is DISPATCHING after the claim.
pub claim-effect :
    (env : Env) (s s' : Store) (c : Claimed) (effect_id : ℕ) (task : TaskRow)
    → claim_one_outbox env s ≡ (some c, s')
    → c.command ≡ Command.side_effect_dispatch effect_id
    → get c.task_id s.tasks ≡ some task
    → (effect : SideEffectRow) × (get effect_id s.side_effects ≡ some effect)
      × IsEligible env c.task_id task effect s
      × (get effect_id s'.side_effects
          ≡ some (record effect { state = SideEffectState.dispatching }))
claim-effect env s s' c effect_id task h e t =
    let (k, row, asked, same, owner) = claim_one-row env s s' c task h t in
    let dispatch : claim_command env k row task (Command.side_effect_dispatch effect_id) s
        ≡ (some c, s') =
      ground arith in
    let (effect, found, guard, stored) =
      claim_effect-eligible env k row task s s' c effect_id dispatch in
    let (free, allowed) = eligible env row.task_id task effect dispatching_or_authorized s guard in
    (
      effect,
      found,
      subst (λ i. IsEligible env i task effect s) (sym owner) free,
      stored ∙ ap some (begun effect allowed),
    )
