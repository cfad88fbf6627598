-- ===== src/Application/Effects/Eligible.antt =====
-- What an effect that may go out satisfies.
use hibiki.Prelude.{ℕ, ◌≡◌, Bool, true, false, some, arith, Option-cases, inl, inr}
use hibiki.Domain.Enums.{SideEffectState}
use hibiki.Domain.Errors.{ok}
use hibiki.Domain.Guards.{guard_side_effect_send, is_cancelling, is_pausing_or_paused}
use hibiki.Domain.Transitions.{is_terminal_task}
use hibiki.Persistence.Models.{Store, TaskRow, SideEffectRow}
use hibiki.Persistence.Session.{Env}
use hibiki.Application.Base.{active_contract, has_blocking_gate}
use hibiki.Application.Effects.{guard_side_effect_eligibility, is_expired, version_of}

-- Nothing freezes the task, and the effect was authorized under the contract that is ACTIVE.
pub record IsEligible (env : Env) (task_id : ℕ) (task : TaskRow) (effect : SideEffectRow)
    (s : Store) : Type 0 where
  pub no_cancel : task.cancel_intent ≡ false
  pub no_pause : task.pause_intent ≡ false
  pub not_cancelling : is_cancelling task.state ≡ false
  pub not_pausing : is_pausing_or_paused task.state ≡ false
  pub not_terminal : is_terminal_task task.state ≡ false
  pub no_gate : has_blocking_gate task_id s ≡ false
  pub current_contract : version_of (active_contract task_id s) ≡ some effect.contract_version
  pub not_expired : is_expired effect.expires_at env.now ≡ false

pub eligible :
    (env : Env) (task_id : ℕ) (task : TaskRow) (effect : SideEffectRow)
    (allowed : SideEffectState → Bool) (s : Store)
    → guard_side_effect_eligibility env task_id task effect allowed s ≡ ok tt
    → IsEligible env task_id task effect s × (allowed effect.state ≡ true)
unfolding guard_side_effect_eligibility guard_side_effect_send
eligible env task_id task effect allowed s h = elim (Option-cases (active_contract task_id s)) [
  | inl e ↦ ground arith
  | inr (c, e) ↦ (
    record {
      no_cancel = ground arith;
      no_pause = ground arith;
      not_cancelling = ground arith;
      not_pausing = ground arith;
      not_terminal = ground arith;
      no_gate = ground arith;
      current_contract = ground arith;
      not_expired = ground arith;
    },
    ground arith,
  )
]
