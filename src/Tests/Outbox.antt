-- ===== src/Tests/Outbox.antt =====
-- The outbox and the side effects at concrete inputs.
use hibiki.Prelude.{◌≡◌, ◌↔◌, refl, true, false, ◌||◌, some, [], ◌∷◌, get, ◌==◌, if◌then◌else◌}
use hibiki.Domain.Enums.{TaskState, AgentRunStatus, SideEffectState, OutboxStatus}
use hibiki.Domain.Guards.{guard_side_effect_send}
use hibiki.Domain.Transitions.{can_dispatch_business_run}
use hibiki.Persistence.Models.{Store, TaskRow, SideEffectRow, Command}
use hibiki.Persistence.Session.{run, success}
use hibiki.Application.Base.{
  get_task, append_event, set_task_state, has_blocking_gate, active_contract, is_active_run,
}
use hibiki.Application.Control.{has_pending_dispatch}
use hibiki.Application.Effects.{
  dispatch_side_effect, get_effect, reply_effect, guard_side_effect_eligibility,
}
use hibiki.Application.Effects.Dispatch.{dispatched, dispatch_side_effect-sends}
use hibiki.Application.Effects.Eligible.{IsEligible}
use hibiki.Application.External.{precheck, fail_outbox}
use hibiki.Application.External.Laws.{precheck-sends}
use hibiki.Application.Outbox.{pick, claim_effect, claim_one_outbox}
use hibiki.Application.Outbox.Claim.{claim-start, claim-effect}
use hibiki.Application.Sending.{start_send_allowed, ack_outbox_and_mark_running, is_dead}
use hibiki.Application.Sending.Laws.{
  start_send_allowed_iff, is_halted, ack_outbox_and_mark_running-run,
}
use hibiki.Application.External.Uncertain.{IsNeverSent, fail_outbox-never_sends}
use hibiki.Application.Stops.{is_in_flight}
use hibiki.Tests.Data.{env, human, task_in, run_in, effect_in, store_of, start_row, dispatch_row}

-- A task that executes, with a start and a dispatch in the outbox.
abbrev with_rows : TaskState → SideEffectState → OutboxStatus → Store
with_rows state effect status =
    store_of state AgentRunStatus.created effect
      ((51, dispatch_row status) ∷ (50, start_row status) ∷ [])

abbrev sending : Store
sending = with_rows TaskState.executing SideEffectState.dispatching OutboxStatus.in_flight

precheck-sends_example :
    (effect : SideEffectRow) × (get 40 sending.side_effects ≡ some effect)
    × (effect.state ≡ SideEffectState.dispatching)
    × IsEligible env 7 (task_in TaskState.executing) effect sending
    × ((precheck env 51 7 40 sending).1 ≡ sending)
unfolding precheck guard_side_effect_eligibility guard_side_effect_send has_blocking_gate
    active_contract
precheck-sends_example = precheck-sends env 51 7 40 sending (task_in TaskState.executing) refl refl

abbrev uncertain : Store
uncertain = (run (fail_outbox env 51) sending).1

fail_outbox-never_sends_example :
    (get 51 uncertain.outbox
      ≡ some (record (dispatch_row OutboxStatus.in_flight) {
        status = OutboxStatus.acked;
        acked_at = some 100;
      }))
    × (get 40 uncertain.side_effects
        ≡ some (record (effect_in SideEffectState.dispatching) { state = SideEffectState.unknown }))
    × IsNeverSent 40 uncertain
unfolding fail_outbox run set_task_state get_task
fail_outbox-never_sends_example =
    fail_outbox-never_sends env 51 40 sending uncertain (dispatch_row OutboxStatus.in_flight) refl
      refl refl

start_send_allowed_iff_example : ((start_send_allowed env 50 20 sending).0 ≡ true) ↔ (
    (is_in_flight OutboxStatus.in_flight ≡ true)
    × (is_active_run AgentRunStatus.created ≡ true)
    × ((3 == 3) ≡ true)
    × (false ≡ false)
    × (false ≡ false)
    × (has_blocking_gate 7 sending ≡ false)
    × (can_dispatch_business_run TaskState.executing ≡ true))
start_send_allowed_iff_example =
    start_send_allowed_iff env 50 20 sending (start_row OutboxStatus.in_flight)
      (task_in TaskState.executing) (run_in AgentRunStatus.created) refl refl refl

ack_outbox_and_mark_running-run_example :
    get 20 (ack_outbox_and_mark_running env 50 20 sending).runs
    ≡ some (
        if is_dead OutboxStatus.in_flight
          || false
          || false
          || has_blocking_gate 7 sending
          || is_halted TaskState.executing
        then run_in AgentRunStatus.created
        else record (run_in AgentRunStatus.created) {
          status = AgentRunStatus.running;
          started_at = some 100;
        })
ack_outbox_and_mark_running-run_example =
    ack_outbox_and_mark_running-run env 50 20 sending (start_row OutboxStatus.in_flight)
      (run_in AgentRunStatus.created) (task_in TaskState.executing) refl refl refl refl

abbrev waiting : Store
waiting = with_rows TaskState.executing SideEffectState.authorized OutboxStatus.pending

abbrev start_waiting : Store
start_waiting =
    store_of TaskState.executing AgentRunStatus.created SideEffectState.authorized
      ((50, start_row OutboxStatus.pending) ∷ [])

claim-start_example :
    (can_dispatch_business_run TaskState.executing ≡ true) × (false ≡ false) × (false ≡ false)
unfolding claim_one_outbox pick
claim-start_example =
    claim-start env start_waiting (claim_one_outbox env start_waiting).1
      (record { outbox_id = 50; task_id = 7; command = Command.agent_start 20 }) 20
      (task_in TaskState.executing) refl refl refl

claim-effect_example :
    (effect : SideEffectRow) × (get 40 waiting.side_effects ≡ some effect)
    × IsEligible env 7 (task_in TaskState.executing) effect waiting
    × (get 40 (claim_one_outbox env waiting).1.side_effects
        ≡ some (record effect { state = SideEffectState.dispatching }))
unfolding claim_one_outbox pick claim_effect guard_side_effect_eligibility guard_side_effect_send
    has_blocking_gate active_contract
claim-effect_example =
    claim-effect env waiting (claim_one_outbox env waiting).1
      (record { outbox_id = 51; task_id = 7; command = Command.side_effect_dispatch 40 }) 40
      (task_in TaskState.executing) refl refl refl

abbrev authorized : Store
authorized = store_of TaskState.executing AgentRunStatus.running SideEffectState.authorized []

abbrev committed : Store
committed = (run (dispatch_side_effect env human 40) authorized).1

dispatch_side_effect-sends_example :
    (effect : SideEffectRow) × (task : TaskRow) × (get 40 authorized.side_effects ≡ some effect)
    × (get effect.task_id authorized.tasks ≡ some task)
    × (effect.state ≡ SideEffectState.authorized)
    × IsEligible env effect.task_id task effect authorized
    × (get 40 committed.side_effects ≡ some (dispatched effect))
    × (has_pending_dispatch effect.task_id 40 committed.outbox ≡ true)
unfolding dispatch_side_effect run get_task get_effect append_event reply_effect
    guard_side_effect_eligibility guard_side_effect_send has_blocking_gate active_contract
dispatch_side_effect-sends_example =
    dispatch_side_effect-sends env human 40 authorized committed
      (success (record { effect_id = 40; state = SideEffectState.dispatching })) refl
