-- ===== src/Tests/Routing.antt =====
-- Commands that are delivered twice, at concrete inputs.
use hibiki.Prelude.{◌≡◌, refl, none, some, []}
use hibiki.Domain.Enums.{TaskState, AgentRunStatus, SideEffectState}
use hibiki.Domain.Errors.{err}
use hibiki.Domain.Guards.{Operation}
use hibiki.Persistence.Models.{Store}
use hibiki.Persistence.Session.{done, run, success}
use hibiki.Application.Runs.{heartbeat, assert_run_write_binding, get_run}
use hibiki.Application.Base.{get_task}
use hibiki.Application.Routing.{
  Payload, Delivery, answer_of, inbox_row, run_payload, command_task_id, authorize_run_command,
  store_inbox,
}
use hibiki.Application.Routing.Idempotency.{check_idempotency, store_idempotency}
use hibiki.Application.Routing.Execute.{
  Handlers, execute_in_tx, check_inbox, after_inbox, after_replay, run_handler,
}
use hibiki.Application.Routing.Handlers.{heartbeat-Keeps}
use hibiki.Application.Routing.ReadOnly.{inbox_of}
use hibiki.Application.Routing.Stored.{as_replay, inbox_conflict}
use hibiki.Application.Routing.Replay.{execute_in_tx-again, execute_in_tx-other_payload}
use hibiki.Tests.Data.{env, store_of}
use hibiki.Tests.Runs.{runtime}

abbrev nothing : Payload
nothing = record {
  task_id = none;
  decision_id = none;
  run_id = none;
  workspace_id = none;
  effect_id = none;
  fencing_epoch = none;
}

-- A heartbeat of run 20.
abbrev beat : Payload
beat = record nothing { run_id = some 20; fencing_epoch = some 1 }

abbrev handlers : Handlers
handlers = record {
  handler_of = λ _. some (λ auth p. heartbeat env auth 20 (run_payload p));
  fields = λ _. nothing;
}

abbrev first : Delivery
first = record { message_id = 5; idempotency_key = 6; payload_hash = 9 }

abbrev start : Store
start = store_of TaskState.executing AgentRunStatus.running SideEffectState.authorized []

abbrev after : Store
after = (run (execute_in_tx handlers runtime Operation.heartbeat beat first) start).1

execute_in_tx-again_example :
    execute_in_tx handlers runtime Operation.heartbeat beat first after
    ≡ done (as_replay (answer_of (success 20))) after
unfolding run execute_in_tx command_task_id authorize_run_command check_inbox after_inbox
    check_idempotency after_replay run_handler store_inbox store_idempotency heartbeat
    assert_run_write_binding get_run get_task
execute_in_tx-again_example =
    execute_in_tx-again handlers runtime Operation.heartbeat beat first (some 7) start after
      (answer_of (success 20))
      (heartbeat-Keeps inbox_of (λ k f s. refl) env runtime 20 (run_payload beat)) refl (refl, refl)

abbrev other_payload : Delivery
other_payload = record first { payload_hash = 8 }

abbrev other_message : Delivery
other_message = record first { message_id = 7 }

execute_in_tx-other_payload_example :
    run (execute_in_tx handlers runtime Operation.heartbeat beat other_payload) after
    ≡ (err inbox_conflict, after)
unfolding run execute_in_tx command_task_id authorize_run_command check_inbox after_inbox
    check_idempotency after_replay run_handler store_inbox store_idempotency heartbeat
    assert_run_write_binding get_run get_task
execute_in_tx-other_payload_example =
    execute_in_tx-other_payload handlers runtime Operation.heartbeat beat other_payload (some 7)
      (inbox_row runtime (some 7) Operation.heartbeat first (answer_of (success 20))) after refl
      refl (refl, refl)
