-- ===== src/Tests/Runs.antt =====
-- The commands of a run at concrete inputs.
use hibiki.Prelude.{◌≡◌, ◌↔◌, refl, true, false, none, some, [], ◌==◌}
use hibiki.Domain.Enums.{TaskState, AgentRunStatus, SideEffectState, ActorType}
use hibiki.Domain.Errors.{is_ok}
use hibiki.Domain.Types.{AuthContext}
use hibiki.Persistence.Models.{Store}
use hibiki.Persistence.Session.{done, run}
use hibiki.Application.Runs.{
  RunPayload, assert_run_write_binding, differs, heartbeat, set_writer_alive,
  register_sandbox_identity,
}
use hibiki.Application.Runs.Laws.{assert_run_write_binding_iff, stale_run_refused}
use hibiki.Application.Usage.{Calls, Usage, record_model_usage}
use hibiki.Tests.Data.{env, auth_of, task_in, run_in, store_of, workspace}

abbrev running : Store
running = store_of TaskState.executing AgentRunStatus.running SideEffectState.authorized []

-- The credential of run 20.
abbrev pub runtime : AuthContext
runtime = record (auth_of ActorType.internal) {
  actor_id = 21;
  bound_task_id = some 7;
  bound_run_id = some 20;
  bound_fencing_epoch = some 1;
  bound_grant_epoch = some 1;
}

abbrev current : RunPayload
current = record { task_id = none; run_id = some 20; fencing_epoch = some 1 }

assert_run_write_binding_iff_example :
    (assert_run_write_binding runtime 20 (run_in AgentRunStatus.running) current true running
      ≡ done tt running)
    ↔ (((1 == 1) ≡ true)
        × (current.fencing_epoch ≡ some 1)
        × (differs none 7 ≡ false)
        × (differs (some 20) 20 ≡ false)
        × (runtime.bound_task_id ≡ some 7)
        × (runtime.bound_run_id ≡ some 20)
        × (runtime.bound_fencing_epoch ≡ some 1)
        × (runtime.bound_grant_epoch ≡ some 1)
        × ((21 == 21) ≡ true))
assert_run_write_binding_iff_example =
    assert_run_write_binding_iff runtime 20 (run_in AgentRunStatus.running) current running
      (task_in TaskState.executing) refl

abbrev stale : RunPayload
stale = record current { fencing_epoch = some 0 }

stale_run_refused_example :
    (is_ok (run (heartbeat env runtime 20 stale) running).0 ≡ false)
    × (is_ok (run (set_writer_alive runtime 30 stale true false) running).0 ≡ false)
    × (is_ok (run (register_sandbox_identity runtime 20 stale none none) running).0 ≡ false)
stale_run_refused_example =
    stale_run_refused env runtime 20 30 stale running (task_in TaskState.executing)
      (run_in AgentRunStatus.running) workspace true false none none refl refl refl refl refl refl

-- A report of two calls.
abbrev spent : Store
spent = (run (record_model_usage runtime 20 current (Calls.number 2)) running).1

abbrev usage : Usage
usage = record { model_calls_used = 2; limit = 200 }
