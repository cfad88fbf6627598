-- ===== src/Application/Runs.antt =====
-- service.py: the commands of a run's runtime, under its credential, and the request of an exit.
pub mod Laws
use hibiki.Prelude.{
  ℕ, ◌+◌, Bool, true, false, not, ◌&&◌, ◌||◌, Option, none, some, List, [], ◌∷◌, get, map_rows,
  ◌==◌, is_key, is_some, if◌then◌else◌,
}
use hibiki.Domain.Defaults.{defaults}
use hibiki.Domain.Enums.{OutboxStatus, WorkspaceState}
use hibiki.Domain.Errors.{ErrorClass, Code}
use hibiki.Domain.Types.{AuthContext}
use hibiki.Persistence.Models.{
  Store, TaskRow, AgentRunRow, WorkspaceRow, OutboxRow, Command, StopReason, EventType,
}
use hibiki.Persistence.Session.{
  Env, M, gets, modify, require, fail_if, pure, ◌>>=◌, ◌>>◌, CommandResult, success,
}
use hibiki.Application.Base.{get_task, set_run, set_workspace, append_event, for_some}
use hibiki.Application.Occupancy.{release_workspace_after_confirmed_exit}
use hibiki.Application.Stops.{is_unsettled, enqueue_stops_for_runs}

-- The fields of a payload that the binding reads; `none` is a field that is absent.
pub record RunPayload : Type 0 where
  pub task_id : Option ℕ
  pub run_id : Option ℕ
  pub fencing_epoch : Option ℕ

-- `payload_id is not None and payload_id != id`
abbrev pub differs : Option ℕ → ℕ → Bool
differs none k = false
differs (some j) k = not (j == k)

abbrev pub is_bound : AuthContext → ℕ → AgentRunRow → Bool
is_bound auth run_id run =
    is_key auth.bound_task_id run.task_id
    && is_key auth.bound_run_id run_id
    && is_key auth.bound_fencing_epoch run.fencing_epoch
    && is_key auth.bound_grant_epoch run.grant_epoch
    && auth.actor_id == run.agent_instance_id

abbrev pub check_fencing : Bool → Option ℕ → ℕ → M (Unit {0})
check_fencing false epoch current = pure tt
check_fencing true epoch current = do
  fail_if (not (is_some epoch)) ErrorClass.conflict Code.fencing_required
  fail_if (differs epoch current) ErrorClass.conflict Code.fencing_conflict

unfoldable pub assert_run_write_binding :
    AuthContext → ℕ → AgentRunRow → RunPayload → Bool → M (Unit {0})
unfolding get_task
assert_run_write_binding auth run_id run payload require_fencing = do
  task ← get_task run.task_id
  fail_if (not (auth.principal_id == task.principal_id)) ErrorClass.authorization
      Code.authorization_denied
  check_fencing require_fencing payload.fencing_epoch run.fencing_epoch
  fail_if (differs payload.task_id run.task_id) ErrorClass.authorization Code.authorization_denied
  fail_if (differs payload.run_id run_id) ErrorClass.authorization Code.authorization_denied
  fail_if (not (is_bound auth run_id run)) ErrorClass.authorization Code.authorization_denied

unfoldable pub get_run : ℕ → M AgentRunRow
get_run run_id = do
  row ← gets (λ s. get run_id s.runs)
  require row ErrorClass.not_found Code.run_not_found

abbrev pub renew_lease : Env → AgentRunRow → AgentRunRow
renew_lease env r = record r {
  last_heartbeat_at = some env.now;
  lease_expires_at = some (env.now + defaults.lease_seconds);
}

unfoldable pub heartbeat : Env → AuthContext → ℕ → RunPayload → M (CommandResult ℕ)
unfolding assert_run_write_binding get_run
heartbeat env auth run_id payload = do
  r ← get_run run_id
  assert_run_write_binding auth run_id r payload true
  modify (set_run run_id (renew_lease env))
  pure (success run_id)

abbrev pub write_alive : Bool → Bool → WorkspaceRow → WorkspaceRow
write_alive alive quarantine ws = record ws {
  writer_alive = alive;
  state = if quarantine then WorkspaceState.quarantined else ws.state;
}

-- `payload.get("run_id") or ws.owner_run_id`
abbrev pub or_owner : Option ℕ → Option ℕ → Option ℕ
or_owner none owner = owner
or_owner (some k) owner = some k

unfoldable pub set_writer_alive : AuthContext → ℕ → RunPayload → Bool → Bool → M (CommandResult ℕ)
unfolding assert_run_write_binding get_run
set_writer_alive auth workspace_id payload alive quarantine = do
  row ← gets (λ s. get workspace_id s.workspaces)
  ws ← require row ErrorClass.not_found Code.not_found
  run_id ←
      require (or_owner payload.run_id ws.owner_run_id) ErrorClass.precondition
        Code.workspace_unbound
  r ← get_run run_id
  fail_if (differs ws.owner_run_id run_id) ErrorClass.authorization Code.authorization_denied
  assert_run_write_binding auth run_id r (record payload { run_id = some run_id }) true
  modify (set_workspace workspace_id (write_alive alive quarantine))
  pure (success workspace_id)

abbrev pub flag_writer : WorkspaceRow → WorkspaceRow
flag_writer ws = record ws { writer_alive = true }

-- `"exit_confirmed" in payload`, and its value.
abbrev pub note_exit : ℕ → AgentRunRow → Option Bool → Store → Store
note_exit run_id run none s = s
note_exit run_id run (some false) s =
    for_some run.workspace_id (λ w. set_workspace w flag_writer)
      (set_run run_id (λ r. record r { sandbox_exit_unconfirmed = true }) s)
note_exit run_id run (some true) s =
    release_workspace_after_confirmed_exit run_id run
      (set_run run_id (λ r. record r { sandbox_exit_unconfirmed = false }) s)

abbrev pub name_container : Option ℕ → AgentRunRow → AgentRunRow
name_container none r = r
name_container (some c) r = record r { sandbox_container_id = some c }

-- `container_id` is `none` if it is absent or blank.
unfoldable pub register_sandbox_identity :
    AuthContext → ℕ → RunPayload → Option ℕ → Option Bool → M (CommandResult ℕ)
unfolding assert_run_write_binding get_run release_workspace_after_confirmed_exit
register_sandbox_identity auth run_id payload container_id exit_confirmed = do
  r ← get_run run_id
  assert_run_write_binding auth run_id r payload true
  modify (set_run run_id (name_container container_id))
  modify (note_exit run_id r exit_confirmed)
  pure (success run_id)

abbrev pub starts_run : ℕ → Command → Bool
starts_run run_id (Command.agent_start r) = r == run_id
starts_run run_id _ = false

abbrev pub is_queued_start : ℕ → ℕ → OutboxRow → Bool
is_queued_start task_id run_id ob =
    ob.task_id == task_id && starts_run run_id ob.command && is_unsettled ob.status

abbrev pub kill_start : ℕ → ℕ → OutboxRow → OutboxRow
kill_start task_id run_id ob =
    if is_queued_start task_id run_id ob
    then record ob { status = OutboxStatus.dead; leased_until = none }
    else ob

unfoldable pub confirm_run_exit : Env → AuthContext → ℕ → M (CommandResult ℕ)
unfolding get_task get_run enqueue_stops_for_runs append_event
confirm_run_exit env auth run_id = do
  r ← get_run run_id
  get_task r.task_id
  flushed ← gets (λ s. s.outbox)
  modify (λ s. record s { outbox = map_rows (kill_start r.task_id run_id) s.outbox })
  modify (enqueue_stops_for_runs env r.task_id flushed (run_id ∷ []) StopReason.confirm_exit)
  modify (append_event env r.task_id EventType.exit_confirmation_requested (some auth.actor_id))
  pure (success run_id)
