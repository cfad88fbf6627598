-- ===== src/Tools/Broker/Authorize.antt =====
-- Which requests the broker allows, and what it records.
use mathlib.Core.Path.{subst}
use hibiki.Prelude.{
  suc, ◌≡◌, add, any_row, if◌then◌else◌, refl, sym, ap, is_some, ◌∙◌, ◌↔◌, Bool, true, false, not,
  ◌&&◌, Option, none, some, get, arith, ◌==◌, Bool-cases, inl, inr,
}
use hibiki.Domain.Errors.{DomainError, ErrorClass, Code, err}
use hibiki.Domain.Execution.{in_catalog, has_tool}
use hibiki.Domain.Types.{AuthContext}
use hibiki.Persistence.Models.{
  Store, AgentRunRow, TaskRow, RunInputRow, ToolInvocationRow, DenyReason, ToolOutcome,
}
use hibiki.Persistence.Session.{Env, Step, done, raised, run}
use hibiki.Persistence.Session.Frame.{Ensures, Ensures-done}
use hibiki.Tools.Broker.{
  ToolRequest, ToolDecision, authorize_in_tx, authorize_run, record_decision, binding_error,
  is_running_status, task_frozen, sequence_taken, log_row, invocation_row, denial, check_request,
  decision_of,
}

abbrev pub was_allowed : Step ToolDecision → Bool
was_allowed (done d s) = d.allowed
was_allowed (raised e s) = false

check_request_iff :
    (auth : AuthContext) (q : ToolRequest) (r : AgentRunRow) (input : RunInputRow) (task : TaskRow)
    (s : Store)
    → (check_request auth q r input task s ≡ none) ↔ (
        (binding_error auth q.run_id r task (some q) ≡ false)
        × (is_running_status r.status ≡ true)
        × ((q.fencing_epoch == r.fencing_epoch) ≡ true)
        × ((q.grant_epoch == r.grant_epoch) ≡ true)
        × (task_frozen r.task_id task s ≡ false)
        × ((in_catalog q.tool_name && has_tool q.tool_name input.granted_tools) ≡ true)
        × (sequence_taken r.task_id q s ≡ false))
check_request_iff auth q r input task s = (λ h. ground arith, λ h. ground arith)

record_decision-eq :
    (env : Env) (r : AgentRunRow) (q : ToolRequest) (reason : Option DenyReason) (s : Store)
    → sequence_taken r.task_id q s ≡ false
    → record_decision env r q reason s ≡ (
        let k = env.new_id s.drawn in
        done (decision_of reason k) (log_row k (invocation_row env r q reason) s))
unfolding record_decision
record_decision-eq env r q reason s n = ground arith

abbrev pub unique_constraint : DomainError
unique_constraint = record { class = ErrorClass.integrity; code = Code.unique_constraint }

record_decision-taken :
    (env : Env) (r : AgentRunRow) (q : ToolRequest) (reason : Option DenyReason) (s : Store)
    → sequence_taken r.task_id q s ≡ true
    → record_decision env r q reason s ≡ raised unique_constraint s
unfolding record_decision
record_decision-taken env r q reason s n = ground arith

authorize_in_tx-known :
    (env : Env) (auth : AuthContext) (q : ToolRequest) (s : Store) (r : AgentRunRow)
    → get q.run_id s.runs ≡ some r
    → authorize_in_tx env auth q s
      ≡ record_decision env r q
          (denial auth q r (get q.run_id s.run_inputs) (get r.task_id s.tasks) s)
          s
unfolding authorize_in_tx authorize_run
authorize_in_tx-known env auth q s r e = ground arith

was_allowed-record :
    (env : Env) (r : AgentRunRow) (q : ToolRequest) (reason : Option DenyReason) (s : Store)
    → was_allowed (record_decision env r q reason s)
      ≡ (not (is_some reason) && not (sequence_taken r.task_id q s))
unfolding record_decision
was_allowed-record env r q reason s = ground arith

was_allowed-check :
    (env : Env) (auth : AuthContext) (q : ToolRequest) (s : Store) (r : AgentRunRow)
    (input : RunInputRow) (task : TaskRow)
    → get q.run_id s.runs ≡ some r
    → get q.run_id s.run_inputs ≡ some input
    → get r.task_id s.tasks ≡ some task
    → was_allowed (authorize_in_tx env auth q s)
      ≡ (not (is_some (check_request auth q r input task s)) && not (sequence_taken r.task_id q s))
was_allowed-check env auth q s r input task e i t =
    ap was_allowed (
      authorize_in_tx-known env auth q s r e
      ∙ ap (λ o. record_decision env r q (denial auth q r o (get r.task_id s.tasks) s) s) i
      ∙ ap (λ o. record_decision env r q (denial auth q r (some input) o s) s) t)
    ∙ was_allowed-record env r q (check_request auth q r input task s) s

none_of : {A : Type 0} (o : Option A) (b : Bool) → (not (is_some o) && b) ≡ true → o ≡ none
none_of none b h = refl
none_of (some a) b h = ground arith

allowed_of :
    {A : Type 0} (o : Option A) (b : Bool)
    → o ≡ none
    → b ≡ false
    → (not (is_some o) && not b) ≡ true
allowed_of o b e n = ground arith

-- A request for a run that has its input and its task is allowed exactly when the credential is
-- bound to the run, the run is RUNNING, both epochs are the run's, the task is not frozen, the tool is
-- in the catalog and granted to the run, and the sequence number is fresh.
pub authorize_in_tx_iff :
    (env : Env) (auth : AuthContext) (q : ToolRequest) (s : Store) (r : AgentRunRow)
    (input : RunInputRow) (task : TaskRow)
    → get q.run_id s.runs ≡ some r
    → get q.run_id s.run_inputs ≡ some input
    → get r.task_id s.tasks ≡ some task
    → (was_allowed (authorize_in_tx env auth q s) ≡ true) ↔ (
        (binding_error auth q.run_id r task (some q) ≡ false)
        × (is_running_status r.status ≡ true)
        × ((q.fencing_epoch == r.fencing_epoch) ≡ true)
        × ((q.grant_epoch == r.grant_epoch) ≡ true)
        × (task_frozen r.task_id task s ≡ false)
        × ((in_catalog q.tool_name && has_tool q.tool_name input.granted_tools) ≡ true)
        × (sequence_taken r.task_id q s ≡ false))
authorize_in_tx_iff env auth q s r input task e i t =
    let taken = sequence_taken r.task_id q s in
    let answer = was_allowed-check env auth q s r input task e i t in
    let (to, from) = check_request_iff auth q r input task s in
    (
      λ h. to (none_of (check_request auth q r input task s) (not taken) (sym answer ∙ h)),
      λ c.
          let (_, _, _, _, _, _, fresh) = c in
          answer ∙ allowed_of (check_request auth q r input task s) taken (from c) fresh,
    )

-- The row is the only change, and it says what the decision says about the request.
abbrev pub IsAudited : Env → AgentRunRow → ToolRequest → Store → ToolDecision → Store → Type 0
IsAudited env r q s d s' =
    (row : ToolInvocationRow) × (s' ≡ record s {
      tool_invocations = add (env.new_id s.drawn) row s.tool_invocations;
      drawn = suc s.drawn;
    })
    × (d.invocation_id ≡ some (env.new_id s.drawn))
    × (row.task_id ≡ r.task_id)
    × (row.run_id ≡ q.run_id)
    × (row.sequence_no ≡ q.sequence_no)
    × (row.tool_name ≡ q.tool_name)
    × (row.allowed ≡ d.allowed)
    × (row.deny_reason ≡ d.reason)
    × (d.allowed ≡ not (is_some d.reason))
    × (row.outcome ≡ (if d.allowed then none else some ToolOutcome.denied))
    × (row.finished_at ≡ (if d.allowed then none else some env.now))
    × (any_row
          (λ t. t.task_id == r.task_id && t.run_id == q.run_id && t.sequence_no == q.sequence_no)
          s.tool_invocations
        ≡ false)

audited :
    (env : Env) (r : AgentRunRow) (q : ToolRequest) (reason : Option DenyReason) (s : Store)
    → sequence_taken r.task_id q s ≡ false
    → IsAudited env r q s
        (decision_of reason (env.new_id s.drawn))
        (log_row (env.new_id s.drawn) (invocation_row env r q reason) s)
audited env r q none s fresh = (
  invocation_row env r q none,
  refl,
  refl,
  refl,
  refl,
  refl,
  refl,
  refl,
  refl,
  refl,
  refl,
  refl,
  fresh,
)
audited env r q (some why) s fresh = (
  invocation_row env r q (some why),
  refl,
  refl,
  refl,
  refl,
  refl,
  refl,
  refl,
  refl,
  refl,
  refl,
  refl,
  fresh,
)

record_decision-Ensures :
    (env : Env) (r : AgentRunRow) (q : ToolRequest) (reason : Option DenyReason) (s : Store)
    → Ensures (IsAudited env r q s) (record_decision env r q reason s)
record_decision-Ensures env r q reason s = elim (Bool-cases (sequence_taken r.task_id q s)) [
  | inl taken ↦
      subst (Ensures (IsAudited env r q s)) (sym (record_decision-taken env r q reason s taken)) tt
  | inr fresh ↦
      subst (Ensures (IsAudited env r q s)) (sym (record_decision-eq env r q reason s fresh))
        (audited env r q reason s fresh)
]

-- A decision on a run that is there adds one row of the audit and writes nothing else. The row
-- names the run, its task, the sequence number and the tool of the request, says whether the request
-- was allowed and the reason of the denial, and a denial is closed at once with the outcome
-- `denied`. A request is allowed exactly when there is no reason, and its sequence number was fresh.
pub authorize_in_tx-audits :
    (env : Env) (auth : AuthContext) (q : ToolRequest) (s s' : Store) (r : AgentRunRow)
    (d : ToolDecision)
    → get q.run_id s.runs ≡ some r
    → authorize_in_tx env auth q s ≡ done d s'
    → IsAudited env r q s d s'
authorize_in_tx-audits env auth q s s' r d e h =
    let reason = denial auth q r (get q.run_id s.run_inputs) (get r.task_id s.tasks) s in
    Ensures-done (IsAudited env r q s) (record_decision env r q reason) s d s'
      (record_decision-Ensures env r q reason s) (sym (authorize_in_tx-known env auth q s r e) ∙ h)

-- A sequence number that the run has used is not refused with `duplicate_sequence`: the row of the
-- refusal violates the unique constraint of its table, so the call raises and leaves no trace.
pub authorize_in_tx-taken :
    (env : Env) (auth : AuthContext) (q : ToolRequest) (s : Store) (r : AgentRunRow)
    → get q.run_id s.runs ≡ some r
    → sequence_taken r.task_id q s ≡ true
    → run (authorize_in_tx env auth q) s ≡ (err unique_constraint, s)
unfolding run
authorize_in_tx-taken env auth q s r e n =
    let raises = authorize_in_tx-known env auth q s r e ∙ record_decision-taken env r q _ s n in
    ground (arith, raises)
