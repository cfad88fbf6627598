-- ===== src/Tests/Rules.antt =====
-- The rules of the domain and the paths, at concrete inputs.
use hibiki.Prelude.{ℕ, arith, ◌≡◌, ◌≢◌, refl, ◌↔◌, ◌⊎◌, Bool, true, false, some, List, [], ◌∷◌}
use hibiki.Domain.Enums.{ActorType, TaskState, SideEffectState, DependencyPredicate}
use hibiki.Domain.Errors.{ok}
use hibiki.Domain.Execution.{
  Tool, Ceiling, has_tool, in_catalog, requested, normalize_ceiling_tools,
}
use hibiki.Domain.Execution.Laws.{normalize_ceiling_tools_iff}
use hibiki.Domain.Guards.{SendRequest}
use hibiki.Domain.Plan.{
  PlanNode, PlanEdge, validate_dag, visit_all, dfs, fresh, out_of_fuel, adj, mem,
}
use hibiki.Domain.Plan.Cycles.{search_has_fuel}
use hibiki.Domain.Plan.Valid.{IsValidPlan, validate_dag_iff}
use hibiki.Domain.Transitions.{RunEvent, SideEffectEvent}
use hibiki.Domain.Transitions.Laws.{sent_was_authorized, includes, is_authorizing, is_claim}
use hibiki.Domain.Types.{AuthContext}
use hibiki.Tools.Paths.{validate, split, keep_named, parts, Text, any_dot_dot}
use hibiki.Tools.Paths.Laws.{AllSafe, validate-AllSafe, validate-join, join}
use hibiki.Tests.Data.{auth_of}

abbrev two_nodes : List PlanNode
two_nodes =
    record { work_unit_id = 1; spec_version = 1 }
    ∷ record { work_unit_id = 2; spec_version = 1 }
    ∷ []

abbrev one_edge : List PlanEdge
one_edge =
    record {
      from_work_unit_id = 1;
      to_work_unit_id = 2;
      predicate = DependencyPredicate.verdict_pass;
      artifact_hash = some 9;
    }
    ∷ []

validate_dag_iff_example :
    (validate_dag two_nodes one_edge true ≡ ok tt)
    ↔ (IsValidPlan two_nodes one_edge × (true ≡ true))
validate_dag_iff_example = validate_dag_iff two_nodes one_edge true

abbrev request : SendRequest
request = record {
  task_state = TaskState.executing;
  cancel_intent = false;
  pause_intent = false;
  has_blocking_gate = false;
  has_active_contract = true;
  effect_contract_version = some 1;
  active_contract_version = some 1;
  approval_expired = false;
  effect_state = SideEffectState.authorized;
  allowed_states = λ _. true;
}

abbrev user_agent : AuthContext
user_agent = auth_of ActorType.user_agent

abbrev approved_and_sent : List SideEffectEvent
approved_and_sent =
    SideEffectEvent.preauthorize ∷ SideEffectEvent.claim_dispatch ∷ SideEffectEvent.succeed ∷ []

sent_was_authorized_example :
    (includes is_authorizing approved_and_sent ≡ true)
    × (includes is_claim approved_and_sent ≡ true)
sent_was_authorized_example =
    sent_was_authorized SideEffectState.succeeded approved_and_sent refl refl

abbrev started_and_lost : List RunEvent
started_and_lost = RunEvent.start ∷ RunEvent.lost ∷ []

abbrev shell_and_other : Ceiling
shell_and_other = Ceiling.names (Tool.shell_run ∷ Tool.other "net.fetch" ∷ [])

abbrev src_main : Text
src_main = b's' ∷ b'r' ∷ b'c' ∷ b'/' ∷ b'm' ∷ []

abbrev src_main_parts : List Text
src_main_parts = (b's' ∷ b'r' ∷ b'c' ∷ []) ∷ (b'm' ∷ []) ∷ []

abbrev never : Text → Bool
never _ = false

normalize_ceiling_tools_iff_example :
    ((has_tool Tool.shell_run (normalize_ceiling_tools shell_and_other).0 ≡ true) ↔ (
      (Tool.shell_run ≡ Tool.fs_read)
      ⊎ (in_catalog Tool.shell_run ≡ true)
        × (has_tool Tool.shell_run (requested shell_and_other) ≡ true)))
    × ((has_tool Tool.shell_run (normalize_ceiling_tools shell_and_other).1 ≡ true) ↔ (
        (in_catalog Tool.shell_run ≡ false)
        × (has_tool Tool.shell_run (requested shell_and_other) ≡ true)))
normalize_ceiling_tools_iff_example = normalize_ceiling_tools_iff Tool.shell_run shell_and_other

validate-AllSafe_example :
    AllSafe src_main_parts × (any_dot_dot src_main_parts ≡ false) × (src_main_parts ≢ [])
unfolding validate split keep_named
validate-AllSafe_example = validate-AllSafe never never src_main src_main_parts refl

src_main_parts-AllSafe : AllSafe src_main_parts
src_main_parts-AllSafe = (
  record { named = refl; not_here = refl; not_up = refl; one_level = refl; no_nul = refl },
  (record { named = refl; not_here = refl; not_up = refl; one_level = refl; no_nul = refl }, tt),
)

validate-join_example : validate never never (join src_main_parts) ≡ parts src_main_parts
unfolding join
validate-join_example =
    validate-join never never (b's' ∷ b'r' ∷ b'c' ∷ []) ((b'm' ∷ []) ∷ []) src_main_parts-AllSafe
      refl refl

edges_stay_inside : (u v : ℕ) → mem v (adj one_edge u) ≡ true → mem v (1 ∷ 2 ∷ []) ≡ true
edges_stay_inside u v h = ground arith

search_has_fuel_example : visit_all (dfs (adj one_edge) 3) (1 ∷ 2 ∷ []) fresh ≢ out_of_fuel
search_has_fuel_example = search_has_fuel (adj one_edge) (1 ∷ 2 ∷ []) edges_stay_inside
