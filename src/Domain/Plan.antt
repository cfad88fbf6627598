-- ===== src/Domain/Plan.antt =====
-- src/hibiki/domain/plan.py: the checks that a plan graph passes before it is stored. A Python set
-- is a list here, read only through `mem`. `dfs` takes fuel; `Plan.Cycles` shows that the number of
-- nodes and one more is enough.
pub mod Dfs
pub mod Cycles
pub mod Valid
use hibiki.Prelude.{
  ℕ, zero, suc, Bool, true, false, not, ◌&&◌, ◌||◌, Option, none, some, List, [], ◌∷◌, ◌==◌,
  if◌then◌else◌, is_some, map,
}
use hibiki.Domain.Enums.{DependencyPredicate}
use hibiki.Domain.Errors.{Result, ok, err, raise, raise_if, ErrorClass, Code, ◌>>=◌, ◌>>◌}

pub record PlanNode : Type 0 where
  pub work_unit_id : ℕ
  pub spec_version : ℕ

-- `artifact_hash` is `none` for None and for the empty string, which Python's `not` treats alike.
pub record PlanEdge : Type 0 where
  pub from_work_unit_id : ℕ
  pub to_work_unit_id : ℕ
  pub predicate : DependencyPredicate
  pub artifact_hash : Option ℕ

abbrev pub mem : ℕ → List ℕ → Bool
mem k [] = false
mem k (j ∷ xs) = j == k || mem k xs

abbrev pub length {ℓ} : {A : Type ℓ} → List A → ℕ
length [] = 0
length (_ ∷ xs) = suc (length xs)

-- `visiting.remove(u)`
abbrev pub discard : ℕ → List ℕ → List ℕ
discard k [] = []
discard k (j ∷ xs) = let rest = discard k xs in if j == k then rest else j ∷ rest

-- `len(ids) != len(set(ids))`
abbrev pub has_duplicate : List ℕ → Bool
has_duplicate [] = false
has_duplicate (j ∷ xs) = mem j xs || has_duplicate xs

abbrev pub node_ids : List PlanNode → List ℕ
node_ids = map (λ n. n.work_unit_id)

abbrev pub is_empty {ℓ} : {A : Type ℓ} → List A → Bool
is_empty [] = true
is_empty (_ ∷ _) = false

abbrev pub is_verdict_pass : DependencyPredicate → Bool
is_verdict_pass DependencyPredicate.verdict_pass = true
is_verdict_pass _ = false

-- The body of the loop over the edges.
abbrev pub check_edge : List ℕ → PlanEdge → Result (Unit {0})
check_edge ids e = do
  raise_if (not (mem e.from_work_unit_id ids) || not (mem e.to_work_unit_id ids))
      ErrorClass.precondition Code.plan_dangling_edge
  raise_if (is_verdict_pass e.predicate && not (is_some e.artifact_hash)) ErrorClass.precondition
      Code.plan_missing_artifact_hash

pub check_edges : List ℕ → List PlanEdge → Result (Unit {0})
check_edges ids [] = ok tt
check_edges ids (e ∷ es) = check_edge ids e >> check_edges ids es

-- `adj[u]`, in the order of the edges.
abbrev pub adj : List PlanEdge → ℕ → List ℕ
adj [] u = []
adj (e ∷ es) u =
    let rest = adj es u in if e.from_work_unit_id == u then e.to_work_unit_id ∷ rest else rest

pub record Visit : Type 0 where
  pub visiting : List ℕ
  pub visited : List ℕ

pub data Outcome : Type 0 where
  done : Visit → Outcome
  cycle out_of_fuel : Outcome

abbrev pub then_do : Outcome → (Visit → Outcome) → Outcome
then_do (done s) k = k s
then_do cycle k = cycle
then_do out_of_fuel k = out_of_fuel

-- `for v in ...: dfs(v)`
pub visit_all : (ℕ → Visit → Outcome) → List ℕ → Visit → Outcome
visit_all step [] s = done s
visit_all step (v ∷ vs) s = then_do (step v s) (λ s'. visit_all step vs s')

abbrev pub enter : ℕ → Visit → Visit
enter u s = record s { visiting = u ∷ s.visiting }

abbrev pub leave : ℕ → Visit → Visit
leave u s = record { visiting = discard u s.visiting; visited = u ∷ s.visited }

pub dfs : (ℕ → List ℕ) → ℕ → ℕ → Visit → Outcome
dfs neighbours zero u s = out_of_fuel
dfs neighbours (suc fuel) u s = elim (mem u s.visiting) [
  | true ↦ cycle
  | false ↦ elim (mem u s.visited) [
    | true ↦ done s
    | false ↦
        then_do (visit_all (dfs neighbours fuel) (neighbours u) (enter u s))
          (λ s'. done (leave u s'))
  ]
]

abbrev pub fresh : Visit
fresh = record { visiting = []; visited = [] }

-- An exhausted `dfs` has no counterpart in the code: `Plan.Cycles.search_has_fuel` excludes it.
abbrev pub cycle_check : Outcome → Result (Unit {0})
cycle_check (done _) = ok tt
cycle_check cycle = raise ErrorClass.precondition Code.plan_cycle
cycle_check out_of_fuel = raise ErrorClass.precondition Code.plan_cycle

pub search_cycle : List ℕ → List PlanEdge → Outcome
unfolding visit_all dfs
search_cycle ids edges = visit_all (dfs (adj edges) (suc (length ids))) ids fresh

pub validate_dag : List PlanNode → List PlanEdge → Bool → Result (Unit {0})
unfolding check_edges search_cycle
validate_dag nodes edges permission_ok = do
  raise_if (is_empty nodes) ErrorClass.precondition Code.plan_empty
  raise_if (has_duplicate (node_ids nodes)) ErrorClass.precondition Code.plan_duplicate_node
  check_edges (node_ids nodes) edges
  cycle_check (search_cycle (node_ids nodes) edges)
  raise_if (not permission_ok) ErrorClass.precondition Code.plan_permission
