-- ===== src/Domain/Plan/Valid.antt =====
-- What `validate_dag` accepts.
use hibiki.Prelude.{
  ℕ, suc, ◌≡◌, refl, ◌↔◌, ◌⊎◌, inl, inr, Bool, true, false, List, [], ◌∷◌, arith, is_some,
}
use hibiki.Domain.Errors.{ok}
use hibiki.Domain.Plan.{
  PlanNode, PlanEdge, mem, has_duplicate, node_ids, length, is_empty, is_verdict_pass, check_edges,
  adj, search_cycle, cycle_check, validate_dag,
}
use hibiki.Domain.Plan.Dfs.{Outcome-cases, AllIn, Walk, one, more, search_finds, ordered_acyclic}
use hibiki.Domain.Plan.Cycles.{search_reports, search_has_fuel}

-- Both ends are nodes, and a VERDICT_PASS edge names the artifact that it verifies.
pub record IsSound (ids : List ℕ) (e : PlanEdge) : Type 0 where
  pub starts : mem e.from_work_unit_id ids ≡ true
  pub ends : mem e.to_work_unit_id ids ≡ true
  pub hashed : (is_verdict_pass e.predicate ≡ false) ⊎ (is_some e.artifact_hash ≡ true)

abbrev pub AllSound : List ℕ → List PlanEdge → Type 0
AllSound ids [] = Unit
AllSound ids (e ∷ es) = IsSound ids e × AllSound ids es

pub record IsValidPlan (nodes : List PlanNode) (edges : List PlanEdge) : Type 0 where
  pub inhabited : is_empty nodes ≡ false
  pub distinct : has_duplicate (node_ids nodes) ≡ false
  pub sound : AllSound (node_ids nodes) edges
  pub acyclic : (u : ℕ) → ¬ Walk (adj edges) u u

check_edges_sound :
    (ids : List ℕ) (es : List PlanEdge) → check_edges ids es ≡ ok tt → AllSound ids es
unfolding check_edges
check_edges_sound ids [] h = tt
check_edges_sound ids (e ∷ es) h = (ground arith, check_edges_sound ids es (ground arith))

check_edges_complete :
    (ids : List ℕ) (es : List PlanEdge) → AllSound ids es → check_edges ids es ≡ ok tt
unfolding check_edges
check_edges_complete ids [] h = refl
check_edges_complete ids (e ∷ es) h = ground (arith, check_edges_complete ids es h.1)

adj-closed : (ids : List ℕ) (es : List PlanEdge) → AllSound ids es → (u : ℕ) → AllIn (adj es u) ids
adj-closed ids [] h u v m = absurd (cc)
adj-closed ids (e ∷ es) h u v m = ground (arith, adj-closed ids es h.1 u v)

adj-starts :
    (ids : List ℕ) (es : List PlanEdge)
    → AllSound ids es
    → (u v : ℕ) → mem v (adj es u) ≡ true
    → mem u ids ≡ true
adj-starts ids [] h u v m = absurd (cc)
adj-starts ids (e ∷ es) h u v m = ground (arith, adj-starts ids es h.1 u v)

Walk-starts :
    (ids : List ℕ) (es : List PlanEdge)
    → AllSound ids es
    → (u v : ℕ) → Walk (adj es) u v
    → mem u ids ≡ true
Walk-starts ids es h u v (one {v = w} e) = adj-starts ids es h u w e
Walk-starts ids es h u v (more {v = w} p e) = Walk-starts ids es h u w p

search-acyclic :
    (ids : List ℕ) (es : List PlanEdge)
    → AllSound ids es
    → (cycle_check (search_cycle ids es) ≡ ok tt)
    → (u : ℕ) → ¬ Walk (adj es) u u
unfolding search_cycle
search-acyclic ids es h e u p = elim (Outcome-cases (search_cycle ids es)) [
  | inl (s, q) ↦
      let (ordered, all) = search_finds (adj es) (suc (length ids)) ids s q in
      ordered_acyclic (adj es) u s.visited ordered (all u (Walk-starts ids es h u u p)) p
  | inr (inl q) ↦ ground arith
  | inr (inr q) ↦ ground arith
]

acyclic-search :
    (ids : List ℕ) (es : List PlanEdge)
    → AllSound ids es
    → ((u : ℕ) → ¬ Walk (adj es) u u)
    → cycle_check (search_cycle ids es) ≡ ok tt
unfolding search_cycle
acyclic-search ids es h a = elim (Outcome-cases (search_cycle ids es)) [
  | inl (s, q) ↦ rw q refl
  | inr (inl q) ↦ let (u, p) = search_reports (adj es) (suc (length ids)) ids q in absurd (a u p)
  | inr (inr q) ↦ absurd (search_has_fuel (adj es) ids (adj-closed ids es h) q)
]

-- `validate_dag` accepts a plan exactly when it has a node, no node twice, only edges between its
-- nodes, an artifact hash on every VERDICT_PASS edge, no cycle, and permission.
pub validate_dag_iff :
    (nodes : List PlanNode) (edges : List PlanEdge) (permission_ok : Bool)
    → (validate_dag nodes edges permission_ok ≡ ok tt)
      ↔ (IsValidPlan nodes edges × (permission_ok ≡ true))
unfolding validate_dag
validate_dag_iff nodes edges permission_ok = (
  λ h.
      let ids = node_ids nodes in
      let sound = check_edges_sound ids edges (ground arith) in
      (
        record {
          inhabited = ground arith;
          distinct = ground arith;
          sound = sound;
          acyclic = search-acyclic ids edges sound (ground arith);
        },
        ground arith,
      ),
  λ (v, p). ground (
    arith,
    check_edges_complete (node_ids nodes) edges v.sound,
    acyclic-search (node_ids nodes) edges v.sound v.acyclic,
  ),
)
