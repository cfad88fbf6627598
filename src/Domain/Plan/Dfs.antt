-- ===== src/Domain/Plan/Dfs.antt =====
-- The depth-first search of `validate_dag`: a finished search orders the nodes so that every edge
-- goes backwards.
use hibiki.Prelude.{
  ℕ, zero, suc, ◌≤◌, ◌<◌, ◌≡◌, refl, ◌⊎◌, ◌∙◌, inl, inr, true, false, List, [], ◌∷◌, arith, ◌==◌,
  if◌then◌else◌, Bool-cases,
}
use hibiki.Domain.Plan.{
  mem, length, discard, Visit, Outcome, done, cycle, out_of_fuel, then_do, visit_all, enter, leave,
  dfs, fresh,
}

pub Outcome-cases : (o : Outcome) → ((s : Visit) × (o ≡ done s)) ⊎ ((o ≡ cycle) ⊎ (o ≡ out_of_fuel))
Outcome-cases (done s) = inl (s, refl)
Outcome-cases cycle = inr (inl refl)
Outcome-cases out_of_fuel = inr (inr refl)

done-injective : (s t : Visit) → done s ≡ done t → s ≡ t
done-injective s t e = cc

discard_fresh : (k : ℕ) (xs : List ℕ) → mem k xs ≡ false → discard k xs ≡ xs
discard_fresh k [] h = refl
discard_fresh k (j ∷ xs) h = ground (arith, discard_fresh k xs)

abbrev pub AllIn : List ℕ → List ℕ → Type 0
AllIn vs xs = (v : ℕ) → mem v vs ≡ true → mem v xs ≡ true

-- The walks of at least one edge.
pub data Walk (neighbours : ℕ → List ℕ) (u : ℕ) : ℕ → Type 0 where
  one : {v : ℕ} → mem v (neighbours u) ≡ true → Walk neighbours u v
  more : {v w : ℕ} → Walk neighbours u v → mem w (neighbours v) ≡ true → Walk neighbours u w

-- Every neighbour of a node of the list stands further down the list.
abbrev pub IsOrdered : (ℕ → List ℕ) → List ℕ → Type 0
IsOrdered neighbours [] = Unit
IsOrdered neighbours (x ∷ xs) = AllIn (neighbours x) xs × IsOrdered neighbours xs

-- How far from the end the last occurrence stands.
rank : ℕ → List ℕ → ℕ
rank u [] = 0
rank u (x ∷ xs) =
    let rest = rank u xs in if mem u xs then rest else if x == u then suc (length xs) else 0

rank-le-length : (u : ℕ) (xs : List ℕ) → rank u xs ≤ length xs
unfolding rank
rank-le-length u [] = omega arith
rank-le-length u (x ∷ xs) = ground (arith, rank-le-length u xs)

module _ (neighbours : ℕ → List ℕ) where
  ordered_edge :
      (u v : ℕ) (xs : List ℕ)
      → IsOrdered neighbours xs
      → mem u xs ≡ true
      → mem v (neighbours u) ≡ true
      → (mem v xs ≡ true) × (rank v xs < rank u xs)
  unfolding rank
  ordered_edge u v [] o m e = absurd (cc)
  ordered_edge u v (x ∷ xs) o m e = elim (Bool-cases (mem u xs)) [
    | inl deep ↦ ground (arith, ordered_edge u v xs o.1 deep e)
    | inr shallow ↦
        let at_x : x ≡ u = ground arith in
        let below = o.0 v (rw at_x e) in ground (arith, rank-le-length v xs)
  ]

  ordered-Walk :
      (u v : ℕ) (xs : List ℕ)
      → IsOrdered neighbours xs
      → mem u xs ≡ true
      → Walk neighbours u v
      → (mem v xs ≡ true) × (rank v xs < rank u xs)
  ordered-Walk u v xs o m (one e) = ordered_edge u v xs o m e
  ordered-Walk u v xs o m (more {v = w} p e) =
      let (m', lt) = ordered-Walk u w xs o m p in
      let (m'', lt') = ordered_edge w v xs o m' e in (m'', omega arith)

  -- An ordered list holds no node of a cycle.
  pub ordered_acyclic :
      (u : ℕ) (xs : List ℕ) → IsOrdered neighbours xs → mem u xs ≡ true → ¬ Walk neighbours u u
  ordered_acyclic u xs o m p = absurd (omega (arith, (ordered-Walk u u xs o m p).1))

  -- What a search leaves as it was.
  abbrev pub Restores : (ℕ → Visit → Outcome) → Type 0
  Restores step = (u : ℕ) (s s' : Visit) → step u s ≡ done s' → s'.visiting ≡ s.visiting

  pub visit_all-Restores :
      (step : ℕ → Visit → Outcome)
      → Restores step
      → (vs : List ℕ) (s s' : Visit) → visit_all step vs s ≡ done s'
      → s'.visiting ≡ s.visiting
  unfolding visit_all
  visit_all-Restores step h [] s s' e = cc
  visit_all-Restores step h (v ∷ vs) s s' e = elim (Outcome-cases (step v s)) [
    | inl (t, p) ↦ visit_all-Restores step h vs t s' (rw (p, then_do) at e) ∙ h v s t p
    | inr (inl p) ↦ ground arith
    | inr (inr p) ↦ ground arith
  ]

  pub dfs-Restores : (fuel : ℕ) → Restores (dfs neighbours fuel)
  unfolding dfs
  dfs-Restores zero u s s' e = absurd (cc)
  dfs-Restores (suc fuel) u s s' e = elim (Bool-cases (mem u s.visiting)) [
    | inl m ↦ ground arith
    | inr m ↦ elim (Bool-cases (mem u s.visited)) [
      | inl k ↦ ground arith
      | inr k ↦ elim (Outcome-cases (visit_all (dfs neighbours fuel) (neighbours u) (enter u s))) [
        | inl (t, p) ↦ ground (
          arith,
          visit_all-Restores (dfs neighbours fuel) (dfs-Restores fuel) (neighbours u) (enter u s) t
              p,
          discard_fresh u s.visiting,
        )
        | inr (inl p) ↦ ground arith
        | inr (inr p) ↦ ground arith
      ]
    ]
  ]

  -- What a finished search has added.
  record Finished (s s' : Visit) : Type 0 where
    ordered : IsOrdered neighbours s'.visited
    grown : AllIn s.visited s'.visited

  abbrev Finds : (ℕ → Visit → Outcome) → Type 0
  Finds step =
      (u : ℕ) (s s' : Visit)
      → IsOrdered neighbours s.visited
      → step u s ≡ done s'
      → Finished s s' × (mem u s'.visited ≡ true)

  visit_all-Finds :
      (step : ℕ → Visit → Outcome)
      → Finds step
      → (vs : List ℕ) (s s' : Visit) → IsOrdered neighbours s.visited
      → visit_all step vs s ≡ done s'
      → Finished s s' × AllIn vs s'.visited
  unfolding visit_all
  visit_all-Finds step h [] s s' o e =
      rw (← done-injective s s' e) (record { ordered = o; grown = λ v m. m }, λ v m. absurd (cc))
  visit_all-Finds step h (v ∷ vs) s s' o e = elim (Outcome-cases (step v s)) [
    | inl (t, p) ↦
        let (f, found) = h v s t o p in
        let (g, rest) = visit_all-Finds step h vs t s' f.ordered (rw (p, then_do) at e) in
        (
          record { ordered = g.ordered; grown = λ w m. g.grown w (f.grown w m) },
          λ w m. ground (arith, g.grown v found, rest w),
        )
    | inr (inl p) ↦ absurd (ground arith)
    | inr (inr p) ↦ absurd (ground arith)
  ]

  dfs-Finds : (fuel : ℕ) → Finds (dfs neighbours fuel)
  unfolding dfs
  dfs-Finds zero u s s' o e = absurd (cc)
  dfs-Finds (suc fuel) u s s' o e = elim (Bool-cases (mem u s.visiting)) [
    | inl m ↦ absurd (ground arith)
    | inr m ↦ elim (Bool-cases (mem u s.visited)) [
      | inl k ↦
          let same : s ≡ s' = ground arith in
          rw (← same) (record { ordered = o; grown = λ v h. h }, k)
      | inr k ↦ elim (Outcome-cases (visit_all (dfs neighbours fuel) (neighbours u) (enter u s))) [
        | inl (t, p) ↦
            let (f, all_found) =
              visit_all-Finds (dfs neighbours fuel) (dfs-Finds fuel) (neighbours u) (enter u s) t o
                p in
            let left : leave u t ≡ s' = ground arith in
            rw (← left) (
              record {
                ordered = (all_found, f.ordered);
                grown = λ v h. ground (arith, f.grown v h);
              },
              ground arith,
            )
        | inr (inl p) ↦ absurd (ground arith)
        | inr (inr p) ↦ absurd (ground arith)
      ]
    ]
  ]

  -- A finished search from every node of a list orders what it has visited, the list included.
  pub search_finds :
      (fuel : ℕ) (vs : List ℕ) (s : Visit)
      → visit_all (dfs neighbours fuel) vs fresh ≡ done s
      → IsOrdered neighbours s.visited × AllIn vs s.visited
  search_finds fuel vs s e =
      let (f, found) = visit_all-Finds (dfs neighbours fuel) (dfs-Finds fuel) vs fresh s tt e in
      (f.ordered, found)
