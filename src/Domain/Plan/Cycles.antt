-- ===== src/Domain/Plan/Cycles.antt =====
-- The depth-first search of `validate_dag`: a cycle that it reports is one, and its fuel suffices.
use hibiki.Prelude.{
  ℕ, zero, suc, ◌≤◌, ◌<◌, ◌≡◌, ◌≢◌, inl, inr, true, false, List, [], ◌∷◌, arith, ◌==◌,
  if◌then◌else◌, Bool-cases,
}
use hibiki.Domain.Plan.{
  mem, length, Visit, Outcome, cycle, out_of_fuel, then_do, visit_all, enter, dfs, fresh,
}
use hibiki.Domain.Plan.Dfs.{Outcome-cases, AllIn, Walk, one, more, Restores, dfs-Restores}

-- How many of the ids are not being visited.
abbrev unentered : List ℕ → List ℕ → ℕ
unentered [] vs = 0
unentered (x ∷ xs) vs = let rest = unentered xs vs in if mem x vs then rest else suc rest

unentered-cons_le : (u : ℕ) (ids vs : List ℕ) → unentered ids (u ∷ vs) ≤ unentered ids vs
unentered-cons_le u [] vs = omega arith
unentered-cons_le u (x ∷ xs) vs = ground (arith, unentered-cons_le u xs vs)

unentered-cons_lt :
    (u : ℕ) (ids vs : List ℕ)
    → mem u ids ≡ true
    → mem u vs ≡ false
    → unentered ids (u ∷ vs) < unentered ids vs
unentered-cons_lt u [] vs m f = absurd (cc)
unentered-cons_lt u (x ∷ xs) vs m f =
    ground (arith, unentered-cons_le u xs vs, unentered-cons_lt u xs vs)

unentered-nil : (ids : List ℕ) → unentered ids [] ≤ length ids
unentered-nil [] = omega arith
unentered-nil (x ∷ xs) = ground (arith, unentered-nil xs)

module _ (neighbours : ℕ → List ℕ) where
  -- Every node that is being visited leads to `u`.
  abbrev LeadsTo : List ℕ → ℕ → Type 0
  LeadsTo visiting u = (x : ℕ) → mem x visiting ≡ true → Walk neighbours x u

  abbrev Cycle : Type 0
  Cycle = (x : ℕ) × Walk neighbours x x

  abbrev Reports : (ℕ → Visit → Outcome) → Type 0
  Reports step = (u : ℕ) (s : Visit) → LeadsTo s.visiting u → step u s ≡ cycle → Cycle

  visit_all-Reports :
      (step : ℕ → Visit → Outcome)
      → Restores neighbours step
      → Reports step
      → (vs : List ℕ) (s : Visit) → ((v : ℕ) → mem v vs ≡ true → LeadsTo s.visiting v)
      → visit_all step vs s ≡ cycle
      → Cycle
  unfolding visit_all
  visit_all-Reports step r h [] s l e = absurd (cc)
  visit_all-Reports step r h (v ∷ vs) s l e = elim (Outcome-cases (step v s)) [
    | inl (t, p) ↦
        visit_all-Reports step r h vs t (λ w m. rw (r v s t p) (l w (ground arith)))
          (rw (p, then_do) at e)
    | inr (inl p) ↦ h v s (l v (ground arith)) p
    | inr (inr p) ↦ absurd (ground arith)
  ]

  leads_on :
      (u : ℕ) (visiting : List ℕ)
      → LeadsTo visiting u
      → (v : ℕ) → mem v (neighbours u) ≡ true
      → LeadsTo (u ∷ visiting) v
  leads_on u visiting l v e x m = elim (Bool-cases (u == x)) [
    | inl same ↦ let here : u ≡ x = ground arith in rw (← here) (one e)
    | inr other ↦ more (l x (ground arith)) e
  ]

  dfs-Reports : (fuel : ℕ) → Reports (dfs neighbours fuel)
  unfolding dfs
  dfs-Reports zero u s l e = absurd (cc)
  dfs-Reports (suc fuel) u s l e = elim (Bool-cases (mem u s.visiting)) [
    | inl m ↦ (u, l u m)
    | inr m ↦ elim (Bool-cases (mem u s.visited)) [
      | inl k ↦ absurd (ground arith)
      | inr k ↦
          visit_all-Reports (dfs neighbours fuel) (dfs-Restores neighbours fuel) (dfs-Reports fuel)
            (neighbours u) (enter u s) (leads_on u s.visiting l)
            (elim (Outcome-cases (visit_all (dfs neighbours fuel) (neighbours u) (enter u s))) [
              | inl (t, p) ↦ absurd (ground arith)
              | inr (inl p) ↦ p
              | inr (inr p) ↦ absurd (ground arith)
            ])
    ]
  ]

  -- A cycle that the search reports is a closed walk.
  pub search_reports :
      (fuel : ℕ) (vs : List ℕ) → visit_all (dfs neighbours fuel) vs fresh ≡ cycle → Cycle
  search_reports fuel vs e =
      visit_all-Reports (dfs neighbours fuel) (dfs-Restores neighbours fuel) (dfs-Reports fuel) vs
        fresh (λ v m x n. absurd (cc)) e

  module _ (ids : List ℕ) (closed : (u : ℕ) → AllIn (neighbours u) ids) where
    abbrev HasFuel : ℕ → (ℕ → Visit → Outcome) → Type 0
    HasFuel bound step =
        (u : ℕ) (s : Visit)
        → mem u ids ≡ true
        → unentered ids s.visiting < bound
        → step u s ≢ out_of_fuel

    visit_all-HasFuel :
        (bound : ℕ) (step : ℕ → Visit → Outcome)
        → Restores neighbours step
        → HasFuel bound step
        → (vs : List ℕ) (s : Visit) → AllIn vs ids
        → unentered ids s.visiting < bound
        → visit_all step vs s ≢ out_of_fuel
    unfolding visit_all
    visit_all-HasFuel bound step r h [] s i b e = cc
    visit_all-HasFuel bound step r h (v ∷ vs) s i b e = elim (Outcome-cases (step v s)) [
      | inl (t, p) ↦
          visit_all-HasFuel bound step r h vs t (λ w m. i w (ground arith)) (rw (r v s t p) b)
            (rw (p, then_do) at e)
      | inr (inl p) ↦ ground arith
      | inr (inr p) ↦ h v s (i v (ground arith)) b p
    ]

    dfs-HasFuel : (fuel : ℕ) → HasFuel fuel (dfs neighbours fuel)
    unfolding dfs
    dfs-HasFuel zero u s m b e = omega arith
    dfs-HasFuel (suc fuel) u s m b e = elim (Bool-cases (mem u s.visiting)) [
      | inl n ↦ ground arith
      | inr n ↦ elim (Bool-cases (mem u s.visited)) [
        | inl k ↦ ground arith
        | inr k ↦
            visit_all-HasFuel fuel (dfs neighbours fuel) (dfs-Restores neighbours fuel)
              (dfs-HasFuel fuel) (neighbours u) (enter u s) (closed u)
              (omega (arith, unentered-cons_lt u ids s.visiting m n))
              (elim (Outcome-cases (visit_all (dfs neighbours fuel) (neighbours u) (enter u s))) [
                | inl (t, p) ↦ absurd (ground arith)
                | inr (inl p) ↦ absurd (ground arith)
                | inr (inr p) ↦ p
              ])
      ]
    ]

    -- With one unit of fuel more than there are nodes the search ends.
    pub search_has_fuel : visit_all (dfs neighbours (suc (length ids))) ids fresh ≢ out_of_fuel
    search_has_fuel =
        visit_all-HasFuel (suc (length ids)) (dfs neighbours (suc (length ids)))
          (dfs-Restores neighbours (suc (length ids))) (dfs-HasFuel (suc (length ids))) ids fresh
          (λ v m. m) (omega (arith, unentered-nil ids))
