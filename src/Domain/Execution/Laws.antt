-- ===== src/Domain/Execution/Laws.antt =====
-- Which tools a ceiling grants and which it reports as unknown.
use hibiki.Prelude.{
  ap, ◌≡◌, ◌↔◌, ◌⊎◌, true, false, not, ◌||◌, ◌&&◌, List, [], ◌∷◌, ◌++◌, arith, eq_iff,
}
use hibiki.Domain.Execution.{
  Tool, in_catalog, eq_tool, has_tool, Ceiling, requested, sort_tool, sort_tools,
  normalize_ceiling_tools,
}

eq_tool_iff : (a b : Tool) → (eq_tool a b ≡ true) ↔ (a ≡ b)
eq_tool_iff (Tool.other a) (Tool.other b) = ground (arith, eq_iff a b)
eq_tool_iff Tool.fs_read b = ground arith
eq_tool_iff Tool.fs_write b = ground arith
eq_tool_iff Tool.fs_list b = ground arith
eq_tool_iff Tool.shell_run b = ground arith
eq_tool_iff Tool.artifact_publish b = ground arith
eq_tool_iff (Tool.other a) b = ground arith

has_tool-snoc :
    (t u : Tool) (us : List Tool) → has_tool t (us ++ (u ∷ [])) ≡ (has_tool t us || eq_tool u t)
has_tool-snoc t u [] = ground arith
has_tool-snoc t u (v ∷ us) = ground (arith, has_tool-snoc t u us)

-- A tool that is there is found under every name that equals its own.
has_tool-eq :
    (t x : Tool) (g : List Tool) → eq_tool x t ≡ true → has_tool x g ≡ true → has_tool t g ≡ true
has_tool-eq t x g e h = rw (← (eq_tool_iff x t).0 e) h

sort_tool-granted :
    (t x : Tool) (acc : List Tool × List Tool)
    → has_tool t (sort_tool x acc).0 ≡ (has_tool t acc.0 || (in_catalog x && eq_tool x t))
sort_tool-granted t x (g, u) = ground (arith, has_tool-snoc t x g, has_tool-eq t x g)

sort_tool-unknown :
    (t x : Tool) (acc : List Tool × List Tool)
    → has_tool t (sort_tool x acc).1 ≡ (has_tool t acc.1 || (not (in_catalog x) && eq_tool x t))
sort_tool-unknown t x (g, u) = ground (arith, has_tool-snoc t x u)

in_catalog-eq : (t x : Tool) → eq_tool x t ≡ true → in_catalog x ≡ in_catalog t
in_catalog-eq t x e = ap in_catalog ((eq_tool_iff x t).0 e)

sort_tools-granted :
    (t : Tool) (ts : List Tool) (acc : List Tool × List Tool)
    → has_tool t (sort_tools ts acc).0 ≡ (has_tool t acc.0 || (in_catalog t && has_tool t ts))
unfolding sort_tools
sort_tools-granted t [] acc = ground arith
sort_tools-granted t (x ∷ ts) acc =
    ground (
      arith,
      sort_tools-granted t ts (sort_tool x acc),
      sort_tool-granted t x acc,
      in_catalog-eq t x,
    )

sort_tools-unknown :
    (t : Tool) (ts : List Tool) (acc : List Tool × List Tool)
    → has_tool t (sort_tools ts acc).1 ≡ (has_tool t acc.1 || (not (in_catalog t) && has_tool t ts))
unfolding sort_tools
sort_tools-unknown t [] acc = ground arith
sort_tools-unknown t (x ∷ ts) acc =
    ground (
      arith,
      sort_tools-unknown t ts (sort_tool x acc),
      sort_tool-unknown t x acc,
      in_catalog-eq t x,
    )

-- A tool is granted exactly when it is fs.read or a catalog tool that the ceiling asks for, and
-- reported as unknown exactly when the ceiling asks for it and the catalog lacks it: nothing is
-- widened and nothing dropped in silence.
pub normalize_ceiling_tools_iff :
    (t : Tool) (c : Ceiling)
    → let (granted, unknown) = normalize_ceiling_tools c in
      ((has_tool t granted ≡ true)
        ↔ ((t ≡ Tool.fs_read) ⊎ (in_catalog t ≡ true) × (has_tool t (requested c) ≡ true)))
      × ((has_tool t unknown ≡ true) ↔ ((in_catalog t ≡ false) × (has_tool t (requested c) ≡ true)))
unfolding normalize_ceiling_tools
normalize_ceiling_tools_iff t c =
    let g = sort_tools-granted t (requested c) ([], []) in
    let r = sort_tools-granted Tool.fs_read (requested c) ([], []) in
    let u = sort_tools-unknown t (requested c) ([], []) in
    (ground (arith, g, r, eq_tool_iff Tool.fs_read t), ground (arith, u))
