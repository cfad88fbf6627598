-- ===== src/Domain/Execution.antt =====
-- src/hibiki/domain/execution.py: the tools that a Contract ceiling grants to a worker.
pub mod Laws
use hibiki.Prelude.{
  Bool, true, false, not, ◌||◌, Option, none, some, List, [], ◌∷◌, ◌++◌, String, str_eq,
  if◌then◌else◌,
}

-- M1_TOOL_CATALOG, and `other` for any name that is not in it.
pub data Tool : Type 0 where
  fs_read fs_write fs_list shell_run artifact_publish : Tool
  other : String → Tool

abbrev pub in_catalog : Tool → Bool
in_catalog (Tool.other _) = false
in_catalog _ = true

-- `==` on tool names.
abbrev pub eq_tool : Tool → Tool → Bool
eq_tool Tool.fs_read Tool.fs_read = true
eq_tool Tool.fs_write Tool.fs_write = true
eq_tool Tool.fs_list Tool.fs_list = true
eq_tool Tool.shell_run Tool.shell_run = true
eq_tool Tool.artifact_publish Tool.artifact_publish = true
eq_tool (Tool.other a) (Tool.other b) = str_eq a b
eq_tool _ _ = false

abbrev pub has_tool : Tool → List Tool → Bool
has_tool t [] = false
has_tool t (u ∷ us) = eq_tool u t || has_tool t us

-- The forms of a permission ceiling: None, a dict with or without "tools", a list, a string, and
-- any other value.
pub data Ceiling : Type 0 where
  missing : Ceiling
  dict : Option (List Tool) → Ceiling
  names : List Tool → Ceiling
  name : Tool → Ceiling
  junk : Ceiling

abbrev pub requested : Ceiling → List Tool
requested Ceiling.missing = []
requested (Ceiling.dict none) = []
requested (Ceiling.dict (some ts)) = ts
requested (Ceiling.names ts) = ts
requested (Ceiling.name t) = t ∷ []
requested Ceiling.junk = []

-- One round of the loop over the requested names, on (granted, unknown).
abbrev pub sort_tool : Tool → List Tool × List Tool → List Tool × List Tool
sort_tool tool (granted, unknown) =
    if in_catalog tool
    then if has_tool tool granted then (granted, unknown) else (granted ++ (tool ∷ []), unknown)
    else (granted, unknown ++ (tool ∷ []))

unfoldable pub sort_tools : List Tool → List Tool × List Tool → List Tool × List Tool
sort_tools [] acc = acc
sort_tools (t ∷ ts) acc = sort_tools ts (sort_tool t acc)

-- Reads are always granted.
abbrev pub with_read : List Tool → List Tool
with_read granted = if has_tool Tool.fs_read granted then granted else Tool.fs_read ∷ granted

unfoldable pub normalize_ceiling_tools : Ceiling → List Tool × List Tool
unfolding sort_tools
normalize_ceiling_tools ceiling =
    let (granted, unknown) = sort_tools (requested ceiling) ([], []) in (with_read granted, unknown)
