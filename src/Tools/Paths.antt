-- ===== src/Tools/Paths.antt =====
-- src/hibiki/tools/paths.py: `WorkspacePaths._validate`, on the code points of a path. `is_abs` and
-- `has_drive` stand for os.path.isabs and for the truth of ntpath.splitdrive(relative)[0], which
-- are the standard library's.
pub mod Laws
use hibiki.Prelude.{
  ℕ, Bool, true, false, not, ◌&&◌, ◌||◌, Option, none, some, List, [], ◌∷◌, ◌==◌, if◌then◌else◌,
}

abbrev pub Text : Type 0
Text = List ℕ

abbrev pub slash : ℕ
slash = b'/'

abbrev pub dot : ℕ
dot = b'.'

abbrev pub backslash : ℕ
backslash = 92

-- The PathSafetyError messages, in the order of the tests.
pub data Refusal : Type 0 where
  has_nul empty absolute_or_drive absolute has_dot_dot names_nothing : Refusal

pub data Validated : Type 0 where
  parts : List Text → Validated
  refused : Refusal → Validated

abbrev pub has_char : ℕ → Text → Bool
has_char c [] = false
has_char c (d ∷ s) = d == c || has_char c s

abbrev pub is_empty_text : Text → Bool
is_empty_text [] = true
is_empty_text (_ ∷ _) = false

abbrev pub is_dot : Text → Bool
is_dot (c ∷ []) = c == dot
is_dot _ = false

abbrev pub is_dot_dot : Text → Bool
is_dot_dot (c ∷ d ∷ []) = c == dot && d == dot
is_dot_dot _ = false

-- `relative[0] in "/\\"`
abbrev pub starts_absolute : Text → Bool
starts_absolute [] = false
starts_absolute (c ∷ _) = c == slash || c == backslash

abbrev pub prepend : ℕ → List Text → List Text
prepend c [] = (c ∷ []) ∷ []
prepend c (p ∷ ps) = (c ∷ p) ∷ ps

-- `relative.split("/")`, which has at least one part.
unfoldable pub split : Text → List Text
split [] = [] ∷ []
split (c ∷ s) = let rest = split s in if c == slash then [] ∷ rest else prepend c rest

-- `[part for part in ... if part not in ("", ".")]`
unfoldable pub keep_named : List Text → List Text
keep_named [] = []
keep_named (p ∷ ps) =
    let rest = keep_named ps in if is_empty_text p || is_dot p then rest else p ∷ rest

abbrev pub any_dot_dot : List Text → Bool
any_dot_dot [] = false
any_dot_dot (p ∷ ps) = is_dot_dot p || any_dot_dot ps

abbrev pub refuse_empty : List Text → Validated
refuse_empty [] = refused Refusal.names_nothing
refuse_empty (p ∷ ps) = parts (p ∷ ps)

module _ (is_abs has_drive : Text → Bool) where
  unfoldable pub validate : Text → Validated
  unfolding split keep_named
  validate relative =
      if has_char 0 relative
      then refused Refusal.has_nul
      else if is_empty_text relative
      then refused Refusal.empty
      else if is_abs relative || has_drive relative
      then refused Refusal.absolute_or_drive
      else if starts_absolute relative
      then refused Refusal.absolute
      else let named = keep_named (split relative) in
        if any_dot_dot named then refused Refusal.has_dot_dot else refuse_empty named
