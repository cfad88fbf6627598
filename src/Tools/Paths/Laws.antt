-- ===== src/Tools/Paths/Laws.antt =====
-- The components that `_validate` hands to the directory walk, and their round trip.
use hibiki.Prelude.{
  ℕ, ap, ◌∙◌, ◌≡◌, refl, inl, inr, Bool, false, ◌||◌, List, [], ◌∷◌, ◌++◌, arith, ◌==◌, Bool-cases,
}
use mathlib.Core.Logic.{◌≢◌}
use hibiki.Tools.Paths.{
  Text, slash, has_char, is_empty_text, is_dot, is_dot_dot, starts_absolute, prepend, split,
  keep_named, any_dot_dot, refuse_empty, validate, parts,
}

-- One component of a walk: it names an entry of the directory, never the directory or its parent.
pub record IsSafe (p : Text) : Type 0 where
  pub named : is_empty_text p ≡ false
  pub not_here : is_dot p ≡ false
  pub not_up : is_dot_dot p ≡ false
  pub one_level : has_char slash p ≡ false
  pub no_nul : has_char 0 p ≡ false

abbrev pub AllSafe : List Text → Type 0
AllSafe [] = Unit
AllSafe (p ∷ ps) = IsSafe p × AllSafe ps

abbrev IsPlain : List Text → Type 0
IsPlain [] = Unit
IsPlain (p ∷ ps) = (has_char slash p ≡ false) × (has_char 0 p ≡ false) × IsPlain ps

prepend-IsPlain :
    (c : ℕ) (ps : List Text)
    → (c == slash) ≡ false
    → (c == 0) ≡ false
    → IsPlain ps
    → IsPlain (prepend c ps)
prepend-IsPlain c [] h z p = ground arith
prepend-IsPlain c (q ∷ ps) h z p = ground arith

split-IsPlain : (s : Text) → has_char 0 s ≡ false → IsPlain (split s)
unfolding split
split-IsPlain [] h = (refl, refl, tt)
split-IsPlain (c ∷ s) h = elim (Bool-cases (c == slash)) [
  | inl e ↦ rw e (refl, refl, split-IsPlain s (ground arith))
  | inr e ↦ rw e (prepend-IsPlain c (split s) e (ground arith) (split-IsPlain s (ground arith)))
]

keep_named-AllSafe :
    (ps : List Text) → IsPlain ps → any_dot_dot (keep_named ps) ≡ false → AllSafe (keep_named ps)
unfolding keep_named
keep_named-AllSafe [] h d = tt
keep_named-AllSafe (p ∷ ps) h d = elim (Bool-cases (is_empty_text p || is_dot p)) [
  | inl e ↦ rw e (keep_named-AllSafe ps h.2 (rw e at d))
  | inr e ↦
      let d' : (is_dot_dot p || any_dot_dot (keep_named ps)) ≡ false = rw e at d in
      rw e (ground arith, keep_named-AllSafe ps h.2 (ground arith))
]

refuse_empty-parts :
    (named ps : List Text) → refuse_empty named ≡ parts ps → (named ≡ ps) × (ps ≢ [])
refuse_empty-parts [] ps e = absurd (cc)
refuse_empty-parts (p ∷ named) ps e = (cc, λ n. cc)

-- `"/".join(parts)`
unfoldable pub join : List Text → Text
join [] = []
join (p ∷ []) = p
join (p ∷ q ∷ ps) = p ++ (slash ∷ join (q ∷ ps))

split-append : (p s : Text) → has_char slash p ≡ false → split (p ++ (slash ∷ s)) ≡ p ∷ split s
unfolding split
split-append [] s h = refl
split-append (c ∷ p) s h = ground (arith, split-append p s)

split-plain : (p : Text) → has_char slash p ≡ false → split p ≡ p ∷ []
unfolding split
split-plain [] h = refl
split-plain (c ∷ p) h = ground (arith, split-plain p)

-- Splitting undoes joining.
split-join : (p : Text) (ps : List Text) → AllSafe (p ∷ ps) → split (join (p ∷ ps)) ≡ p ∷ ps
unfolding join
split-join p [] h = split-plain p h.0.one_level
split-join p (q ∷ ps) h =
    split-append p (join (q ∷ ps)) h.0.one_level
    ∙ ap (λ (r : List Text). p ∷ r) (split-join q ps h.1)

keep_named-safe : (ps : List Text) → AllSafe ps → keep_named ps ≡ ps
unfolding keep_named
keep_named-safe [] h = refl
keep_named-safe (p ∷ ps) h = ground (arith, keep_named-safe ps h.1)

any_dot_dot-safe : (ps : List Text) → AllSafe ps → any_dot_dot ps ≡ false
any_dot_dot-safe [] h = refl
any_dot_dot-safe (p ∷ ps) h = ground (arith, any_dot_dot-safe ps h.1)

has_char-append : (c : ℕ) (p s : Text) → has_char c (p ++ s) ≡ (has_char c p || has_char c s)
has_char-append c [] s = refl
has_char-append c (d ∷ p) s = ground (arith, has_char-append c p s)

join-no_nul : (p : Text) (ps : List Text) → AllSafe (p ∷ ps) → has_char 0 (join (p ∷ ps)) ≡ false
unfolding join
join-no_nul p [] h = h.0.no_nul
join-no_nul p (q ∷ ps) h =
    ground (arith, has_char-append 0 p (slash ∷ join (q ∷ ps)), join-no_nul q ps h.1)

join-not_empty :
    (p : Text) (ps : List Text) → AllSafe (p ∷ ps) → is_empty_text (join (p ∷ ps)) ≡ false
unfolding join
join-not_empty [] ps h = absurd (ground arith)
join-not_empty (c ∷ p) [] h = refl
join-not_empty (c ∷ p) (q ∷ ps) h = refl

module _ (is_abs has_drive : Text → Bool) where
  -- A path that is accepted yields at least one component, and every component names an entry one
  -- level down: it is not empty, "." or "..", and holds no slash and no NUL.
  pub validate-AllSafe :
      (s : Text) (ps : List Text)
      → validate is_abs has_drive s ≡ parts ps
      → AllSafe ps × (any_dot_dot ps ≡ false) × (ps ≢ [])
  unfolding validate
  validate-AllSafe s ps e =
      let named = keep_named (split s) in
      let plain = split-IsPlain s (ground arith) in
      let no_up : any_dot_dot named ≡ false = ground arith in
      let (same, some_part) = refuse_empty-parts named ps (ground arith) in
      (rw (← same) (keep_named-AllSafe (split s) plain no_up), rw (← same) no_up, some_part)

  -- Joining the components and validating again gives them back, provided the joined path does not
  -- look absolute.
  pub validate-join :
      (p : Text) (ps : List Text)
      → AllSafe (p ∷ ps)
      → (is_abs (join (p ∷ ps)) || has_drive (join (p ∷ ps))) ≡ false
      → starts_absolute (join (p ∷ ps)) ≡ false
      → validate is_abs has_drive (join (p ∷ ps)) ≡ parts (p ∷ ps)
  unfolding validate
  validate-join p ps h a r = ground (
    arith,
    join-no_nul p ps h,
    join-not_empty p ps h,
    split-join p ps h,
    keep_named-safe (p ∷ ps) h,
    any_dot_dot-safe (p ∷ ps) h,
  )
