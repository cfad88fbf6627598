-- ===== src/Prelude/Sweep.antt =====
-- A loop that visits the rows which a query selected and rewrites each of them: afterwards no row
-- would be selected.
use mathlib.Core.Path.{◌≡◌, refl}
use mathlib.Core.Bool.{Bool, true, false, not, ◌&&◌, ◌||◌}
use mathlib.Core.List.{List, [], ◌∷◌, foldl}
use native.Mathlib.Omega.{arith}
use Prim.Native.Nat.{ℕ}
use hibiki.Prelude.Tests.{◌==◌}
use hibiki.Prelude.Tables.{Table, alter, any_entry, select, keys}

abbrev pub mem : ℕ → List ℕ → Bool
mem k [] = false
mem k (j ∷ js) = j == k || mem k js

module _ {ℓ} {V : Type ℓ} (bad : ℕ → V → Bool) where
  -- Every row that the query would select has one of the keys.
  abbrev IsCovered : List ℕ → Table V → Type 0
  IsCovered ks t = any_entry (λ k v. bad k v && not (mem k ks)) t ≡ false

  abbrev AllBad : Table V → Type 0
  AllBad [] = Unit
  AllBad ((k, v) ∷ t) = (bad k v ≡ true) × AllBad t

  select-AllBad : (t : Table V) → AllBad (select bad t)
  select-AllBad [] = tt
  select-AllBad ((k, v) ∷ t) = ground (arith, select-AllBad t)

  IsCovered-more : (k : ℕ) (ks : List ℕ) (t : Table V) → IsCovered ks t → IsCovered (k ∷ ks) t
  IsCovered-more k ks [] h = refl
  IsCovered-more k ks ((j, v) ∷ t) h = ground (arith, IsCovered-more k ks t)

  select-IsCovered : (t : Table V) → IsCovered (keys (select bad t)) t
  select-IsCovered [] = refl
  select-IsCovered ((j, v) ∷ t) =
      ground (arith, select-IsCovered t, IsCovered-more j (keys (select bad t)) t)

  covered_none : (t : Table V) → IsCovered [] t → any_entry bad t ≡ false
  covered_none [] h = refl
  covered_none ((j, v) ∷ t) h = ground (arith, covered_none t)

  alter-IsCovered :
      (k : ℕ) (ks : List ℕ) (f : V → V) (t : Table V)
      → ((v : V) → bad k (f v) ≡ false)
      → IsCovered (k ∷ ks) t
      → IsCovered ks (alter k f t)
  alter-IsCovered k ks f [] h c = refl
  alter-IsCovered k ks f ((j, v) ∷ t) h c = ground (arith, h v, alter-IsCovered k ks f t h)

  module _ {κ} {S : Type κ} (table : S → Table V) (step : S → ℕ × V → S) where
    -- One round rewrites the rows of its key, so that the query does not select them.
    abbrev pub Rewrites : Type (ℓ ⊔ κ)
    Rewrites =
        (s : S) (k : ℕ) (v : V)
        → bad k v ≡ true
        → (f : V → V) × (table (step s (k, v)) ≡ alter k f (table s))
          × ((w : V) → bad k (f w) ≡ false)

    sweep_from :
        Rewrites
        → (rows : Table V) (s : S) → AllBad rows
        → IsCovered (keys rows) (table s)
        → any_entry bad (table (foldl step s rows)) ≡ false
    sweep_from r [] s b c = covered_none (table s) c
    sweep_from r ((k, v) ∷ rows) s b c =
        let (f, e, good) = r s k v b.0 in
        sweep_from r rows (step s (k, v)) b.1
          (rw e (alter-IsCovered k (keys rows) f (table s) good c))

    -- After the loop over the selected rows the query selects nothing.
    pub sweep :
        Rewrites → (s : S) → any_entry bad (table (foldl step s (select bad (table s)))) ≡ false
    sweep r s =
        sweep_from r (select bad (table s)) s (select-AllBad (table s)) (select-IsCovered (table s))
