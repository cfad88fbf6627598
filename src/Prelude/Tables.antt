-- ===== src/Prelude/Tables.antt =====
-- A database table: the rows by primary key, in the order of insertion. `get` is `session.get`,
-- `put` writes a row that is there or adds it, and `map_rows` is a loop over all rows that writes
-- each row from its own fields. `alter` writes the row of one key, and `add` is `session.add` of a row
-- with a new key.
use Prim.Native.Nat.{ℕ, suc}
use mathlib.Core.Path.{◌≡◌, refl}
use mathlib.Core.Bool.{Bool, false, ◌||◌}
use mathlib.Core.Option.{Option, none, some}
use mathlib.Core.Option
use mathlib.Core.List.{List, [], ◌∷◌}
use native.Mathlib.Omega.{arith}
use hibiki.Prelude.Tests.{◌==◌, if◌then◌else◌}

abbrev pub Table {ℓ} : Type ℓ → Type ℓ
Table V = List (ℕ × V)

module _ {ℓ} {V : Type ℓ} where
  abbrev pub get : ℕ → Table V → Option V
  get k [] = none
  get k ((j, v) ∷ t) = if j == k then some v else get k t

  abbrev pub put : ℕ → V → Table V → Table V
  put k v [] = (k, v) ∷ []
  put k v ((j, w) ∷ t) = if j == k then (j, v) ∷ t else (j, w) ∷ put k v t

  abbrev pub add : ℕ → V → Table V → Table V
  add k v [] = (k, v) ∷ []
  add k v ((j, w) ∷ t) = (j, w) ∷ add k v t

  abbrev pub alter : ℕ → (V → V) → Table V → Table V
  alter k f [] = []
  alter k f ((j, w) ∷ t) = (j, if j == k then f w else w) ∷ alter k f t

  abbrev pub remove : ℕ → Table V → Table V
  remove k [] = []
  remove k ((j, w) ∷ t) = let rest = remove k t in if j == k then rest else (j, w) ∷ rest

  abbrev pub map_rows : (V → V) → Table V → Table V
  map_rows f [] = []
  map_rows f ((j, w) ∷ t) = (j, f w) ∷ map_rows f t

  -- A loop that also reads the key.
  abbrev pub map_entries : (ℕ → V → V) → Table V → Table V
  map_entries f [] = []
  map_entries f ((j, w) ∷ t) = (j, f j w) ∷ map_entries f t

  abbrev pub any_row : (V → Bool) → Table V → Bool
  any_row p [] = false
  any_row p ((j, w) ∷ t) = p w || any_row p t

  -- A test that also reads the key.
  abbrev pub any_entry : (ℕ → V → Bool) → Table V → Bool
  any_entry p [] = false
  any_entry p ((j, w) ∷ t) = p j w || any_entry p t

  -- The rows that a query selects, in order, with their keys.
  abbrev pub select : (ℕ → V → Bool) → Table V → Table V
  select p [] = []
  select p ((j, w) ∷ t) = let rest = select p t in if p j w then (j, w) ∷ rest else rest

  abbrev pub keys : Table V → List ℕ
  keys [] = []
  keys ((j, w) ∷ t) = j ∷ keys t

  abbrev pub count_rows : (V → Bool) → Table V → ℕ
  count_rows p [] = 0
  count_rows p ((j, w) ∷ t) = let rest = count_rows p t in if p w then suc rest else rest

  pub get-put :
      (j k : ℕ) (v : V) (t : Table V) → get j (put k v t) ≡ (if k == j then some v else get j t)
  get-put j k v [] = ground arith
  get-put j k v ((i, w) ∷ t) = ground (arith, get-put j k v t)

  pub get-add :
      (j k : ℕ) (v : V) (t : Table V)
      → get j (add k v t)
        ≡ elim (get j t) [ some w ↦ some w | none ↦ if k == j then some v else none ]
  get-add j k v [] = ground arith
  get-add j k v ((i, w) ∷ t) = ground (arith, get-add j k v t)

  pub get-alter :
      (j k : ℕ) (f : V → V) (t : Table V)
      → get j (alter k f t) ≡ (if k == j then Option.map f (get j t) else get j t)
  get-alter j k f [] = ground arith
  get-alter j k f ((i, w) ∷ t) = ground (arith, get-alter j k f t)

  pub get-remove : (j k : ℕ) (t : Table V) → get j (remove k t) ≡ (if k == j then none else get j t)
  get-remove j k [] = ground arith
  get-remove j k ((i, w) ∷ t) = ground (arith, get-remove j k t)

  pub get-map_rows :
      (j : ℕ) (f : V → V) (t : Table V) → get j (map_rows f t) ≡ Option.map f (get j t)
  get-map_rows j f [] = refl
  get-map_rows j f ((i, w) ∷ t) = ground (arith, get-map_rows j f t)

  pub get-map_entries :
      (j : ℕ) (f : ℕ → V → V) (t : Table V) → get j (map_entries f t) ≡ Option.map (f j) (get j t)
  get-map_entries j f [] = refl
  get-map_entries j f ((i, w) ∷ t) = ground (arith, get-map_entries j f t)

  -- No row passes the test after a loop whose write makes the test fail.
  pub any_row-map_rows :
      (p : V → Bool) (f : V → V) (t : Table V)
      → ((v : V) → p (f v) ≡ false)
      → any_row p (map_rows f t) ≡ false
  any_row-map_rows p f [] h = refl
  any_row-map_rows p f ((i, w) ∷ t) h = ground (arith, h w, any_row-map_rows p f t h)

  -- A row that is found fails a test that no row passes.
  pub any_row-get :
      (p : V → Bool) (k : ℕ) (v : V) (t : Table V)
      → any_row p t ≡ false
      → get k t ≡ some v
      → p v ≡ false
  any_row-get p k v [] h e = ground arith
  any_row-get p k v ((i, w) ∷ t) h e = ground (arith, any_row-get p k v t)

  -- A test that a write keeps false stays false on every row.
  pub any_row-alter :
      (p : V → Bool) (k : ℕ) (f : V → V) (t : Table V)
      → ((v : V) → p v ≡ false → p (f v) ≡ false)
      → any_row p t ≡ false
      → any_row p (alter k f t) ≡ false
  any_row-alter p k f [] h n = refl
  any_row-alter p k f ((i, w) ∷ t) h n = ground (arith, h w, any_row-alter p k f t h)

  pub any_row-add :
      (p : V → Bool) (k : ℕ) (v : V) (t : Table V) → any_row p (add k v t) ≡ (any_row p t || p v)
  any_row-add p k v [] = ground arith
  any_row-add p k v ((i, w) ∷ t) = ground (arith, any_row-add p k v t)

  pub any_entry-add :
      (p : ℕ → V → Bool) (k : ℕ) (v : V) (t : Table V)
      → any_entry p (add k v t) ≡ (any_entry p t || p k v)
  any_entry-add p k v [] = ground arith
  any_entry-add p k v ((i, w) ∷ t) = ground (arith, any_entry-add p k v t)
