-- ===== src/Prelude/Tables.antt =====
-- A GHashTable with string keys as an association list with one entry for each key. The order of
-- the entries stands for the table's unspecified order of iteration.
use Prim.Native.String.{String}
use mathlib.Core.Path.{◌≡◌, refl}
use mathlib.Core.Bool.{Bool}
use mathlib.Core.Option.{Option, none, some}
use mathlib.Core.List.{List, [], ◌∷◌}
use native.Mathlib.Omega.{arith}
use text.Mathlib.Text.{◌==◌ as str_eq}
use text.Mathlib.TextEquality.{eq_iff}
use storaged.Prelude.Tests.{if◌then◌else◌}

abbrev pub Table {ℓ} : Type ℓ → Type ℓ
Table V = List (String × V)

module _ {ℓ} {V : Type ℓ} where
  -- g_hash_table_lookup
  unfoldable pub lookup : String → Table V → Option V
  lookup key [] = none
  lookup key ((found, value) ∷ rest) = if str_eq found key then some value else lookup key rest

  -- g_hash_table_insert
  unfoldable pub insert : String → V → Table V → Table V
  insert key value [] = (key, value) ∷ []
  insert key value ((found, old) ∷ rest) =
      let later = insert key value rest in
      if str_eq found key then (found, value) ∷ rest else (found, old) ∷ later

  -- g_hash_table_remove
  unfoldable pub remove : String → Table V → Table V
  remove k [] = []
  remove k ((j, w) ∷ m) = let rest = remove k m in if str_eq j k then rest else (j, w) ∷ rest

  -- g_hash_table_iter_remove on every entry whose key fails the test
  unfoldable pub retain : (String → Bool) → Table V → Table V
  retain p [] = []
  retain p ((j, w) ∷ m) = let rest = retain p m in if p j then (j, w) ∷ rest else rest

  pub lookup-insert :
      (key other : String) (value : V) (t : Table V)
      → lookup other (insert key value t)
        ≡ (if str_eq key other then some value else lookup other t)
  unfolding insert lookup
  lookup-insert key other value [] = refl
  lookup-insert key other value ((found, old) ∷ rest) = ground (
    arith,
    lookup-insert key other value rest,
    eq_iff found key,
    eq_iff found other,
    eq_iff key other,
  )

  pub lookup-remove :
      (k j : String) (m : Table V)
      → lookup j (remove k m) ≡ (if str_eq k j then none else lookup j m)
  unfolding lookup remove
  lookup-remove k j [] = ground arith
  lookup-remove k j ((i, w) ∷ m) =
      ground (arith, eq_iff k j, eq_iff i k, eq_iff i j, lookup-remove k j m)

  pub lookup-retain :
      (p : String → Bool) (j : String) (m : Table V)
      → lookup j (retain p m) ≡ (if p j then lookup j m else none)
  unfolding lookup retain
  lookup-retain p j [] = ground arith
  lookup-retain p j ((i, w) ∷ m) = ground (arith, eq_iff i j, lookup-retain p j m)

pub ruleset table_laws = (lookup-insert, lookup-remove, lookup-retain)
