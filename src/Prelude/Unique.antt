-- ===== src/Prelude/Unique.antt =====
-- Tables with one entry for each key, and their sizes.
use Prim.Native.Nat.{ℕ, suc}
use Prim.Native.String.{String}
use mathlib.Core.Path.{◌≡◌, refl, sym, ap, ◌∙◌}
use mathlib.Core.Logic.{inl, inr}
use mathlib.Core.Bool.{true}
use mathlib.Core.Option.{none}
use mathlib.Core.List.{[], ◌∷◌}
use native.Mathlib.Omega.{arith}
use text.Mathlib.Text.{◌==◌ as str_eq}
use text.Mathlib.TextEquality.{eq_iff}
use storaged.Prelude.Tests.{if◌then◌else◌, is_some, Bool-cases}
use storaged.Prelude.Lists.{length}
use storaged.Prelude.Tables.{Table, lookup, insert, remove, lookup-insert, lookup-remove}

module _ {ℓ} {V : Type ℓ} where
  abbrev pub IsUnique : Table V → Type ℓ
  IsUnique [] = Unit
  IsUnique ((k, v) ∷ t) = (lookup k t ≡ none) × IsUnique t

  pub insert-IsUnique : (k : String) (v : V) (t : Table V) → IsUnique t → IsUnique (insert k v t)
  unfolding insert lookup
  insert-IsUnique k v [] h = (refl, tt)
  insert-IsUnique k v ((j, w) ∷ t) h = elim (Bool-cases (str_eq j k)) [
    | inl same ↦ rw same (h.0, h.1)
    | inr differs ↦ rw differs (
      ground (arith, lookup-insert k j v t, h.0, eq_iff j k, eq_iff k j),
      insert-IsUnique k v t h.1,
    )
  ]

  pub length-insert :
      (k : String) (v : V) (t : Table V)
      → length (insert k v t) ≡ (if is_some (lookup k t) then length t else suc (length t))
  unfolding insert lookup
  length-insert k v [] = refl
  length-insert k v ((j, w) ∷ t) = ground (arith, length-insert k v t)

  pub length-remove_missing : (k : String) (t : Table V) → lookup k t ≡ none → remove k t ≡ t
  unfolding remove lookup
  length-remove_missing k [] h = refl
  length-remove_missing k ((j, w) ∷ t) h = ground (arith, length-remove_missing k t)

  pub length-remove :
      (k : String) (t : Table V)
      → IsUnique t
      → is_some (lookup k t) ≡ true
      → suc (length (remove k t)) ≡ length t
  unfolding remove lookup
  length-remove k [] u h = cc
  length-remove k ((j, w) ∷ t) u h = elim (Bool-cases (str_eq j k)) [
    | inl same ↦
        let e : lookup k t ≡ none = ap (λ x. lookup x t) (sym ((eq_iff j k).0 same)) ∙ u.0 in
        rw (same, length-remove_missing k t e) refl
    | inr differs ↦
        rw differs (ap (λ (m : ℕ). suc m) (length-remove k t u.1 (ground (arith, differs))))
  ]

  pub remove-IsUnique : (k : String) (t : Table V) → IsUnique t → IsUnique (remove k t)
  unfolding remove
  remove-IsUnique k [] u = tt
  remove-IsUnique k ((j, w) ∷ t) u = elim (Bool-cases (str_eq j k)) [
    | inl same ↦ rw same (remove-IsUnique k t u.1)
    | inr differs ↦ rw differs (ground (arith, lookup-remove k j t, u.0), remove-IsUnique k t u.1)
  ]
