-- ===== src/Manager/Update/Listed.antt =====
-- Which groups the manager of src/manager.c has once the list of their names has come.
use storaged.Prelude.{
  ℕ, String, ◌≡◌, refl, ap, ◌∙◌, Bool, true, false, ◌||◌, none, some, List, [], ◌∷◌, Table, lookup,
  insert, retain, any, str_eq, is_some, arith, eq_iff, lookup-insert, lookup-retain, Option-cases,
  inl, inr,
}
use storaged.System.{ok}
use storaged.VolumeGroup.State.{VolumeGroup, volume_group_new}
use storaged.Manager.State.{trigger_delayed_lvm_update}
use storaged.Manager.Update.{
  Update, add_groups, take_names, lvm_update_done, lvm_update_from_variant,
}

add_group :
    (name n : String) (vgs : Table VolumeGroup)
    → is_some (
        lookup name (elim (lookup n vgs) as (λ _. Table VolumeGroup) [
          | none ↦ insert n (volume_group_new n) vgs
          | some vg ↦ vgs
        ]))
      ≡ (is_some (lookup name vgs) || str_eq name n)
add_group name n vgs = elim (Option-cases (lookup n vgs)) [
  | inl missing ↦ rw missing (simp lookup-insert (ground (arith, eq_iff n name, eq_iff name n)))
  | inr (vg, there) ↦ rw there (ground (arith, there, eq_iff n name, eq_iff name n))
]

or_assoc : (a b c : Bool) → ((a || b) || c) ≡ (a || (b || c))
or_assoc true b c = refl
or_assoc false b c = refl

lookup-add_groups :
    (name : String) (names : List String) (vgs : Table VolumeGroup)
    → is_some (lookup name (add_groups names vgs))
      ≡ (is_some (lookup name vgs) || any (str_eq name) names)
unfolding add_groups
lookup-add_groups name [] vgs = ground arith
lookup-add_groups name (n ∷ names) vgs =
    lookup-add_groups name names _
    ∙ ap (λ b. b || any (str_eq name) names) (add_group name n vgs)
    ∙ or_assoc (is_some (lookup name vgs)) (str_eq name n) (any (str_eq name) names)

take_names-listed :
    (name : String) (names : List String) (u : Update)
    → is_some (lookup name (take_names names u).manager.volume_groups) ≡ any (str_eq name) names
unfolding take_names
take_names-listed name names u =
    lookup-add_groups name names (retain (λ name. any (str_eq name) names) u.manager.volume_groups)
    ∙ simp lookup-retain (ground arith)

-- Whatever groups the manager had before, once the list has come it has a group of a name exactly if
-- the list has the name.
pub lvm_update_from_variant-listed :
    (id : ℕ) (name : String) (names : List String) (u : Update)
    → is_some (lookup name (lvm_update_from_variant id (ok names) u).manager.volume_groups)
      ≡ any (str_eq name) names
unfolding lvm_update_from_variant lvm_update_done trigger_delayed_lvm_update
lvm_update_from_variant-listed id name names u = ground (arith, take_names-listed name names u)
