-- ===== src/Helper/Lvm.antt =====
-- `init_lvm` and `list_volume_groups` of src/helper.c. lvm2app is a parameter: the names that
-- lvm_list_vg_names gives after lvm_init with a directory, or without one.
use storaged.Prelude.{
  String, Bool, true, false, Option, none, some, List, [], ◌∷◌, ◌<>◌, ◌≡◌, refl, ap,
}

-- init_lvm, as the argument of lvm_init
unfoldable pub init_lvm : String → Bool → Option String
init_lvm lib_dir true = some (lib_dir <> "/storaged/lvm-nolocking")
init_lvm lib_dir false = none

-- The loop of list_volume_groups
add_names : List String → List String
add_names [] = []
add_names (name ∷ rest) = name ∷ add_names rest

module _ (lvm_list_vg_names : Option String → List String) where
  unfoldable pub list_volume_groups : String → Bool → List String
  unfolding init_lvm add_names
  list_volume_groups lib_dir no_lock = add_names (lvm_list_vg_names (init_lvm lib_dir no_lock))

add_names-same : (ns : List String) → add_names ns ≡ ns
unfolding add_names
add_names-same [] = refl
add_names-same (n ∷ ns) = ap (λ rest. n ∷ rest) (add_names-same ns)

-- With locks the helper lists the names that lvm2app knows by its own configuration, without locks
-- those it knows by the one of storaged.
pub list_volume_groups-names :
    (lvm_list_vg_names : Option String → List String) (lib_dir : String) (no_lock : Bool)
    → list_volume_groups lvm_list_vg_names lib_dir no_lock
      ≡ lvm_list_vg_names (init_lvm lib_dir no_lock)
unfolding list_volume_groups
list_volume_groups-names lvm_list_vg_names lib_dir no_lock =
    add_names-same (lvm_list_vg_names (init_lvm lib_dir no_lock))
