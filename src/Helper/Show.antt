-- ===== src/Helper/Show.antt =====
-- `list_volume_groups`, `add_lvprop`, `show_logical_volume`, `show_physical_volume` and
-- `show_volume_group` of src/helper.c. What lvm2app tells of a group and its volumes is a parameter.
use storaged.Prelude.{ℕ, String, Option, none, some, List, [], ◌∷◌, ◌++◌, map}
use storaged.Variant.{Dict, Info, str, u64, single, dicts}

-- lvm_property_value_t, as `add_lvprop` looks at it
pub data Property : Type 0 where
  invalid : Property
  text : Option String → Property
  integer : ℕ → Property
  other : Property

pub record Lv : Type 0 where
  pub name : String
  pub uuid : String
  pub size : ℕ
  pub property : String → Property

pub record Pv : Type 0 where
  pub device : String
  pub uuid : String
  pub size : ℕ
  pub free : ℕ

-- An open volume group; a list that lvm2app returns as NULL is empty.
pub record Vg : Type 0 where
  pub name : String
  pub uuid : String
  pub size : ℕ
  pub free_size : ℕ
  pub extent_size : ℕ
  pub lvs : List Lv
  pub pvs : List Pv

add_lvprop : String → Property → Dict
add_lvprop key (text (some s)) = (key, str s) ∷ []
add_lvprop key (integer n) = (key, u64 n) ∷ []
add_lvprop key _ = []

abbrev prop_of : Lv → String → Dict
prop_of lv key = add_lvprop key (lv.property key)

unfoldable pub show_logical_volume : Lv → Dict
unfolding add_lvprop
show_logical_volume lv =
    ("name", str lv.name) ∷ ("uuid", str lv.uuid) ∷ ("size", u64 lv.size) ∷ prop_of lv "lv_attr"
    ++ prop_of lv "lv_path"
    ++ prop_of lv "move_pv"
    ++ prop_of lv "pool_lv"
    ++ prop_of lv "origin"
    ++ prop_of lv "data_percent"
    ++ prop_of lv "metadata_percent"
    ++ prop_of lv "copy_percent"

unfoldable pub show_physical_volume : Pv → Dict
show_physical_volume pv =
    ("device", str pv.device)
    ∷ ("uuid", str pv.uuid)
    ∷ ("size", u64 pv.size)
    ∷ ("free-size", u64 pv.free)
    ∷ []

-- `none` where lvm_vg_open fails: the helper exits with status 2.
unfoldable pub show_volume_group : Option Vg → Option Info
unfolding show_logical_volume show_physical_volume
show_volume_group none = none
show_volume_group (some vg) = some (
    ("name", single (str vg.name))
    ∷ ("uuid", single (str vg.uuid))
    ∷ ("size", single (u64 vg.size))
    ∷ ("free-size", single (u64 vg.free_size))
    ∷ ("extent-size", single (u64 vg.extent_size))
    ∷ ("lvs", dicts (map show_logical_volume vg.lvs))
    ∷ ("pvs", dicts (map show_physical_volume vg.pvs))
    ∷ [])
