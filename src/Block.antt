-- ===== src/Block.antt =====
-- src/block.c, the overlay of a block of udisksd, and src/physicalvolume.c, one of its interfaces.
-- What udisksd and udev tell of the block is part of the state.
use storaged.Prelude.{ℕ, String, Option, none, some, List, [], ◌∷◌, ◌++◌}
use storaged.Variant.{Dict, lookup_u64}
use storaged.Objects.{Effect, publish, unpublish, logical_volume_block, physical_volume_block}

-- StoragePhysicalVolume: the properties of its skeleton
pub record PhysicalVolume : Type 0 where
  pub volume_group : Option String
  pub size : ℕ
  pub free_size : ℕ

-- The properties DM_VG_NAME and DM_LV_NAME of the udev device. The second is only read where the first
-- names a group, and the rules of udev set both or neither, so a device that has the first alone, which
-- would crash g_str_hash, is left out; where neither is set `lv_name` is any text.
pub record UdevDevice : Type 0 where
  pub vg_name : Option String
  pub lv_name : String

-- StorageBlock. `logical_volume` is the interface with its one property, the path of a volume.
pub record Block : Type 0 where
  pub object_path : String
  pub device : String
  pub symlinks : List String
  pub udev : Option UdevDevice
  pub physical_volume : Option PhysicalVolume
  pub logical_volume : Option (Option String)

abbrev new_size : Option ℕ → ℕ → ℕ
new_size none old = old
new_size (some n) old = n

-- storage_physical_volume_new
physical_volume_new : PhysicalVolume
physical_volume_new = record { volume_group = none; size = 0; free_size = 0 }

-- storage_physical_volume_update
physical_volume_update : Option String → Dict → PhysicalVolume → PhysicalVolume
physical_volume_update group_path info pv = record {
  volume_group = group_path;
  size = new_size (lookup_u64 "size" info) pv.size;
  free_size = new_size (lookup_u64 "free-size" info) pv.free_size;
}

unfoldable pub drop_lv : Option (Option String) → Block → Block × List Effect
drop_lv none b = (b, [])
drop_lv (some path) b = (
  record b { logical_volume = none },
  unpublish b.object_path (logical_volume_block b.object_path) ∷ [],
)

unfoldable pub set_lv : Option (Option String) → Option String → Block → Block × List Effect
set_lv none path b = (
  record b { logical_volume = some path },
  publish b.object_path (logical_volume_block b.object_path) ∷ [],
)
set_lv (some old) path b = (record b { logical_volume = some path }, [])

-- storage_block_update_lv: `none` is a NULL volume, and `some` one with its object path.
unfoldable pub block_update_lv : Option (Option String) → Block → Block × List Effect
unfolding drop_lv set_lv
block_update_lv none b = drop_lv b.logical_volume b
block_update_lv (some path) b = set_lv b.logical_volume path b

unfoldable pub drop_pv : Option PhysicalVolume → Block → Block × List Effect
drop_pv none b = (b, [])
drop_pv (some pv) b = (
  record b { physical_volume = none },
  unpublish b.object_path (physical_volume_block b.object_path) ∷ [],
)

unfoldable pub set_pv : Option PhysicalVolume → Option String → Dict → Block → Block × List Effect
unfolding physical_volume_update physical_volume_new
set_pv none group_path info b = (
  record b { physical_volume = some (physical_volume_update group_path info physical_volume_new) },
  publish b.object_path (physical_volume_block b.object_path) ∷ [],
)
set_pv (some pv) group_path info b =
    (record b { physical_volume = some (physical_volume_update group_path info pv) }, [])

-- storage_block_update_pv: `none` is a NULL group, and `some` the path of one with the information.
unfoldable pub block_update_pv : Option (Option String × Dict) → Block → Block × List Effect
unfolding drop_pv set_pv
block_update_pv none b = drop_pv b.physical_volume b
block_update_pv (some (group_path, info)) b = set_pv b.physical_volume group_path info b

-- storage_block_dispose
unfoldable pub block_dispose : Block → Block × List Effect
unfolding drop_pv drop_lv
block_dispose b =
    let (b₁, gone_pv) = drop_pv b.physical_volume b in
    let (b₂, gone_lv) = drop_lv b₁.logical_volume b₁ in (b₂, gone_pv ++ gone_lv)
