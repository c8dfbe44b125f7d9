-- ===== src/VolumeGroup/State.antt =====
-- The object of src/volumegroup.c, `storage_volume_group_new` and `volume_group_update_props`.
use storaged.Prelude.{ℕ, String, Bool, true, false, Option, none, [], Table}
use storaged.Variant.{Dict, Info, info_str, info_u64}
use storaged.LogicalVolume.State.{LogicalVolume}
use storaged.LogicalVolume.Update.{or_keep, or_else}

-- StorageVolumeGroup with the D-Bus properties of its skeleton. A process or timeout id of 0 is none.
pub record VolumeGroup : Type 0 where
  pub name : String
  pub object_path : Option String
  pub need_publish : Bool
  pub info : Option Info
  pub logical_volumes : Table LogicalVolume
  pub physical_volumes : Table Dict
  pub uuid : Option String
  pub size : ℕ
  pub free_size : ℕ
  pub extent_size : ℕ
  pub needs_polling : Bool

-- storage_volume_group_new, with storage_volume_group_init
unfoldable pub volume_group_new : String → VolumeGroup
volume_group_new name = record {
  name = name;
  object_path = none;
  need_publish = true;
  info = none;
  logical_volumes = [];
  physical_volumes = [];
  uuid = none;
  size = 0;
  free_size = 0;
  extent_size = 0;
  needs_polling = false;
}

-- volume_group_update_props
unfoldable pub volume_group_update_props : Info → VolumeGroup → VolumeGroup
volume_group_update_props info vg = record vg {
  uuid = or_keep (info_str "uuid" info) vg.uuid;
  size = or_else (info_u64 "size" info) vg.size;
  free_size = or_else (info_u64 "free-size" info) vg.free_size;
  extent_size = or_else (info_u64 "extent-size" info) vg.extent_size;
}
