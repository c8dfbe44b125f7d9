-- ===== src/Manager/State.antt =====
-- The object of src/manager.c, and its delayed update.
use storaged.Prelude.{
  ℕ, ◌+◌, String, Bool, false, not, ◌||◌, Option, none, some, [], Table, ltb, str_eq, if◌then◌else◌,
  is_some, lookup, same_text,
}
use storaged.Block.{Block}
use storaged.VolumeGroup.State.{VolumeGroup}

-- StorageManager. A delayed update id of 0 means that no timeout is set; `updates` counts the calls
-- of lvm_update that delayed_lvm_update has made.
pub record Manager : Type 0 where
  pub volume_groups : Table VolumeGroup
  pub blocks : Table Block
  pub delayed_update_id : ℕ
  pub updates : ℕ

-- storage_manager_init, before the objects of udisksd are read
unfoldable pub manager_new : Manager
manager_new = record { volume_groups = []; blocks = []; delayed_update_id = 0; updates = 0 }

-- trigger_delayed_lvm_update; `id` is what g_timeout_add returns.
unfoldable pub trigger_delayed_lvm_update : ℕ → Manager → Manager
trigger_delayed_lvm_update id m =
    if ltb 0 m.delayed_update_id then m else record m { delayed_update_id = id }

-- delayed_lvm_update
unfoldable pub delayed_lvm_update : Manager → Manager
delayed_lvm_update m = record m { updates = m.updates + 1; delayed_update_id = 0 }

-- What on_uevent reads of a udev device: DM_VG_NAME, ID_FS_TYPE, and the path of the block that
-- udisksd has for the device number.
pub record UeventDevice : Type 0 where
  pub dm_vg_name : Option String
  pub id_fs_type : Option String
  pub block_path : Option String

is_logical_volume : UeventDevice → Bool
is_logical_volume device = elim device.dm_vg_name [
  | none ↦ false
  | some name ↦ not (str_eq name "")
]

has_physical_volume_label : UeventDevice → Bool
has_physical_volume_label device = same_text device.id_fs_type (some "LVM2_member")

-- find_block, with storage_manager_find_block
unfoldable pub find_block : Manager → Option String → Option Block
find_block m none = none
find_block m (some path) = lookup path m.blocks

has_physical_volume : Option Block → Bool
has_physical_volume none = false
has_physical_volume (some b) = is_some b.physical_volume

is_recorded_as_physical_volume : Manager → UeventDevice → Bool
unfolding find_block has_physical_volume
is_recorded_as_physical_volume m device = has_physical_volume (find_block m device.block_path)

unfoldable pub is_for_lvm : Manager → UeventDevice → Bool
unfolding is_logical_volume has_physical_volume_label is_recorded_as_physical_volume
is_for_lvm m device =
    is_logical_volume device
    || has_physical_volume_label device
    || is_recorded_as_physical_volume m device

-- on_uevent, with handle_block_uevent_for_lvm
unfoldable pub on_uevent : ℕ → UeventDevice → Manager → Manager
unfolding trigger_delayed_lvm_update is_for_lvm
on_uevent id device m = if is_for_lvm m device then trigger_delayed_lvm_update id m else m
