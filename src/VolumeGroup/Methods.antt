-- ===== src/VolumeGroup/Methods.antt =====
-- The methods of src/volumegroup.c that run one program, as its command line and what is waited for.
-- What storage_daemon_find_thing finds is the name of the volume.
use storaged.Prelude.{ℕ, String, Option, none, some, [], ◌∷◌, ◌<>◌}
use storaged.System.{udisks_error, failed, Result, ok, err}
use storaged.Block.{Block}
use storaged.VolumeGroup.State.{VolumeGroup}
use storaged.Manager.State.{Manager, find_block}
use storaged.Methods.Waiting.{logical_volume, volume_group}
use storaged.Methods.Commands.{Launch, launch, end_of_job, object, whole_sectors, bytes_arg}

-- handle_rename
pub vg_handle_rename : String → VolumeGroup → Launch
vg_handle_rename new_name vg =
    launch "lvm-vg-rename" ("vgrename" ∷ vg.name ∷ new_name ∷ []) (object (volume_group new_name))

-- handle_create_plain_volume
unfoldable pub handle_create_plain_volume : String → ℕ → VolumeGroup → Launch
handle_create_plain_volume name size vg =
    launch "lvm-vg-create-volume"
      ("lvcreate" ∷ vg.name ∷ ("-L" <> bytes_arg (whole_sectors size)) ∷ "-n" ∷ name ∷ [])
      (object (logical_volume vg.name name))

-- handle_create_thin_pool_volume
unfoldable pub handle_create_thin_pool_volume : String → ℕ → VolumeGroup → Launch
handle_create_thin_pool_volume name size vg =
    launch "lvm-vg-create-volume"
      ("lvcreate"
        ∷ vg.name
        ∷ "-T"
        ∷ "-L"
        ∷ bytes_arg (whole_sectors size)
        ∷ "--thinpool"
        ∷ name
        ∷ [])
      (object (logical_volume vg.name name))

-- handle_create_thin_volume
unfoldable pub handle_create_thin_volume : String → ℕ → Option String → VolumeGroup → Result Launch
handle_create_thin_volume name size none vg = err (udisks_error failed "Not a valid logical volume")
handle_create_thin_volume name size (some pool) vg = ok (
    launch "lvm-vg-create-volume"
      ("lvcreate"
        ∷ vg.name
        ∷ "--thinpool"
        ∷ pool
        ∷ "-V"
        ∷ bytes_arg (whole_sectors size)
        ∷ "-n"
        ∷ name
        ∷ [])
      (object (logical_volume vg.name name)))

move_device : Option Block → Result Launch
move_device none = err (udisks_error failed "The given object is not a valid block")
move_device (some b) = ok (launch "lvm-vg-empty-device" ("pvmove" ∷ b.device ∷ []) end_of_job)

-- handle_empty_device, given the path of the block
pub handle_empty_device : String → Manager → Result Launch
unfolding move_device
handle_empty_device path m = move_device (find_block m (some path))
