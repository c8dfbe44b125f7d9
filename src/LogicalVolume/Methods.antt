-- ===== src/LogicalVolume/Methods.antt =====
-- The methods of src/logicalvolume.c, as the command lines of their jobs and what is waited for. The
-- user who calls and the object of the job, which the job only shows, are left out.
use storaged.Prelude.{ℕ, String, false, [], ◌∷◌, ◌<>◌, ltb, if◌then◌else◌}
use storaged.Variant.{Dict, lookup_boolean}
use storaged.LogicalVolume.State.{LogicalVolume}
use storaged.LogicalVolume.Update.{or_else}
use storaged.Methods.Waiting.{logical_volume, volume_block}
use storaged.Methods.Commands.{
  Launch, launch, end_of_job, object, full_name, whole_sectors, bytes_arg,
}

-- handle_delete
pub lv_handle_delete : LogicalVolume → Launch
lv_handle_delete lv = launch "lvm-lvol-delete" ("lvremove" ∷ "-f" ∷ full_name lv ∷ []) end_of_job

-- handle_rename
pub lv_handle_rename : String → LogicalVolume → Launch
lv_handle_rename new_name lv =
    launch "lvm-vg-rename" ("lvrename" ∷ full_name lv ∷ new_name ∷ [])
      (object (logical_volume lv.group new_name))

-- handle_resize
unfoldable pub handle_resize : ℕ → Dict → LogicalVolume → Launch
handle_resize new_size options lv =
    launch "lvm-vg-resize"
      ("lvresize"
        ∷ full_name lv
        ∷ ("-L" <> bytes_arg (whole_sectors new_size))
        ∷ (if or_else (lookup_boolean "resize_fsys" options) false then "-r" ∷ [] else []))
      end_of_job

-- handle_activate
pub handle_activate : LogicalVolume → Launch
handle_activate lv =
    launch "lvm-lvol-activate" ("lvchange" ∷ full_name lv ∷ "-ay" ∷ "-K" ∷ "--yes" ∷ [])
      (object (volume_block lv.object_path))

-- handle_deactivate
pub handle_deactivate : LogicalVolume → Launch
handle_deactivate lv =
    launch "lvm-lvol-deactivate" ("lvchange" ∷ full_name lv ∷ "-an" ∷ "-K" ∷ "--yes" ∷ [])
      end_of_job

-- handle_create_snapshot
unfoldable pub handle_create_snapshot : String → ℕ → LogicalVolume → Launch
handle_create_snapshot name size lv =
    launch "lvm-lvol-snapshot"
      ("lvcreate"
        ∷ "-s"
        ∷ full_name lv
        ∷ "-n"
        ∷ name
        ∷ (if ltb 0 size then ("-L" <> bytes_arg (whole_sectors size)) ∷ [] else []))
      (object (logical_volume lv.group name))
