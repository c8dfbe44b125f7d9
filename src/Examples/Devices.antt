-- ===== src/Examples/Devices.antt =====
-- Adding a device to the group vg0, and making a group of it.
use storaged.Prelude.{◌≡◌, refl, some, [], ◌∷◌, ◌++◌, lookup}
use storaged.Block.{Block}
use storaged.Manager.State.{Manager, find_block}
use storaged.Methods.Commands.{Launch, launch, end_of_job}
use storaged.Methods.Wiping.{
  open_read_excl, close_device, wipe_block, block_is_unused, unused, opened, erased,
  partitions_gone, wipe_labels, labels_wiped, scan,
}
use storaged.Methods.Wiping.Order.{wipe_calls}
use storaged.Methods.Devices.{handle_add_device, add_block, extend_after}
use storaged.Methods.Devices.Checks.{WasUnused, handle_add_device-wipe_calls}
use storaged.Examples.Volumes.{group_vg0, block_sda1}
use storaged.Examples.Calls.{sound_host}

abbrev pub with_sda1 : Manager
with_sda1 = record {
  volume_groups = [];
  blocks = ("/sda1", block_sda1) ∷ [];
  delayed_update_id = 0;
  updates = 0;
}

abbrev extends : Launch
extends = launch "lvm-vg-add-device" ("vgextend" ∷ "vg0" ∷ "/dev/sda1" ∷ []) end_of_job

handle_add_device-wipe_calls_example :
    (b : Block) × (find_block with_sda1 (some "/sda1") ≡ some b)
    × WasUnused sound_host b.device []
    × ((handle_add_device sound_host "/sda1" group_vg0 with_sda1 []).1
        ≡ [] ++ (open_read_excl b.device ∷ close_device b.device ∷ wipe_calls b.device))
    × (extends ≡ launch "lvm-vg-add-device" ("vgextend" ∷ "vg0" ∷ b.device ∷ []) end_of_job)
unfolding handle_add_device add_block extend_after find_block lookup block_is_unused unused
    wipe_block opened erased partitions_gone wipe_labels labels_wiped scan
handle_add_device-wipe_calls_example =
    handle_add_device-wipe_calls sound_host "/sda1" group_vg0 with_sda1 [] extends refl
