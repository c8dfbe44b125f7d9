-- ===== src/Methods/Devices.antt =====
-- The handlers that check the devices they are given: handle_add_device and handle_remove_device of
-- src/volumegroup.c, and handle_volume_group_create of src/manager.c.
pub mod Checks
use storaged.Prelude.{
  ℕ, ◌+◌, ◌≡◌, refl, sym, ap, ◌∙◌, String, Bool, true, false, ◌&&◌, Option, none, some, List, [],
  ◌∷◌, ◌++◌, Option-cases, inl, inr, arith, All, All-append,
}
use storaged.System.{Error, udisks_error, failed, Result, ok, err}
use storaged.Block.{Block}
use storaged.VolumeGroup.State.{VolumeGroup}
use storaged.Manager.State.{Manager, find_block}
use storaged.Methods.Commands.{Launch, launch, end_of_job}
use storaged.Methods.Wiping.{
  Call, open_read_excl, close_device, Host, Sys, wipe_block, block_is_unused, unused,
}
use storaged.Methods.Wiping.Order.{wipe_calls, Stopped, Wiped, all_done, stopped, wipe_block-Wiped}
use storaged.Methods.Threads.{and_then, stop_or, validate, validate_blocks}

not_a_block : Error
not_a_block = udisks_error failed "The given object is not a valid block"

module _ (host : Host) where
  unfoldable pub extend_after :
      VolumeGroup → Block → Result (Unit {0}) × List Call → Result Launch × List Call
  extend_after vg b (ok u, trace) =
      (ok (launch "lvm-vg-add-device" ("vgextend" ∷ vg.name ∷ b.device ∷ []) end_of_job), trace)
  extend_after vg b (err e, trace) = (err e, trace)

  unfoldable pub add_block : VolumeGroup → Option Block → List Call → Result Launch × List Call
  unfolding extend_after not_a_block
  add_block vg none trace = (err not_a_block, trace)
  add_block vg (some b) trace =
      extend_after vg b (and_then (block_is_unused host b.device) (wipe_block host b.device) trace)

  -- handle_add_device
  unfoldable pub handle_add_device :
      String → VolumeGroup → Manager → List Call → Result Launch × List Call
  unfolding add_block
  handle_add_device path vg m trace = add_block vg (find_block m (some path)) trace

-- VolumeGroupRemdevJobData
pub record RemdevJob : Type 0 where
  pub vgname : String
  pub pvname : String
  pub wipe : Bool

remove_block : Bool → VolumeGroup → Option Block → Result RemdevJob
unfolding not_a_block
remove_block wipe vg none = err not_a_block
remove_block wipe vg (some b) = ok (record { vgname = vg.name; pvname = b.device; wipe = wipe })

-- handle_remove_device, up to the job in a thread
pub handle_remove_device : String → Bool → VolumeGroup → Manager → Result RemdevJob
unfolding remove_block
handle_remove_device path wipe vg m = remove_block wipe vg (find_block m (some path))

device_of : Option Block → List String
device_of none = []
device_of (some b) = b.device ∷ []

devices_at : Manager → List String → List String
unfolding device_of
devices_at m [] = []
devices_at m (path ∷ paths) = device_of (find_block m (some path)) ++ devices_at m paths

module _ (host : Host) where
  create_after : List String → Result (Unit {0}) × List Call → Result (List String) × List Call
  create_after devices (ok u, trace) = (ok devices, trace)
  create_after devices (err e, trace) = (err e, trace)

  -- handle_volume_group_create, up to the job in a thread, which gets the devices
  pub handle_volume_group_create :
      Manager → List String → List Call → Result (List String) × List Call
  unfolding create_after devices_at
  handle_volume_group_create m paths trace =
      create_after (devices_at m paths) (validate_blocks host m 0 paths trace)
