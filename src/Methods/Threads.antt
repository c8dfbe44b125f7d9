-- ===== src/Methods/Threads.antt =====
-- The jobs that run in a thread: volume_group_create_job_thread of src/manager.c, and
-- volume_group_delete_job_thread and volume_group_remdev_job_thread of src/volumegroup.c; and the
-- handlers that collect the devices for them.
pub mod Order
use storaged.Prelude.{
  ℕ, ◌+◌, String, Bool, true, false, ◌&&◌, Option, none, some, List, [], ◌∷◌, ◌++◌, ◌<>◌, printf_d,
  same_text, if◌then◌else◌,
}
use storaged.System.{Error, udisks_error, failed, Result, ok, err}
use storaged.Util.Status.{check_status_and_output}
use storaged.Block.{Block, PhysicalVolume}
use storaged.VolumeGroup.State.{VolumeGroup}
use storaged.Manager.State.{Manager, find_block}
use storaged.Methods.Wiping.{
  Call, spawn_sync, trigger_udev, Host, SpawnReply, not_spawned, finished, Sys, wipe_block,
  block_is_unused,
}

-- The second action, if the first succeeds
abbrev pub stop_or :
    Result (Unit {0}) → List Call → Result (Unit {0}) × List Call → Result (Unit {0}) × List Call
stop_or (ok u) trace rest = rest
stop_or (err e) trace rest = (err e, trace)

abbrev pub and_then : Sys → Sys → Sys
and_then first second trace = let out = first trace in stop_or out.0 out.1 (second out.1)

-- g_spawn_sync and storage_util_check_status_and_output
abbrev pub checked : String → SpawnReply → Result (Unit {0})
checked cmd (not_spawned e) = err e
checked cmd (finished status out error) = check_status_and_output cmd status (some out) (some error)

trigger_all : List String → Sys
trigger_all [] trace = (ok tt, trace)
trigger_all (d ∷ ds) trace = trigger_all ds (trace ++ trigger_udev d ∷ [])

abbrev is_member_of : Option PhysicalVolume → VolumeGroup → Bool
is_member_of none vg = false
is_member_of (some pv) vg = same_text pv.volume_group vg.object_path

-- The devices that handle_delete finds to wipe, if it is to
unfoldable pub devices_of : VolumeGroup → List Block → List String
devices_of vg [] = []
devices_of vg (b ∷ bs) =
    let rest = devices_of vg bs in
    if is_member_of b.physical_volume vg then b.device ∷ rest else rest

unfoldable pub delete_devices : Bool → VolumeGroup → List Block → List String
unfolding devices_of
delete_devices wipe vg blocks = if wipe then devices_of vg blocks else []

module _ (host : Host) where
  pub run_program : String → List String → Sys
  run_program cmd args trace =
      (checked cmd (host.spawn trace (cmd ∷ args)), trace ++ spawn_sync (cmd ∷ args) ∷ [])

  -- The loops over the devices; the first that cannot be wiped ends them.
  pub wipe_all : List String → Sys
  wipe_all [] trace = (ok tt, trace)
  wipe_all (d ∷ ds) trace = and_then (wipe_block host d) (wipe_all ds) trace

  -- volume_group_create_job_thread
  pub create_thread : String → List String → Sys
  unfolding wipe_all run_program trigger_all
  create_thread vgname devices =
      and_then (and_then (wipe_all devices) (run_program "vgcreate" (vgname ∷ devices)))
        (trigger_all devices)

  -- volume_group_delete_job_thread
  pub delete_thread : String → List String → Sys
  unfolding wipe_all run_program
  delete_thread vgname devices =
      and_then (run_program "vgremove" ("-f" ∷ vgname ∷ [])) (wipe_all devices)

  abbrev nothing : Sys
  nothing trace = (ok tt, trace)

  -- volume_group_remdev_job_thread
  pub remdev_thread : String → String → Bool → Sys
  unfolding run_program
  remdev_thread vgname pvname wipe =
      and_then (run_program "vgreduce" (vgname ∷ pvname ∷ []))
        (if wipe then run_program "wipefs" ("-a" ∷ pvname ∷ []) else nothing)

  -- One round of the loop of handle_volume_group_create
  unfoldable pub validate : String → ℕ → Option Block → Sys
  validate path n none trace = (
    err (udisks_error failed ("Invalid object path " <> path <> " at index " <> printf_d n)),
    trace,
  )
  validate path n (some b) trace = block_is_unused host b.device trace

  -- The whole loop, before anything is wiped
  unfoldable pub validate_blocks : Manager → ℕ → List String → Sys
  unfolding validate
  validate_blocks m n [] trace = (ok tt, trace)
  validate_blocks m n (path ∷ paths) trace =
      and_then (validate path n (find_block m (some path))) (validate_blocks m (n + 1) paths) trace
