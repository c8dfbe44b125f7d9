-- ===== src/Methods/Wiping.antt =====
-- storage_util_wipe_block of src/util.c, and the calls of the system that the jobs of a group make.
-- What the system answers is a parameter, which may depend on all calls made before.
pub mod Order
use storaged.Prelude.{
  String, Bool, true, false, Option, none, some, List, [], ◌∷◌, ◌++◌, ◌<>◌, if◌then◌else◌,
}
use storaged.System.{Error, udisks_error, failed, Result, ok, err, WaitStatus}
use storaged.Util.Status.{is_success}

pub data Call : Type 0 where
  open_excl : (device : String) → Call
  open_read_excl : (device : String) → Call
  write_zeroes : (device : String) → Call
  reread_partitions : (device : String) → Call
  close_device : (device : String) → Call
  spawn_sync : (argv : List String) → Call
  trigger_udev : (device : String) → Call

-- The answer of ioctl (fd, BLKRRPART, NULL); EINVAL is told apart.
pub data IoctlReply : Type 0 where
  done einval : IoctlReply
  fault : String → IoctlReply

-- The answer of g_spawn_sync: an error, or the status and both outputs
pub data SpawnReply : Type 0 where
  not_spawned : Error → SpawnReply
  finished : WaitStatus → (standard_output standard_error : String) → SpawnReply

-- The system, asked after the calls so far. `none` is success, and `some` a failure with strerror's
-- text. `exit_error` is the error of g_spawn_check_exit_status.
pub record Host : Type 0 where
  pub open_device : List Call → String → Option String
  pub open_read : List Call → String → Option String
  pub write_512 : List Call → String → Option String
  pub reread : List Call → String → IoctlReply
  pub spawn : List Call → List String → SpawnReply
  pub exit_error : WaitStatus → Error

-- An action: the calls made so far go in; the result and all calls made come out.
abbrev pub Sys : Type 0
Sys = List Call → Result (Unit {0}) × List Call

abbrev pub wipefs : String → List String
wipefs device = "wipefs" ∷ "-a" ∷ device ∷ []

abbrev pub pvscan : String → List String
pvscan device = "pvscan" ∷ "--cache" ∷ device ∷ []

module _ (host : Host) where
  -- pvscan, whose failure is only a warning
  unfoldable pub scan : String → Sys
  scan device trace = (ok tt, trace ++ spawn_sync (pvscan device) ∷ [])

  unfoldable pub labels_wiped : String → SpawnReply → Sys
  unfolding scan
  labels_wiped device (not_spawned e) trace = (err e, trace)
  labels_wiped device (finished status out error) trace =
      let e = host.exit_error status in
      if is_success status then scan device trace else (
        err (record e {
          message = "stdout: '" <> out <> "', stderr: '" <> error <> "', " <> e.message;
        }),
        trace,
      )

  unfoldable pub wipe_labels : String → Sys
  unfolding labels_wiped
  wipe_labels device trace =
      labels_wiped device (host.spawn trace (wipefs device))
        (trace ++ spawn_sync (wipefs device) ∷ [])

  unfoldable pub partitions_gone : String → IoctlReply → Sys
  unfolding wipe_labels
  partitions_gone device done trace = wipe_labels device (trace ++ close_device device ∷ [])
  partitions_gone device einval trace = wipe_labels device (trace ++ close_device device ∷ [])
  partitions_gone device (fault m) trace = (
    err (udisks_error failed ("Error removing partition devices of " <> device <> ": " <> m)),
    trace ++ close_device device ∷ [],
  )

  unfoldable pub erased : String → Option String → Sys
  unfolding partitions_gone
  erased device (some m) trace = (
    err (udisks_error failed ("Error erasing device " <> device <> ": " <> m)),
    trace ++ close_device device ∷ [],
  )
  erased device none trace =
      partitions_gone device (host.reread trace device) (trace ++ reread_partitions device ∷ [])

  unfoldable pub opened : String → Option String → Sys
  unfolding erased
  opened device (some m) trace =
      (err (udisks_error failed ("Error opening device " <> device <> ": " <> m)), trace)
  opened device none trace =
      erased device (host.write_512 trace device) (trace ++ write_zeroes device ∷ [])

  -- storage_util_wipe_block
  unfoldable pub wipe_block : String → Sys
  unfolding opened
  wipe_block device trace =
      opened device (host.open_device trace device) (trace ++ open_excl device ∷ [])

  unfoldable pub unused : String → Option String → Sys
  unused device (some m) trace =
      (err (udisks_error failed ("Error opening device " <> device <> ": " <> m)), trace)
  unused device none trace = (ok tt, trace ++ close_device device ∷ [])

  -- storage_block_is_unused of src/block.c, on the block's device
  unfoldable pub block_is_unused : String → Sys
  unfolding unused
  block_is_unused device trace =
      unused device (host.open_read trace device) (trace ++ open_read_excl device ∷ [])
