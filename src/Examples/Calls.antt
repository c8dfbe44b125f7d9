-- ===== src/Examples/Calls.antt =====
-- Calls of methods on the group vg0, and a system on which they run.
use storaged.Prelude.{◌≡◌, String, true, false, ◌&&◌, none, List, [], ◌∷◌, any, str_eq, arith}
use storaged.System.{udisks_error, failed, exited}
use storaged.Methods.Waiting.{
  Published, volume_published, Wanted, logical_volume, is_wanted, wait_for, on_complete,
  all_published,
}
use storaged.Methods.Waiting.Replies.{first_wanted, late_failure_uses_freed}
use storaged.Methods.Wiping.{Host, einval, finished, wipe_block}
use storaged.Methods.Wiping.Order.{Wiped, wipe_block-Wiped}
use storaged.Methods.Threads.{create_thread, delete_thread, delete_devices}
use storaged.Methods.Threads.Order.{
  Created, create_thread-Created, Deleted, names_device, delete_thread-Deleted,
}
use storaged.Examples.Volumes.{group_vg0, block_sda1}

abbrev wanted_lv : Wanted
wanted_lv = logical_volume "vg0" "lv"

abbrev appearing : List Published
appearing = volume_published "vg1" "lv" "/vg1/lv" ∷ volume_published "vg0" "lv" "/vg0/lv" ∷ []

late_failure_uses_freed_example :
    on_complete "Error: " false "killed" (all_published appearing (wait_for wanted_lv)) ≡ none
unfolding first_wanted is_wanted
late_failure_uses_freed_example =
    late_failure_uses_freed wanted_lv appearing "Error: " "killed" (λ h. ground arith)

-- A system on which every call succeeds, and every program exits with 0
abbrev pub sound_host : Host
sound_host = record {
  open_device = λ trace device. none;
  open_read = λ trace device. none;
  write_512 = λ trace device. none;
  reread = λ trace device. einval;
  spawn = λ trace argv. finished (exited 0) "" "";
  exit_error = λ status. udisks_error failed "";
}

wipe_block-Wiped_example : Wiped sound_host "/dev/sda1" [] (wipe_block sound_host "/dev/sda1" [])
wipe_block-Wiped_example = wipe_block-Wiped sound_host "/dev/sda1" []

create_thread-Created_example :
    Created sound_host
      ("/dev/sda1" ∷ "/dev/sdb" ∷ [])
      []
      "vg0"
      (create_thread sound_host "vg0" ("/dev/sda1" ∷ "/dev/sdb" ∷ []) [])
create_thread-Created_example =
    create_thread-Created sound_host "vg0" ("/dev/sda1" ∷ "/dev/sdb" ∷ []) []

delete_thread-Deleted_example :
    Deleted sound_host
      (delete_devices true group_vg0 (block_sda1 ∷ []))
      []
      "vg0"
      (delete_thread sound_host "vg0" (delete_devices true group_vg0 (block_sda1 ∷ [])) [])
    × ((d : String)
        → any (str_eq d) (delete_devices true group_vg0 (block_sda1 ∷ []))
          ≡ (true && any (names_device group_vg0 d) (block_sda1 ∷ [])))
delete_thread-Deleted_example = delete_thread-Deleted sound_host true group_vg0 (block_sda1 ∷ []) []
