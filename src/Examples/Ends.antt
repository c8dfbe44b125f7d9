-- ===== src/Examples/Ends.antt =====
-- Methods whose programs end, the progress of a job, and runs of the daemon's process.
use storaged.Prelude.{
  ◌≡◌, ◌≢◌, refl, true, false, none, some, List, [], ◌∷◌, ◌++◌, ◌<>◌, map, if◌then◌else◌, arith,
}
use storaged.System.{udisks_error, failed, exited as exit_status}
use storaged.Util.Status.{is_success}
use storaged.Job.Spawned.Events.{child_exited, run_events}
use storaged.Job.Spawned.Completion.{started}
use storaged.Job.Spawned.Message.{completions}
use storaged.Methods.Waiting.{
  Published, volume_published, logical_volume, returned_error, Waiting, wait_for, on_complete,
  all_published,
}
use storaged.Methods.Waiting.Replies.{first_wanted, reply_of}
use storaged.Methods.Ends.{waits}
use storaged.Methods.Ends.Answered.{program_waits, ended_with}
use storaged.VolumeGroup.Progress.{
  JobObject, update_progress_for_device, is_concerned, with_progress, update_progress-map,
}
use storaged.Daemon.Lifecycle.{
  Daemon, daemon_new, on_manager_ready, on_name_acquired, on_client_appeared,
}
use storaged.Main.{
  Options, manager_ready, name_acquired, client_appears, client_disappears, handle, Event,
  bus_acquired, task, exited, on_event, on_bus_acquired, on_task, after_task, main_loop, main,
}
use storaged.Main.Ends.{debug_stays, last_client_ends}
use storaged.Examples.Jobs.{shown, code_0, talk}
use storaged.Examples.Devices.{with_sda1}

abbrev other_volume : List Published
other_volume = volume_published "vg0" "swap" "/vg0/swap" ∷ []

abbrev new_volume : List Published
new_volume = volume_published "vg0" "data" "/vg0/data" ∷ []

program_waits_example :
    let reports =
      completions shown code_0 "lvcreate"
        (run_events
          (talk ++ child_exited (exit_status 5) (80 ∷ []) [] ∷ [])
          (started none 42)).signals in
    let waiting = all_published other_volume (wait_for (logical_volume "vg0" "data")) in
    (is_success (exit_status 5) ≡ true
      → (w : Waiting) × (waits (on_complete "Error creating logical volume: ") reports waiting
          ≡ some w)
        × ((all_published new_volume w).replies
            ≡ reply_of (first_wanted (logical_volume "vg0" "data") (other_volume ++ new_volume))))
    × (is_success (exit_status 5) ≡ false
        → first_wanted (logical_volume "vg0" "data") other_volume ≡ none
        → (w : Waiting) × (waits (on_complete "Error creating logical volume: ") reports waiting
            ≡ some w)
          × ((all_published new_volume w).replies
              ≡ returned_error (
                  udisks_error failed (
                    "Error creating logical volume: "
                    <> ended_with shown code_0 "lvcreate" (exit_status 5) (79 ∷ 80 ∷ []) (69 ∷ [])))
                ∷ []))
program_waits_example =
    program_waits shown code_0 "Error creating logical volume: " "lvcreate" none 42 talk []
      (exit_status 5) (80 ∷ []) [] (logical_volume "vg0" "data") other_volume new_volume
      ((refl, refl), ((refl, refl), ((refl, refl), tt)))

abbrev emptying : JobObject
emptying = record {
  operation = some "lvm-vg-empty-device";
  objects = "/sdz" ∷ "/sda1" ∷ [];
  progress = 0;
  progress_valid = false;
}

abbrev deleting : JobObject
deleting = record {
  operation = some "lvm-vg-delete";
  objects = "/sda1" ∷ [];
  progress = 0;
  progress_valid = false;
}

update_progress-map_example :
    update_progress_for_device with_sda1 "lvm-vg-empty-device" "/dev/disk/by-id/disk0" 40
      (emptying ∷ deleting ∷ [])
    ≡ map
        (λ j.
          if is_concerned with_sda1 "lvm-vg-empty-device" "/dev/disk/by-id/disk0" j
          then with_progress 40 j
          else j)
        (emptying ∷ deleting ∷ [])
update_progress-map_example =
    update_progress-map with_sda1 "lvm-vg-empty-device" "/dev/disk/by-id/disk0" 40
      (emptying ∷ deleting ∷ [])

abbrev in_debug : Options
in_debug = record { replace = false; debug = true; resources = none }

abbrev as_service : Options
as_service = record { replace = true; debug = false; resources = none }

abbrev one_client : List Event
one_client =
    bus_acquired true ∷ task (manager_ready 7) ∷ task name_acquired ∷ task client_appears ∷ []

debug_stays_example :
    main true
      (some in_debug)
      (bus_acquired true ∷ task client_appears ∷ task client_disappears ∷ [])
    ≢ exited 0
debug_stays_example =
    debug_stays in_debug (bus_acquired true ∷ task client_appears ∷ task client_disappears ∷ []) 0
      refl (tt, (tt, (tt, tt)))

abbrev served : Daemon
served = record {
  name_owner_id = 7;
  name_owned = true;
  num_clients = 1;
  num_jobs = 0;
  persist = false;
  jobs = [];
  job_id = 0;
  finished = 0;
}

last_client_ends_example :
    main true (some as_service) (one_client ++ task client_disappears ∷ []) ≡ exited 0
unfolding main main_loop on_event on_bus_acquired on_task after_task handle daemon_new
    on_manager_ready on_name_acquired on_client_appeared
last_client_ends_example =
    last_client_ends as_service one_client {d = served} refl (tt, (tt, (tt, (tt, tt)))) refl refl
      refl (λ owned. omega arith)
