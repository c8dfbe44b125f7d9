-- ===== src/Examples/Classes.antt =====
-- The classes of the program with a bus that knows one group, and the objects of a run of it.
use storaged.Prelude.{ℕ, String, ◌≡◌, true, false, Option, none, some, [], ◌∷◌, ◌==◌, if◌then◌else◌}
use storaged.Properties.Class.{Agrees, done}
use storaged.Properties.Daemon.{daemon_class}
use storaged.Properties.Job.{job_class}
use storaged.Properties.Spawned.{spawned_job_class}
use storaged.Properties.Threaded.{threaded_job_class}
use storaged.Properties.Group.{volume_group_class}
use storaged.Properties.Volume.{logical_volume_class}
use storaged.Properties.Block.{block_class}
use storaged.Properties.Agreement.{property_functions_agree}
use storaged.Properties.Construction.{
  new_daemon, spawned_job_new, threaded_job_object, objects_hold_arguments,
}

abbrev path_of : ℕ → Option String
path_of group = if group == 16 then some "/org/freedesktop/UDisks2/lvm/vg0" else none

property_functions_agree_example :
    Agrees daemon_class
    × Agrees job_class
    × Agrees spawned_job_class
    × Agrees threaded_job_class
    × Agrees volume_group_class
    × Agrees (logical_volume_class path_of)
    × Agrees block_class
property_functions_agree_example = property_functions_agree path_of

objects_hold_arguments_example :
    (new_daemon false 16 (some "/tmp/res") true false
      ≡ done (record {
        connection = some 16;
        object_manager = none;
        resource_dir = some "/tmp/res";
        name_flags = record { allow_replacement = true; replace = true };
        persist = false;
      }))
    × (spawned_job_new 1 32 (some ("lvremove" ∷ "vg0" ∷ [])) (some "y") 0 1000 none
        ≡ some (
            done (
              record {
                argv = some ("lvremove" ∷ "vg0" ∷ []);
                input_string = some "y";
                run_as_uid = 0;
                run_as_euid = 1000;
              },
              record {
                cancellable = some 32;
                estimate = record { auto_estimate = false; handler_id = 0; has_samples = false };
                next_id = 1;
              },
            )))
    × (threaded_job_object 1 32 (some 48) (some 64) none none
        ≡ done (
          record { job_func = some 48; user_data = some 64; user_data_free_func = none },
          record {
            cancellable = some 32;
            estimate = record { auto_estimate = false; handler_id = 0; has_samples = false };
            next_id = 1;
          },
        ))
objects_hold_arguments_example =
    objects_hold_arguments 1 32 16 0 1000 ("lvremove" ∷ "vg0" ∷ []) (some "y") (some "/tmp/res")
      true false (some 48) (some 64) none none
