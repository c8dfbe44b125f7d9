-- ===== src/Properties/Construction.antt =====
-- The objects that src/*.c makes by g_object_new, with the properties that it gives them.
use storaged.Prelude.{ℕ, String, ◌≡◌, refl, Bool, true, false, Option, none, some, List, [], ◌∷◌}
use storaged.Properties.Values.{object, strv, text, boolean, uint, pointer}
use storaged.Properties.Class.{Outcome, done, then_do, set_all}
use storaged.Properties.Daemon.{
  DaemonFields, daemon_class, daemon_init, prop_connection, prop_resource_dir, prop_replace_name,
  prop_persist, daemon_set_property,
}
use storaged.Properties.Job.{
  JobFields, job_class, job_init, job_constructed, prop_cancellable, job_set_property,
}
use storaged.Properties.Spawned.{
  SpawnedFields, spawned_job_class, spawned_fields_new, prop_argv, prop_input_string,
  prop_run_as_uid, prop_run_as_euid, spawned_job_set_property,
}
use storaged.Properties.Threaded.{
  ThreadedFields, threaded_job_class, threaded_fields_new, prop_job_func, prop_user_data,
  prop_user_data_free_func, threaded_job_set_property,
}

-- g_object_new of on_bus_acquired, with the options of the command line, given whether there is a daemon
-- already
pub new_daemon : Bool → ℕ → Option String → Bool → Bool → Outcome DaemonFields
new_daemon is_there connection resources replace debug = then_do (daemon_init is_there) (
    set_all daemon_class (
      (prop_connection, object (some connection))
      ∷ (prop_resource_dir, text resources)
      ∷ (prop_replace_name, boolean replace)
      ∷ (prop_persist, boolean debug)
      ∷ []))

-- The part of a job that StorageJob has: its "cancellable", `fresh` if it is made here. `next` is the
-- id that GLib gives the next handler.
pub new_job : ℕ → ℕ → Option ℕ → Outcome JobFields
new_job next fresh cancellable =
    then_do (set_all job_class ((prop_cancellable, object cancellable) ∷ []) (job_init next))
      (λ j. done (job_constructed fresh j))

-- storage_spawned_job_new; `none` is a NULL argv.
pub spawned_job_new :
    ℕ
    → ℕ
    → Option (List String)
    → Option String
    → ℕ
    → ℕ
    → Option ℕ
    → Option (Outcome (SpawnedFields × JobFields))
unfolding new_job
spawned_job_new next fresh none input uid euid cancellable = none
spawned_job_new next fresh (some argv) input uid euid cancellable = some (
    then_do
      (set_all spawned_job_class
        ((prop_argv, strv (some argv))
          ∷ (prop_input_string, text input)
          ∷ (prop_run_as_uid, uint uid)
          ∷ (prop_run_as_euid, uint euid)
          ∷ [])
        spawned_fields_new)
      (λ s. then_do (new_job next fresh cancellable) (λ j. done (s, j))))

-- storage_threaded_job_new
pub threaded_job_object :
    ℕ → ℕ → Option ℕ → Option ℕ → Option ℕ → Option ℕ → Outcome (ThreadedFields × JobFields)
unfolding new_job
threaded_job_object next fresh func user_data free cancellable =
    then_do
      (set_all threaded_job_class
        ((prop_job_func, pointer func)
          ∷ (prop_user_data, pointer user_data)
          ∷ (prop_user_data_free_func, pointer free)
          ∷ [])
        threaded_fields_new)
      (λ t. then_do (new_job next fresh cancellable) (λ j. done (t, j)))

abbrev or_fresh : ℕ → Option ℕ → Option ℕ
or_fresh fresh none = some fresh
or_fresh fresh (some c) = some c

new_job-given :
    (next fresh : ℕ) (cancellable : Option ℕ)
    → new_job next fresh cancellable
      ≡ done (record {
        cancellable = or_fresh fresh cancellable;
        estimate = record { auto_estimate = false; handler_id = 0; has_samples = false };
        next_id = next;
      })
unfolding new_job set_all job_set_property job_init job_constructed
new_job-given next fresh none = refl
new_job-given next fresh (some c) = refl

abbrev idle_job : ℕ → Option ℕ → JobFields
idle_job next cancellable = record {
  cancellable = cancellable;
  estimate = record { auto_estimate = false; handler_id = 0; has_samples = false };
  next_id = next;
}

-- Every object is made without a failed assertion, and each field holds the argument it is for: the
-- four options of a daemon's process, which may replace another owner of its name exactly with
-- --replace; the arguments of a spawned job that has a vector; those of a threaded job. A job has the
-- cancellable that it was given, or one of its own.
pub objects_hold_arguments :
    (next fresh connection uid euid : ℕ) (argv : List String) (input resources : Option String)
    (replace debug : Bool) (func user_data free cancellable : Option ℕ)
    → (new_daemon false connection resources replace debug
        ≡ done (record {
          connection = some connection;
          object_manager = none;
          resource_dir = resources;
          name_flags = record { allow_replacement = true; replace = replace };
          persist = debug;
        }))
      × (spawned_job_new next fresh (some argv) input uid euid cancellable
          ≡ some (
              done (
                record {
                  argv = some argv;
                  input_string = input;
                  run_as_uid = uid;
                  run_as_euid = euid;
                },
                idle_job next (or_fresh fresh cancellable),
              )))
      × (threaded_job_object next fresh func user_data free cancellable
          ≡ done (
            record { job_func = func; user_data = user_data; user_data_free_func = free },
            idle_job next (or_fresh fresh cancellable),
          ))
unfolding new_daemon spawned_job_new threaded_job_object set_all daemon_init daemon_set_property
    spawned_job_set_property threaded_job_set_property
objects_hold_arguments next fresh connection uid euid argv input resources replace debug func
      user_data free cancellable =
    let given = new_job-given next fresh cancellable in (refl, rw given refl, rw given refl)
