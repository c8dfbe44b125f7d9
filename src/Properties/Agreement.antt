-- ===== src/Properties/Agreement.antt =====
-- The property functions of all the classes of src/*.c together.
use storaged.Prelude.{ℕ, String, Option}
use storaged.Properties.Class.{Agrees}
use storaged.Properties.Daemon.{daemon_class, daemon_class-Agrees}
use storaged.Properties.Job.{job_class, job_class-Agrees}
use storaged.Properties.Spawned.{spawned_job_class, spawned_job_class-Agrees}
use storaged.Properties.Threaded.{threaded_job_class, threaded_job_class-Agrees}
use storaged.Properties.Group.{volume_group_class, volume_group_class-Agrees}
use storaged.Properties.Volume.{logical_volume_class, logical_volume_class-Agrees}
use storaged.Properties.Block.{block_class, block_class-Agrees}

-- The property functions of the seven classes agree with what their class_init installs, whatever
-- paths the bus knows of the groups. get_property has a case for exactly the properties that are
-- readable, and gives values of the installed types; set_property has one for exactly those that are
-- writable. A value of the installed type that was set is the value then read, unless an assertion
-- failed while it was set.
pub property_functions_agree :
    (path_of : ℕ → Option String)
    → Agrees daemon_class
      × Agrees job_class
      × Agrees spawned_job_class
      × Agrees threaded_job_class
      × Agrees volume_group_class
      × Agrees (logical_volume_class path_of)
      × Agrees block_class
property_functions_agree path_of = (
  daemon_class-Agrees,
  job_class-Agrees,
  spawned_job_class-Agrees,
  threaded_job_class-Agrees,
  volume_group_class-Agrees,
  logical_volume_class-Agrees path_of,
  block_class-Agrees,
)
