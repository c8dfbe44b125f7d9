-- ===== src/Objects.antt =====
-- The D-Bus objects of the daemon and what the update of a volume group does to the rest of the
-- daemon, as values: src/volumegroup.c and src/logicalvolume.c call `storage_daemon_publish`,
-- `storage_daemon_unpublish`, `storage_util_trigger_udev` and `update_progress_for_device`.
use storaged.Prelude.{ℕ, String, Option, none, some, List, [], ◌∷◌}

-- A published interface, by the object that implements it. Volumes and groups are told apart by
-- their names, the interfaces of a block by its path.
pub data Thing : Type 0 where
  manager : Thing
  volume_group : String → Thing
  logical_volume : String → String → Thing
  logical_volume_block : String → Thing
  physical_volume_block : String → Thing
  job : ℕ → Thing

pub data Effect : Type 0 where
  publish : String → Thing → Effect
  unpublish : String → Thing → Effect
  trigger_udev : String → Effect
  -- operation, device, and the progress in units of 1 / 100000000
  progress : String → String → ℕ → Effect

-- storage_daemon_publish and _unpublish do nothing for a NULL path.
abbrev pub publish_at : Option String → Thing → List Effect
publish_at none t = []
publish_at (some path) t = publish path t ∷ []

abbrev pub unpublish_at : Option String → Thing → List Effect
unpublish_at none t = []
unpublish_at (some path) t = unpublish path t ∷ []
