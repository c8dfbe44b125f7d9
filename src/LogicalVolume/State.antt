-- ===== src/LogicalVolume/State.antt =====
-- The object of src/logicalvolume.c: its construction and disposal.
use storaged.Prelude.{ℕ, String, Bool, true, false, Option, none, List}
use storaged.Objects.{Effect, logical_volume, unpublish_at}

-- StorageLogicalVolume with the D-Bus properties of its skeleton. A ratio is a number of
-- 1 / 100000000, and a text is `none` while it is NULL. The volume group stands by its name.
pub record LogicalVolume : Type 0 where
  pub name : String
  pub group : String
  pub object_path : Option String
  pub needs_publish : Bool
  pub needs_udev_hack : Bool
  pub uuid : Option String
  pub size : ℕ
  pub type_ : Option String
  pub active : Bool
  pub data_allocated_ratio : ℕ
  pub metadata_allocated_ratio : ℕ
  pub thin_pool : Option String
  pub origin : Option String

-- storage_logical_volume_new, with storage_logical_volume_init
unfoldable pub logical_volume_new : String → String → LogicalVolume
logical_volume_new group name = record {
  name = name;
  group = group;
  object_path = none;
  needs_publish = true;
  needs_udev_hack = true;
  uuid = none;
  size = 0;
  type_ = none;
  active = false;
  data_allocated_ratio = 0;
  metadata_allocated_ratio = 0;
  thin_pool = none;
  origin = none;
}

-- storage_logical_volume_dispose. An object in whose place another has been exported since has lost its
-- path in GLib; that is not followed here, so such a volume is unpublished once more.
unfoldable pub logical_volume_dispose : LogicalVolume → LogicalVolume × List Effect
logical_volume_dispose lv = (
  record lv { needs_publish = false },
  unpublish_at lv.object_path (logical_volume lv.group lv.name),
)
