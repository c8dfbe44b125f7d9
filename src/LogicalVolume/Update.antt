-- ===== src/LogicalVolume/Update.antt =====
-- `storage_logical_volume_update` of src/logicalvolume.c, part by part.
pub mod Published
use Prim.Native.String.{len, slice}
use storaged.Prelude.{
  ℕ, ◌^◌, ◌+◌, String, Bool, false, ◌&&◌, Option, none, some, List, [], ◌∷◌, ◌++◌, Table, lookup,
  ltb, str_eq, if◌then◌else◌,
}
use storaged.Variant.{Dict, lookup_str, lookup_u64}
use storaged.Util.ObjectPath.{build_object_path}
use storaged.Objects.{Effect, trigger_udev, logical_volume, publish_at}
use storaged.LogicalVolume.State.{LogicalVolume}

abbrev pub or_else {ℓ} : {A : Type ℓ} → Option A → A → A
or_else none d = d
or_else (some a) d = a

abbrev pub or_keep {ℓ} : {A : Type ℓ} → Option A → Option A → Option A
or_keep none old = old
or_keep (some a) old = some a

-- str[i]
abbrev byte_is : String → ℕ → String → Bool
byte_is s i c = str_eq (slice s i (i + 1)) c

-- The bytes of lv_attr count only if there are more than six.
abbrev attr_is : Option String → ℕ → String → Bool
attr_is none i c = false
attr_is (some s) i c = ltb 6 (len s) && byte_is s i c

-- target_type == 't'
pub is_thin : Dict → Bool
is_thin info = attr_is (lookup_str "lv_attr" info) 6 "t"

volume_type : Dict → String
unfolding is_thin
volume_type info =
    if is_thin info && attr_is (lookup_str "lv_attr" info) 0 "t" then "pool" else "block"

is_active : Dict → Bool
is_active info = attr_is (lookup_str "lv_attr" info) 4 "a"

-- A percentage that is negative as an int64_t is left out.
percent_or : Option ℕ → ℕ → ℕ
percent_or none old = old
percent_or (some n) old = if ltb n (2 ^ 63) then n else old

path_of_lv : Option LogicalVolume → Option String
path_of_lv none = some "/"
path_of_lv (some lv) = lv.object_path

-- The object path of the volume that the key names, "/" if there is none.
related_path : Table LogicalVolume → Option String → Option String
unfolding path_of_lv
related_path lvs none = some "/"
related_path lvs (some name) = if str_eq name "" then some "/" else path_of_lv (lookup name lvs)

unfoldable pub set_props : Table LogicalVolume → String → Dict → LogicalVolume → LogicalVolume
unfolding volume_type is_active percent_or related_path
set_props lvs group info lv = record lv {
  uuid = or_keep (lookup_str "uuid" info) lv.uuid;
  size = or_else (lookup_u64 "size" info) lv.size;
  type_ = some (volume_type info);
  active = is_active info;
  data_allocated_ratio = percent_or (lookup_u64 "data_percent" info) lv.data_allocated_ratio;
  metadata_allocated_ratio =
      percent_or (lookup_u64 "metadata_percent" info) lv.metadata_allocated_ratio;
  thin_pool = related_path lvs (lookup_str "pool_lv" info);
  origin = related_path lvs (lookup_str "origin" info);
  group = group;
}

-- The extra udev event, at the first update that knows the device file.
unfoldable pub udev_hack : Option String → LogicalVolume → LogicalVolume × List Effect
udev_hack none lv = (lv, [])
udev_hack (some dev_file) lv =
    if lv.needs_udev_hack
    then (record lv { needs_udev_hack = false }, trigger_udev dev_file ∷ [])
    else (lv, [])

-- The first update publishes the volume, under the path of its group.
unfoldable pub publish_volume : Option String → LogicalVolume → LogicalVolume × List Effect
publish_volume group_path lv =
    let path = build_object_path group_path (lv.name ∷ []) in
    if lv.needs_publish
    then (
      record lv { needs_publish = false; object_path = or_keep path lv.object_path },
      publish_at path (logical_volume lv.group lv.name),
    )
    else (lv, [])

-- storage_logical_volume_update, given the volumes, the name and the path of the group. Whether it
-- sets *needs_polling_ret is `is_thin info`.
unfoldable pub logical_volume_update :
    Table LogicalVolume
    → String
    → Option String
    → Dict
    → LogicalVolume
    → LogicalVolume × List Effect
unfolding set_props udev_hack publish_volume
logical_volume_update lvs group group_path info lv =
    let (hacked, events) = udev_hack (lookup_str "lv_path" info) (set_props lvs group info lv) in
    let (published, announced) = publish_volume group_path hacked in
    (published, events ++ announced)
