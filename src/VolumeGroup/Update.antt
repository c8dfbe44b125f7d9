-- ===== src/VolumeGroup/Update.antt =====
-- `update_with_variant` of src/volumegroup.c, which runs when the helper's report on the group has
-- come or has failed, and `storage_volume_group_dispose`.
pub mod Volumes
pub mod Told
pub mod Outcome
pub mod Mirror
pub mod Life
pub mod Kept
pub mod Announced
use storaged.Prelude.{
  ℕ, String, ◌≡◌, refl, Bool, true, false, not, ◌&&◌, ◌||◌, Option, none, some, List, [], ◌∷◌, ◌++◌,
  Table, lookup, insert, retain, any, str_eq, if◌then◌else◌, is_some, map,
}
use storaged.System.{Result, ok, err}
use storaged.Variant.{Dict, Info, lookup_str, lookup_u64, info_dicts, info_eq}
use storaged.Util.Name.{lv_is_pvmove_volume, lv_is_visible}
use storaged.Util.ObjectPath.{build_object_path}
use storaged.Objects.{Effect, progress, publish_at, unpublish_at, volume_group}
use storaged.LogicalVolume.State.{LogicalVolume, logical_volume_new, logical_volume_dispose}
use storaged.LogicalVolume.Update.{logical_volume_update, is_thin, or_keep}
use storaged.Block.{Block}
use storaged.VolumeGroup.State.{VolumeGroup, volume_group_update_props}
use storaged.VolumeGroup.Blocks.{update_all_blocks}

-- The progress of pvmove, if the volume is one of its and both properties are there.
unfoldable pub progress_of : Bool → Option String → Option ℕ → List Effect
progress_of true (some move_pv) (some percent) = progress "lvm-vg-empty-device" move_pv percent ∷ []
progress_of _ _ _ = []

-- update_operations; it asks for polling only where `lv_is_pvmove_volume name`.
pub update_operations : Option String → Dict → List Effect
unfolding progress_of
update_operations name info =
    progress_of (lv_is_pvmove_volume name) (lookup_str "move_pv" info)
      (lookup_u64 "copy_percent" info)

-- The variables of the loop over the logical volumes: `seen` is new_lvs.
pub record Pass : Type 0 where
  pub lvs : Table LogicalVolume
  pub seen : List String
  pub polling : Bool
  pub effects : List Effect

abbrev pub found_or_new : Option LogicalVolume → String → String → LogicalVolume
found_or_new none group name = logical_volume_new group name
found_or_new (some lv) group name = lv

abbrev pub existing_or_new : Table LogicalVolume → String → String → LogicalVolume
existing_or_new lvs group name = found_or_new (lookup name lvs) group name

-- A volume that is visible is created if it is new, and updated.
pub update_visible : VolumeGroup → Option String → Dict → Pass → Pass
update_visible vg none info p = p
update_visible vg (some name) info p =
    let (lv, events) =
      logical_volume_update p.lvs vg.name vg.object_path info
        (existing_or_new p.lvs vg.name name) in
    record p {
      lvs = insert name lv p.lvs;
      seen = name ∷ p.seen;
      polling = p.polling || is_thin info;
      effects = p.effects ++ events;
    }

-- One round of the loop. The helper gives every volume a name; in a report without one the source reads
-- `name` before anything has set it, and here that is a NULL.
pub update_entry : VolumeGroup → Dict → Pass → Pass
unfolding update_visible
update_entry vg info p =
    let name = lookup_str "name" info in
    let q = record p {
      polling = p.polling || lv_is_pvmove_volume name;
      effects = p.effects ++ update_operations name info;
    } in
    if lv_is_visible name then update_visible vg name info q else q

pub update_entries : VolumeGroup → List Dict → Pass → Pass
update_entries vg [] p = p
update_entries vg (info ∷ infos) p = update_entries vg infos (update_entry vg info p)

-- The volumes that have gone are disposed of, which unpublishes them.
pub dispose_gone : (String → Bool) → Table LogicalVolume → List Effect
dispose_gone keep [] = []
dispose_gone keep ((name, lv) ∷ lvs) =
    let rest = dispose_gone keep lvs in
    if keep name then rest else (logical_volume_dispose lv).1 ++ rest

pub read_pvs : List Dict → Table Dict → Table Dict
read_pvs [] pvs = pvs
read_pvs (info ∷ infos) pvs =
    read_pvs infos (elim (lookup_str "device" info) [ none ↦ pvs | some d ↦ insert d info pvs ])

abbrev pub list_of : Option (List Dict) → List Dict
list_of none = []
list_of (some ds) = ds

-- What comes of an update: the group, the blocks of the manager, the effects in order, and whether
-- `done` was called.
pub record Updated : Type 0 where
  pub group : VolumeGroup
  pub blocks : List Block
  pub effects : List Effect
  pub done_called : Bool

abbrev lvm_path : String
lvm_path = "/org/freedesktop/UDisks2/lvm"

-- Publishing the group after its first report, be that an error
unfoldable pub publish_group : VolumeGroup → VolumeGroup × List Effect
publish_group vg =
    let path = build_object_path (some lvm_path) (vg.name ∷ []) in
    if vg.need_publish
    then (
      record vg { need_publish = false; object_path = or_keep path vg.object_path },
      publish_at path (volume_group vg.name),
    )
    else (vg, [])

abbrev pub start_pass : VolumeGroup → Pass
start_pass vg = record { lvs = vg.logical_volumes; seen = []; polling = false; effects = [] }

-- The loop over the volumes of a report
pub pass_of : VolumeGroup → Info → Pass
unfolding update_entries
pass_of vg info = update_entries vg (list_of (info_dicts "lvs" info)) (start_pass vg)

-- From `self->info = g_variant_ref (info)` on
unfoldable pub take_info : VolumeGroup → Info → List Block → List Effect → Updated
unfolding pass_of read_pvs
take_info vg info blocks before =
    let p = pass_of vg info in
    let keep = λ (name : String). any (str_eq name) p.seen in
    let vg' = record vg {
      info = some info;
      logical_volumes = retain keep p.lvs;
      physical_volumes = read_pvs (list_of (info_dicts "pvs" info)) [];
      needs_polling = p.polling;
    } in
    let (blocks', told) = update_all_blocks vg' blocks in
    record {
      group = vg';
      blocks = blocks';
      effects = before ++ p.effects ++ dispose_gone keep p.lvs ++ told;
      done_called = true;
    }

unfoldable pub is_unchanged : Option Info → Info → Bool
is_unchanged none info = false
is_unchanged (some old) info = info_eq old info

abbrev pub stop_at : VolumeGroup → List Block → List Effect → Updated
stop_at vg blocks effects = record {
  group = vg;
  blocks = blocks;
  effects = effects;
  done_called = false;
}

-- update_with_variant
unfoldable pub update_with_variant : Result Info → VolumeGroup → List Block → Updated
unfolding publish_group take_info is_unchanged
update_with_variant (err e) vg blocks =
    let (published, before) = publish_group vg in stop_at published blocks before
update_with_variant (ok info) vg blocks =
    let (published, before) = publish_group (volume_group_update_props info vg) in
    if is_unchanged published.info info
    then stop_at published blocks before
    else take_info published info blocks before

-- storage_volume_group_dispose
pub volume_group_dispose : VolumeGroup → List Block → Updated
volume_group_dispose vg blocks =
    let vg' = record vg {
      need_publish = false;
      logical_volumes = [];
      physical_volumes = [];
      info = none;
    } in
    let (blocks', told) = update_all_blocks vg' blocks in
    stop_at vg' blocks' (
      dispose_gone (λ name. false) vg.logical_volumes
      ++ told
      ++ unpublish_at vg.object_path (volume_group vg.name))
