-- ===== src/VolumeGroup/Blocks.antt =====
-- `storage_volume_group_update_block` and `update_all_blocks` of src/volumegroup.c: which blocks
-- belong to the group, as its logical or physical volumes.
pub mod Members
pub mod Quiet
use storaged.Prelude.{
  String, Bool, true, false, Option, none, some, List, [], ◌∷◌, ◌++◌, Table, lookup, same_text,
  if◌then◌else◌,
}
use storaged.Variant.{Dict}
use storaged.Objects.{Effect}
use storaged.LogicalVolume.State.{LogicalVolume}
use storaged.Block.{Block, UdevDevice, PhysicalVolume, block_update_lv, block_update_pv}
use storaged.VolumeGroup.State.{VolumeGroup}

abbrev path_of : LogicalVolume → Option String
path_of lv = lv.object_path

-- The volume of the group that a name stands for, with its path.
pub find_volume : Table LogicalVolume → String → Option (Option String)
find_volume lvs name = elim (lookup name lvs) [ none ↦ none | some lv ↦ some lv.object_path ]

-- The first half: the block as a logical volume.
unfoldable pub update_block_lv : VolumeGroup → Option UdevDevice → Block → Block × List Effect
unfolding find_volume
update_block_lv vg none b = (b, [])
update_block_lv vg (some device) b =
    if same_text device.vg_name (some vg.name)
    then block_update_lv (find_volume vg.logical_volumes device.lv_name) b
    else (b, [])

-- The loop over the symlinks, up to the first that names a physical volume.
unfoldable pub find_symlink : Table Dict → List String → Option Dict
find_symlink pvs [] = none
find_symlink pvs (link ∷ links) = elim (lookup link pvs) [
  | some info ↦ some info
  | none ↦ find_symlink pvs links
]

unfoldable pub find_pv_info : Table Dict → Block → Option Dict
unfolding find_symlink
find_pv_info pvs b = elim (lookup b.device pvs) [
  | some info ↦ some info
  | none ↦ find_symlink pvs b.symlinks
]

abbrev group_of : PhysicalVolume → Option String
group_of pv = pv.volume_group

-- A block that is no physical volume loses the interface, if that says it is one of this group.
unfoldable pub release_pv : VolumeGroup → Option PhysicalVolume → Block → Block × List Effect
release_pv vg none b = (b, [])
release_pv vg (some pv) b =
    if same_text pv.volume_group vg.object_path then block_update_pv none b else (b, [])

unfoldable pub update_block_pv : VolumeGroup → Option Dict → Block → Block × List Effect
unfolding release_pv
update_block_pv vg (some info) b = block_update_pv (some (vg.object_path, info)) b
update_block_pv vg none b = release_pv vg b.physical_volume b

-- storage_volume_group_update_block
unfoldable pub update_block : VolumeGroup → Block → Block × List Effect
unfolding update_block_lv find_pv_info update_block_pv
update_block vg b =
    let (b₁, e₁) = update_block_lv vg b.udev b in
    let (b₂, e₂) = update_block_pv vg (find_pv_info vg.physical_volumes b₁) b₁ in (b₂, e₁ ++ e₂)

-- update_all_blocks, over the blocks of the manager
pub update_all_blocks : VolumeGroup → List Block → List Block × List Effect
update_all_blocks vg [] = ([], [])
update_all_blocks vg (b ∷ bs) =
    let (b', e) = update_block vg b in
    let (bs', es) = update_all_blocks vg bs in (b' ∷ bs', e ++ es)
