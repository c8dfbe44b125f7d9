-- ===== src/VolumeGroup/Blocks/Members.antt =====
-- Which blocks say that they belong to a volume group, after src/volumegroup.c has updated them.
use storaged.Prelude.{
  String, ◌≡◌, refl, Bool, true, false, Option, none, some, Table, same_text, if◌then◌else◌,
  is_some, arith, eq_refl, lookup, any, ◌||◌, List, [], ◌∷◌, ap, ◌∙◌, Option-cases, inl, inr,
}
use storaged.LogicalVolume.State.{LogicalVolume}
use storaged.Variant.{Dict}
use storaged.Block.{Block, UdevDevice, PhysicalVolume, block_update_lv, block_update_pv}
use storaged.VolumeGroup.State.{VolumeGroup}
use storaged.VolumeGroup.Blocks.{
  find_symlink, find_volume, update_block_lv, find_pv_info, update_block_pv, update_block,
}

same_text_refl : (o : Option String) → same_text o o ≡ true
same_text_refl none = refl
same_text_refl (some s) = eq_refl s

-- The block shows the physical volume interface, and that names the group's path.
abbrev claims_pv : Option PhysicalVolume → Option String → Bool
claims_pv none path = false
claims_pv (some pv) path = same_text pv.volume_group path

abbrev pub claims : VolumeGroup → Block → Bool
claims vg b = claims_pv b.physical_volume vg.object_path

-- What the block shows of a volume that is looked up: its path, if it is there
abbrev pub path_shown : Option LogicalVolume → Option (Option String)
path_shown none = none
path_shown (some lv) = some lv.object_path

-- What a block shows after its update by the group: the volume that udev names, if it is one of the
-- group, and otherwise what it showed before.
abbrev pub shown_after :
    VolumeGroup → Option UdevDevice → Option (Option String) → Option (Option String)
shown_after vg none before = before
shown_after vg (some device) before =
    if same_text device.vg_name (some vg.name)
    then path_shown (lookup device.lv_name vg.logical_volumes)
    else before

find_volume-path_shown :
    (lvs : Table LogicalVolume) (name : String)
    → find_volume lvs name ≡ path_shown (lookup name lvs)
unfolding find_volume
find_volume-path_shown lvs name = elim (Option-cases (lookup name lvs)) [
  | inl missing ↦ rw (missing, find_volume) refl
  | inr (lv, there) ↦ rw (there, find_volume) refl
]

lv-update_block_lv :
    (vg : VolumeGroup) (device : Option UdevDevice) (b : Block)
    → (update_block_lv vg device b).0.logical_volume ≡ shown_after vg device b.logical_volume
unfolding update_block_lv block_update_lv
lv-update_block_lv vg none b = refl
lv-update_block_lv vg (some device) b =
    ground (arith, find_volume-path_shown vg.logical_volumes device.lv_name)

pv-update_block_lv :
    (vg : VolumeGroup) (b : Block)
    → let c = (update_block_lv vg b.udev b).0 in
      (c.physical_volume ≡ b.physical_volume) × (c.device ≡ b.device) × (c.symlinks ≡ b.symlinks)
unfolding update_block_lv block_update_lv
pv-update_block_lv vg b = (ground arith, ground arith, ground arith)

claims-update_block_pv :
    (vg : VolumeGroup) (found : Option Dict) (b : Block)
    → let c = (update_block_pv vg found b).0 in
      (claims vg c ≡ is_some found) × (c.logical_volume ≡ b.logical_volume)
unfolding update_block_pv block_update_pv
claims-update_block_pv vg none b = (ground arith, ground arith)
claims-update_block_pv vg (some info) b =
    (ground (arith, same_text_refl vg.object_path), ground arith)

-- A block whose physical volume interface names another group keeps it, if this group does not know
-- the block.
pub foreign-update_block :
    (vg : VolumeGroup) (b : Block)
    → claims vg b ≡ false
    → find_pv_info vg.physical_volumes b ≡ none
    → (update_block vg b).0.physical_volume ≡ b.physical_volume
unfolding update_block update_block_lv update_block_pv find_pv_info block_update_lv
foreign-update_block vg b h e = ground arith

find_pv_info-congr :
    (pvs : Table Dict) (b c : Block)
    → c.device ≡ b.device
    → c.symlinks ≡ b.symlinks
    → find_pv_info pvs c ≡ find_pv_info pvs b
unfolding find_pv_info
find_pv_info-congr pvs b c d s = rw (d, s)

-- The device, or one of the symlinks, is a physical volume of the group.
abbrev pub is_pv_of : VolumeGroup → Block → Bool
is_pv_of vg b =
    is_some (lookup b.device vg.physical_volumes)
    || any (λ link. is_some (lookup link vg.physical_volumes)) b.symlinks

find_symlink-any :
    (pvs : Table Dict) (links : List String)
    → is_some (find_symlink pvs links) ≡ any (λ link. is_some (lookup link pvs)) links
unfolding find_symlink
find_symlink-any pvs [] = refl
find_symlink-any pvs (link ∷ links) = ground (arith, find_symlink-any pvs links)

find_pv_info-is_pv_of :
    (vg : VolumeGroup) (b : Block) → is_some (find_pv_info vg.physical_volumes b) ≡ is_pv_of vg b
unfolding find_pv_info
find_pv_info-is_pv_of vg b = ground (arith, find_symlink-any vg.physical_volumes b.symlinks)

-- After its update a block names the group as that of its physical volume exactly when its device or
-- one of its symlinks is in the group's table of physical volumes. If udev says that it is a logical
-- volume of the group, it shows the path of the volume that the group has under the name that udev
-- gives, and no path if there is none; otherwise its logical volume stays as it was.
pub members-update_block :
    (vg : VolumeGroup) (b : Block)
    → let c = (update_block vg b).0 in
      (claims vg c ≡ is_pv_of vg b) × (c.logical_volume ≡ shown_after vg b.udev b.logical_volume)
unfolding update_block
members-update_block vg b =
    let (p, d, s) = pv-update_block_lv vg b in
    let first = (update_block_lv vg b.udev b).0 in
    let found = find_pv_info vg.physical_volumes first in
    let (c, k) = claims-update_block_pv vg found first in
    (
      c
          ∙ ap is_some (find_pv_info-congr vg.physical_volumes b first d s)
          ∙ find_pv_info-is_pv_of vg b,
      k ∙ lv-update_block_lv vg b.udev b,
    )
