-- ===== src/Manager/Blocks/Kept.antt =====
-- A volume group changes nothing of what udisksd says of a block that src/manager.c keeps an overlay for.
use storaged.Prelude.{
  String, ◌≡◌, refl, ◌∙◌, Option, none, some, [], ◌∷◌, Table, same_text, Bool-cases, inl, inr,
}
use storaged.Variant.{Dict}
use storaged.Block.{
  Block, UdevDevice, PhysicalVolume, block_update_lv, block_update_pv, drop_lv, set_lv, drop_pv,
  set_pv,
}
use storaged.VolumeGroup.State.{VolumeGroup}
use storaged.VolumeGroup.Blocks.{
  find_volume, find_pv_info, update_block, update_block_lv, update_block_pv, release_pv,
}
use storaged.Manager.Blocks.{RealBlock, update_block_from_all}

-- The block of udisksd that an overlay is for
abbrev pub real_of : Block → RealBlock
real_of b = record { path = b.object_path; device = b.device; symlinks = b.symlinks; udev = b.udev }

keep-lv :
    (path : Option (Option String)) (b : Block) → real_of (block_update_lv path b).0 ≡ real_of b
unfolding block_update_lv drop_lv set_lv
keep-lv none b = elim b.logical_volume as (λ x. real_of (drop_lv x b).0 ≡ real_of b) [
  | none ↦ refl
  | some p ↦ refl
]
keep-lv (some path) b = elim b.logical_volume as (λ x. real_of (set_lv x path b).0 ≡ real_of b) [
  | none ↦ refl
  | some p ↦ refl
]

keep-pv :
    (info : Option (Option String × Dict)) (b : Block)
    → real_of (block_update_pv info b).0 ≡ real_of b
unfolding block_update_pv drop_pv set_pv
keep-pv none b = elim b.physical_volume as (λ x. real_of (drop_pv x b).0 ≡ real_of b) [
  | none ↦ refl
  | some p ↦ refl
]
keep-pv (some (path, info)) b =
    elim b.physical_volume as (λ x. real_of (set_pv x path info b).0 ≡ real_of b) [
      | none ↦ refl
      | some p ↦ refl
    ]

keep-block_lv :
    (vg : VolumeGroup) (device : Option UdevDevice) (b : Block)
    → real_of (update_block_lv vg device b).0 ≡ real_of b
unfolding update_block_lv
keep-block_lv vg none b = refl
keep-block_lv vg (some device) b = elim (Bool-cases (same_text device.vg_name (some vg.name))) [
  | inl ours ↦ rw ours (keep-lv (find_volume vg.logical_volumes device.lv_name) b)
  | inr other ↦ rw other refl
]

keep-release :
    (vg : VolumeGroup) (pv : Option PhysicalVolume) (b : Block)
    → real_of (release_pv vg pv b).0 ≡ real_of b
unfolding release_pv
keep-release vg none b = refl
keep-release vg (some pv) b = elim (Bool-cases (same_text pv.volume_group vg.object_path)) [
  | inl ours ↦ rw ours (keep-pv none b)
  | inr other ↦ rw other refl
]

keep-block_pv :
    (vg : VolumeGroup) (info : Option Dict) (b : Block)
    → real_of (update_block_pv vg info b).0 ≡ real_of b
unfolding update_block_pv
keep-block_pv vg none b = keep-release vg b.physical_volume b
keep-block_pv vg (some info) b = keep-pv (some (vg.object_path, info)) b

-- A group changes nothing of what udisksd says of a block.
pub keep-update_block : (vg : VolumeGroup) (b : Block) → real_of (update_block vg b).0 ≡ real_of b
unfolding update_block
keep-update_block vg b =
    let first = (update_block_lv vg b.udev b).0 in
    keep-block_pv vg (find_pv_info vg.physical_volumes first) first ∙ keep-block_lv vg b.udev b

pub keep-all :
    (vgs : Table VolumeGroup) (b : Block) → real_of (update_block_from_all vgs b).0 ≡ real_of b
unfolding update_block_from_all
keep-all [] b = refl
keep-all ((name, vg) ∷ vgs) b = keep-all vgs (update_block vg b).0 ∙ keep-update_block vg b
