-- ===== src/VolumeGroup/Blocks/Quiet.antt =====
-- The update of the blocks publishes and unpublishes interfaces of blocks only.
use storaged.Prelude.{
  ◌≡◌, refl, ap, ◌∙◌, String, Bool, Option, none, some, List, [], ◌∷◌, ◌++◌, same_text, Bool-cases,
  inl, inr,
}
use storaged.Variant.{Dict}
use storaged.Objects.{Effect, logical_volume}
use storaged.Block.{
  Block, UdevDevice, PhysicalVolume, block_update_lv, block_update_pv, drop_lv, set_lv, drop_pv,
  set_pv,
}
use storaged.Daemon.Bus.{thing_eq}
use storaged.Daemon.Bus.Follow.{follow, follow-append}
use storaged.VolumeGroup.State.{VolumeGroup}
use storaged.VolumeGroup.Blocks.{
  find_volume, update_block_lv, find_pv_info, release_pv, update_block_pv, update_block,
  update_all_blocks,
}

module _ (group n : String) (s : Bool) where
  -- The effects leave the volume alone.
  abbrev Quiet : List Effect → Type 0
  Quiet es = follow (logical_volume group n) es s ≡ s

  lv-Quiet : (path : Option (Option String)) (b : Block) → Quiet (block_update_lv path b).1
  unfolding block_update_lv drop_lv set_lv thing_eq
  lv-Quiet none b = elim b.logical_volume as (λ x. Quiet (drop_lv x b).1) [
    | none ↦ refl
    | some p ↦ refl
  ]
  lv-Quiet (some path) b = elim b.logical_volume as (λ x. Quiet (set_lv x path b).1) [
    | none ↦ refl
    | some p ↦ refl
  ]

  pv-Quiet : (info : Option (Option String × Dict)) (b : Block) → Quiet (block_update_pv info b).1
  unfolding block_update_pv drop_pv set_pv thing_eq
  pv-Quiet none b = elim b.physical_volume as (λ x. Quiet (drop_pv x b).1) [
    | none ↦ refl
    | some p ↦ refl
  ]
  pv-Quiet (some (path, info)) b = elim b.physical_volume as (λ x. Quiet (set_pv x path info b).1) [
    | none ↦ refl
    | some p ↦ refl
  ]

  block_lv-Quiet :
      (vg : VolumeGroup) (device : Option UdevDevice) (b : Block)
      → Quiet (update_block_lv vg device b).1
  unfolding update_block_lv
  block_lv-Quiet vg none b = refl
  block_lv-Quiet vg (some device) b = elim (Bool-cases (same_text device.vg_name (some vg.name))) [
    | inl ours ↦ rw ours (lv-Quiet (find_volume vg.logical_volumes device.lv_name) b)
    | inr other ↦ rw other refl
  ]

  release-Quiet :
      (vg : VolumeGroup) (pv : Option PhysicalVolume) (b : Block) → Quiet (release_pv vg pv b).1
  unfolding release_pv
  release-Quiet vg none b = refl
  release-Quiet vg (some pv) b = elim (Bool-cases (same_text pv.volume_group vg.object_path)) [
    | inl ours ↦ rw ours (pv-Quiet none b)
    | inr other ↦ rw other refl
  ]

  block_pv-Quiet :
      (vg : VolumeGroup) (info : Option Dict) (b : Block) → Quiet (update_block_pv vg info b).1
  unfolding update_block_pv
  block_pv-Quiet vg none b = release-Quiet vg b.physical_volume b
  block_pv-Quiet vg (some info) b = pv-Quiet (some (vg.object_path, info)) b

  both-Quiet : (xs ys : List Effect) → Quiet xs → Quiet ys → Quiet (xs ++ ys)
  both-Quiet xs ys hx hy =
      follow-append (logical_volume group n) xs ys s
      ∙ ap (follow (logical_volume group n) ys) hx
      ∙ hy

  update_block-Quiet : (vg : VolumeGroup) (b : Block) → Quiet (update_block vg b).1
  unfolding update_block
  update_block-Quiet vg b =
      let first = update_block_lv vg b.udev b in
      both-Quiet first.1 (update_block_pv vg (find_pv_info vg.physical_volumes first.0) first.0).1
        (block_lv-Quiet vg b.udev b)
        (block_pv-Quiet vg (find_pv_info vg.physical_volumes first.0) first.0)

  pub update_all_blocks-Quiet :
      (vg : VolumeGroup) (bs : List Block) → Quiet (update_all_blocks vg bs).1
  unfolding update_all_blocks
  update_all_blocks-Quiet vg [] = refl
  update_all_blocks-Quiet vg (b ∷ bs) =
      both-Quiet (update_block vg b).1 (update_all_blocks vg bs).1 (update_block-Quiet vg b)
        (update_all_blocks-Quiet vg bs)
