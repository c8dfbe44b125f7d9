-- ===== src/VolumeGroup/Update/Announced.antt =====
-- The publication of a group of src/volumegroup.c, which leaves its logical volumes alone.
use storaged.Prelude.{◌≡◌, refl, String, Bool, false, Option, none, some, Bool-cases, inl, inr}
use storaged.Objects.{logical_volume, volume_group, unpublish_at, publish_at}
use storaged.Daemon.Bus.{thing_eq}
use storaged.Daemon.Bus.Follow.{follow}
use storaged.VolumeGroup.State.{VolumeGroup}
use storaged.VolumeGroup.Update.{publish_group}

-- The path of the group, once it is published
abbrev pub published_path : VolumeGroup → Option String
published_path vg = (publish_group vg).0.object_path

module _ (n : String) where
  pub publish_at-follow :
      (group : String) (path : Option String) (s : Bool)
      → follow (logical_volume group n) (publish_at path (volume_group group)) s ≡ s
  unfolding thing_eq
  publish_at-follow group none s = refl
  publish_at-follow group (some p) s = refl

  pub unpublish_at-follow :
      (group : String) (path : Option String) (s : Bool)
      → follow (logical_volume group n) (unpublish_at path (volume_group group)) s ≡ s
  unfolding thing_eq
  unpublish_at-follow group none s = refl
  unpublish_at-follow group (some p) s = refl

  pub publish_group-follow :
      (vg : VolumeGroup) (s : Bool)
      → (follow (logical_volume vg.name n) (publish_group vg).1 s ≡ s)
        × (published_path (publish_group vg).0 ≡ published_path vg)
        × ((publish_group vg).0.name ≡ vg.name)
        × ((publish_group vg).0.logical_volumes ≡ vg.logical_volumes)
        × ((publish_group vg).0.need_publish ≡ false)
        × ((publish_group vg).0.info ≡ vg.info)
  unfolding publish_group
  publish_group-follow vg s = elim (Bool-cases vg.need_publish) [
    | inl first ↦ rw first (publish_at-follow vg.name _ s, refl, refl, refl, refl, refl)
    | inr again ↦ rw again (refl, refl, refl, refl, refl, refl)
  ]
