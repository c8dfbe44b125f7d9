-- ===== src/VolumeGroup/Update/Told/Reached.antt =====
-- A group of src/volumegroup.c after an update with a report of the helper of src/helper.c: it has the
-- volumes and the physical volumes that lvm2app tells of.
use storaged.Prelude.{
  ℕ, String, ◌≡◌, refl, sym, ap, ◌∙◌, Bool, true, false, Option, none, some, List, [], map, any,
  lookup, is_some, str_eq, if◌then◌else◌, arith, lookup-retain, Bool-cases, inl, inr,
}
use storaged.System.{ok}
use storaged.Variant.{Info, info_dicts}
use storaged.Objects.{Effect}
use storaged.Block.{Block}
use storaged.Helper.Show.{Lv, Pv, show_logical_volume, show_physical_volume}
use storaged.LogicalVolume.State.{LogicalVolume}
use storaged.VolumeGroup.State.{VolumeGroup, volume_group_update_props}
use storaged.VolumeGroup.Update.Volumes.{entry_reports, reports, volumes-take_info}
use storaged.VolumeGroup.Update.{
  Pass, update_entries, read_pvs, list_of, start_pass, pass_of, take_info, is_unchanged,
  update_with_variant, publish_group,
}
use storaged.VolumeGroup.Update.Told.{
  is_shown, last_shown, shown_volume, told_or, told_volume, last_pv, known_pv, told_pv,
  last_shown-any, entries_reported, shown-update_entries, known-read_pvs,
}

kept-told :
    (kept reported : Bool) (found : Option LogicalVolume) (last : Option Lv)
    (before : Option (Option String × ℕ))
    → is_some (if kept then found else none) ≡ reported
    → is_some last ≡ reported
    → shown_volume found ≡ told_or last before
    → shown_volume (if kept then found else none) ≡ told_volume last
kept-told true reported none none before h k e = refl
kept-told true reported (some lv) none before h k e = absurd (ground (arith, h, k))
kept-told true reported found (some lv) before h k e = e
kept-told false reported found none before h k e = refl
kept-told false reported found (some lv) before h k e = absurd (ground (arith, h, k))

-- The group shows the volumes and knows the physical volumes that lvm2app tells of.
pub record IsTold (lvs : List Lv) (pvs : List Pv) (g : VolumeGroup) : Type 0 where
  pub shown :
      (name : String)
      → shown_volume (lookup name g.logical_volumes) ≡ told_volume (last_shown name lvs)
  pub known :
      (device : String) → known_pv (lookup device g.physical_volumes) ≡ told_pv (last_pv device pvs)

module _ (lvs : List Lv) (pvs : List Pv) (info : Info)
    (volumes : list_of (info_dicts "lvs" info) ≡ map show_logical_volume lvs)
    (devices : list_of (info_dicts "pvs" info) ≡ map show_physical_volume pvs) where
  reported_volumes : (name : String) → reports info name ≡ any (is_shown name) lvs
  reported_volumes name = ap (any (entry_reports name)) volumes ∙ entries_reported name lvs

  take_info-IsTold :
      (vg : VolumeGroup) (blocks : List Block) (before : List Effect)
      → IsTold lvs pvs (take_info vg info blocks before).group
  unfolding take_info pass_of lookup
  take_info-IsTold vg blocks before =
      let p = pass_of vg info in
      let keep = λ (name : String). any (str_eq name) p.seen in
      let passed : p ≡ update_entries vg (map show_logical_volume lvs) (start_pass vg) =
        ap (λ ds. update_entries vg ds (start_pass vg)) volumes in
      record {
        shown = λ name.
            ap shown_volume (lookup-retain keep name p.lvs)
            ∙ kept-told (keep name) (any (is_shown name) lvs) (lookup name p.lvs)
                (last_shown name lvs) (shown_volume (lookup name vg.logical_volumes))
                (ap is_some (sym (lookup-retain keep name p.lvs))
                  ∙ volumes-take_info vg name info blocks before
                  ∙ reported_volumes name)
                (last_shown-any name lvs)
                (ap (λ (q : Pass). shown_volume (lookup name q.lvs)) passed
                  ∙ shown-update_entries vg name lvs (start_pass vg));
        known = λ device.
            ap (λ ds. known_pv (lookup device (read_pvs ds []))) devices
            ∙ known-read_pvs device pvs [];
      }

  -- After an update with the helper's report on these, if it differs from the last one
  pub update-IsTold :
      (vg : VolumeGroup) (blocks : List Block)
      → is_unchanged vg.info info ≡ false
      → IsTold lvs pvs (update_with_variant (ok info) vg blocks).group
  unfolding update_with_variant publish_group volume_group_update_props
  update-IsTold vg blocks h = elim (Bool-cases vg.need_publish) [
    | inl first ↦ rw (first, h) (take_info-IsTold _ blocks [])
    | inr again ↦ rw (again, h) (take_info-IsTold _ blocks [])
  ]
