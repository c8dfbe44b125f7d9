-- ===== src/LogicalVolume/Update/Published.antt =====
-- When storage_logical_volume_update publishes the volume.
use storaged.Prelude.{
  ◌≡◌, refl, String, Bool, true, false, ◌&&◌, Option, none, some, [], ◌∷◌, Table, if◌then◌else◌,
  str_eq, arith, is_some, Bool-cases, eq_refl, ap, ◌∙◌, inl, inr,
}
use storaged.Variant.{Dict, lookup_str}
use storaged.Util.ObjectPath.{has_slash_suffix}
use storaged.Util.ObjectPath.Chars.{build_object_path-some}
use storaged.Objects.{logical_volume}
use storaged.LogicalVolume.State.{LogicalVolume}
use storaged.LogicalVolume.Update.{set_props, udev_hack, publish_volume, logical_volume_update}
use storaged.Daemon.Bus.{thing_eq}
use storaged.Daemon.Bus.Follow.{follow, follow-append}

-- The volume has been published under a path, and its names are those of its place in the group.
pub record IsPublished (group name : String) (lv : LogicalVolume) : Type 0 where
  pub named : lv.name ≡ name
  pub grouped : lv.group ≡ group
  pub published : lv.needs_publish ≡ false
  pub has_path : is_some lv.object_path ≡ true

-- The volume is new, or it has been published.
pub record IsReady (group name : String) (lv : LogicalVolume) : Type 0 where
  pub named : lv.name ≡ name
  pub grouped : lv.group ≡ group
  pub has_path : lv.needs_publish ≡ false → is_some lv.object_path ≡ true

module _ (group n : String) where
  hack-follow :
      (dev : Option String) (lv : LogicalVolume) (s : Bool)
      → (follow (logical_volume group n) (udev_hack dev lv).1 s ≡ s)
        × ((udev_hack dev lv).0.name ≡ lv.name)
        × ((udev_hack dev lv).0.group ≡ lv.group)
        × ((udev_hack dev lv).0.needs_publish ≡ lv.needs_publish)
        × ((udev_hack dev lv).0.object_path ≡ lv.object_path)
  unfolding udev_hack
  hack-follow none lv s = (refl, refl, refl, refl, refl)
  hack-follow (some dev) lv s = elim (Bool-cases lv.needs_udev_hack) [
    | inl needed ↦ rw needed (refl, refl, refl, refl, refl)
    | inr done ↦ rw done (refl, refl, refl, refl, refl)
  ]

  publish-follow :
      (path : String) (name : String) (lv : LogicalVolume) (s : Bool)
      → has_slash_suffix path ≡ false
      → IsReady group name lv
      → IsPublished group name (publish_volume (some path) lv).0
        × (follow (logical_volume group n) (publish_volume (some path) lv).1 s
            ≡ (if lv.needs_publish && str_eq n name then true else s))
  unfolding publish_volume thing_eq
  publish-follow path name lv s h r =
      let at_path = build_object_path-some path (lv.name ∷ []) h in
      elim (Bool-cases lv.needs_publish) [
        | inl first ↦ rw (first, at_path) (ground (arith, r), ground (arith, r, eq_refl group))
        | inr again ↦ rw again (ground (arith, r), refl)
      ]

  -- An update publishes the volume if it is new, and leaves it published.
  pub update-follow :
      (lvs : Table LogicalVolume) (path name : String) (info : Dict) (lv : LogicalVolume) (s : Bool)
      → has_slash_suffix path ≡ false
      → lv.name ≡ name
      → (lv.needs_publish ≡ false → is_some lv.object_path ≡ true)
      → IsPublished group name (logical_volume_update lvs group (some path) info lv).0
        × (follow (logical_volume group n) (logical_volume_update lvs group (some path) info lv).1 s
            ≡ (if lv.needs_publish && str_eq n name then true else s))
  unfolding logical_volume_update set_props
  update-follow lvs path name info lv s h named has_path =
      let dev = lookup_str "lv_path" info in
      let set = set_props lvs group info lv in
      let hacked = hack-follow dev set s in
      let ready : IsReady group name (udev_hack dev set).0 = ground (arith, hacked) in
      let made = publish-follow path name (udev_hack dev set).0 s h ready in
      (
        made.0,
        follow-append (logical_volume group n) (udev_hack dev set).1
              (publish_volume (some path) (udev_hack dev set).0).1 s
            ∙ ap
                (follow (logical_volume group n)
                  (publish_volume (some path) (udev_hack dev set).0).1)
                hacked.0
            ∙ made.1
            ∙ ground (arith, hacked),
      )
