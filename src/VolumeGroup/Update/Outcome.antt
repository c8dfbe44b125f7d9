-- ===== src/VolumeGroup/Update/Outcome.antt =====
-- Repeated and failing updates of a volume group of src/volumegroup.c, and when `done` is called.
use storaged.Prelude.{
  ◌≡◌, refl, Bool, true, false, some, List, [], arith, Bool-cases, inl, inr, ◌⊎◌, not,
}
use storaged.System.{Error, Result, ok, err}
use storaged.Variant.{Info, info_eq_refl}
use storaged.Objects.{Effect}
use storaged.Block.{Block}
use storaged.VolumeGroup.State.{VolumeGroup, volume_group_update_props}
use storaged.VolumeGroup.Update.{
  publish_group, take_info, is_unchanged, stop_at, update_with_variant,
}

-- The group after a report, the error included, up to the point where the report is compared
abbrev pub announced : Result Info → VolumeGroup → VolumeGroup × List Effect
announced (ok info) vg = publish_group (volume_group_update_props info vg)
announced (err e) vg = publish_group vg

pub is_news : Result Info → VolumeGroup → Bool
is_news (ok info) vg = not (is_unchanged vg.info info)
is_news (err e) vg = false

info-announced : (info : Info) (vg : VolumeGroup) → (announced (ok info) vg).0.info ≡ vg.info
unfolding publish_group volume_group_update_props
info-announced info vg = ground arith

-- The callback that the manager waits for is called exactly when a report has come that differs from
-- the last one: neither an error nor a repeated report calls it. In these cases the blocks and the
-- volumes stay as they were, and nothing is done but to publish the group if this is the first time.
pub done-update :
    (r : Result Info) (vg : VolumeGroup) (blocks : List Block)
    → let u = update_with_variant r vg blocks in
      ((is_news r vg ≡ true) × (u.done_called ≡ true))
      ⊎ ((is_news r vg ≡ false)
          × (u.done_called ≡ false)
          × (u.blocks ≡ blocks)
          × (u.group.logical_volumes ≡ vg.logical_volumes)
          × (u.group.physical_volumes ≡ vg.physical_volumes)
          × (u.effects ≡ (announced r vg).1))
unfolding update_with_variant is_news publish_group volume_group_update_props take_info
done-update (err e) vg blocks = inr (refl, refl, refl, ground arith, ground arith, refl)
done-update (ok info) vg blocks = elim (Bool-cases (is_unchanged vg.info info)) [
  | inl same ↦
      inr (ground arith, ground arith, ground arith, ground arith, ground arith, ground arith)
  | inr fresh ↦ inl (ground arith, ground arith)
]

props_idem :
    (info : Info) (vg : VolumeGroup)
    → volume_group_update_props info (volume_group_update_props info vg)
      ≡ volume_group_update_props info vg
unfolding volume_group_update_props
props_idem info vg = ground arith

settled :
    (info : Info) (vg : VolumeGroup) (blocks : List Block)
    → volume_group_update_props info vg ≡ vg
    → vg.need_publish ≡ false
    → vg.info ≡ some info
    → update_with_variant (ok info) vg blocks ≡ stop_at vg blocks []
unfolding update_with_variant publish_group is_unchanged
settled info vg blocks p n e = rw p (ground (arith, info_eq_refl info))

-- What the update leaves in the fields that the next one reads.
fields-update :
    (info : Info) (vg : VolumeGroup) (blocks : List Block)
    → is_unchanged vg.info info ≡ false
    → let g = (update_with_variant (ok info) vg blocks).group in
      (g.need_publish ≡ false) × (g.info ≡ some info) × (volume_group_update_props info g ≡ g)
unfolding update_with_variant publish_group volume_group_update_props take_info
fields-update info vg blocks h = (ground arith, ground arith, ground arith)

-- A report that comes a second time changes nothing: the group, the blocks and the objects on the bus
-- are as the first time left them, and the callback is not called again.
pub update-repeat :
    (info : Info) (vg : VolumeGroup) (blocks : List Block)
    → is_unchanged vg.info info ≡ false
    → let u = update_with_variant (ok info) vg blocks in
      update_with_variant (ok info) u.group u.blocks ≡ stop_at u.group u.blocks []
update-repeat info vg blocks h =
    let u = update_with_variant (ok info) vg blocks in
    let (published, kept, stable) = fields-update info vg blocks h in
    settled info u.group u.blocks stable published kept

pub done-failure :
    (e : Error) (vg : VolumeGroup) (blocks : List Block)
    → (update_with_variant (err e) vg blocks).done_called ≡ false
unfolding update_with_variant
done-failure e vg blocks = refl
