-- ===== src/VolumeGroup/Update/Life.antt =====
-- A volume group from its construction to its disposal, as the bus shows its logical volumes.
use storaged.Prelude.{
  ◌≡◌, refl, sym, ap, ◌∙◌, String, Bool, false, some, List, [], ◌∷◌, ◌++◌, lookup, is_some, arith,
  Bool-cases, inl, inr,
}
use storaged.System.{Result, ok, err}
use storaged.Variant.{Info}
use storaged.Util.ObjectPath.{has_slash_suffix}
use storaged.Objects.{Effect, logical_volume, volume_group, unpublish_at}
use storaged.Block.{Block}
use storaged.Daemon.Bus.Follow.{follow, follow-append}
use storaged.VolumeGroup.State.{VolumeGroup, volume_group_new, volume_group_update_props}
use storaged.VolumeGroup.Blocks.{update_all_blocks}
use storaged.VolumeGroup.Blocks.Quiet.{update_all_blocks-Quiet}
use storaged.VolumeGroup.Update.{
  Updated, dispose_gone, publish_group, take_info, is_unchanged, stop_at, update_with_variant,
  volume_group_dispose,
}
use storaged.VolumeGroup.Update.Announced.{
  published_path, publish_group-follow, unpublish_at-follow,
}
use storaged.VolumeGroup.Update.Mirror.{take_info-follow, dispose-follow}
use storaged.VolumeGroup.Update.Kept.{AllPublished}

-- The group is, or will be, at a path under which paths can be built, and its volumes are published.
pub record IsSound (path : String) (vg : VolumeGroup) : Type 0 where
  pub at_path : published_path vg ≡ some path
  pub slash : has_slash_suffix path ≡ false
  pub volumes : AllPublished vg.name vg.logical_volumes

module _ (n : String) where
  -- What one step makes of the group, and of a volume on the bus
  record IsStep (path : String) (vg : VolumeGroup) (u : Updated) : Type 0 where
    sound : IsSound path u.group
    named : u.group.name ≡ vg.name
    mirrored :
        follow (logical_volume vg.name n) u.effects (is_some (lookup n vg.logical_volumes))
        ≡ is_some (lookup n u.group.logical_volumes)

  take_info-keeps :
      (vg : VolumeGroup) (info : Info) (blocks : List Block) (before : List Effect)
      → ((take_info vg info blocks before).group.name ≡ vg.name)
        × ((take_info vg info blocks before).group.object_path ≡ vg.object_path)
        × ((take_info vg info blocks before).group.need_publish ≡ vg.need_publish)
  unfolding take_info
  take_info-keeps vg info blocks before = (refl, refl, refl)

  path_of-published :
      (vg : VolumeGroup) → vg.need_publish ≡ false → published_path vg ≡ vg.object_path
  unfolding publish_group
  path_of-published vg h = rw h refl

  props_fields :
      (info : Info) (vg : VolumeGroup)
      → ((volume_group_update_props info vg).name ≡ vg.name)
        × ((volume_group_update_props info vg).logical_volumes ≡ vg.logical_volumes)
  unfolding volume_group_update_props
  props_fields info vg = (refl, refl)

  back-IsStep :
      (path : String) (info : Info) (vg : VolumeGroup) (u : Updated)
      → IsStep path (volume_group_update_props info vg) u
      → IsStep path vg u
  unfolding volume_group_update_props
  back-IsStep path info vg u h = record { sound = h.sound; named = h.named; mirrored = h.mirrored }

  props-published_path :
      (info : Info) (vg : VolumeGroup)
      → published_path (volume_group_update_props info vg) ≡ published_path vg
  unfolding publish_group volume_group_update_props
  props-published_path info vg = elim (Bool-cases vg.need_publish) [
    | inl first ↦ rw first refl
    | inr again ↦ rw again refl
  ]

  publish-IsStep :
      (path : String) (vg : VolumeGroup) (blocks : List Block)
      → IsSound path vg
      → IsStep path vg (stop_at (publish_group vg).0 blocks (publish_group vg).1)
  publish-IsStep path vg blocks h =
      let q = publish_group-follow n vg (is_some (lookup n vg.logical_volumes)) in
      record {
        sound = record {
          at_path = q.1 ∙ h.at_path;
          slash = h.slash;
          volumes = rw (q.2, q.3) h.volumes;
        };
        named = q.2;
        mirrored = q.0 ∙ ap (λ l. is_some (lookup n l)) (sym q.3);
      }

  taken-IsStep :
      (path : String) (vg : VolumeGroup) (info : Info) (blocks : List Block)
      → IsSound path vg
      → IsStep path vg (take_info (publish_group vg).0 info blocks (publish_group vg).1)
  taken-IsStep path vg info blocks h =
      let s = publish-IsStep path vg blocks h in
      let p = (publish_group vg).0 in
      let before = (publish_group vg).1 in
      let q = publish_group-follow n vg (is_some (lookup n vg.logical_volumes)) in
      let keeps = take_info-keeps p info blocks before in
      let quiet : (b : Bool) → follow (logical_volume p.name n) before b ≡ b =
        λ b. ap (λ g. follow (logical_volume g n) before b) q.2 ∙ (publish_group-follow n vg b).0 in
      let at_path : p.object_path ≡ some path = sym (path_of-published p q.4) ∙ s.sound.at_path in
      let took =
        take_info-follow n p path info blocks before at_path h.slash s.sound.volumes quiet in
      record {
        sound = record {
          at_path =
              path_of-published (take_info p info blocks before).group (keeps.2 ∙ q.4)
              ∙ keeps.1
              ∙ at_path;
          slash = h.slash;
          volumes = rw keeps.0 took.0;
        };
        named = keeps.0 ∙ q.2;
        mirrored =
            ap
              (λ l.
                follow (logical_volume vg.name n) (take_info p info blocks before).effects
                  (is_some (lookup n l)))
              (sym q.3)
            ∙ ap
                (λ g.
                  follow (logical_volume g n) (take_info p info blocks before).effects
                    (is_some (lookup n p.logical_volumes)))
                (sym q.2)
            ∙ took.1;
      }

  update-IsStep :
      (path : String) (r : Result Info) (vg : VolumeGroup) (blocks : List Block)
      → IsSound path vg
      → IsStep path vg (update_with_variant r vg blocks)
  unfolding update_with_variant
  update-IsStep path (err e) vg blocks h = publish-IsStep path vg blocks h
  update-IsStep path (ok info) vg blocks h =
      let props = volume_group_update_props info vg in
      let same = props_fields info vg in
      let ready : IsSound path props = record {
        at_path = props-published_path info vg ∙ h.at_path;
        slash = h.slash;
        volumes = rw (same.0, same.1) h.volumes;
      } in
      elim (Bool-cases (is_unchanged (publish_group props).0.info info)) [
        | inl unchanged ↦
            rw unchanged (back-IsStep path info vg _ (publish-IsStep path props blocks ready))
        | inr news ↦
            rw news (back-IsStep path info vg _ (taken-IsStep path props info blocks ready))
      ]

  dispose-follows :
      (vg : VolumeGroup) (blocks : List Block) (s : Bool)
      → AllPublished vg.name vg.logical_volumes
      → s ≡ is_some (lookup n vg.logical_volumes)
      → follow (logical_volume vg.name n) (volume_group_dispose vg blocks).effects s ≡ false
  unfolding volume_group_dispose
  dispose-follows vg blocks s h e =
      let t = logical_volume vg.name n in
      let gone = dispose_gone (λ name. false) vg.logical_volumes in
      let vg' = (volume_group_dispose vg blocks).group in
      let told = (update_all_blocks vg' blocks).1 in
      follow-append t (gone ++ told) (unpublish_at vg.object_path (volume_group vg.name)) s
      ∙ unpublish_at-follow n vg.name vg.object_path _
      ∙ follow-append t gone told s
      ∙ update_all_blocks-Quiet vg.name n _ vg' blocks
      ∙ dispose-follow n vg.name (λ name. false) vg.logical_volumes s h
      ∙ ground (arith, e)

-- Reports, or failures, that come one after the other
unfoldable pub run_reports : List (Result Info) → VolumeGroup → List Block → Updated
run_reports [] vg blocks = stop_at vg blocks []
run_reports (r ∷ rs) vg blocks =
    let u = update_with_variant r vg blocks in
    let v = run_reports rs u.group u.blocks in record v { effects = u.effects ++ v.effects }

reports-IsStep :
    (n path : String) (rs : List (Result Info)) (vg : VolumeGroup) (blocks : List Block)
    → IsSound path vg
    → IsStep n path vg (run_reports rs vg blocks)
unfolding run_reports
reports-IsStep n path [] vg blocks h = record { sound = h; named = refl; mirrored = refl }
reports-IsStep n path (r ∷ rs) vg blocks h =
    let u = update_with_variant r vg blocks in
    let first = update-IsStep n path r vg blocks h in
    let rest = reports-IsStep n path rs u.group u.blocks first.sound in
    let v = run_reports rs u.group u.blocks in
    record {
      sound = rest.sound;
      named = rest.named ∙ first.named;
      mirrored =
          follow-append (logical_volume vg.name n) u.effects v.effects
            (is_some (lookup n vg.logical_volumes))
          ∙ ap (follow (logical_volume vg.name n) v.effects) first.mirrored
          ∙ ap
              (λ g.
                follow (logical_volume g n) v.effects (is_some (lookup n u.group.logical_volumes)))
              (sym first.named)
          ∙ rest.mirrored;
    }

-- A new group that gets a path, through any reports and failures in any order: a logical volume has
-- been published, and not unpublished since, exactly if the group has it; and once the group is
-- disposed of, none is left.
pub bus_mirrors_group :
    (name n path : String) (rs : List (Result Info)) (blocks : List Block)
    → published_path (volume_group_new name) ≡ some path
    → has_slash_suffix path ≡ false
    → let u = run_reports rs (volume_group_new name) blocks in
      (follow (logical_volume name n) u.effects false ≡ is_some (lookup n u.group.logical_volumes))
      × (follow
            (logical_volume name n)
            (u.effects ++ (volume_group_dispose u.group u.blocks).effects)
            false
          ≡ false)
unfolding volume_group_new lookup
bus_mirrors_group name n path rs blocks at_path slash =
    let vg = volume_group_new name in
    let u = run_reports rs vg blocks in
    let done =
      reports-IsStep n path rs vg blocks
        (record { at_path = at_path; slash = slash; volumes = tt }) in
    let gone = (volume_group_dispose u.group u.blocks).effects in
    (
      done.mirrored,
      follow-append (logical_volume name n) u.effects gone false
          ∙ ap (follow (logical_volume name n) gone) done.mirrored
          ∙ ap (λ g. follow (logical_volume g n) gone (is_some (lookup n u.group.logical_volumes)))
              (sym done.named)
          ∙ dispose-follows n u.group u.blocks _ done.sound.volumes refl,
    )
