-- ===== src/VolumeGroup/Update/Mirror.antt =====
-- The bus mirrors the group: its logical volumes are published exactly while it has them.
use storaged.Prelude.{
  ◌≡◌, refl, sym, ap, ◌∙◌, String, Bool, true, false, not, ◌&&◌, ◌||◌, Option, none, some, List, [],
  ◌∷◌, ◌++◌, Table, lookup, insert, any, str_eq, eq_iff, eq_refl, is_some, arith, if◌then◌else◌,
  lookup-insert, lookup-retain, Bool-cases, Option-cases, inl, inr, ℕ,
}
use storaged.Variant.{Dict, Info, lookup_str, lookup_u64, info_dicts}
use storaged.Util.Name.{lv_is_pvmove_volume, lv_is_visible}
use storaged.Util.ObjectPath.{has_slash_suffix}
use storaged.Objects.{Effect, logical_volume}
use storaged.LogicalVolume.State.{LogicalVolume, logical_volume_new, logical_volume_dispose}
use storaged.LogicalVolume.Update.{logical_volume_update}
use storaged.LogicalVolume.Update.Published.{IsPublished, update-follow}
use storaged.Block.{Block}
use storaged.Daemon.Bus.{thing_eq}
use storaged.Daemon.Bus.Follow.{follow, follow-append}
use storaged.VolumeGroup.State.{VolumeGroup}
use storaged.VolumeGroup.Blocks.Quiet.{update_all_blocks-Quiet}
use storaged.VolumeGroup.Blocks.{update_all_blocks}
use storaged.VolumeGroup.Update.{
  Pass, progress_of, update_operations, found_or_new, existing_or_new, update_visible, update_entry,
  update_entries, dispose_gone, list_of, start_pass, pass_of, take_info,
}
use storaged.VolumeGroup.Update.Kept.{
  AllPublished, lookup-AllPublished, insert-AllPublished, retain-AllPublished,
}

record IsUsable (name : String) (known : Bool) (lv : LogicalVolume) : Type 0 where
  named : lv.name ≡ name
  has_path : lv.needs_publish ≡ false → is_some lv.object_path ≡ true
  unknown : lv.needs_publish ≡ not known

found_or_new-IsUsable :
    (group name : String) (found : Option LogicalVolume)
    → ((lv : LogicalVolume) → found ≡ some lv → IsPublished group name lv)
    → IsUsable name (is_some found) (found_or_new found group name)
unfolding logical_volume_new
found_or_new-IsUsable group name none h = record {
  named = refl;
  has_path = λ e. cc;
  unknown = refl;
}
found_or_new-IsUsable group name (some lv) h =
    let p = h lv refl in
    record { named = p.named; has_path = λ e. p.has_path; unknown = p.published }

module _ (n : String) where
  operations-follow :
      (group : String) (name : Option String) (info : Dict) (s : Bool)
      → follow (logical_volume group n) (update_operations name info) s ≡ s
  unfolding update_operations
  operations-follow group name info s =
      go (lv_is_pvmove_volume name) (lookup_str "move_pv" info) (lookup_u64 "copy_percent" info)
    where
      go :
          (b : Bool) (dev : Option String) (percent : Option ℕ)
          → follow (logical_volume group n) (progress_of b dev percent) s ≡ s
      go true (some dev) (some percent) = unfold progress_of in refl
      go true (some dev) none = unfold progress_of in refl
      go true none percent = unfold progress_of in refl
      go false dev percent = unfold progress_of in refl

  dispose_one-follow :
      (group name : String) (lv : LogicalVolume) (s : Bool)
      → IsPublished group name lv
      → follow (logical_volume group n) (logical_volume_dispose lv).1 s
        ≡ (if str_eq n name then false else s)
  unfolding logical_volume_dispose thing_eq
  dispose_one-follow group name lv s h = elim (Option-cases lv.object_path) [
    | inl pathless ↦ absurd (ground (arith, h.has_path))
    | inr (path, there) ↦ rw there (ground (arith, h, eq_refl group))
  ]

  pub dispose-follow :
      (group : String) (keep : String → Bool) (lvs : Table LogicalVolume) (s : Bool)
      → AllPublished group lvs
      → follow (logical_volume group n) (dispose_gone keep lvs) s
        ≡ (if keep n then s else if is_some (lookup n lvs) then false else s)
  unfolding dispose_gone logical_volume_dispose thing_eq lookup
  dispose-follow group keep [] s h = ground arith
  dispose-follow group keep ((k, lv) ∷ lvs) s h = elim (Bool-cases (keep k)) [
    | inl kept ↦ rw kept (dispose-follow group keep lvs s h.1 ∙ ground (arith, eq_iff k n, kept))
    | inr gone ↦ rw gone (
        follow-append (logical_volume group n) (logical_volume_dispose lv).1 (dispose_gone keep lvs)
          s
        ∙ ap (follow (logical_volume group n) (dispose_gone keep lvs))
            (dispose_one-follow group k lv s h.0)
        ∙ dispose-follow group keep lvs (if str_eq n k then false else s) h.1
        ∙ ground (arith, eq_iff k n, eq_iff n k, gone))
  ]

  -- The state of the loop: the table is in order, and the effects so far made what it says.
  record Mirrors (group : String) (before : Bool) (p : Pass) : Type 0 where
    all_published : AllPublished group p.lvs
    mirrored : follow (logical_volume group n) p.effects before ≡ is_some (lookup n p.lvs)

  visible_lookup :
      (name : String) (p : Pass) (lv : LogicalVolume) (unpublished : Bool)
      → unpublished ≡ not (is_some (lookup name p.lvs))
      → (if unpublished && str_eq n name then true else is_some (lookup n p.lvs))
        ≡ is_some (lookup n (insert name lv p.lvs))
  visible_lookup name p lv unpublished e = elim (Bool-cases (str_eq name n)) [
    | inl same ↦
        let there : lookup n p.lvs ≡ lookup name p.lvs =
          ap (λ x. lookup x p.lvs) (sym ((eq_iff name n).0 same)) in
        ground (arith, lookup-insert name n lv p.lvs, there, eq_iff n name, eq_iff name n, e)
    | inr differs ↦ ground (arith, lookup-insert name n lv p.lvs, eq_iff n name, eq_iff name n)
  ]

  visible-Mirrors :
      (vg : VolumeGroup) (path : String) (name : Option String) (info : Dict) (before : Bool)
      (p : Pass)
      → vg.object_path ≡ some path
      → has_slash_suffix path ≡ false
      → Mirrors vg.name before p
      → Mirrors vg.name before (update_visible vg name info p)
  unfolding update_visible
  visible-Mirrors vg path none info before p at_path slash h = h
  visible-Mirrors vg path (some name) info before p at_path slash h =
      let lv = existing_or_new p.lvs vg.name name in
      let ready =
        found_or_new-IsUsable vg.name name (lookup name p.lvs)
          (λ x. lookup-AllPublished vg.name name p.lvs x h.all_published) in
      let known = is_some (lookup n p.lvs) in
      let made =
        update-follow vg.name n p.lvs path name info lv known slash ready.named ready.has_path in
      let out = logical_volume_update p.lvs vg.name (some path) info lv in
      let told : follow (logical_volume vg.name n) (p.effects ++ out.1) before
          ≡ (if lv.needs_publish && str_eq n name then true else known) =
        follow-append (logical_volume vg.name n) p.effects out.1 before
        ∙ ap (follow (logical_volume vg.name n) out.1) h.mirrored
        ∙ made.1 in
      rw at_path (record {
        all_published = insert-AllPublished vg.name name out.0 p.lvs made.0 h.all_published;
        mirrored = told ∙ visible_lookup name p out.0 lv.needs_publish ready.unknown;
      })

  entry-Mirrors :
      (vg : VolumeGroup) (path : String) (info : Dict) (before : Bool) (p : Pass)
      → vg.object_path ≡ some path
      → has_slash_suffix path ≡ false
      → Mirrors vg.name before p
      → Mirrors vg.name before (update_entry vg info p)
  unfolding update_entry
  entry-Mirrors vg path info before p at_path slash h =
      let name = lookup_str "name" info in
      let q : Pass = record p {
        polling = p.polling || lv_is_pvmove_volume name;
        effects = p.effects ++ update_operations name info;
      } in
      let told : Mirrors vg.name before q = record {
        all_published = h.all_published;
        mirrored =
            follow-append (logical_volume vg.name n) p.effects (update_operations name info) before
            ∙ operations-follow vg.name name info
                (follow (logical_volume vg.name n) p.effects before)
            ∙ h.mirrored;
      } in
      elim (Bool-cases (lv_is_visible name)) [
        | inl shown ↦ rw shown (visible-Mirrors vg path name info before q at_path slash told)
        | inr hidden ↦ rw hidden told
      ]

  entries-Mirrors :
      (vg : VolumeGroup) (path : String) (infos : List Dict) (before : Bool) (p : Pass)
      → vg.object_path ≡ some path
      → has_slash_suffix path ≡ false
      → Mirrors vg.name before p
      → Mirrors vg.name before (update_entries vg infos p)
  unfolding update_entries
  entries-Mirrors vg path [] before p at_path slash h = h
  entries-Mirrors vg path (info ∷ infos) before p at_path slash h =
      entries-Mirrors vg path infos before (update_entry vg info p) at_path slash
        (entry-Mirrors vg path info before p at_path slash h)

  pub take_info-follow :
      (vg : VolumeGroup) (path : String) (info : Info) (blocks : List Block) (effects : List Effect)
      → vg.object_path ≡ some path
      → has_slash_suffix path ≡ false
      → AllPublished vg.name vg.logical_volumes
      → ((s : Bool) → follow (logical_volume vg.name n) effects s ≡ s)
      → AllPublished vg.name (take_info vg info blocks effects).group.logical_volumes
        × (follow
              (logical_volume vg.name n)
              (take_info vg info blocks effects).effects
              (is_some (lookup n vg.logical_volumes))
            ≡ is_some (lookup n (take_info vg info blocks effects).group.logical_volumes))
  unfolding take_info pass_of
  take_info-follow vg path info blocks effects at_path slash h quiet =
      let p = pass_of vg info in
      let keep = λ (name : String). any (str_eq name) p.seen in
      let vg' = (take_info vg info blocks effects).group in
      let t = logical_volume vg.name n in
      let had = is_some (lookup n vg.logical_volumes) in
      let told = (update_all_blocks vg' blocks).1 in
      let done =
        entries-Mirrors vg path (list_of (info_dicts "lvs" info)) had (start_pass vg) at_path slash
          (record { all_published = h; mirrored = refl }) in
      (
        retain-AllPublished vg.name keep p.lvs done.all_published,
        follow-append t ((effects ++ p.effects) ++ dispose_gone keep p.lvs) told had
            ∙ update_all_blocks-Quiet vg.name n _ vg' blocks
            ∙ follow-append t (effects ++ p.effects) (dispose_gone keep p.lvs) had
            ∙ ap (follow t (dispose_gone keep p.lvs)) (
                follow-append t effects p.effects had
                ∙ ap (follow t p.effects) (quiet had)
                ∙ done.mirrored)
            ∙ dispose-follow vg.name keep p.lvs (is_some (lookup n p.lvs)) done.all_published
            ∙ ground (arith, lookup-retain keep n p.lvs),
      )
