-- ===== src/VolumeGroup/Update/Volumes.antt =====
-- Which logical volumes a group has after the update of src/volumegroup.c.
use storaged.Prelude.{
  String, ◌≡◌, Bool, true, false, ◌&&◌, ◌||◌, Option, none, some, List, [], ◌∷◌, lookup, any,
  str_eq, eq_iff, is_some, same_text, arith, lookup-insert, lookup-retain, Bool-cases, inl, inr,
}
use storaged.System.{ok}
use storaged.Variant.{Dict, Info, lookup_str, info_dicts}
use storaged.Util.Name.{lv_is_pvmove_volume, lv_is_visible}
use storaged.Objects.{Effect}
use storaged.Block.{Block}
use storaged.VolumeGroup.State.{VolumeGroup, volume_group_update_props}
use storaged.VolumeGroup.Update.{
  Pass, update_visible, update_entry, update_entries, list_of, start_pass, pass_of, take_info,
  is_unchanged, update_with_variant, publish_group,
}

-- A report names a visible volume.
abbrev pub entry_reports : String → Dict → Bool
entry_reports name info =
    lv_is_visible (lookup_str "name" info) && same_text (lookup_str "name" info) (some name)

abbrev pub reports : Info → String → Bool
reports info name = any (entry_reports name) (list_of (info_dicts "lvs" info))

module _ (vg : VolumeGroup) (name : String) where
  seen-update_visible :
      (n : Option String) (info : Dict) (p : Pass)
      → any (str_eq name) (update_visible vg n info p).seen
        ≡ (any (str_eq name) p.seen || same_text n (some name))
  unfolding update_visible
  seen-update_visible none info p = ground arith
  seen-update_visible (some n) info p = ground (arith, eq_iff n name, eq_iff name n)

  seen-update_entry :
      (info : Dict) (p : Pass)
      → any (str_eq name) (update_entry vg info p).seen
        ≡ (any (str_eq name) p.seen || entry_reports name info)
  unfolding update_entry
  seen-update_entry info p = ground (
    arith,
    seen-update_visible (lookup_str "name" info) info
        (record p { polling = p.polling || lv_is_pvmove_volume (lookup_str "name" info) }),
  )

  seen-update_entries :
      (infos : List Dict) (p : Pass)
      → any (str_eq name) (update_entries vg infos p).seen
        ≡ (any (str_eq name) p.seen || any (entry_reports name) infos)
  unfolding update_entries
  seen-update_entries [] p = ground arith
  seen-update_entries (info ∷ infos) p =
      ground (arith, seen-update_entries infos (update_entry vg info p), seen-update_entry info p)

  -- What has been seen is in the table.
  abbrev Kept : Pass → Type 0
  Kept p = any (str_eq name) p.seen ≡ true → is_some (lookup name p.lvs) ≡ true

  Kept-update_visible :
      (n : Option String) (info : Dict) (p : Pass) → Kept p → Kept (update_visible vg n info p)
  unfolding update_visible
  Kept-update_visible none info p h = h
  Kept-update_visible (some n) info p h =
      simp lookup-insert (ground (arith, eq_iff n name, eq_iff name n, h))

  Kept-update_entry : (info : Dict) (p : Pass) → Kept p → Kept (update_entry vg info p)
  unfolding update_entry
  Kept-update_entry info p h = elim (Bool-cases (lv_is_visible (lookup_str "name" info))) [
    | inl shown ↦ rw shown (Kept-update_visible (lookup_str "name" info) info _ h)
    | inr hidden ↦ rw hidden h
  ]

  Kept-update_entries : (infos : List Dict) (p : Pass) → Kept p → Kept (update_entries vg infos p)
  unfolding update_entries
  Kept-update_entries [] p h = h
  Kept-update_entries (info ∷ infos) p h =
      Kept-update_entries infos (update_entry vg info p) (Kept-update_entry info p h)

  pub volumes-take_info :
      (info : Info) (blocks : List Block) (before : List Effect)
      → is_some (lookup name (take_info vg info blocks before).group.logical_volumes)
        ≡ reports info name
  unfolding take_info pass_of
  volumes-take_info info blocks before =
      let infos = list_of (info_dicts "lvs" info) in
      let kept = Kept-update_entries infos (start_pass vg) (λ e. cc) in
      simp lookup-retain (ground (arith, kept, seen-update_entries infos (start_pass vg)))

-- After an update with a report that differs from the last one, the group has a logical volume of
-- a name exactly when the report lists a visible volume of that name, whatever volumes it had before.
pub volumes-update :
    (vg : VolumeGroup) (info : Info) (blocks : List Block) (name : String)
    → is_unchanged vg.info info ≡ false
    → is_some (lookup name (update_with_variant (ok info) vg blocks).group.logical_volumes)
      ≡ reports info name
unfolding update_with_variant publish_group volume_group_update_props
volumes-update vg info blocks name h = elim (Bool-cases vg.need_publish) [
  | inl first ↦ rw (first, h) (volumes-take_info _ name info blocks [])
  | inr again ↦ rw (again, h) (volumes-take_info _ name info blocks [])
]
