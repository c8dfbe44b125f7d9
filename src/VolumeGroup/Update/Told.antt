-- ===== src/VolumeGroup/Update/Told.antt =====
-- What a group of src/volumegroup.c shows of the volumes that the helper of src/helper.c has told of.
pub mod Reached
use storaged.Prelude.{
  ℕ, String, ◌≡◌, refl, sym, ap, ap₂, ◌∙◌, Bool, true, false, ◌&&◌, ◌||◌, Option, none, some, List,
  [], ◌∷◌, map, any, Table, lookup, insert, is_some, str_eq, if◌then◌else◌, arith, lookup-insert,
  lookup-retain, Bool-cases, Option-cases, inl, inr,
}
use storaged.System.{ok}
use storaged.Variant.{Dict, Info, lookup_str, lookup_u64, info_dicts}
use storaged.Util.Name.{lv_is_visible}
use storaged.Objects.{Effect}
use storaged.Block.{Block}
use storaged.Helper.Show.{Lv, Pv, show_logical_volume, show_physical_volume}
use storaged.LogicalVolume.State.{LogicalVolume}
use storaged.LogicalVolume.Update.{
  or_keep, or_else, set_props, udev_hack, publish_volume, logical_volume_update,
}
use storaged.VolumeGroup.State.{VolumeGroup, volume_group_update_props}
use storaged.VolumeGroup.Update.Volumes.{entry_reports, reports, volumes-take_info}
use storaged.VolumeGroup.Update.{
  Pass, update_visible, update_entry, update_entries, read_pvs, list_of, start_pass, pass_of,
  take_info, is_unchanged, update_with_variant, publish_group, existing_or_new,
}

-- A visible volume of that name
abbrev pub is_shown : String → Lv → Bool
is_shown name lv = lv_is_visible (some lv.name) && str_eq lv.name name

abbrev pub later_or {ℓ} : {A : Type ℓ} → Option A → Option A → Option A
later_or (some a) earlier = some a
later_or none earlier = earlier

-- The last visible volume of that name
pub last_shown : String → List Lv → Option Lv
last_shown name [] = none
last_shown name (lv ∷ lvs) =
    later_or (last_shown name lvs) (if is_shown name lv then some lv else none)

-- The uuid and the size that the object of a volume shows
abbrev pub shown_volume : Option LogicalVolume → Option (Option String × ℕ)
shown_volume none = none
shown_volume (some lv) = some (lv.uuid, lv.size)

abbrev pub told_or : Option Lv → Option (Option String × ℕ) → Option (Option String × ℕ)
told_or none before = before
told_or (some lv) before = some (some lv.uuid, lv.size)

-- Its uuid and size as lvm2app tells them
abbrev pub told_volume : Option Lv → Option (Option String × ℕ)
told_volume lv = told_or lv none

-- The last physical volume of a device
pub last_pv : String → List Pv → Option Pv
last_pv device [] = none
last_pv device (pv ∷ pvs) =
    later_or (last_pv device pvs) (if str_eq pv.device device then some pv else none)

-- What the group knows of a physical volume: its uuid, its size and what is free
abbrev pub known_pv : Option Dict → Option (Option String × Option ℕ × Option ℕ)
known_pv none = none
known_pv (some d) = some (lookup_str "uuid" d, lookup_u64 "size" d, lookup_u64 "free-size" d)

abbrev pub told_pv_or :
    Option Pv
    → Option (Option String × Option ℕ × Option ℕ)
    → Option (Option String × Option ℕ × Option ℕ)
told_pv_or none before = before
told_pv_or (some pv) before = some (some pv.uuid, some pv.size, some pv.free)

abbrev pub told_pv : Option Pv → Option (Option String × Option ℕ × Option ℕ)
told_pv pv = told_pv_or pv none

entry_reported :
    (name : String) (lv : Lv) → entry_reports name (show_logical_volume lv) ≡ is_shown name lv
unfolding show_logical_volume lookup
entry_reported name lv = refl

pub entries_reported :
    (name : String) (lvs : List Lv)
    → any (entry_reports name) (map show_logical_volume lvs) ≡ any (is_shown name) lvs
entries_reported name [] = refl
entries_reported name (lv ∷ lvs) = ap₂ ◌||◌ (entry_reported name lv) (entries_reported name lvs)

pub last_shown-any :
    (name : String) (lvs : List Lv) → is_some (last_shown name lvs) ≡ any (is_shown name) lvs
unfolding last_shown
last_shown-any name [] = refl
last_shown-any name (lv ∷ lvs) = ground (arith, last_shown-any name lvs)

told_or-later :
    (o : Option Lv) (b : Bool) (lv : Lv) (before : Option (Option String × ℕ))
    → told_or o (if b then some (some lv.uuid, lv.size) else before)
      ≡ told_or (later_or o (if b then some lv else none)) before
told_or-later none true lv before = refl
told_or-later none false lv before = refl
told_or-later (some later) b lv before = refl

told_pv_or-later :
    (o : Option Pv) (b : Bool) (pv : Pv) (before : Option (Option String × Option ℕ × Option ℕ))
    → told_pv_or o (if b then some (some pv.uuid, some pv.size, some pv.free) else before)
      ≡ told_pv_or (later_or o (if b then some pv else none)) before
told_pv_or-later none true pv before = refl
told_pv_or-later none false pv before = refl
told_pv_or-later (some later) b pv before = refl

shown-if :
    (b : Bool) (lv : LogicalVolume) (o : Option LogicalVolume)
    → shown_volume (if b then some lv else o)
      ≡ (if b then some (lv.uuid, lv.size) else shown_volume o)
shown-if true lv o = refl
shown-if false lv o = refl

known-if :
    (b : Bool) (d : Dict) (o : Option Dict)
    → known_pv (if b then some d else o) ≡ (if b then known_pv (some d) else known_pv o)
known-if true d o = refl
known-if false d o = refl

hacked_same :
    (dev_file : Option String) (lv : LogicalVolume)
    → shown_volume (some (udev_hack dev_file lv).0) ≡ some (lv.uuid, lv.size)
unfolding udev_hack
hacked_same none lv = refl
hacked_same (some dev_file) lv = elim (Bool-cases lv.needs_udev_hack) [
  | inl first ↦ rw first refl
  | inr again ↦ rw again refl
]

published_same :
    (group_path : Option String) (lv : LogicalVolume)
    → shown_volume (some (publish_volume group_path lv).0) ≡ some (lv.uuid, lv.size)
unfolding publish_volume
published_same group_path lv = elim (Bool-cases lv.needs_publish) [
  | inl first ↦ rw first refl
  | inr again ↦ rw again refl
]

-- The uuid and size of a volume after an update are those of the report.
volume-update :
    (lvs : Table LogicalVolume) (group : String) (path : Option String) (info : Dict)
    (lv : LogicalVolume)
    → shown_volume (some (logical_volume_update lvs group path info lv).0)
      ≡ some (or_keep (lookup_str "uuid" info) lv.uuid, or_else (lookup_u64 "size" info) lv.size)
unfolding logical_volume_update set_props
volume-update lvs group path info lv =
    let props = set_props lvs group info lv in
    published_same path (udev_hack (lookup_str "lv_path" info) props).0
    ∙ hacked_same (lookup_str "lv_path" info) props

pub known-read_pvs :
    (device : String) (pvs : List Pv) (t : Table Dict)
    → known_pv (lookup device (read_pvs (map show_physical_volume pvs) t))
      ≡ told_pv_or (last_pv device pvs) (known_pv (lookup device t))
unfolding read_pvs last_pv lookup show_physical_volume
known-read_pvs device [] t = refl
known-read_pvs device (pv ∷ pvs) t =
    let later = insert pv.device (show_physical_volume pv) t in
    let here : known_pv (lookup device later) ≡ (
        if str_eq pv.device device
        then some (some pv.uuid, some pv.size, some pv.free)
        else known_pv (lookup device t)) =
      ap known_pv (lookup-insert pv.device device (show_physical_volume pv) t)
      ∙ known-if (str_eq pv.device device) (show_physical_volume pv) (lookup device t) in
    known-read_pvs device pvs later
    ∙ ap (told_pv_or (last_pv device pvs)) here
    ∙ told_pv_or-later (last_pv device pvs) (str_eq pv.device device) pv
        (known_pv (lookup device t))

module _ (vg : VolumeGroup) (name : String) where
  shown-update_entry :
      (lv : Lv) (p : Pass)
      → shown_volume (lookup name (update_entry vg (show_logical_volume lv) p).lvs) ≡ (
          if is_shown name lv
          then some (some lv.uuid, lv.size)
          else shown_volume (lookup name p.lvs))
  unfolding update_entry update_visible show_logical_volume lookup
  shown-update_entry lv p =
      let info = show_logical_volume lv in
      let before = existing_or_new p.lvs vg.name lv.name in
      let c = str_eq lv.name name in
      elim (Bool-cases (lv_is_visible (some lv.name))) [
        | inl shown ↦ rw shown (
            ap shown_volume (
              lookup-insert lv.name name
                (logical_volume_update p.lvs vg.name vg.object_path info before).0 p.lvs)
            ∙ shown-if c _ (lookup name p.lvs)
            ∙ ap (λ x. if c then x else shown_volume (lookup name p.lvs))
                (volume-update p.lvs vg.name vg.object_path info before))
        | inr hidden ↦ rw hidden refl
      ]

  pub shown-update_entries :
      (lvs : List Lv) (p : Pass)
      → shown_volume (lookup name (update_entries vg (map show_logical_volume lvs) p).lvs)
        ≡ told_or (last_shown name lvs) (shown_volume (lookup name p.lvs))
  unfolding update_entries last_shown
  shown-update_entries [] p = refl
  shown-update_entries (lv ∷ lvs) p =
      let after = update_entry vg (show_logical_volume lv) p in
      shown-update_entries lvs after
      ∙ ap (told_or (last_shown name lvs)) (shown-update_entry lv p)
      ∙ told_or-later (last_shown name lvs) (is_shown name lv) lv (shown_volume (lookup name p.lvs))
