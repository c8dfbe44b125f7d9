-- ===== src/Manager/Blocks/Udisks/Seen.antt =====
-- The overlays of src/manager.c are the blocks of udisksd: a refinement of a map from paths to blocks.
use storaged.Prelude.{
  String, ◌≡◌, refl, sym, ap, ◌∙◌, Bool, true, false, Option, none, some, List, [], ◌∷◌, lookup,
  Table, str_eq, eq_iff, if◌then◌else◌, lookup-insert, lookup-remove, Bool-cases, Option-cases, inl,
  inr,
}
use storaged.Block.{Block}
use storaged.VolumeGroup.State.{VolumeGroup}
use storaged.VolumeGroup.Blocks.{update_block}
use storaged.Manager.State.{Manager, manager_new}
use storaged.Manager.Blocks.{
  RealBlock, overlay_of, update_block_from_all, block_added, block_removed,
}
use storaged.Manager.Blocks.Udisks.{
  Interface, block, other_interface, interface_added, interface_removed, object_added,
  object_removed, manager_init, read_objects, Signal, object_appears, object_goes,
  interface_appears, interface_goes, on_signal,
}
use storaged.Manager.Blocks.Kept.{real_of, keep-all, keep-update_block}

-- The abstract view: what udisksd has at each path.
abbrev pub View : Type 0
View = String → Option RealBlock

abbrev pub view_of : Option Block → Option RealBlock
view_of none = none
view_of (some b) = some (real_of b)

-- The overlays show the view.
abbrev pub IsView : View → Manager → Type 0
IsView v m = (path : String) → view_of (lookup path m.blocks) ≡ v path

abbrev pub appear : Interface → View → View
appear other_interface v = v
appear (block r) v = λ path. if str_eq r.path path then some r else v path

abbrev pub disappear : Interface → View → View
disappear other_interface v = v
disappear (block r) v = λ path. if str_eq r.path path then none else v path

abbrev pub all_of : (Interface → View → View) → List Interface → View → View
all_of f [] v = v
all_of f (i ∷ is) v = all_of f is (f i v)

abbrev pub view_after : Signal → View → View
view_after (object_appears is) v = all_of appear is v
view_after (object_goes is) v = all_of disappear is v
view_after (interface_appears i) v = appear i v
view_after (interface_goes i) v = disappear i v

view-if_some :
    (c : Bool) (b : Block) (o : Option Block)
    → view_of (if c then some b else o) ≡ (if c then some (real_of b) else view_of o)
view-if_some true b o = refl
view-if_some false b o = refl

view-if_none :
    (c : Bool) (o : Option Block)
    → view_of (if c then none else o) ≡ (if c then none else view_of o)
view-if_none true o = refl
view-if_none false o = refl

added-IsView :
    (i : Interface) (v : View) (m : Manager)
    → IsView v m
    → IsView (appear i v) (interface_added i m).0
unfolding interface_added block_added
added-IsView other_interface v m h path = h path
added-IsView (block r) v m h path =
    let c = str_eq r.path path in
    let o = lookup path m.blocks in
    let b = (update_block_from_all m.volume_groups (overlay_of r)).0 in
    ap view_of (lookup-insert r.path path b m.blocks)
    ∙ view-if_some c b o
    ∙ ap (λ x. if c then some x else view_of o) (keep-all m.volume_groups (overlay_of r))
    ∙ ap (λ x. if c then some r else x) (h path)

unseen :
    (gone path : String) (v : View) (m : Manager)
    → IsView v m
    → lookup gone m.blocks ≡ none
    → v path ≡ (if str_eq gone path then none else v path)
unseen gone path v m h missing = elim (Bool-cases (str_eq gone path)) [
  | inl same ↦ rw same (
      sym (h path)
      ∙ ap view_of (ap (λ p. lookup p m.blocks) (sym ((eq_iff gone path).0 same)) ∙ missing))
  | inr differs ↦ rw differs refl
]

removed-IsView :
    (i : Interface) (v : View) (m : Manager)
    → IsView v m
    → IsView (disappear i v) (interface_removed i m).0
unfolding interface_removed block_removed
removed-IsView other_interface v m h path = h path
removed-IsView (block r) v m h path =
    let c = str_eq r.path path in
    elim (Option-cases (lookup r.path m.blocks)) [
      | inl missing ↦ rw (missing, block_removed) (h path ∙ unseen r.path path v m h missing)
      | inr (b, there) ↦
          rw (there, block_removed)
            (ap view_of (lookup-remove r.path path m.blocks)
              ∙ view-if_none c (lookup path m.blocks)
              ∙ ap (λ x. if c then none else x) (h path))
    ]

objects_added-IsView :
    (is : List Interface) (v : View) (m : Manager)
    → IsView v m
    → IsView (all_of appear is v) (object_added is m).0
unfolding object_added
objects_added-IsView [] v m h = h
objects_added-IsView (i ∷ is) v m h =
    objects_added-IsView is (appear i v) (interface_added i m).0 (added-IsView i v m h)

objects_removed-IsView :
    (is : List Interface) (v : View) (m : Manager)
    → IsView v m
    → IsView (all_of disappear is v) (object_removed is m).0
unfolding object_removed
objects_removed-IsView [] v m h = h
objects_removed-IsView (i ∷ is) v m h =
    objects_removed-IsView is (disappear i v) (interface_removed i m).0 (removed-IsView i v m h)

on_signal-IsView :
    (s : Signal) (v : View) (m : Manager) → IsView v m → IsView (view_after s v) (on_signal s m).0
unfolding on_signal
on_signal-IsView (object_appears is) = objects_added-IsView is
on_signal-IsView (object_goes is) = objects_removed-IsView is
on_signal-IsView (interface_appears i) = added-IsView i
on_signal-IsView (interface_goes i) = removed-IsView i

-- `update_all_blocks` of a group, on the table of the manager
unfoldable pub tell_blocks : VolumeGroup → Table Block → Table Block
tell_blocks vg [] = []
tell_blocks vg ((path, b) ∷ rest) = (path, (update_block vg b).0) ∷ tell_blocks vg rest

-- What happens to the manager: a signal of udisksd, an addition or removal of volume groups or a change
-- of any of them, after which the table of groups is another one, and an update of all overlays by a
-- group.
pub data Happening : Type 0 where
  signalled : Signal → Happening
  groups_become : Table VolumeGroup → Happening
  group_updates : VolumeGroup → Happening

unfoldable pub happen : Happening → Manager → Manager
unfolding tell_blocks
happen (signalled s) m = (on_signal s m).0
happen (groups_become groups) m = record m { volume_groups = groups }
happen (group_updates vg) m = record m { blocks = tell_blocks vg m.blocks }

view-if_updated :
    (c : Bool) (vg : VolumeGroup) (b : Block) (o p : Option Block)
    → view_of o ≡ view_of p
    → view_of (if c then some (update_block vg b).0 else o) ≡ view_of (if c then some b else p)
view-if_updated true vg b o p h = ap some (keep-update_block vg b)
view-if_updated false vg b o p h = h

lookup-tell_blocks :
    (vg : VolumeGroup) (t : Table Block) (path : String)
    → view_of (lookup path (tell_blocks vg t)) ≡ view_of (lookup path t)
unfolding tell_blocks lookup
lookup-tell_blocks vg [] path = refl
lookup-tell_blocks vg ((found, b) ∷ rest) path =
    view-if_updated (str_eq found path) vg b _ _ (lookup-tell_blocks vg rest path)

-- The groups are nothing of what udisksd has.
abbrev pub view_by : Happening → View → View
view_by (signalled s) v = view_after s v
view_by (groups_become groups) v = v
view_by (group_updates vg) v = v

happen-IsView :
    (h : Happening) (v : View) (m : Manager) → IsView v m → IsView (view_by h v) (happen h m)
unfolding happen
happen-IsView (signalled s) v m i path = on_signal-IsView s v m i path
happen-IsView (groups_become groups) v m i path = i path
happen-IsView (group_updates vg) v m i path = lookup-tell_blocks vg m.blocks path ∙ i path

abbrev pub views_after : List Happening → View → View
views_after [] v = v
views_after (h ∷ hs) v = views_after hs (view_by h v)

unfoldable pub all_happen : List Happening → Manager → Manager
all_happen [] m = m
all_happen (h ∷ hs) m = all_happen hs (happen h m)

happenings-IsView :
    (hs : List Happening) (v : View) (m : Manager)
    → IsView v m
    → IsView (views_after hs v) (all_happen hs m)
unfolding all_happen
happenings-IsView [] v m i = i
happenings-IsView (h ∷ hs) v m i =
    happenings-IsView hs (view_by h v) (happen h m) (happen-IsView h v m i)

abbrev pub nothing : View
nothing = λ path. none

abbrev pub start_view : List (List Interface) → View → View
start_view [] v = v
start_view (o ∷ os) v = start_view os (all_of appear o v)

read-IsView :
    (os : List (List Interface)) (v : View) (m : Manager)
    → IsView v m
    → IsView (start_view os v) (read_objects os m).0
unfolding read_objects
read-IsView [] v m h = h
read-IsView (o ∷ os) v m h =
    read-IsView os (all_of appear o v) (object_added o m).0 (objects_added-IsView o v m h)

-- After the objects that udisksd has at the start, and any signals of it, between which the table of
-- volume groups becomes any other one and any group updates all overlays: the overlays of the manager
-- are the blocks that udisksd has, each with the device, the symlinks and the udev properties it came
-- with. At each path it is the block that appeared there last, if it has not gone since.
pub overlays_refine_udisks :
    (objects : List (List Interface)) (happenings : List Happening) (path : String)
    → view_of (lookup path (all_happen happenings (manager_init (some objects)).0).blocks)
      ≡ views_after happenings (start_view objects nothing) path
unfolding manager_init
overlays_refine_udisks objects happenings =
    happenings-IsView happenings (start_view objects nothing) (manager_init (some objects)).0
      (read-IsView objects nothing manager_new (λ path. unfold lookup manager_new in refl))
