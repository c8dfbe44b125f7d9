-- ===== src/Methods/Waiting/Handlers.antt =====
-- The handlers of "published" one by one, and the signal as it reaches the one that a method has
-- connected.
use storaged.Prelude.{
  String, ◌≡◌, refl, sym, ap, ◌∙◌, Bool, true, false, ◌&&◌, Option, str_eq, same_text,
  if◌then◌else◌,
}
use storaged.Methods.Waiting.{
  Published, volume_published, group_published, block_published, Wanted, logical_volume,
  volume_group, volume_block, is_wanted, completed, path_of, Waiting, answer, on_published,
}

module _ (wait_thing wait_name : String) where
  -- on_create_logical_volume of src/volumegroup.c, with the group, the name and the path of the volume
  pub on_create_logical_volume : (group name path : String) → Waiting → Waiting
  unfolding answer
  on_create_logical_volume group name path w =
      if str_eq name wait_name && str_eq group wait_thing then answer (completed path) w else w

  -- on_rename_logical_volume of src/logicalvolume.c
  pub on_rename_logical_volume : (group name path : String) → Waiting → Waiting
  unfolding answer
  on_rename_logical_volume group name path w =
      if str_eq name wait_name && str_eq group wait_thing then answer (completed path) w else w

  -- on_snapshot_logical_volume of src/logicalvolume.c
  pub on_snapshot_logical_volume : (group name path : String) → Waiting → Waiting
  unfolding answer
  on_snapshot_logical_volume group name path w =
      if str_eq name wait_name && str_eq group wait_thing then answer (completed path) w else w

module _ (wait_name : String) where
  -- on_rename_volume_group of src/volumegroup.c, with the name and the path of the group
  pub on_rename_volume_group : (name path : String) → Waiting → Waiting
  unfolding answer
  on_rename_volume_group name path w =
      if str_eq name wait_name then answer (completed path) w else w

  -- on_create_volume_group of src/manager.c
  pub on_create_volume_group : (name path : String) → Waiting → Waiting
  unfolding answer
  on_create_volume_group name path w =
      if str_eq name wait_name then answer (completed path) w else w

-- on_activate_logical_volume_block of src/logicalvolume.c, with the path of the volume that is waited
-- for, the one that the block shows, and the path of the block
pub on_activate_logical_volume_block :
    Option String → Option String → (path : String) → Waiting → Waiting
unfolding answer
on_activate_logical_volume_block volume_path shows path w =
    if same_text shows volume_path then answer (completed path) w else w

-- A handler as a method connects it, with what its closure holds
pub data Handler : Type 0 where
  create_volume rename_volume snapshot_volume : (group name : String) → Handler
  rename_group create_group : (name : String) → Handler
  activate_block : Option String → Handler

abbrev pub wanted_by : Handler → Wanted
wanted_by (create_volume group name) = logical_volume group name
wanted_by (rename_volume group name) = logical_volume group name
wanted_by (snapshot_volume group name) = logical_volume group name
wanted_by (rename_group name) = volume_group name
wanted_by (create_group name) = volume_group name
wanted_by (activate_block path) = volume_block path

-- The handler that the detail of the signal, the type of what was published, selects
unfoldable pub call : Handler → Published → Waiting → Waiting
call (create_volume t n) (volume_published group name path) w =
    on_create_logical_volume t n group name path w
call (rename_volume t n) (volume_published group name path) w =
    on_rename_logical_volume t n group name path w
call (snapshot_volume t n) (volume_published group name path) w =
    on_snapshot_logical_volume t n group name path w
call (rename_group n) (group_published name path) w = on_rename_volume_group n name path w
call (create_group n) (group_published name path) w = on_create_volume_group n name path w
call (activate_block v) (block_published shows path) w =
    on_activate_logical_volume_block v shows path w
call _ p w = w

-- GLib calls a handler as long as it is connected.
abbrev pub emit : Handler → Published → Waiting → Waiting
emit h p w = if w.connected then call h p w else w

guard_lem :
    (c b : Bool) (x w : Waiting)
    → (if c then (if b then x else w) else w) ≡ (if c && b then x else w)
guard_lem true b x w = refl
guard_lem false b x w = refl

guard_false : (c : Bool) (x w : Waiting) → (if c then w else w) ≡ (if c && false then x else w)
guard_false true x w = refl
guard_false false x w = refl

as_wanted :
    (h : Handler) (p : Published) (w : Waiting)
    → w.wanted ≡ wanted_by h
    → (if w.connected && is_wanted (wanted_by h) p then answer (completed (path_of p)) w else w)
      ≡ on_published p w
unfolding on_published
as_wanted h p w e =
    ap (λ k. if w.connected && is_wanted k p then answer (completed (path_of p)) w else w) (sym e)

-- Whichever of the six handlers a method has connected, an object that appears does to the caller what
-- on_published says of what the handler wants.
pub emit-on_published :
    (h : Handler) (p : Published) (w : Waiting)
    → w.wanted ≡ wanted_by h
    → emit h p w ≡ on_published p w
unfolding call on_published is_wanted answer on_create_logical_volume on_rename_logical_volume
    on_snapshot_logical_volume on_rename_volume_group on_create_volume_group
    on_activate_logical_volume_block
emit-on_published (create_volume t n) (volume_published g m path) w e =
    guard_lem w.connected _ _ w ∙ as_wanted (create_volume t n) (volume_published g m path) w e
emit-on_published (create_volume t n) (group_published m path) w e =
    guard_false w.connected _ w ∙ as_wanted (create_volume t n) (group_published m path) w e
emit-on_published (create_volume t n) (block_published s path) w e =
    guard_false w.connected _ w ∙ as_wanted (create_volume t n) (block_published s path) w e
emit-on_published (rename_volume t n) (volume_published g m path) w e =
    guard_lem w.connected _ _ w ∙ as_wanted (rename_volume t n) (volume_published g m path) w e
emit-on_published (rename_volume t n) (group_published m path) w e =
    guard_false w.connected _ w ∙ as_wanted (rename_volume t n) (group_published m path) w e
emit-on_published (rename_volume t n) (block_published s path) w e =
    guard_false w.connected _ w ∙ as_wanted (rename_volume t n) (block_published s path) w e
emit-on_published (snapshot_volume t n) (volume_published g m path) w e =
    guard_lem w.connected _ _ w ∙ as_wanted (snapshot_volume t n) (volume_published g m path) w e
emit-on_published (snapshot_volume t n) (group_published m path) w e =
    guard_false w.connected _ w ∙ as_wanted (snapshot_volume t n) (group_published m path) w e
emit-on_published (snapshot_volume t n) (block_published s path) w e =
    guard_false w.connected _ w ∙ as_wanted (snapshot_volume t n) (block_published s path) w e
emit-on_published (rename_group n) (volume_published g m path) w e =
    guard_false w.connected _ w ∙ as_wanted (rename_group n) (volume_published g m path) w e
emit-on_published (rename_group n) (group_published m path) w e =
    guard_lem w.connected _ _ w ∙ as_wanted (rename_group n) (group_published m path) w e
emit-on_published (rename_group n) (block_published s path) w e =
    guard_false w.connected _ w ∙ as_wanted (rename_group n) (block_published s path) w e
emit-on_published (create_group n) (volume_published g m path) w e =
    guard_false w.connected _ w ∙ as_wanted (create_group n) (volume_published g m path) w e
emit-on_published (create_group n) (group_published m path) w e =
    guard_lem w.connected _ _ w ∙ as_wanted (create_group n) (group_published m path) w e
emit-on_published (create_group n) (block_published s path) w e =
    guard_false w.connected _ w ∙ as_wanted (create_group n) (block_published s path) w e
emit-on_published (activate_block t) (volume_published g m path) w e =
    guard_false w.connected _ w ∙ as_wanted (activate_block t) (volume_published g m path) w e
emit-on_published (activate_block t) (group_published m path) w e =
    guard_false w.connected _ w ∙ as_wanted (activate_block t) (group_published m path) w e
emit-on_published (activate_block t) (block_published s path) w e =
    guard_lem w.connected _ _ w ∙ as_wanted (activate_block t) (block_published s path) w e
