-- ===== src/Methods/Waiting.antt =====
-- A method that changes objects waits for its job and for the object to appear: the CompleteClosure of
-- src/volumegroup.c, src/logicalvolume.c and src/manager.c, with the handlers of both signals.
pub mod Replies
pub mod Handlers
use storaged.Prelude.{
  String, Bool, true, false, ◌&&◌, Option, none, some, List, [], ◌∷◌, ◌++◌, ◌<>◌, str_eq, same_text,
  if◌then◌else◌,
}
use storaged.System.{Error, udisks_error, failed}

-- What "published" tells: a volume with its group and its name, a group, or the interface of a block
-- with the path of the volume that it shows; and the object path. The signal's detail is the type.
pub data Published : Type 0 where
  volume_published : (group name path : String) → Published
  group_published : (name path : String) → Published
  block_published : (shows : Option String) (path : String) → Published

abbrev pub path_of : Published → String
path_of (volume_published group name path) = path
path_of (group_published name path) = path
path_of (block_published shows path) = path

-- What is waited for: on_create_logical_volume, on_rename_logical_volume and on_snapshot_logical_volume
-- want a volume of a group, on_rename_volume_group and on_create_volume_group a group, and
-- on_activate_logical_volume_block a block that shows the path of the volume.
pub data Wanted : Type 0 where
  logical_volume : (group name : String) → Wanted
  volume_group : (name : String) → Wanted
  volume_block : Option String → Wanted

unfoldable pub is_wanted : Wanted → Published → Bool
is_wanted (logical_volume group name) (volume_published g n path) = str_eq n name && str_eq g group
is_wanted (volume_group name) (group_published n path) = str_eq n name
is_wanted (volume_block shown) (block_published shows path) = same_text shows shown
is_wanted _ _ = false

-- What the caller gets
pub data Reply : Type 0 where
  completed : (path : String) → Reply
  returned_error : Error → Reply

-- The closure is freed when the handler of "published" is disconnected.
pub record Waiting : Type 0 where
  pub wanted : Wanted
  pub connected : Bool
  pub replies : List Reply

-- The end of a handler such as handle_create_plain_volume
abbrev pub wait_for : Wanted → Waiting
wait_for wanted = record { wanted = wanted; connected = true; replies = [] }

pub answer : Reply → Waiting → Waiting
answer r w = record w { connected = false; replies = w.replies ++ r ∷ [] }

-- The handler of "published", as long as it is connected
pub on_published : Published → Waiting → Waiting
unfolding answer is_wanted
on_published p w =
    if w.connected && is_wanted w.wanted p then answer (completed (path_of p)) w else w

-- The handler of the job's "completed", with the beginning of the error's text; `none` is the use of
-- the closure after it was freed.
unfoldable pub on_complete : String → Bool → String → Waiting → Option Waiting
unfolding answer
on_complete prefix true message w = some w
on_complete prefix false message w =
    if w.connected
    then some (answer (returned_error (udisks_error failed (prefix <> message))) w)
    else none

-- The objects that appear, one after the other
pub all_published : List Published → Waiting → Waiting
unfolding on_published
all_published [] w = w
all_published (p ∷ ps) w = all_published ps (on_published p w)
