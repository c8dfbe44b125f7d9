-- ===== src/Helper/Args.antt =====
-- The command line of src/helper.c, and the command lines by which the daemon calls it: `lvm_update`
-- of src/manager.c, `storage_volume_group_update` and `poll_now` of src/volumegroup.c.
use text.Mathlib.Text.{starts_with}
use storaged.Prelude.{
  String, ◌≡◌, refl, Bool, true, false, Option, none, some, List, [], ◌∷◌, ◌++◌, str_eq,
  if◌then◌else◌,
}

pub data Command : Type 0 where
  list : Command
  show : String → Command

pub record Request : Type 0 where
  pub binary : Bool
  pub no_lock : Bool
  pub command : Command

-- The rest of `main` after the options. `none` is usage (), which exits with status 1.
command_of : List String → Option Command
command_of [] = none
command_of (verb ∷ []) = if str_eq verb "list" then some list else none
command_of (verb ∷ arg ∷ rest) =
    if str_eq verb "list" then some list else if str_eq verb "show" then some (show arg) else none

request_of : Bool → Bool → Option Command → Option Request
request_of binary no_lock none = none
request_of binary no_lock (some c) =
    some (record { binary = binary; no_lock = no_lock; command = c })

-- The loop over the options, with opt_binary and opt_no_lock, and then the command.
parse_from : Bool → Bool → List String → Option Request
unfolding request_of command_of
parse_from binary no_lock [] = none
parse_from binary no_lock (arg ∷ rest) =
    let b = parse_from true no_lock rest in
    let f = parse_from binary true rest in
    if starts_with arg "-"
    then (if str_eq arg "-b" then b else if str_eq arg "-f" then f else none)
    else request_of binary no_lock (command_of (arg ∷ rest))

-- `main`, given argv[1], argv[2], …
pub main_args : List String → Option Request
unfolding parse_from
main_args args = parse_from false false args

abbrev pub helper_name : String
helper_name = "storaged-lvm-helper"

-- args of `lvm_update`
pub lvm_update_args : List String
lvm_update_args = helper_name ∷ "-b" ∷ "list" ∷ []

-- args of `storage_volume_group_update`
pub volume_group_update_args : Bool → String → List String
volume_group_update_args ignore_locks name =
    helper_name ∷ "-b" ∷ (if ignore_locks then "-f" ∷ [] else []) ++ "show" ∷ name ∷ []

-- args of `poll_now`
pub poll_args : String → List String
poll_args name = helper_name ∷ "-b" ∷ "show" ∷ name ∷ []

abbrev pub arguments : List String → List String
arguments [] = []
arguments (program ∷ args) = args

-- The helper understands the daemon: whatever the name of the volume group, also one that looks like
-- an option, it is asked in binary for that group, and ignores locks exactly when the daemon says so;
-- polling waits for locks, and so does the listing of the groups.
pub main_args-daemon :
    (ignore_locks : Bool) (name : String)
    → (main_args (arguments (volume_group_update_args ignore_locks name))
        ≡ some (record { binary = true; no_lock = ignore_locks; command = show name }))
      × (main_args (arguments (poll_args name))
          ≡ some (record { binary = true; no_lock = false; command = show name }))
      × (main_args (arguments lvm_update_args)
          ≡ some (record { binary = true; no_lock = false; command = list }))
unfolding main_args volume_group_update_args poll_args lvm_update_args
main_args-daemon true name = (refl, refl, refl)
main_args-daemon false name = (refl, refl, refl)
