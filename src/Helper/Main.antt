-- ===== src/Helper/Main.antt =====
-- `main` of src/helper.c with `usage`, `list_volume_groups` and `init_lvm`: what a run of the helper
-- writes on its standard output, and its exit status.
use storaged.Prelude.{ℕ, String, true, false, Bool, Option, none, some, List, [], length, ◌≡◌, refl}
use storaged.Variant.{Info}
use storaged.Helper.Args.{
  Request, Command, list, show, main_args, main_args-daemon, arguments, volume_group_update_args,
  lvm_update_args,
}
use storaged.Helper.Output.{
  Outcome, written, stopped, running, write_all, Accepts, write_all_complete,
}
use storaged.Helper.Show.{Vg, show_volume_group}

-- The two variants that the helper makes, of the types `as` and `a{sv}`
pub data Reply : Type 0 where
  names : List String → Reply
  group : Info → Reply

-- The exit status is `none` while the program has not ended.
pub record Ended : Type 0 where
  pub status : Option ℕ
  pub output : List ℕ

abbrev exit_with : ℕ → Ended
exit_with n = record { status = some n; output = [] }

-- write_all exits with 1 where write (2) fails, and main with 0 after it.
abbrev exit_status : Outcome → Option ℕ
exit_status written = some 0
exit_status stopped = some 1
exit_status running = none

-- lvm2app by the argument of lvm_init, whether locks are ignored: the names of the groups, and a group
-- that is opened. `serialize` is g_variant_get_data of the normal form, `print` what g_variant_print and
-- printf make, and `accept` is write (2).
module _ (vg_names : Bool → List String) (vg_open : Bool → String → Option Vg)
    (serialize print : Reply → List ℕ) (accept : ℕ → ℕ → Option ℕ) where
  -- The variant of a command; `none` where the group cannot be opened.
  pub reply_of : Bool → Command → Option Reply
  reply_of no_lock list = some (names (vg_names no_lock))
  reply_of no_lock (show name) = elim (show_volume_group (vg_open no_lock name)) [
    | none ↦ none
    | some info ↦ some (group info)
  ]

  pub write_reply : Bool → Reply → Ended
  write_reply true reply =
      let bytes = serialize reply in
      let (outcome, out) = write_all accept (length bytes) 0 [] bytes in
      record { status = exit_status outcome; output = out }
  write_reply false reply = record { status = some 0; output = print reply }

  answer_request : Option Request → Ended
  unfolding reply_of write_reply
  answer_request none = exit_with 1
  answer_request (some r) = elim (reply_of r.no_lock r.command) [
    | none ↦ exit_with 2
    | some reply ↦ write_reply r.binary reply
  ]

  unfoldable pub helper_main : List String → Ended
  unfolding answer_request
  helper_main args = answer_request (main_args args)

  -- Asked for a group that lvm2app opens, the helper writes the group's dictionary and exits with 0.
  pub helper-writes :
      (ignore_locks : Bool) (name : String) (vg : Vg) {info : Info}
      → Accepts accept
      → vg_open ignore_locks name ≡ some vg
      → show_volume_group (some vg) ≡ some info
      → helper_main (arguments (volume_group_update_args ignore_locks name))
        ≡ record { status = some 0; output = serialize (group info) }
  unfolding helper_main answer_request reply_of write_reply
  helper-writes ignore_locks name vg {info} sound opens shows =
      rw
        (
          (main_args-daemon ignore_locks name).0,
          answer_request,
          reply_of,
          opens,
          shows,
          write_reply,
          write_all_complete accept (serialize (group info)) sound,
        )
        refl

  -- Asked for the list of the groups, the helper writes their names and exits with 0.
  pub helper-lists :
      Accepts accept
      → helper_main (arguments lvm_update_args)
        ≡ record { status = some 0; output = serialize (names (vg_names false)) }
  unfolding helper_main answer_request reply_of write_reply
  helper-lists sound =
      rw
        (
          (main_args-daemon false "").2,
          answer_request,
          reply_of,
          write_reply,
          write_all_complete accept (serialize (names (vg_names false))) sound,
        )
        refl
