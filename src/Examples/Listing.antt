-- ===== src/Examples/Listing.antt =====
-- A helper that lists two groups, through the pipe to a manager that has none yet.
use storaged.Prelude.{
  ℕ, String, ◌≡◌, refl, sym, ap, Option, none, some, List, [], ◌∷◌, any, lookup, is_some, str_eq,
  Bool, true,
}
use storaged.System.{Error, Result, ok, WaitStatus, exited, udisks_error, failed}
use storaged.Helper.Args.{lvm_update_args, arguments}
use storaged.Helper.Show.{Vg}
use storaged.Helper.Main.{Reply, names, group, helper_main, helper-lists}
use storaged.Helper.Lvm.{list_volume_groups}
use storaged.Manager.State.{manager_new}
use storaged.Manager.Update.{Update, lvm_update, lvm_update_from_variant}
use storaged.Daemon.Reader.{Bytes, Directories, readable, ended, read_events, spawn_for_variant}
use storaged.Daemon.Reader.Answers.{answering}
use storaged.Daemon.Reader.Listing.{helper_list_reaches_manager}
use storaged.Examples.Volumes.{one_byte, one_byte-Accepts}

abbrev vg_names : Option String → List String
vg_names dir = "vg0" ∷ "vg1" ∷ []

abbrev no_group : Bool → String → Option Vg
no_group no_lock name = none

abbrev write_names : Reply → Bytes
write_names (names ns) = 5 ∷ 6 ∷ []
write_names (group info) = []

abbrev read_names : Bytes → List String
read_names [] = []
read_names (b ∷ bs) = "vg0" ∷ "vg1" ∷ []

abbrev list_failed : WaitStatus → Error
list_failed status = udisks_error failed "exited with non-zero exit status"

abbrev paths : Directories
paths = record {
  lib_dir = "/usr/lib";
  data_dir = "/usr/share";
  build_filename = λ parts. "/usr/lib/storaged/storaged-lvm-helper";
}

abbrev spawned : List String → Result ℕ
spawned argv = ok 43

abbrev starting : Update
starting = lvm_update true true manager_new

lists :
    helper_main
      (list_volume_groups vg_names "/usr/lib")
      no_group
      write_names
      write_names
      one_byte
      (arguments lvm_update_args)
    ≡ record { status = some 0; output = 5 ∷ 6 ∷ [] }
lists =
    helper-lists (list_volume_groups vg_names "/usr/lib") no_group write_names write_names one_byte
      one_byte-Accepts

helper_list_reaches_manager_example :
    (read_events read_names list_failed
        (readable (5 ∷ []) ∷ ended (exited 0) (some (6 ∷ [])) ∷ [])
        (spawn_for_variant read_names list_failed paths none spawned lvm_update_args)
      ≡ answering read_names list_failed 43
          (record { pid = 43; result = ok ("vg0" ∷ "vg1" ∷ []) } ∷ []))
    × (is_some (
          lookup "vg1"
            (lvm_update_from_variant 9 (ok ("vg0" ∷ "vg1" ∷ [])) starting).manager.volume_groups)
        ≡ any (str_eq "vg1") ("vg0" ∷ "vg1" ∷ []))
helper_list_reaches_manager_example =
    helper_list_reaches_manager vg_names "/usr/lib" no_group write_names write_names one_byte
      read_names list_failed paths none spawned starting ((5 ∷ []) ∷ []) (some (6 ∷ [])) [] 0 43 9
      "vg1" refl one_byte-Accepts refl (ap (λ e. e.status) lists) (sym (ap (λ e. e.output) lists))
