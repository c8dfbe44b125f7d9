-- ===== src/Daemon/Reader/Listing.antt =====
-- The list of the groups, from lvm2app through the helper of src/helper.c and the pipe to the manager of
-- src/manager.c, as lvm_update asks for it.
use storaged.Prelude.{
  ℕ, String, ◌≡◌, ap, ◌∙◌, Bool, false, Option, none, some, List, [], ◌∷◌, ◌++◌, map, any, lookup,
  is_some, str_eq, arith,
}
use storaged.System.{Error, Result, ok, WaitStatus, exited}
use storaged.Helper.Args.{lvm_update_args, arguments}
use storaged.Helper.Output.{Accepts}
use storaged.Helper.Show.{Vg}
use storaged.Helper.Main.{Reply, names, Ended, helper_main, helper-lists}
use storaged.Helper.Lvm.{init_lvm, list_volume_groups, list_volume_groups-names}
use storaged.Manager.Update.{Update, lvm_update_from_variant}
use storaged.Manager.Update.Listed.{lvm_update_from_variant-listed}
use storaged.Daemon.Reader.{
  Event, argv_of, Bytes, Directories, readable, ended, rest_of, read_events, spawn_for_variant,
}
use storaged.Daemon.Reader.Answers.{answered_once, joined, answering, expected}

-- Where g_variant_new_from_data reads back the names that g_variant_get_data wrote, write (2) accepts
-- at least a byte of each request, the helper can be started, and the daemon gets its exit status and
-- all its output: however the list is cut into chunks, `lvm_update_from_variant` is called once, with
-- the names that lvm2app gives by its own configuration, and the manager then has a group of a name
-- exactly if lvm2app gave the name.
pub helper_list_reaches_manager :
    (lvm_list_vg_names : Option String → List String) (lib_dir : String)
    (vg_open : Bool → String → Option Vg) (serialize print : Reply → Bytes)
    (accept : ℕ → ℕ → Option ℕ) (parse : Bytes → List String) (exit_error : WaitStatus → Error)
    (dirs : Directories) (resource_dir : Option String) (spawn : List String → Result ℕ)
    (u : Update) (chunks : List Bytes) (rest : Option Bytes) (after : List Event) (n pid id : ℕ)
    (name : String)
    → let known = lvm_list_vg_names none in
      let run =
        helper_main
          (list_volume_groups lvm_list_vg_names lib_dir)
          vg_open
          serialize
          print
          accept
          (arguments lvm_update_args) in
      parse (serialize (names known)) ≡ known
      → Accepts accept
      → spawn (argv_of dirs resource_dir lvm_update_args) ≡ ok pid
      → run.status ≡ some n
      → joined chunks ++ rest_of rest ≡ run.output
      → (read_events parse exit_error
            (map readable chunks ++ ended (exited n) rest ∷ after)
            (spawn_for_variant parse exit_error dirs resource_dir spawn lvm_update_args)
          ≡ answering parse exit_error pid (record { pid = pid; result = ok known } ∷ []))
        × (is_some (lookup name (lvm_update_from_variant id (ok known) u).manager.volume_groups)
            ≡ any (str_eq name) known)
unfolding init_lvm
helper_list_reaches_manager lvm_list_vg_names lib_dir vg_open serialize print accept parse
      exit_error dirs resource_dir spawn u chunks rest after n pid id name reads sound starts ends
      piped =
    let known = lvm_list_vg_names none in
    let wrote =
      helper-lists (list_volume_groups lvm_list_vg_names lib_dir) vg_open serialize print accept
        sound
      ∙ ap (λ ns. record { status = some 0; output = serialize (names ns) })
          (list_volume_groups-names lvm_list_vg_names lib_dir false) in
    let zero_status : n ≡ 0 = ground (arith, ends, wrote) in
    let left = λ (s : Result ℕ) (b : Bytes) (m : ℕ).
      let a = expected parse exit_error s b (exited m) in
      answering parse exit_error a.pid (a ∷ []) in
    let once =
      answered_once parse exit_error dirs resource_dir spawn lvm_update_args chunks (exited n) rest
        after in
    let written_out = piped ∙ ap (λ (e : Ended). e.output) wrote in
    (
      once
          ∙ ap (λ s. left s (joined chunks ++ rest_of rest) n) starts
          ∙ ap (λ b. left (ok pid) b n) written_out
          ∙ ap (λ m. left (ok pid) (serialize (names known)) m) zero_status
          ∙ ap (λ i. answering parse exit_error pid (record { pid = pid; result = ok i } ∷ []))
              reads,
      lvm_update_from_variant-listed id name known u,
    )
