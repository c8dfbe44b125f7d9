-- ===== src/Daemon/Reader.antt =====
-- `storage_daemon_spawn_for_variant` of src/daemon.c with the callbacks of its VariantReaderData, and
-- `storage_daemon_get_resource_path`.
pub mod Answers
pub mod Pipeline
pub mod Listing
use Prim.Native.String
use storaged.Prelude.{
  ℕ, String, Bool, true, false, Option, none, some, List, [], ◌∷◌, ◌++◌, strstr, if◌then◌else◌,
}
use storaged.System.{Error, Result, ok, err, WaitStatus}
use storaged.Util.Status.{is_success}

abbrev pub Bytes : Type 0
Bytes = List ℕ

-- PACKAGE_LIB_DIR and PACKAGE_DATA_DIR, which the build defines, and g_build_filename
pub record Directories : Type 0 where
  pub lib_dir : String
  pub data_dir : String
  pub build_filename : List String → String

-- storage_daemon_get_resource_path, given `resource_dir` of the daemon
unfoldable pub get_resource_path : Directories → Option String → Bool → String → String
get_resource_path dirs (some dir) arch_specific file = dirs.build_filename (dir ∷ file ∷ [])
get_resource_path dirs none true file = dirs.build_filename (dirs.lib_dir ∷ "storaged" ∷ file ∷ [])
get_resource_path dirs none false file =
    dirs.build_filename (dirs.data_dir ∷ "storaged" ∷ file ∷ [])

-- The program is looked up unless it is given by a path.
unfoldable pub argv_of : Directories → Option String → List String → List String
unfolding get_resource_path
argv_of dirs resource_dir [] = []
argv_of dirs resource_dir (program ∷ args) =
    (if strstr program "/" then program else get_resource_path dirs resource_dir true program)
    ∷ args

-- What the callback is given
pub record Answer {ℓ} (V : Type ℓ) : Type ℓ where
  pub pid : ℕ
  pub result : Result V

-- VariantReaderData, without the callback and what it is for
pub record Reader : Type 0 where
  pub pid : ℕ
  pub output : Bytes

-- The reader lives until its child has been waited for.
pub record Reading {ℓ} (V : Type ℓ) : Type ℓ where
  pub returned : ℕ
  pub reader : Option Reader
  pub answers : List (Answer V)

-- What the main loop tells of the child: some output can be read, of at most 1024 bytes, or the child
-- has ended; then the rest of its output comes along, `none` where g_io_channel_read_to_end does not
-- return G_IO_STATUS_NORMAL.
pub data Event : Type 0 where
  readable : Bytes → Event
  ended : WaitStatus → Option Bytes → Event

abbrev pub rest_of : Option Bytes → Bytes
rest_of none = []
rest_of (some bytes) = bytes

-- `parse` is g_variant_new_from_data with the type, `exit_error` the error of g_spawn_check_exit_status,
-- which is there exactly for a status that is no success.
module _ {ℓ} {V : Type ℓ} (parse : Bytes → V) (exit_error : WaitStatus → Error) where
  -- variant_reader_child_output
  pub child_output : Bytes → Reader → Reader
  child_output bytes r = record r { output = r.output ++ bytes }

  -- variant_reader_watch_child
  pub watch_child : WaitStatus → Option Bytes → Reader → Answer V
  watch_child status rest r = record {
    pid = r.pid;
    result =
        if is_success status
        then ok (parse (r.output ++ rest_of rest))
        else err (exit_error status);
  }

  -- variant_reader_destroy removes both sources, so that nothing is heard after the end.
  pub step_reader : Event → Reading V → Reading V
  unfolding child_output watch_child
  step_reader e s = elim s.reader [
    | none ↦ s
    | some r ↦ elim e [
      | readable bytes ↦ record s { reader = some (child_output bytes r) }
      | ended status rest ↦ record s {
        reader = none;
        answers = s.answers ++ watch_child status rest r ∷ [];
      }
    ]
  ]

  pub read_events : List Event → Reading V → Reading V
  read_events [] s = s
  read_events (e ∷ es) s = read_events es (step_reader e s)

  -- What is left after the attempt to start the program
  pub start_reader : Result ℕ → Reading V
  start_reader (err e) = record {
    returned = 0;
    reader = none;
    answers = record { pid = 0; result = err e } ∷ [];
  }
  start_reader (ok pid) = record {
    returned = pid;
    reader = some (record { pid = pid; output = [] });
    answers = [];
  }

  -- `spawn` is g_spawn_async_with_pipes, which gives a pid or an error.
  pub spawn_for_variant :
      Directories → Option String → (List String → Result ℕ) → List String → Reading V
  unfolding start_reader
  spawn_for_variant dirs resource_dir spawn argv =
      start_reader (spawn (argv_of dirs resource_dir argv))
