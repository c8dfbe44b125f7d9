-- ===== src/Job/Spawned/State.antt =====
-- The object of src/spawnedjob.c from its construction to its release: its callbacks, run one at a time
-- by the main loop. Texts are lists of bytes. The system and GLib are parameters.
use storaged.Prelude.{
  ℕ, Bool, true, false, not, Option, none, some, List, [], ◌∷◌, ◌++◌, take, drop, if◌then◌else◌,
  ◌==◌,
}
use storaged.System.{Error, WaitStatus}

abbrev pub Bytes : Type 0
Bytes = List ℕ

-- The arguments of the signal "spawned-job-completed": an error, or a status; and the two GStrings,
-- `none` where the pointer is NULL.
pub record Signal : Type 0 where
  pub error : Option Error
  pub status : Option WaitStatus
  pub standard_output : Option Bytes
  pub standard_error : Option Bytes

-- StorageSpawnedJob. `watching`, `stdin_open` and `connected` say whether there is a child watch, a
-- source with its channel and descriptor for the child's input, and a handler on the cancellable.
-- `idles` are the errors that wait in idle callbacks, `written` what the child was given, `signals`
-- what was emitted, `killed` the processes sent SIGTERM.
pub record SpawnedJob : Type 0 where
  pub child_pid : ℕ
  pub watching : Bool
  pub connected : Bool
  pub stdin_open : Bool
  pub input_cursor : Bytes
  pub child_stdout : Option Bytes
  pub child_stderr : Option Bytes
  pub reading : Bool
  pub idles : List Error
  pub written : Bytes
  pub signals : List Signal
  pub killed : List ℕ

-- storage_spawned_job_init
abbrev pub spawned_job_init : SpawnedJob
spawned_job_init = record {
  child_pid = 0;
  watching = false;
  connected = false;
  stdin_open = false;
  input_cursor = [];
  child_stdout = some [];
  child_stderr = some [];
  reading = false;
  idles = [];
  written = [];
  signals = [];
  killed = [];
}

-- emit_completed_with_error_in_idle
unfoldable pub emit_completed_with_error_in_idle : Error → SpawnedJob → SpawnedJob
emit_completed_with_error_in_idle e s = record s { idles = s.idles ++ e ∷ [] }

-- What g_spawn_async_with_pipes answers
pub data Spawned : Type 0 where
  spawn_failed : Error → Spawned
  child : (pid : ℕ) → Spawned

-- storage_spawned_job_constructed. The first argument is the error of a cancellable that is cancelled,
-- the second the text that g_prefix_error makes of an error, the third the input string.
unfoldable pub spawn_child : (Error → Error) → Option Bytes → Spawned → SpawnedJob → SpawnedJob
unfolding emit_completed_with_error_in_idle
spawn_child with_prefix input (spawn_failed e) s =
    emit_completed_with_error_in_idle (with_prefix e) (record s { connected = true })
spawn_child with_prefix none (child pid) s = record s {
  connected = true;
  child_pid = pid;
  watching = true;
  reading = true;
}
spawn_child with_prefix (some input) (child pid) s = record s {
  connected = true;
  child_pid = pid;
  watching = true;
  reading = true;
  stdin_open = true;
  input_cursor = input;
}

unfoldable pub spawned_job_constructed :
    Option Error → (Error → Error) → Option Bytes → Spawned → SpawnedJob → SpawnedJob
unfolding spawn_child
spawned_job_constructed (some cancelled) with_prefix input spawned s =
    emit_completed_with_error_in_idle cancelled s
spawned_job_constructed none with_prefix input spawned s = spawn_child with_prefix input spawned s

-- on_cancelled, if the handler is connected
unfoldable pub on_cancelled : Error → SpawnedJob → SpawnedJob
unfolding emit_completed_with_error_in_idle
on_cancelled e s = if s.connected then emit_completed_with_error_in_idle e s else s

abbrev pub append_to : Option Bytes → Bytes → Option Bytes
append_to none more = none
append_to (some bytes) more = some (bytes ++ more)

-- read_child_stdout and read_child_stderr, with the bytes that are there
unfoldable pub read_child_stdout : Bytes → SpawnedJob → SpawnedJob
read_child_stdout buf s =
    if s.reading then record s { child_stdout = append_to s.child_stdout buf } else s

unfoldable pub read_child_stderr : Bytes → SpawnedJob → SpawnedJob
read_child_stderr buf s =
    if s.reading then record s { child_stderr = append_to s.child_stderr buf } else s

unfoldable pub is_empty : Bytes → Bool
is_empty [] = true
is_empty (b ∷ bs) = false

-- write_child_stdin, when the channel takes so many of the bytes
unfoldable pub write_child_stdin : ℕ → SpawnedJob → SpawnedJob
unfolding is_empty
write_child_stdin bytes_written s =
    if not s.stdin_open
    then s
    else if is_empty s.input_cursor
    then record s { stdin_open = false }
    else record s {
      input_cursor = drop bytes_written s.input_cursor;
      written = s.written ++ take bytes_written s.input_cursor;
    }

-- storage_spawned_job_release_resources
unfoldable pub release_resources : SpawnedJob → SpawnedJob
release_resources s = record s {
  watching = false;
  killed = if s.child_pid == 0 then s.killed else s.child_pid ∷ s.killed;
  child_pid = 0;
  child_stdout = none;
  child_stderr = none;
  stdin_open = false;
  reading = false;
  connected = false;
}

-- child_watch_cb, with the rest of both outputs
unfoldable pub child_watch_cb : WaitStatus → Bytes → Bytes → SpawnedJob → SpawnedJob
unfolding release_resources
child_watch_cb status rest_out rest_err s =
    let out = append_to s.child_stdout rest_out in
    let error = append_to s.child_stderr rest_err in
    let signal : Signal = record {
      error = none;
      status = some status;
      standard_output = out;
      standard_error = error;
    } in
    if s.watching
    then release_resources (record s {
      child_stdout = out;
      child_stderr = error;
      signals = s.signals ++ signal ∷ [];
      child_pid = 0;
      watching = false;
    })
    else s

-- emit_completed_with_error_in_idle_cb, for the first error that waits
unfoldable pub emit_idle : List Error → SpawnedJob → SpawnedJob
emit_idle [] s = s
emit_idle (e ∷ es) s = record s {
  idles = es;
  signals =
      s.signals
      ++ record {
        error = some e;
        status = none;
        standard_output = s.child_stdout;
        standard_error = s.child_stderr;
      }
        ∷ [];
}

unfoldable pub idle_cb : SpawnedJob → SpawnedJob
unfolding emit_idle
idle_cb s = emit_idle s.idles s
