-- ===== src/Job/Spawned/Events.antt =====
-- The callbacks of a job that runs a program, as the main loop runs them one after the other.
use storaged.Prelude.{ℕ, Bool, true, false, List, [], ◌∷◌, ◌++◌}
use storaged.System.{Error, WaitStatus}
use storaged.Job.Spawned.State.{
  Bytes, SpawnedJob, on_cancelled, read_child_stdout, read_child_stderr, write_child_stdin,
  child_watch_cb, idle_cb,
}

-- A callback with what the system hands it
pub data Event : Type 0 where
  cancelled : Error → Event
  readable_stdout : Bytes → Event
  readable_stderr : Bytes → Event
  writable_stdin : (bytes_written : ℕ) → Event
  child_exited : WaitStatus → (rest_out rest_err : Bytes) → Event
  idle : Event

unfoldable pub dispatch : Event → SpawnedJob → SpawnedJob
unfolding on_cancelled read_child_stdout read_child_stderr write_child_stdin child_watch_cb idle_cb
dispatch (cancelled e) s = on_cancelled e s
dispatch (readable_stdout buf) s = read_child_stdout buf s
dispatch (readable_stderr buf) s = read_child_stderr buf s
dispatch (writable_stdin n) s = write_child_stdin n s
dispatch (child_exited status out error) s = child_watch_cb status out error s
dispatch idle s = idle_cb s

unfoldable pub run_events : List Event → SpawnedJob → SpawnedJob
unfolding dispatch
run_events [] s = s
run_events (e ∷ es) s = run_events es (dispatch e s)

abbrev pub is_cancel : Event → Bool
is_cancel (cancelled e) = true
is_cancel _ = false

abbrev pub is_exit : Event → Bool
is_exit (child_exited status out error) = true
is_exit _ = false

-- What the events read of the child's two outputs
abbrev pub read_out : List Event → Bytes
read_out [] = []
read_out (readable_stdout buf ∷ es) = buf ++ read_out es
read_out (_ ∷ es) = read_out es

abbrev pub read_err : List Event → Bytes
read_err [] = []
read_err (readable_stderr buf ∷ es) = buf ++ read_err es
read_err (_ ∷ es) = read_err es
