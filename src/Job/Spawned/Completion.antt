-- ===== src/Job/Spawned/Completion.antt =====
-- How often a spawned job completes, and with what.
use mathlib.Core.List.{append_assoc, append-nil}
use storaged.Prelude.{
  ℕ, ◌≡◌, refl, sym, ap, ◌∙◌, true, false, Option, none, some, List, [], ◌∷◌, ◌++◌, All, arith,
}
use storaged.System.{Error, WaitStatus}
use storaged.Job.Spawned.State.{
  Bytes, SpawnedJob, Signal, child, spawned_job_init, spawned_job_constructed, spawn_child,
  on_cancelled, read_child_stdout, read_child_stderr, write_child_stdin, child_watch_cb, idle_cb,
  emit_idle, release_resources, emit_completed_with_error_in_idle,
}
use storaged.Job.Spawned.Events.{
  Event, cancelled, readable_stdout, readable_stderr, writable_stdin, child_exited, idle, dispatch,
  run_events, is_cancel, is_exit, read_out, read_err,
}

-- The child runs; nothing was emitted, nothing waits, and this was read of its outputs.
record Running (s : SpawnedJob) (out error : Bytes) : Type 0 where
  watching : s.watching ≡ true
  connected : s.connected ≡ true
  reading : s.reading ≡ true
  idles : s.idles ≡ []
  signals : s.signals ≡ []
  child_stdout : s.child_stdout ≡ some out
  child_stderr : s.child_stderr ≡ some error

-- The child has exited, and these are the signals emitted.
record Exited (s : SpawnedJob) (emitted : List Signal) : Type 0 where
  watching : s.watching ≡ false
  connected : s.connected ≡ false
  idles : s.idles ≡ []
  signals : s.signals ≡ emitted

abbrev pub Quiet : Event → Type 0
Quiet e = (is_cancel e ≡ false) × (is_exit e ≡ false)

Running-dispatch :
    (e : Event) (s : SpawnedJob) (out error : Bytes)
    → Quiet e
    → Running s out error
    → Running (dispatch e s) (out ++ read_out (e ∷ [])) (error ++ read_err (e ∷ []))
unfolding dispatch read_child_stdout read_child_stderr write_child_stdin idle_cb emit_idle
Running-dispatch (cancelled e) s out error q r = absurd (ground arith)
Running-dispatch (readable_stdout buf) s out error q r =
    ground (arith, append-nil buf, append-nil error)
Running-dispatch (readable_stderr buf) s out error q r =
    ground (arith, append-nil buf, append-nil out)
Running-dispatch (writable_stdin n) s out error q r =
    ground (arith, append-nil out, append-nil error)
Running-dispatch (child_exited status ro re) s out error q r = absurd (ground arith)
Running-dispatch idle s out error q r = ground (arith, append-nil out, append-nil error)

read_out-cons : (e : Event) (es : List Event) → read_out (e ∷ es) ≡ read_out (e ∷ []) ++ read_out es
read_out-cons (readable_stdout buf) es = ap (λ b. b ++ read_out es) (sym (append-nil buf))
read_out-cons (cancelled e) es = refl
read_out-cons (readable_stderr buf) es = refl
read_out-cons (writable_stdin n) es = refl
read_out-cons (child_exited status ro re) es = refl
read_out-cons idle es = refl

read_err-cons : (e : Event) (es : List Event) → read_err (e ∷ es) ≡ read_err (e ∷ []) ++ read_err es
read_err-cons (readable_stderr buf) es = ap (λ b. b ++ read_err es) (sym (append-nil buf))
read_err-cons (cancelled e) es = refl
read_err-cons (readable_stdout buf) es = refl
read_err-cons (writable_stdin n) es = refl
read_err-cons (child_exited status ro re) es = refl
read_err-cons idle es = refl

Running-run_events :
    (es : List Event) (s : SpawnedJob) (out error : Bytes)
    → All Quiet es
    → Running s out error
    → Running (run_events es s) (out ++ read_out es) (error ++ read_err es)
unfolding run_events
Running-run_events [] s out error q r = rw (append-nil out, append-nil error) r
Running-run_events (e ∷ es) s out error q r =
    let step = Running-dispatch e s out error q.0 r in
    rw
      (
        read_out-cons e es,
        read_err-cons e es,
        sym (append_assoc out (read_out (e ∷ [])) (read_out es)),
        sym (append_assoc error (read_err (e ∷ [])) (read_err es)),
      )
      (Running-run_events es (dispatch e s) (out ++ read_out (e ∷ [])) (error ++ read_err (e ∷ []))
        q.1 step)

-- The signal of a child that exited
abbrev pub exit_signal : WaitStatus → Bytes → Bytes → Signal
exit_signal status out error = record {
  error = none;
  status = some status;
  standard_output = some out;
  standard_error = some error;
}

Exited-child_watch_cb :
    (status : WaitStatus) (ro re : Bytes) (s : SpawnedJob) (out error : Bytes)
    → Running s out error
    → Exited (child_watch_cb status ro re s) (exit_signal status (out ++ ro) (error ++ re) ∷ [])
unfolding child_watch_cb release_resources
Exited-child_watch_cb status ro re s out error r = ground arith

Exited-dispatch :
    (e : Event) (s : SpawnedJob) (emitted : List Signal)
    → Exited s emitted
    → Exited (dispatch e s) emitted
unfolding dispatch on_cancelled read_child_stdout read_child_stderr write_child_stdin child_watch_cb
    idle_cb emit_idle
Exited-dispatch (cancelled e) s l x = ground arith
Exited-dispatch (readable_stdout buf) s l x = ground arith
Exited-dispatch (readable_stderr buf) s l x = ground arith
Exited-dispatch (writable_stdin n) s l x = ground arith
Exited-dispatch (child_exited status ro re) s l x = ground arith
Exited-dispatch idle s l x = ground arith

Exited-run_events :
    (es : List Event) (s : SpawnedJob) (emitted : List Signal)
    → Exited s emitted
    → Exited (run_events es s) emitted
unfolding run_events
Exited-run_events [] s l x = x
Exited-run_events (e ∷ es) s l x = Exited-run_events es (dispatch e s) l (Exited-dispatch e s l x)

run_events-append :
    (es more : List Event) (s : SpawnedJob)
    → run_events (es ++ more) s ≡ run_events more (run_events es s)
unfolding run_events
run_events-append [] more s = refl
run_events-append (e ∷ es) more s = run_events-append es more (dispatch e s)

-- A job whose child runs, as it is constructed
abbrev pub started : Option Bytes → ℕ → SpawnedJob
started input pid = spawned_job_constructed none (λ e. e) input (child pid) spawned_job_init

Running-started : (input : Option Bytes) (pid : ℕ) → Running (started input pid) [] []
unfolding spawned_job_constructed spawn_child
Running-started none pid = ground arith
Running-started (some input) pid = ground arith

-- A job that is not cancelled before its child exits completes exactly once, whatever comes after:
-- with the child's status, no error, and all that was read of each output, in order.
pub completes_once :
    (input : Option Bytes) (pid : ℕ) (before after : List Event) (status : WaitStatus)
    (rest_out rest_err : Bytes)
    → All Quiet before
    → (run_events
        (before ++ child_exited status rest_out rest_err ∷ after)
        (started input pid)).signals
      ≡ exit_signal status (read_out before ++ rest_out) (read_err before ++ rest_err) ∷ []
unfolding run_events dispatch
completes_once input pid before after status ro re q =
    let runs = Running-run_events before (started input pid) [] [] q (Running-started input pid) in
    let s = run_events before (started input pid) in
    let exits = Exited-child_watch_cb status ro re s (read_out before) (read_err before) runs in
    ap SpawnedJob.signals
      (run_events-append before (child_exited status ro re ∷ after) (started input pid))
    ∙ (Exited-run_events after (child_watch_cb status ro re s) _ exits).signals

race :
    (e : Error) (status : WaitStatus) (ro re : Bytes) (s : SpawnedJob) (out error : Bytes)
    → Running s out error
    → (idle_cb (child_watch_cb status ro re (on_cancelled e s))).signals
      ≡ exit_signal status (out ++ ro) (error ++ re)
        ∷ record { error = some e; status = none; standard_output = none; standard_error = none }
        ∷ []
unfolding on_cancelled child_watch_cb release_resources idle_cb emit_idle
    emit_completed_with_error_in_idle
race e status ro re s out error r = ground arith

-- A job that is cancelled after its child has exited, but before the main loop has seen that, completes
-- twice: first with the child's status, then with the cancellation and without its output strings,
-- which have been freed.
pub cancelled_race_completes_twice :
    (input : Option Bytes) (pid : ℕ) (before : List Event) (e : Error) (status : WaitStatus)
    (rest_out rest_err : Bytes)
    → All Quiet before
    → (run_events
        (before ++ cancelled e ∷ child_exited status rest_out rest_err ∷ idle ∷ [])
        (started input pid)).signals
      ≡ exit_signal status (read_out before ++ rest_out) (read_err before ++ rest_err)
        ∷ record { error = some e; status = none; standard_output = none; standard_error = none }
        ∷ []
unfolding run_events dispatch
cancelled_race_completes_twice input pid before e status ro re q =
    let runs = Running-run_events before (started input pid) [] [] q (Running-started input pid) in
    ap SpawnedJob.signals (
      run_events-append before (cancelled e ∷ child_exited status ro re ∷ idle ∷ [])
        (started input pid))
    ∙ race e status ro re (run_events before (started input pid)) (read_out before)
        (read_err before) runs
