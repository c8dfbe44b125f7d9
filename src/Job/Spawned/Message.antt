-- ===== src/Job/Spawned/Message.antt =====
-- storage_spawned_job_completed_default of src/spawnedjob.c: what a spawned job reports on the bus.
use storaged.Prelude.{
  ℕ, ◌≡◌, String, true, false, Option, none, some, ◌<>◌, printf_d, arith, List, [], ◌∷◌, ◌++◌, All,
  drop, ap, ◌∙◌, if◌then◌else◌,
}
use storaged.System.{Error, Result, ok, err, WaitStatus, exited}
use storaged.Util.Status.{check_status_and_output, is_success, status_message, output_message}
use storaged.Job.Spawned.State.{Bytes, Signal}
use storaged.Job.Spawned.Completion.{
  exit_signal, Quiet, started, completes_once, cancelled_race_completes_twice,
}
use storaged.Job.Spawned.Events.{
  Event, cancelled, child_exited, idle, run_events, read_out, read_err,
}
use storaged.Job.Threaded.{Completion}

-- The status is 0 where there is an error.
abbrev status_or_0 : Option WaitStatus → WaitStatus
status_or_0 none = exited 0
status_or_0 (some status) = status

-- `text` is the C string of a GString, `code_number` the number of an error's code.
module _ (text : Bytes → String) (code_number : Error → ℕ) where
  checked_completion : Result (Unit {0}) → Bytes → Completion
  checked_completion (ok _) standard_error = record {
    success = true;
    message = text standard_error;
  }
  checked_completion (err e) standard_error = record { success = false; message = e.message }

  completion_of : String → Option Error → Option WaitStatus → Bytes → Bytes → Completion
  unfolding checked_completion
  completion_of argv0 (some e) status standard_output standard_error = record {
    success = false;
    message = e.message <> " (" <> e.domain <> ", " <> printf_d (code_number e) <> ")";
  }
  completion_of argv0 none status standard_output standard_error =
      checked_completion
        (check_status_and_output argv0 (status_or_0 status) (some (text standard_error))
          (some (text standard_output)))
        standard_error

  read_strings : String → Signal → Option Bytes → Option Bytes → Option Completion
  unfolding completion_of
  read_strings argv0 signal (some out) (some error) =
      some (completion_of argv0 signal.error signal.status out error)
  read_strings argv0 signal _ _ = none

  -- storage_spawned_job_completed_default. The text for the debug log reads both strings first: `none`
  -- is the crash where one is NULL.
  unfoldable pub completed_default : String → Signal → Option Completion
  unfolding read_strings
  completed_default argv0 signal =
      read_strings argv0 signal signal.standard_output signal.standard_error

  -- What the default handler does with all signals of a run
  unfoldable pub completions : String → List Signal → List (Option Completion)
  unfolding completed_default
  completions argv0 [] = []
  completions argv0 (signal ∷ rest) = completed_default argv0 signal ∷ completions argv0 rest

  completed-exit :
      (argv0 : String) (status : WaitStatus) (out error : Bytes)
      → completed_default argv0 (exit_signal status out error)
        ≡ some (record {
          success = is_success status;
          message =
              if is_success status
              then text error
              else status_message argv0 status
                <> output_message (some (text error)) (some (text out));
        })
  unfolding completed_default check_status_and_output
  completed-exit argv0 status out error = ground arith

  -- A job that is not cancelled before its child exits reports once: success exactly if the status
  -- is 0, with the child's standard error as the message; otherwise the message names the status, and
  -- shows the two outputs with the standard error in the place of the standard output.
  pub run_reports_once :
      (argv0 : String) (input : Option Bytes) (pid : ℕ) (before after : List Event)
      (status : WaitStatus) (rest_out rest_err : Bytes)
      → All Quiet before
      → completions argv0
          (run_events
            (before ++ child_exited status rest_out rest_err ∷ after)
            (started input pid)).signals
        ≡ some (record {
          success = is_success status;
          message =
              if is_success status
              then text (read_err before ++ rest_err)
              else status_message argv0 status
                <> output_message
                    (some (text (read_err before ++ rest_err)))
                    (some (text (read_out before ++ rest_out)));
        })
          ∷ []
  unfolding completions
  run_reports_once argv0 input pid before after status ro re q =
      ap (completions argv0) (completes_once input pid before after status ro re q)
      ∙ ap (λ c. c ∷ [])
          (completed-exit argv0 status (read_out before ++ ro) (read_err before ++ re))

  -- The race of a cancellation with the child's exit crashes the default handler, on the second signal.
  pub cancelled_race_crashes :
      (argv0 : String) (input : Option Bytes) (pid : ℕ) (before : List Event) (e : Error)
      (status : WaitStatus) (rest_out rest_err : Bytes)
      → All Quiet before
      → drop 1 (
          completions argv0
            (run_events
              (before ++ cancelled e ∷ child_exited status rest_out rest_err ∷ idle ∷ [])
              (started input pid)).signals)
        ≡ none ∷ []
  unfolding completions completed_default
  cancelled_race_crashes argv0 input pid before e status ro re q =
      ap (λ l. drop 1 (completions argv0 l))
        (cancelled_race_completes_twice input pid before e status ro re q)
