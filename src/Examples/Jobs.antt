-- ===== src/Examples/Jobs.antt =====
-- A job in a thread, one that runs a program, and the samples of a third.
use storaged.Prelude.{
  ℕ, ◌≡◌, ◌≢◌, refl, String, Bool, true, false, Option, none, some, List, [], ◌∷◌, ◌++◌, ◌<>◌,
  if◌then◌else◌, is_some, drop, arith, ◌⊎◌,
}
use storaged.System.{Error, udisks_error, failed, exited}
use storaged.Util.Status.{is_success, status_message, output_message}
use storaged.Job.Threaded.{
  FuncResult, ThreadedJob, Completion, threaded_job, threaded_job_new, run_io_scheduler_job,
  threaded_job_completes,
}
use storaged.Job.Spawned.State.{Bytes, spawned_job_constructed, spawn_child}
use storaged.Job.Spawned.Events.{
  cancelled, readable_stdout, readable_stderr, writable_stdin, child_exited, idle, Event,
  run_events,
}
use storaged.Job.Spawned.Stdin.{writes, input_is_written}
use storaged.Job.Spawned.Completion.{started}
use storaged.Job.Spawned.Message.{completions, run_reports_once, cancelled_race_crashes}
use storaged.Job.Spawned.Setup.{
  become, call_all, setreuid, setregid, initgroups, setgroups_none, Passwd, Ids, IdCall, apply_call,
  child_setup, runs_as_named,
}

abbrev pub no_space : Error
no_space = udisks_error failed "no space left"

abbrev pub code_0 : Error → ℕ
code_0 e = 0

abbrev wipe_failed : FuncResult
wipe_failed = record { value = false; error = some no_space }

threaded_job_completes_example :
    (threaded_job code_0 none wipe_failed ≢ none)
    × ((c : Completion)
        → threaded_job code_0 none wipe_failed ≡ some c
        → c.success ≡ (if is_some {A = Error} none then false else wipe_failed.value))
    × ((job : ThreadedJob)
        → run_io_scheduler_job none wipe_failed threaded_job_new ≡ some job
        → job.func_calls ≡ (if is_some {A = Error} none then 0 else 1))
threaded_job_completes_example = threaded_job_completes code_0 none wipe_failed (λ h. ground arith)

abbrev key : Bytes
key = 107 ∷ 101 ∷ 121 ∷ []

abbrev pub talk : List Event
talk = readable_stdout (79 ∷ []) ∷ writable_stdin 2 ∷ readable_stderr (69 ∷ []) ∷ []

input_is_written_example :
    ((run_events (writes (1 ∷ 1 ∷ 1 ∷ 1 ∷ [])) (started (some key) 42)).stdin_open ≡ false)
    × ((run_events (writes (1 ∷ 1 ∷ 1 ∷ 1 ∷ [])) (started (some key) 42)).written
        ≡ (started (some key) 42).input_cursor)
unfolding spawned_job_constructed spawn_child
input_is_written_example =
    input_is_written (1 ∷ 1 ∷ 1 ∷ 1 ∷ []) (started (some key) 42) refl refl
      (omega arith, (omega arith, (omega arith, (omega arith, tt)))) (omega arith)

-- A rendering of the outputs
abbrev pub shown : Bytes → String
shown [] = ""
shown (b ∷ bs) = "x" <> shown bs

run_reports_once_example :
    completions shown code_0 "lvcreate"
      (run_events (talk ++ child_exited (exited 5) (80 ∷ []) [] ∷ []) (started none 42)).signals
    ≡ some (record {
      success = is_success (exited 5);
      message =
          if is_success (exited 5)
          then "x"
          else status_message "lvcreate" (exited 5) <> output_message (some "x") (some "xx");
    })
      ∷ []
run_reports_once_example =
    run_reports_once shown code_0 "lvcreate" none 42 talk [] (exited 5) (80 ∷ []) []
      ((refl, refl), ((refl, refl), ((refl, refl), tt)))

cancelled_race_crashes_example :
    drop 1 (
      completions shown code_0 "lvcreate"
        (run_events
          (talk ++ cancelled no_space ∷ child_exited (exited 0) [] [] ∷ idle ∷ [])
          (started none 42)).signals)
    ≡ none ∷ []
cancelled_race_crashes_example =
    cancelled_race_crashes shown code_0 "lvcreate" none 42 talk no_space (exited 0) [] []
      ((refl, refl), ((refl, refl), ((refl, refl), tt)))

-- A database where every user has a group of the same number
abbrev users : ℕ → Option Passwd
users n = some (record { name = "user"; uid = n; gid = n })

abbrev root : Ids
root = record { uid = 0; euid = 0; gid = 0; egid = 0; trace = [] }

abbrev all_allowed : IdCall → Ids → Bool
all_allowed c ids = true

abbrev as_500 : Ids
as_500 = record {
  uid = 500;
  euid = 500;
  gid = 500;
  egid = 500;
  trace = setreuid 500 500 ∷ setregid 500 500 ∷ initgroups "user" 500 ∷ setgroups_none ∷ [];
}

runs_as_named_example :
    (as_500.uid ≡ 500)
    × (as_500.euid ≡ 500)
    × ((as_500 ≡ root)
        ⊎ ((user : Passwd) × (effective : Passwd) × (users 500 ≡ some user)
            × (users 500 ≡ some effective)
            × (as_500.gid ≡ user.gid)
            × (as_500.egid ≡ effective.gid)
            × (as_500.trace
                ≡ setreuid user.uid 500
                  ∷ setregid user.gid effective.gid
                  ∷ initgroups user.name user.gid
                  ∷ setgroups_none
                  ∷ root.trace)))
unfolding child_setup become call_all apply_call
runs_as_named_example =
    runs_as_named users all_allowed 500 500 root as_500 (λ n pw h. ground arith) refl
