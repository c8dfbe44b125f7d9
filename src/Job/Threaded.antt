-- ===== src/Job/Threaded.antt =====
-- src/threadedjob.c: a job that runs a function in another thread. The function and the main loop are
-- parameters.
use storaged.Prelude.{
  ℕ, ◌+◌, ◌≡◌, ◌≢◌, String, Bool, true, false, Option, none, some, ◌<>◌, printf_d, is_some,
  if◌then◌else◌, arith,
}
use storaged.System.{Error}

-- What a StorageJobFunc returns and writes to its GError
pub record FuncResult : Type 0 where
  pub value : Bool
  pub error : Option Error

-- The signal "completed" of the job, with its arguments
pub record Completion : Type 0 where
  pub success : Bool
  pub message : String

-- StorageThreadedJob, as far as it changes, with how often job_func has been called
pub record ThreadedJob : Type 0 where
  pub job_result : Bool
  pub job_error : Option Error
  pub func_calls : ℕ

-- storage_threaded_job_init
abbrev pub threaded_job_new : ThreadedJob
threaded_job_new = record { job_result = false; job_error = none; func_calls = 0 }

-- run_io_scheduler_job, in the thread, up to the callback that it sends to the main loop. The first
-- argument is the error of g_cancellable_set_error_if_cancelled, if the job has been cancelled; `none`
-- is a failed assertion.
pub run_io_scheduler_job : Option Error → FuncResult → ThreadedJob → Option ThreadedJob
run_io_scheduler_job cancelled func job =
    if job.job_result
    then none
    else if is_some job.job_error
    then none
    else some (elim cancelled [
      | some e ↦ record job { job_error = some e }
      | none ↦ record {
        job_result = func.value;
        job_error = func.error;
        func_calls = job.func_calls + 1;
      }
    ])

-- The number of an error code, by which it is printed
module _ (code_number : Error → ℕ) where
  -- storage_threaded_job_threaded_job_completed_default; `none` is a failed assertion.
  pub threaded_job_completed_default : Bool → Option Error → Option Completion
  threaded_job_completed_default true error = some (record { success = true; message = "" })
  threaded_job_completed_default false none = none
  threaded_job_completed_default false (some e) = some (record {
    success = false;
    message =
        "Threaded job failed with error: "
        <> e.message
        <> " ("
        <> e.domain
        <> ", "
        <> printf_d (code_number e)
        <> ")";
  })

  -- job_complete, in the main loop
  pub job_complete : ThreadedJob → Option Completion
  unfolding threaded_job_completed_default
  job_complete job = threaded_job_completed_default job.job_result job.job_error

  -- The whole job, from its construction to the signal
  abbrev pub complete_if : Option ThreadedJob → Option Completion
  complete_if none = none
  complete_if (some job) = job_complete job

  pub threaded_job : Option Error → FuncResult → Option Completion
  unfolding run_io_scheduler_job job_complete
  threaded_job cancelled func = complete_if (run_io_scheduler_job cancelled func threaded_job_new)

  -- A job function is sound if it sets an error when it returns FALSE.
  abbrev pub IsSound : FuncResult → Type 0
  IsSound func = func.value ≡ false → func.error ≢ none

  -- A job whose function sets an error when it fails runs into no assertion and completes. It succeeds
  -- exactly when it had not been cancelled before it ran and its function returned TRUE; a job that had
  -- been cancelled does not call its function, which holds of the state that the thread leaves.
  pub threaded_job_completes :
      (cancelled : Option Error) (func : FuncResult)
      → IsSound func
      → (threaded_job cancelled func ≢ none)
        × ((c : Completion)
            → threaded_job cancelled func ≡ some c
            → c.success ≡ (if is_some cancelled then false else func.value))
        × ((job : ThreadedJob)
            → run_io_scheduler_job cancelled func threaded_job_new ≡ some job
            → job.func_calls ≡ (if is_some cancelled then 0 else 1))
  unfolding threaded_job
  threaded_job_completes none func h = (ground arith, λ c e. ground arith, λ job e. ground arith)
  threaded_job_completes (some x) func h =
      (ground arith, λ c e. ground arith, λ job e. ground arith)
