-- ===== src/Util/Status.antt =====
-- get_signal_name and storage_util_check_status_and_output of src/util.c. The numbers of the signals
-- are those of Linux on x86.
use storaged.Prelude.{
  ℕ, String, ◌≡◌, Bool, true, false, not, ◌&&◌, Option, none, some, arith, ◌<>◌, printf_d, str_eq,
  if◌then◌else◌, ◌==◌, List, [], ◌∷◌, ◌⊎◌,
}
use storaged.System.{udisks_error, failed, Result, ok, err, WaitStatus, exited, signaled, neither}

abbrev signal_table : List (ℕ × String)
signal_table =
    (1, "SIGHUP")
    ∷ (2, "SIGINT")
    ∷ (3, "SIGQUIT")
    ∷ (4, "SIGILL")
    ∷ (6, "SIGABRT")
    ∷ (8, "SIGFPE")
    ∷ (9, "SIGKILL")
    ∷ (11, "SIGSEGV")
    ∷ (13, "SIGPIPE")
    ∷ (14, "SIGALRM")
    ∷ (15, "SIGTERM")
    ∷ (10, "SIGUSR1")
    ∷ (12, "SIGUSR2")
    ∷ (17, "SIGCHLD")
    ∷ (18, "SIGCONT")
    ∷ (19, "SIGSTOP")
    ∷ (20, "SIGTSTP")
    ∷ (21, "SIGTTIN")
    ∷ (22, "SIGTTOU")
    ∷ (7, "SIGBUS")
    ∷ (29, "SIGPOLL")
    ∷ (27, "SIGPROF")
    ∷ (31, "SIGSYS")
    ∷ (5, "SIGTRAP")
    ∷ (23, "SIGURG")
    ∷ (26, "SIGVTALRM")
    ∷ (24, "SIGXCPU")
    ∷ (25, "SIGXFSZ")
    ∷ []

find_signal : List (ℕ × String) → ℕ → String
find_signal [] n = "UNKNOWN_SIGNAL"
find_signal ((k, name) ∷ rest) n = if n == k then name else find_signal rest n

pub get_signal_name : ℕ → String
unfolding find_signal
get_signal_name n = find_signal signal_table n

pub status_message : String → WaitStatus → String
status_message cmd (exited n) = cmd <> " exited with non-zero exit status " <> printf_d n
status_message cmd (signaled n) =
    cmd <> " was signaled with signal " <> get_signal_name n <> " (" <> printf_d n <> ")"
status_message cmd neither = ""

-- NULL and the empty text are alike.
abbrev pub is_given : Option String → Bool
is_given none = false
is_given (some s) = not (str_eq s "")

abbrev text_of : Option String → String
text_of none = ""
text_of (some s) = s

pub output_message : Option String → Option String → String
output_message out error =
    if is_given out && is_given error
    then "\nstdout: '" <> text_of out <> "'\nstderr: '" <> text_of error <> "'"
    else if is_given out
    then ": " <> text_of out
    else if is_given error
    then ": " <> text_of error
    else ""

failure : String → WaitStatus → Option String → Option String → Result (Unit {0})
unfolding status_message output_message
failure cmd status out error =
    err (udisks_error failed (status_message cmd status <> output_message out error))

abbrev pub is_success : WaitStatus → Bool
is_success (exited n) = n == 0
is_success (signaled n) = false
is_success neither = false

-- storage_util_check_status_and_output
unfoldable pub check_status_and_output :
    String → WaitStatus → Option String → Option String → Result (Unit {0})
unfolding failure
check_status_and_output cmd status out error =
    if is_success status then ok tt else failure cmd status out error

-- A command has succeeded exactly when it exited with status 0; then its outputs do not matter.
-- Otherwise the error is udisks' FAILED, and names the command with the exit status or the signal
-- unless the status is neither of these.
pub check_status_and_output_lem :
    (cmd : String) (status : WaitStatus) (out error : Option String)
    → ((is_success status ≡ true) × (check_status_and_output cmd status out error ≡ ok tt))
      ⊎ ((is_success status ≡ false)
          × (check_status_and_output cmd status out error
              ≡ err (udisks_error failed (status_message cmd status <> output_message out error))))
unfolding check_status_and_output
check_status_and_output_lem cmd status out error = ground arith
