-- ===== src/Main.antt =====
-- src/main.c: the options, the main loop with what ends it, and the two log handlers. The parsing of
-- the options is GLib's.
pub mod Ends
use storaged.Prelude.{
  ℕ, String, Bool, true, false, not, ◌&&◌, ◌||◌, Option, none, some, List, [], ◌∷◌, ◌==◌, ◌<>◌,
  strstr, str_eq, printf_d, if◌then◌else◌,
}
use storaged.Daemon.Lifecycle.{
  Daemon, daemon_new, on_name_lost, on_name_acquired, on_client_appeared, on_client_disappeared,
  on_manager_ready, launch_job, on_job_completed,
}

-- opt_replace, opt_debug and opt_resources
pub record Options : Type 0 where
  pub replace : Bool
  pub debug : Bool
  pub resources : Option String

-- What the main loop has the daemon do. The jobs and clients are those of src/daemon.c.
pub data Task : Type 0 where
  manager_ready : ℕ → Task
  name_acquired name_lost client_appears client_disappears job_starts : Task
  job_completes : ℕ → Task

-- `none` is a failed assertion.
unfoldable pub handle : Task → Daemon → Option Daemon
handle (manager_ready id) d = some (on_manager_ready id d)
handle name_acquired d = some (on_name_acquired d)
handle name_lost d = some (on_name_lost d)
handle client_appears d = some (on_client_appeared d)
handle client_disappears d = on_client_disappeared d
handle job_starts d = some (launch_job d)
handle (job_completes id) d = on_job_completed id d

-- What the main loop hears: the answer of g_bus_get, a signal SIGINT, SIGTERM or SIGHUP, the end of the
-- standard input, and the tasks of the daemon.
pub data Event : Type 0 where
  bus_acquired : Bool → Event
  caught_signal input_closed : Event
  task : Task → Event

-- The process: in its loop, with the daemon once there is one; ended with a status; or aborted.
pub data Process : Type 0 where
  looping : Option Daemon → Process
  exited : ℕ → Process
  aborted : Process

-- on_bus_acquired. In debug mode a warning is fatal.
unfoldable pub on_bus_acquired : Options → Bool → Option Daemon → Process
on_bus_acquired o true d = looping (some (daemon_new o.debug))
on_bus_acquired o false d = if o.debug then aborted else exited 0

-- "finished" quits the loop.
unfoldable pub after_task : Daemon → Option Daemon → Process
after_task d none = aborted
after_task d (some d') = if d'.finished == d.finished then looping (some d') else exited 0

unfoldable pub on_task : Task → Option Daemon → Process
unfolding after_task
on_task t none = looping none
on_task t (some d) = after_task d (handle t d)

-- on_sigint, and on_stdout_close, which is only connected in debug mode
unfoldable pub on_event : Options → Event → Option Daemon → Process
unfolding on_bus_acquired on_task
on_event o (bus_acquired connected) d = on_bus_acquired o connected d
on_event o caught_signal d = exited 0
on_event o input_closed d = if o.debug then exited 0 else looping d
on_event o (task t) d = on_task t d

unfoldable pub main_loop : Options → List Event → Process → Process
main_loop o [] p = p
main_loop o (e ∷ es) (looping d) = main_loop o es (on_event o e d)
main_loop o (e ∷ es) (exited n) = exited n
main_loop o (e ∷ es) aborted = aborted

-- `main`, given whether g_setenv succeeds, and the options, `none` where they cannot be parsed
unfoldable pub main : Bool → Option Options → List Event → Process
main false options es = exited 1
main true none es = exited 1
main true (some o) es = main_loop o es (looping none)

-- G_LOG_LEVEL_MASK takes the flags away.
pub data LogLevel : Type 0 where
  error_level critical warning message_level info debug_level other_level : LogLevel

-- The priorities of syslog that are used
pub data Priority : Type 0 where
  log_crit log_err log_warning log_info : Priority

names_domain : Option String → String → Bool
names_domain none domains = false
names_domain (some domain) domains = strstr domains domain

debug_priority : Option String → Option String → Option Priority
unfolding names_domain
debug_priority none domain = none
debug_priority (some domains) domain =
    if str_eq domains "all" || names_domain domain domains then some log_info else none

-- The priority in on_log_handler, given G_MESSAGES_DEBUG; `none` is a message that is not logged.
pub log_priority : LogLevel → Option String → Option String → Option Priority
unfolding debug_priority
log_priority error_level domains domain = some log_crit
log_priority critical domains domain = some log_crit
log_priority warning domains domain = some log_err
log_priority message_level domains domain = some log_warning
log_priority info domains domain = some log_info
log_priority debug_level domains domain = debug_priority domains domain
log_priority other_level domains domain = some log_warning

level_name : LogLevel → String
level_name debug_level = "DEBUG"
level_name info = "INFO"
level_name _ = ""

or_text : String → Option String → String
or_text default none = default
or_text default (some s) = s

domain_prefix : Option String → String
domain_prefix none = ""
domain_prefix (some domain) = domain <> "-"

-- The line that on_log_debug writes
pub debug_line : Option String → ℕ → Option String → LogLevel → Option String → String
unfolding level_name or_text domain_prefix
debug_line progname pid domain level message =
    "("
    <> (or_text "process" progname
        <> (":"
            <> (printf_d pid
                <> ("): "
                    <> (domain_prefix domain
                        <> (level_name level
                            <> (": " <> (or_text "(NULL) message" message <> "\n"))))))))
