-- ===== src/Main/Ends.antt =====
-- What ends the main loop of src/main.c.
use storaged.Prelude.{
  ℕ, ◌<◌, ◌≡◌, ◌≢◌, refl, sym, ap, ◌∙◌, Bool, true, false, Option, none, some, List, [], ◌∷◌, ◌++◌,
  All, arith, if◌then◌else◌, ◌==◌, Bool-cases, inl, inr, subst,
}
use storaged.Daemon.Lifecycle.{
  Daemon, daemon_new, maybe_finished, release_name, on_name_lost, on_name_acquired,
  on_client_appeared, on_client_disappeared, on_manager_ready, launch_job, on_job_completed,
}
use storaged.Main.{
  Options, Task, manager_ready, name_acquired, name_lost, client_appears, client_disappears,
  job_starts, job_completes, handle, Event, bus_acquired, caught_signal, input_closed, task,
  Process, looping, exited, aborted, on_bus_acquired, after_task, on_task, on_event, main_loop,
  main,
}

handle-persist :
    (t : Task) (d : Daemon) {d' : Daemon} → handle t d ≡ some d' → d'.persist ≡ d.persist
unfolding handle on_manager_ready on_name_acquired on_name_lost on_client_appeared
    on_client_disappeared launch_job on_job_completed maybe_finished release_name
handle-persist (manager_ready id) d e = ground arith
handle-persist name_acquired d e = ground arith
handle-persist name_lost d e = ground arith
handle-persist client_appears d e = ground arith
handle-persist client_disappears d e = ground arith
handle-persist job_starts d e = ground arith
handle-persist (job_completes id) d e = ground arith

handle-finished :
    (t : Task) (d : Daemon) {d' : Daemon}
    → d.persist ≡ true
    → handle t d ≡ some d'
    → d'.finished ≡ d.finished
unfolding handle on_manager_ready on_name_acquired on_name_lost on_client_appeared
    on_client_disappeared launch_job on_job_completed maybe_finished release_name
handle-finished (manager_ready id) d p e = ground arith
handle-finished name_acquired d p e = ground arith
handle-finished name_lost d p e = ground arith
handle-finished client_appears d p e = ground arith
handle-finished client_disappears d p e = ground arith
handle-finished job_starts d p e = ground arith
handle-finished (job_completes id) d p e = ground arith

-- No signal, and the end of the standard input at most without debug mode
abbrev pub Ongoing : Bool → Event → Type 0
Ongoing debug (bus_acquired connected) = Unit
Ongoing debug caught_signal = ⊥
Ongoing debug input_closed = debug ≡ false
Ongoing debug (task t) = Unit

-- The daemon persists if and only if the process is in debug mode.
abbrev IsKept : Bool → Process → Type 0
IsKept debug (looping none) = Unit
IsKept debug (looping (some d)) = d.persist ≡ debug
IsKept debug (exited n) = debug ≡ false
IsKept debug aborted = Unit

after_task-IsKept :
    (debug : Bool) (t : Task) (d : Daemon) (o : Option Daemon)
    → handle t d ≡ o
    → d.persist ≡ debug
    → IsKept debug (after_task d o)
unfolding after_task
after_task-IsKept debug t d none e p = tt
after_task-IsKept debug t d (some d') e p = elim (Bool-cases (d'.finished == d.finished)) [
  | inl same ↦ rw same (handle-persist t d e ∙ p)
  | inr finished ↦ rw finished (elim (Bool-cases debug) [
    | inl on ↦ absurd (ground (arith, handle-finished t d (p ∙ on) e))
    | inr off ↦ off
  ])
]

on_event-IsKept :
    (o : Options) (e : Event) (d : Option Daemon)
    → Ongoing o.debug e
    → IsKept o.debug (looping d)
    → IsKept o.debug (on_event o e d)
unfolding on_event on_bus_acquired on_task
on_event-IsKept o (bus_acquired true) d h k = unfold daemon_new in refl
on_event-IsKept o (bus_acquired false) d h k = elim (Bool-cases o.debug) [
  | inl on ↦ rw on tt
  | inr off ↦ rw off refl
]
on_event-IsKept o caught_signal d h k = elim h [ ]
on_event-IsKept o input_closed d h k =
    subst (λ b. IsKept o.debug (if b then exited 0 else looping d)) (sym h) k
on_event-IsKept o (task t) none h k = tt
on_event-IsKept o (task t) (some d) h k = after_task-IsKept o.debug t d (handle t d) refl k

loop-IsKept :
    (o : Options) (es : List Event) (p : Process)
    → All (Ongoing o.debug) es
    → IsKept o.debug p
    → IsKept o.debug (main_loop o es p)
unfolding main_loop
loop-IsKept o [] p h k = k
loop-IsKept o (e ∷ es) (looping d) h k =
    loop-IsKept o es (on_event o e d) h.1 (on_event-IsKept o e d h.0 k)
loop-IsKept o (e ∷ es) (exited n) h k = k
loop-IsKept o (e ∷ es) aborted h k = k

-- In debug mode the process does not exit by itself: as long as no signal comes and the standard input
-- stays open, it never exits with a status, whatever clients and jobs come and go, and whether there is
-- a bus or not. (An abort is no exit.)
pub debug_stays :
    (o : Options) (es : List Event) (n : ℕ)
    → o.debug ≡ true
    → All (Ongoing o.debug) es
    → main true (some o) es ≢ exited n
unfolding main
debug_stays o es n on h e =
    let kept : IsKept o.debug (exited n) =
      subst (IsKept o.debug) e (loop-IsKept o es (looping none) h tt) in
    ground (arith, kept, on)

main_loop-append :
    (o : Options) (es fs : List Event) (p : Process)
    → main_loop o (es ++ fs) p ≡ main_loop o fs (main_loop o es p)
unfolding main_loop
main_loop-append o [] fs p = refl
main_loop-append o (e ∷ es) fs (looping d) = main_loop-append o es fs (on_event o e d)
main_loop-append o (e ∷ es) [] (exited n) = refl
main_loop-append o (e ∷ es) (f ∷ fs) (exited n) = refl
main_loop-append o (e ∷ es) [] aborted = refl
main_loop-append o (e ∷ es) (f ∷ fs) aborted = refl

last_goes :
    (d : Daemon)
    → d.persist ≡ false
    → d.num_clients ≡ 1
    → d.num_jobs ≡ 0
    → (d.name_owned ≡ true → 0 < d.name_owner_id)
    → on_task client_disappears (some d) ≡ exited 0
unfolding on_task after_task handle on_client_disappeared release_name maybe_finished
last_goes d p c j n = ground (arith, n)

-- Outside debug mode the process ends with its last client: if there is one client and no job, and the
-- name is owned only where it has been asked for, the process exits with 0 once the client disappears,
-- whatever has happened before but for a signal.
pub last_client_ends :
    (o : Options) (es : List Event) {d : Daemon}
    → o.debug ≡ false
    → All (Ongoing o.debug) es
    → main true (some o) es ≡ looping (some d)
    → d.num_clients ≡ 1
    → d.num_jobs ≡ 0
    → (d.name_owned ≡ true → 0 < d.name_owner_id)
    → main true (some o) (es ++ task client_disappears ∷ []) ≡ exited 0
unfolding main
last_client_ends o es {d} off h at c j n =
    let kept : d.persist ≡ o.debug =
      subst (IsKept o.debug) at (loop-IsKept o es (looping none) h tt) in
    main_loop-append o es (task client_disappears ∷ []) (looping none)
    ∙ ap (main_loop o (task client_disappears ∷ [])) at
    ∙ unfold main_loop on_event in last_goes d (kept ∙ off) c j n
