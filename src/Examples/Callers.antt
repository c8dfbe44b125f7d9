-- ===== src/Examples/Callers.antt =====
-- A client whose uid is looked up twice, that is told its uid, and one that leaves before.
use storaged.Prelude.{◌≡◌, refl, false, Option, some, none, List, [], ◌∷◌, ◌==◌, arith}
use storaged.Invocation.Callers.{
  Caller, caller_created, looked_up, lookup_by, answered, caller_released, caller_dropped, vanished,
}
use storaged.Invocation.Callers.Held.{
  Event, look_up, answer, release, drop, vanish, enabled, after, Run, finish, next, one_if, holders,
  client_freed_unheld,
}
use storaged.Invocation.Callers.Gone.{departed_caller_waits}

abbrev served : List Event
served = look_up ∷ answer (some 1000) ∷ look_up ∷ answer none ∷ vanish ∷ release ∷ drop ∷ []

abbrev or_created : Option Caller → Caller
or_created (some c) = c
or_created none = caller_created

abbrev twice_looked_up : Caller
twice_looked_up = looked_up (or_created (answered (some 1000) (looked_up caller_created)))

abbrev after_served : Caller
after_served =
    caller_dropped (caller_released (vanished (or_created (answered none twice_looked_up))))

served-Run : Run caller_created served after_served
unfolding after enabled caller_created looked_up lookup_by answered vanished caller_released
    caller_dropped
served-Run = next look_up _ _ refl refl (
    next (answer (some 1000)) _ _ refl refl (
      next look_up _ _ refl refl (
        next (answer none) _ _ refl refl (
          next vanish _ _ refl refl
            (next release _ _ refl refl (next drop _ _ refl refl finish))))))

client_freed_unheld_example :
    (after_served.memory.freed ≡ one_if (holders after_served == 0))
    × (after_served.memory.misused ≡ false)
client_freed_unheld_example = client_freed_unheld after_served served served-Run

abbrev left : List Event
left = look_up ∷ vanish ∷ []

abbrev gone : Caller
gone = vanished (looked_up caller_created)

left-Run : Run caller_created left gone
unfolding after enabled caller_created looked_up lookup_by
left-Run = next look_up _ _ refl refl (next vanish _ _ refl refl finish)

late-Run : Run gone (answer none ∷ []) gone
unfolding after enabled answered vanished looked_up lookup_by caller_created
late-Run = next (answer none) _ _ refl refl finish

departed_caller_waits_example :
    (gone.waiting ≡ gone.waiting) × (gone.memory.freed ≡ 0) × (answered (some 1000) gone ≡ none)
unfolding after caller_created looked_up lookup_by vanished
departed_caller_waits_example =
    departed_caller_waits gone gone left (answer none ∷ []) 1000 left-Run refl refl (ground arith)
      late-Run
