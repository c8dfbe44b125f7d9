-- ===== src/Invocation/Callers/Held.antt =====
-- A client of src/invocation.c lives as long as the table or a thread refers to it; what a thread has
-- dropped without its reference refers to it for ever.
use storaged.Prelude.{
  ℕ, ◌+◌, ◌≡◌, ◌<◌, refl, Bool, true, false, Option, none, some, subst, List, [], ◌∷◌, ◌==◌, ltb,
  ◌&&◌, if◌then◌else◌, arith,
}
use storaged.Invocation.Clients.{UidState, uid_loading, uid_failed, uid_valid}
use storaged.Invocation.Callers.{
  invocation_client_ref, invocation_client_unref, Caller, caller_created, lookup_by, looked_up,
  answered_unknown, answered, caller_released, caller_dropped, vanished,
}

pub data Event : Type 0 where
  look_up : Event
  answer : Option ℕ → Event
  release : Event
  drop : Event
  vanish : Event

abbrev pub is_failed : UidState → Bool
is_failed uid_failed = true
is_failed _ = false

-- A lookup finds the client in the table, and so does on_client_vanished; a thread drops the client
-- without its reference only after the bus could not tell the uid. Nothing else of the program concerns
-- the client, but answers for its name come at any time.
unfoldable pub enabled : Event → Caller → Bool
enabled look_up c = c.in_table
enabled (answer a) c = true
enabled release c = ltb 0 c.using
enabled drop c = ltb 0 c.using && is_failed c.client.uid_state
enabled vanish c = c.in_table

-- `none` is a crash of the daemon.
unfoldable pub after : Event → Caller → Option Caller
after look_up c = some (looked_up c)
after (answer a) c = answered a c
after release c = some (caller_released c)
after drop c = some (caller_dropped c)
after vanish c = some (vanished c)

-- The events that happen to a client as long as the daemon does not crash
pub data Run : Caller → List Event → Caller → Type 0 where
  finish : {c : Caller} → Run c [] c
  next :
      {c d : Caller} (e : Event) (es : List Event) (later : Caller)
      → enabled e c ≡ true
      → after e c ≡ some later
      → Run later es d
      → Run c (e ∷ es) d

abbrev pub one_if : Bool → ℕ
one_if b = if b then 1 else 0

abbrev pub holders : Caller → ℕ
holders c = one_if c.in_table + c.waiting + c.using + c.lost

pub record IsHeld (c : Caller) : Type 0 where
  pub counted : c.memory.refs ≡ holders c
  pub once : c.memory.freed ≡ one_if (holders c == 0)
  pub unmisused : c.memory.misused ≡ false

lookup_by-IsHeld :
    (s : UidState) (c : Caller)
    → c.in_table ≡ true
    → IsHeld c
    → IsHeld (lookup_by s (record c { memory = invocation_client_ref c.memory }))
unfolding lookup_by invocation_client_ref
lookup_by-IsHeld uid_loading c e h = record {
  counted = ground (arith, e, h.counted);
  once = ground (arith, e, h.counted, h.once);
  unmisused = ground (arith, e, h.counted, h.unmisused);
}
lookup_by-IsHeld uid_failed c e h = record {
  counted = ground (arith, e, h.counted);
  once = ground (arith, e, h.counted, h.once);
  unmisused = ground (arith, e, h.counted, h.unmisused);
}
lookup_by-IsHeld uid_valid c e h = record {
  counted = ground (arith, e, h.counted);
  once = ground (arith, e, h.counted, h.once);
  unmisused = ground (arith, e, h.counted, h.unmisused);
}

told-IsHeld :
    (b : Bool) (a : Option ℕ) (c d e : Caller)
    → (if b then some d else answered_unknown a c) ≡ some e
    → IsHeld d
    → IsHeld c
    → IsHeld e
told-IsHeld true a c d e eq h k = subst IsHeld (ground (arith, eq)) h
told-IsHeld false (some uid) c d e eq h k = absurd (ground (arith, eq))
told-IsHeld false none c d e eq h k = subst IsHeld (ground (arith, eq)) k

answer-IsHeld : (a : Option ℕ) (c d : Caller) → answered a c ≡ some d → IsHeld c → IsHeld d
unfolding answered
answer-IsHeld a c d eq h =
    told-IsHeld c.in_table a c _ d eq
      (record {
        counted = ground (arith, h.counted);
        once = ground (arith, h.once);
        unmisused = ground (arith, h.unmisused);
      })
      h

drop-IsHeld : (c : Caller) → 0 < c.using → IsHeld c → IsHeld (caller_dropped c)
unfolding caller_dropped
drop-IsHeld c e h = record {
  counted = ground (arith, e, h.counted);
  once = ground (arith, e, h.counted, h.once);
  unmisused = ground (arith, e, h.counted, h.unmisused);
}

release-IsHeld : (c : Caller) → 0 < c.using → IsHeld c → IsHeld (caller_released c)
unfolding caller_released invocation_client_unref
release-IsHeld c e h = record {
  counted = ground (arith, e, h.counted);
  once = ground (arith, e, h.counted, h.once);
  unmisused = ground (arith, e, h.counted, h.unmisused);
}

vanish-IsHeld : (c : Caller) → c.in_table ≡ true → IsHeld c → IsHeld (vanished c)
unfolding vanished invocation_client_unref
vanish-IsHeld c e h = record {
  counted = ground (arith, e, h.counted);
  once = ground (arith, e, h.counted, h.once);
  unmisused = ground (arith, e, h.counted, h.unmisused);
}

after-IsHeld :
    (e : Event) (c d : Caller) → enabled e c ≡ true → after e c ≡ some d → IsHeld c → IsHeld d
unfolding after enabled looked_up
after-IsHeld look_up c d e eq h =
    subst IsHeld (ground (arith, eq)) (lookup_by-IsHeld c.client.uid_state c e h)
after-IsHeld (answer a) c d e eq h = answer-IsHeld a c d eq h
after-IsHeld release c d e eq h =
    subst IsHeld (ground (arith, eq)) (release-IsHeld c (ground (arith, e)) h)
after-IsHeld drop c d e eq h =
    subst IsHeld (ground (arith, eq)) (drop-IsHeld c (ground (arith, e)) h)
after-IsHeld vanish c d e eq h = subst IsHeld (ground (arith, eq)) (vanish-IsHeld c e h)

pub caller_created-IsHeld : IsHeld caller_created
unfolding caller_created
caller_created-IsHeld = record { counted = refl; once = refl; unmisused = refl }

pub Run-IsHeld : (c d : Caller) (es : List Event) → Run c es d → IsHeld c → IsHeld d
Run-IsHeld c d [] finish h = h
Run-IsHeld c d (e ∷ es) (next _ _ later due eq more) h =
    Run-IsHeld later d es more (after-IsHeld e c later due eq h)

-- In any order of lookups, answers of the bus, releases, returns of on_authorize_method on an error and
-- the end of the client on the bus, from its creation on, as long as the daemon does not crash: the
-- memory of a client is freed, once, when it is out of the table, no thread waits in it or uses it, and
-- no call of on_authorize_method has returned on an error for it, and not before; its
-- count is not touched after that.
pub client_freed_unheld :
    (c : Caller) (es : List Event)
    → Run caller_created es c
    → (c.memory.freed ≡ one_if (holders c == 0)) × (c.memory.misused ≡ false)
client_freed_unheld c es run =
    let h = Run-IsHeld caller_created c es run caller_created-IsHeld in (h.once, h.unmisused)
