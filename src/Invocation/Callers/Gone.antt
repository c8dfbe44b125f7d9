-- ===== src/Invocation/Callers/Gone.antt =====
-- A client of src/invocation.c that leaves before the bus has told its uid.
use storaged.Prelude.{
  ℕ, Option, none, some, ◌≡◌, ◌<◌, refl, sym, ap, ◌∙◌, Bool, true, false, List, [], ◌∷◌,
  if◌then◌else◌, arith, subst,
}
use storaged.Invocation.Clients.{uid_loading}
use storaged.Invocation.Callers.{
  Caller, caller_created, answered_unknown, answered, caller_released,
}
use storaged.Invocation.Callers.Held.{
  Event, look_up, answer, release, drop, vanish, is_failed, enabled, after, Run, finish, next,
  caller_created-IsHeld, Run-IsHeld,
}

-- The client has gone before the bus has told its uid.
record IsGone (c : Caller) : Type 0 where
  out : c.in_table ≡ false
  loading : c.client.uid_state ≡ uid_loading

told-same :
    (b : Bool) (a : Option ℕ) (c d e : Caller)
    → b ≡ false
    → (if b then some d else answered_unknown a c) ≡ some e
    → c ≡ e
told-same true a c d e h eq = absurd (ground arith)
told-same false (some uid) c d e h eq = absurd (ground (arith, eq))
told-same false none c d e h eq = ground (arith, eq)

after-IsGone :
    (e : Event) (c d : Caller)
    → enabled e c ≡ true
    → after e c ≡ some d
    → IsGone c
    → IsGone d × (d.waiting ≡ c.waiting)
unfolding after enabled caller_released answered
after-IsGone look_up c d e eq h = absurd (ground (arith, e, h.out))
after-IsGone (answer a) c d e eq h =
    let same = told-same c.in_table a c _ d h.out eq in
    (subst IsGone same h, ap (λ x. x.waiting) (sym same))
after-IsGone release c d e eq h =
    let same : caller_released c ≡ d = ground (arith, eq) in
    (
      subst IsGone same (record { out = h.out; loading = h.loading }),
      ap (λ x. x.waiting) (sym same),
    )
after-IsGone drop c d e eq h = absurd (ground (arith, e, ap is_failed h.loading))
after-IsGone vanish c d e eq h = absurd (ground (arith, e, h.out))

Run-IsGone :
    (c d : Caller) (es : List Event) → Run c es d → IsGone c → IsGone d × (d.waiting ≡ c.waiting)
Run-IsGone c d [] finish h = (h, refl)
Run-IsGone c d (e ∷ es) (next _ _ later due eq more) h =
    let one = after-IsGone e c later due eq h in
    let rest = Run-IsGone later d es more one.0 in (rest.0, rest.1 ∙ one.1)

unknown_crashes :
    (b : Bool) (uid : ℕ) (c d : Caller)
    → b ≡ false
    → (if b then some d else answered_unknown (some uid) c) ≡ none
unknown_crashes true uid c d h = absurd (ground arith)
unknown_crashes false uid c d h = refl

-- A client that leaves the bus while its uid is loading: as long as the daemon lives, whatever else
-- happens, the threads that wait for the uid wait, and the client is not freed if there is such a
-- thread. If the bus then tells the uid after all, the daemon crashes.
pub departed_caller_waits :
    (c d : Caller) (before es : List Event) (uid : ℕ)
    → Run caller_created before c
    → c.in_table ≡ false
    → c.client.uid_state ≡ uid_loading
    → 0 < c.waiting
    → Run c es d
    → (d.waiting ≡ c.waiting) × (d.memory.freed ≡ 0) × (answered (some uid) d ≡ none)
unfolding answered
departed_caller_waits c d before es uid run out loading some_thread more =
    let gone = Run-IsGone c d es more (record { out = out; loading = loading }) in
    let held =
      Run-IsHeld c d es more (Run-IsHeld caller_created c before run caller_created-IsHeld) in
    (
      gone.1,
      ground (arith, held.once, gone.1, some_thread),
      unknown_crashes d.in_table uid d _ gone.0.out,
    )
