-- ===== src/VolumeGroup/Poll/Rate.antt =====
-- How often src/volumegroup.c polls a group, and that no request to poll is lost.
use storaged.Prelude.{
  ℕ, ◌+◌, ◌≤◌, ◌<◌, ◌≡◌, ◌≢◌, true, false, List, [], ◌∷◌, ltb, if◌then◌else◌, length, arith, ◌⊎◌,
  inl, inr,
}
use storaged.System.{Result}
use storaged.Variant.{Info}
use storaged.VolumeGroup.State.{VolumeGroup}
use storaged.VolumeGroup.Poll.{Polling, no_polling, poll_in_main, poll_timeout, poll_with_variant}

-- What happens to the polling of one group; timeout ids are not 0. A timeout fires while it is set.
pub data Event : Type 0 where
  request : (timeout pid : ℕ) → Event
  expire : (timeout pid : ℕ) → Event
  report : (pid : ℕ) → Result Info → Event

unfoldable pub IsSound : Event → Type 0
IsSound (request timeout pid) = 0 < timeout
IsSound (expire timeout pid) = 0 < timeout
IsSound (report pid r) = Unit

pub after : VolumeGroup → Event → Polling → Polling
after vg (request timeout pid) p = poll_in_main timeout pid p
after vg (expire timeout pid) p = if ltb 0 p.poll_timeout_id then poll_timeout timeout pid p else p
after vg (report pid r) p = (poll_with_variant pid r p vg).polling

pub run : VolumeGroup → List Event → Polling → Polling
run vg [] p = p
run vg (e ∷ es) p = run vg es (after vg e p)

abbrev one_if_expire : Event → ℕ
one_if_expire (expire timeout pid) = 1
one_if_expire _ = 0

unfoldable pub expiries : List Event → ℕ
expiries [] = 0
expiries (e ∷ es) = one_if_expire e + expiries es

abbrev pub AllSound : List Event → Type 0
AllSound [] = Unit
AllSound (e ∷ es) = IsSound e × AllSound es

-- The processes that may still be started without a timeout in between
abbrev credit : Polling → ℕ
credit p = if ltb 0 p.poll_timeout_id then 0 else 1

after-credit :
    (vg : VolumeGroup) (e : Event) (p : Polling)
    → IsSound e
    → length (after vg e p).spawns + credit (after vg e p)
      ≤ length p.spawns + credit p + one_if_expire e
unfolding after IsSound poll_in_main poll_timeout poll_with_variant
after-credit vg (request timeout pid) p h = ground arith
after-credit vg (expire timeout pid) p h = ground arith
after-credit vg (report pid r) p h = ground arith

run-credit :
    (vg : VolumeGroup) (es : List Event) (p : Polling)
    → AllSound es
    → length (run vg es p).spawns + credit (run vg es p) ≤ length p.spawns + credit p + expiries es
unfolding run expiries
run-credit vg [] p h = omega arith
run-credit vg (e ∷ es) p h =
    omega (arith, after-credit vg e p h.0, run-credit vg es (after vg e p) h.1)

-- However many requests come, the helper is started at most once more than timeouts have expired, each
-- of which takes five seconds.
pub spawns_bounded :
    (vg : VolumeGroup) (es : List Event)
    → AllSound es
    → length (run vg es no_polling).spawns ≤ 1 + expiries es
spawns_bounded vg es h = omega (arith, run-credit vg es no_polling h)

abbrev pub Waits : Polling → Type 0
Waits p = p.poll_requested ≡ true → 0 < p.poll_timeout_id

after-Waits :
    (vg : VolumeGroup) (e : Event) (p : Polling) → IsSound e → Waits p → Waits (after vg e p)
unfolding after IsSound poll_in_main poll_timeout poll_with_variant
after-Waits vg (request timeout pid) p h w = ground arith
after-Waits vg (expire timeout pid) p h w = ground arith
after-Waits vg (report pid r) p h w = ground arith

run-Waits :
    (vg : VolumeGroup) (es : List Event) (p : Polling) → AllSound es → Waits p → Waits (run vg es p)
unfolding run
run-Waits vg [] p h w = w
run-Waits vg (e ∷ es) p h w = run-Waits vg es (after vg e p) h.1 (after-Waits vg e p h.0 w)

-- A request that is remembered, with the timeout that it waits for
abbrev pub IsRemembered : Polling → Type 0
IsRemembered p = (p.poll_requested ≡ true) × (0 < p.poll_timeout_id)

after-IsRemembered :
    (vg : VolumeGroup) (e : Event) (p : Polling)
    → IsSound e
    → one_if_expire e ≡ 0
    → IsRemembered p
    → IsRemembered (after vg e p)
unfolding after IsSound poll_in_main poll_with_variant
after-IsRemembered vg (request timeout pid) p h none_yet w = (ground (arith, w), ground (arith, w))
after-IsRemembered vg (expire timeout pid) p h none_yet w = absurd (ground (arith, none_yet))
after-IsRemembered vg (report pid r) p h none_yet w = (ground (arith, w), ground (arith, w))

run-IsRemembered :
    (vg : VolumeGroup) (es : List Event) (p : Polling)
    → AllSound es
    → expiries es ≡ 0
    → IsRemembered p
    → IsRemembered (run vg es p)
unfolding run expiries
run-IsRemembered vg [] p h none_yet w = w
run-IsRemembered vg (e ∷ es) p h none_yet w =
    run-IsRemembered vg es (after vg e p) h.1 (omega (arith, none_yet))
      (after-IsRemembered vg e p h.0 (omega (arith, none_yet)) w)

expired_lem :
    (later next : ℕ) (p : Polling)
    → IsRemembered p
    → ((poll_timeout later next p).spawns ≡ next ∷ p.spawns)
      × ((poll_timeout later next p).poll_requested ≡ false)
unfolding poll_timeout
expired_lem later next p w = (ground (arith, w), ground (arith, w))

requested_lem :
    (timeout pid : ℕ) (p : Polling)
    → Waits p
    → let q = poll_in_main timeout pid p in
      ((q.spawns ≡ pid ∷ p.spawns) × (p.poll_timeout_id ≡ 0)) ⊎ IsRemembered q
unfolding poll_in_main
requested_lem timeout pid p w = ground (arith, w)

-- No request is lost: after any events, a request starts the helper at once, or it is remembered. What
-- is remembered stays so, with a timeout that is set, through any requests and reports that come
-- before the timeout expires, and its expiry starts the helper.
pub request_served :
    (vg : VolumeGroup) (before between : List Event) (timeout pid later next : ℕ)
    → AllSound before
    → AllSound between
    → expiries between ≡ 0
    → let p = run vg before no_polling in
      let q = poll_in_main timeout pid p in
      let r = run vg between q in
      ((q.spawns ≡ pid ∷ p.spawns) × (p.poll_timeout_id ≡ 0))
      ⊎ (IsRemembered r
          × ((poll_timeout later next r).spawns ≡ next ∷ r.spawns)
          × ((poll_timeout later next r).poll_requested ≡ false))
request_served vg before between timeout pid later next h h' none_yet =
    let p = run vg before no_polling in
    let q = poll_in_main timeout pid p in
    elim (requested_lem timeout pid p
      (run-Waits vg before no_polling h (λ e. absurd (ground (arith, e))))) [
        | inl at_once ↦ inl at_once
        | inr kept ↦
            let w = run-IsRemembered vg between q h' none_yet kept in
            let x = expired_lem later next (run vg between q) w in inr (w, x.0, x.1)
      ]

-- A report that is not from the process started last is dropped, and the polling goes on as it was;
-- the report of that process ends the waiting for it, be it an error or not.
pub stale_report_dropped :
    (vg : VolumeGroup) (pid : ℕ) (r : Result Info) (p : Polling)
    → let q = poll_with_variant pid r p vg in
      (pid ≢ p.poll_pid → (q.group ≡ vg) × (q.polling ≡ p) × (q.effects ≡ []))
      × (pid ≡ p.poll_pid
          → (q.polling.poll_pid ≡ 0) × (q.polling.poll_timeout_id ≡ p.poll_timeout_id))
unfolding poll_with_variant
stale_report_dropped vg pid r p =
    (λ h. (ground arith, ground arith, ground arith), λ h. (ground arith, ground arith))
