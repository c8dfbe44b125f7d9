-- ===== src/VolumeGroup/References/Kept.antt =====
-- Every event of a group of src/volumegroup.c keeps its count right.
use storaged.Prelude.{ℕ, ◌-◌, ◌≡◌, ◌<◌, refl, true, false, ◌==◌, ltb, if◌then◌else◌, arith}
use storaged.VolumeGroup.Poll.{Polling}
use storaged.VolumeGroup.References.{
  unref, Group, group_created, volume_group_update, volume_group_poll, hold_poll, idle_called,
  timeout_called, poll_reported, take_off, group_removed,
}
use storaged.VolumeGroup.References.Events.{
  Event, update, report, request, idle, expire, polled, remove, enabled, after, Reach, start, step,
}
use storaged.VolumeGroup.References.Counted.{
  one_if, holders, IsCounted, by_number, ref-Counts, unref-Counts, if_lem, report-IsCounted,
}

hold_poll-IsCounted :
    (pid : ℕ) (g : Group) → 0 < holders g → IsCounted g → IsCounted (hold_poll pid g)
unfolding hold_poll
hold_poll-IsCounted pid g some_one h =
    let both = ref-Counts (omega arith) (ref-Counts some_one h.counts) in
    if_lem IsCounted (pid == 0) _ _
      (λ failed. record {
        counts = by_number (omega arith) (unref-Counts both);
        shown_once = h.shown_once;
      })
      (λ started. record { counts = by_number (omega arith) both; shown_once = h.shown_once })

module _ (pid : ℕ) (g : Group) (some_one : 0 < holders g) where
  -- What is left of a callback of the group once poll_now may have run
  hold_poll-keeps : (0 < g.idles → 0 < (hold_poll pid g).idles) × (0 < (hold_poll pid g).timers)
  unfolding hold_poll
  hold_poll-keeps = (
    λ due. if_lem (λ x. 0 < x.idles) (pid == 0) _ _ (λ failed. due) (λ started. due),
    if_lem (λ x. 0 < x.timers) (pid == 0) _ _ (λ failed. omega arith) (λ started. omega arith),
  )

idle_over :
    (q : Polling) (g : Group)
    → 0 < g.idles
    → IsCounted g
    → IsCounted (record g { object = unref g.object; polling = q; idles = g.idles - 1 })
idle_over q g due h = record {
  counts = unref-Counts (by_number (omega (arith, due)) h.counts);
  shown_once = h.shown_once;
}

timer_over :
    (q : Polling) (g : Group)
    → 0 < g.timers
    → IsCounted g
    → IsCounted (record g { object = unref g.object; polling = q; timers = g.timers - 1 })
timer_over q g due h = record {
  counts = unref-Counts (by_number (omega (arith, due)) h.counts);
  shown_once = h.shown_once;
}

idle-IsCounted :
    (timeout pid : ℕ) (g : Group)
    → 0 < g.idles
    → IsCounted g
    → IsCounted (idle_called timeout pid g)
unfolding idle_called
idle-IsCounted timeout pid g due h =
    let some_one : 0 < holders g = omega (arith, due) in
    let set = ltb 0 g.polling.poll_timeout_id in
    idle_over _ (if set then g else hold_poll pid g)
      (if_lem (λ x. 0 < x.idles) set _ _ (λ on. due)
        (λ off. (hold_poll-keeps pid g some_one).0 due))
      (if_lem IsCounted set _ _ (λ on. h) (λ off. hold_poll-IsCounted pid g some_one h))

timeout-IsCounted :
    (timeout pid : ℕ) (g : Group)
    → 0 < g.timers
    → IsCounted g
    → IsCounted (timeout_called timeout pid g)
unfolding timeout_called
timeout-IsCounted timeout pid g due h =
    let some_one : 0 < holders g = omega (arith, due) in
    let again = g.polling.poll_requested in
    timer_over _ (if again then hold_poll pid g else g)
      (if_lem (λ x. 0 < x.timers) again _ _ (λ on. (hold_poll-keeps pid g some_one).1) (λ off. due))
      (if_lem IsCounted again _ _ (λ on. hold_poll-IsCounted pid g some_one h) (λ off. h))

removed-IsCounted : (g : Group) → g.in_table ≡ true → IsCounted g → IsCounted (group_removed g)
unfolding group_removed take_off
removed-IsCounted g here h =
    let held = ref-Counts (ground (arith, here)) h.counts in
    if_lem (λ x. IsCounted (record x { object = unref (unref x.object); in_table = false }))
      g.exported _ _
      (λ shown. record {
        counts =
            unref-Counts
              (unref-Counts (unref-Counts (by_number (ground (arith, here, shown)) held)));
        shown_once = refl;
      })
      (λ hidden. record {
        counts = unref-Counts (unref-Counts (by_number (ground (arith, here, hidden)) held));
        shown_once = ground (arith, hidden);
      })

after-IsCounted : (e : Event) (g : Group) → IsCounted g → enabled e g ≡ true → IsCounted (after e g)
unfolding after enabled volume_group_update volume_group_poll poll_reported group_removed
after-IsCounted update g h e = record {
  counts = by_number (omega arith) (ref-Counts (ground (arith, e)) h.counts);
  shown_once = h.shown_once;
}
after-IsCounted (report r) g h e =
    report-IsCounted r g (record { is_counted = h; due = ground (arith, e) })
after-IsCounted request g h e = record {
  counts = by_number (omega arith) (ref-Counts (ground (arith, e)) h.counts);
  shown_once = h.shown_once;
}
after-IsCounted (idle timeout pid) g h e = idle-IsCounted timeout pid g (ground (arith, e)) h
after-IsCounted (expire timeout pid) g h e = timeout-IsCounted timeout pid g (ground (arith, e)) h
after-IsCounted (polled pid) g h e =
    let due : 0 < g.polls = ground (arith, e) in
    record {
      counts = unref-Counts (by_number (omega (arith, due)) h.counts);
      shown_once = h.shown_once;
    }
after-IsCounted remove g h e =
    let here : g.in_table ≡ true = e in removed-IsCounted g (ground (arith, here)) h

pub Reach-IsCounted : (g : Group) → Reach g → IsCounted g
unfolding group_created
Reach-IsCounted g start = record {
  counts = record { counted = refl; once = refl; unmisused = refl };
  shown_once = refl;
}
Reach-IsCounted g (step {g = before} e r due) =
    after-IsCounted e before (Reach-IsCounted before r) due

-- However a new group is updated, polled and removed, and in whatever order the helper's reports, the
-- idle callbacks and the timeouts come: the group is finalized when nothing holds a reference any
-- more, just once and not before, and no reference is taken or dropped after that.
pub finalized_unheld :
    (g : Group)
    → Reach g
    → (g.object.finalized ≡ one_if (holders g == 0)) × (g.object.misused ≡ false)
finalized_unheld g r = let c = (Reach-IsCounted g r).counts in (c.once, c.unmisused)
