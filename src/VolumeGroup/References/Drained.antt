-- ===== src/VolumeGroup/References/Drained.antt =====
-- A group of src/volumegroup.c that has been removed waits for the callbacks that are due.
use storaged.Prelude.{
  ◌∙◌, ap, sym, ◌*◌, String, Option, none, some, List, [], ◌∷◌, not, any, str_eq, ℕ, ◌+◌, ◌-◌, ◌≡◌,
  ◌<◌, refl, true, false, ◌&&◌, arith, subst,
}
use storaged.System.{Result, ok, err}
use storaged.Variant.{Dict, Info, lookup_str, info_dicts}
use storaged.Util.Name.{lv_is_visible}
use storaged.VolumeGroup.Poll.{poll_now, poll_in_main, poll_timeout}
use storaged.VolumeGroup.Update.{is_unchanged, list_of}
use storaged.VolumeGroup.References.{
  add_volume, add_volumes, Group, publish_once, update_over, update_reported, hold_poll,
  idle_called, timeout_called, poll_reported,
}
use storaged.VolumeGroup.References.Events.{
  Event, update, report, request, idle, expire, polled, remove, enabled, after,
}
use storaged.VolumeGroup.References.Counted.{one_if, if_lem}

-- How many callbacks can still come of a group that is out of the table and off the bus.
abbrev pub weight : Group → ℕ
weight g = 4 * g.idles + 3 * one_if g.polling.poll_requested + g.timers + g.polls + g.updates

pub record IsRemoved (g : Group) : Type 0 where
  pub out : g.in_table ≡ false
  pub hidden : g.exported ≡ false
  pub quiet : g.need_publish ≡ false

-- The group without what the volumes of a report change
abbrev frame : Group → Group
frame g = record g {
  object = record { refs = 0; finalized = 0; misused = false };
  info = none;
  update_data = 0;
  volumes = [];
  volume_refs = 0;
}

frame-add_volume : (n : Option String) (g : Group) → frame (add_volume n g) ≡ frame g
unfolding add_volume
frame-add_volume none g = refl
frame-add_volume (some name) g =
    if_lem (λ x. frame x ≡ frame g) (lv_is_visible (some name) && not (any (str_eq name) g.volumes))
      _ g (λ new. refl) (λ old. refl)

frame-add_volumes : (infos : List Dict) (g : Group) → frame (add_volumes infos g) ≡ frame g
unfolding add_volumes
frame-add_volumes [] g = refl
frame-add_volumes (info ∷ infos) g =
    frame-add_volumes infos (add_volume (lookup_str "name" info) g)
    ∙ frame-add_volume (lookup_str "name" info) g

abbrev one_less : Group → Group
one_less g = record g { updates = g.updates - 1 }

frame-publish_once : (g : Group) → g.need_publish ≡ false → frame (publish_once g) ≡ frame g
unfolding publish_once
frame-publish_once g h =
    if_lem (λ x. frame x ≡ frame g) g.need_publish _ g (λ first. absurd (ground (arith, first, h)))
      (λ again. refl)

frame-update_reported :
    (r : Result Info) (g : Group)
    → g.need_publish ≡ false
    → frame (update_reported r g) ≡ frame (one_less g)
unfolding update_reported update_over
frame-update_reported (err e) g h = ap one_less (frame-publish_once g h)
frame-update_reported (ok info) g h =
    if_lem (λ x. frame x ≡ frame (one_less g)) (is_unchanged (publish_once g).info info) _ _
      (λ same. ap one_less (frame-publish_once g h))
      (λ news. ap one_less (
        frame-add_volumes (list_of (info_dicts "lvs" info))
          (record (publish_once g) { info = some info })
        ∙ frame-publish_once g h))

report-IsRemoved :
    (r : Result Info) (g : Group)
    → 0 < g.updates
    → IsRemoved g
    → IsRemoved (update_reported r g) × (weight (update_reported r g) < weight g)
report-IsRemoved r g due h =
    let e = frame-update_reported r g h.quiet in
    (
      record {
        out = ap (λ x. x.in_table) e ∙ h.out;
        hidden = ap (λ x. x.exported) e ∙ h.hidden;
        quiet = ap (λ x. x.need_publish) e ∙ h.quiet;
      },
      subst (λ n. n < weight g) (sym (ap weight e)) (omega (arith, due)),
    )

idle-IsRemoved :
    (timeout pid : ℕ) (g : Group)
    → 0 < g.idles
    → IsRemoved g
    → IsRemoved (idle_called timeout pid g) × (weight (idle_called timeout pid g) < weight g)
unfolding idle_called hold_poll poll_in_main poll_now
idle-IsRemoved timeout pid g due h = (
  record {
    out = ground (arith, h.out);
    hidden = ground (arith, h.hidden);
    quiet = ground (arith, h.quiet);
  },
  ground (arith, due),
)

timeout-IsRemoved :
    (timeout pid : ℕ) (g : Group)
    → 0 < g.timers
    → IsRemoved g
    → IsRemoved (timeout_called timeout pid g) × (weight (timeout_called timeout pid g) < weight g)
unfolding timeout_called hold_poll poll_timeout poll_now
timeout-IsRemoved timeout pid g due h = (
  record {
    out = ground (arith, h.out);
    hidden = ground (arith, h.hidden);
    quiet = ground (arith, h.quiet);
  },
  ground (arith, due),
)

polled-IsRemoved :
    (pid : ℕ) (g : Group)
    → 0 < g.polls
    → IsRemoved g
    → IsRemoved (poll_reported pid g) × (weight (poll_reported pid g) < weight g)
unfolding poll_reported
polled-IsRemoved pid g due h =
    (record { out = h.out; hidden = h.hidden; quiet = h.quiet }, ground (arith, due))

pub after-IsRemoved :
    (e : Event) (g : Group)
    → IsRemoved g
    → enabled e g ≡ true
    → IsRemoved (after e g) × (weight (after e g) < weight g)
unfolding enabled after
after-IsRemoved update g h e = absurd (ground (arith, e, h.out))
after-IsRemoved (report r) g h e = report-IsRemoved r g (ground (arith, e)) h
after-IsRemoved request g h e = absurd (ground (arith, e, h.hidden))
after-IsRemoved (idle timeout pid) g h e = idle-IsRemoved timeout pid g (ground (arith, e)) h
after-IsRemoved (expire timeout pid) g h e = timeout-IsRemoved timeout pid g (ground (arith, e)) h
after-IsRemoved (polled pid) g h e = polled-IsRemoved pid g (ground (arith, e)) h
after-IsRemoved remove g h e = absurd (ground (arith, e, h.out))
