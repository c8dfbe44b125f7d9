-- ===== src/VolumeGroup/References/Freed.antt =====
-- What becomes of a group of src/volumegroup.c that has been removed.
use storaged.Prelude.{
  length, ◌≤◌, ◌∙◌, ap, List, [], ◌∷◌, ℕ, ◌+◌, ◌≡◌, ◌⊎◌, ◌<◌, refl, true, false, ◌==◌, ltb, arith,
  Bool-cases, inl, inr,
}
use storaged.System.{ok}
use storaged.VolumeGroup.References.{Group, take_off, group_removed}
use storaged.VolumeGroup.References.Events.{
  Event, report, idle, expire, polled, remove, enabled, after, Reach, step,
}
use storaged.VolumeGroup.References.Counted.{one_if, holders, if_lem}
use storaged.VolumeGroup.References.Kept.{Reach-IsCounted}
use storaged.VolumeGroup.References.Drained.{weight, IsRemoved, after-IsRemoved}

-- A run of events, each of which happens when it can
pub data Run : Group → List Event → Group → Type 0 where
  finish : {g : Group} → Run g [] g
  next :
      {g h : Group} (e : Event) (es : List Event)
      → enabled e g ≡ true
      → Run (after e g) es h
      → Run g (e ∷ es) h

Run-IsRemoved :
    (g h : Group) (es : List Event)
    → Run g es h
    → IsRemoved g
    → Reach g
    → Reach h × IsRemoved h × (length es + weight h ≤ weight g)
Run-IsRemoved g h [] finish gone r = (r, gone, omega arith)
Run-IsRemoved g h (e ∷ es) (next _ _ due more) gone r =
    let one = after-IsRemoved e g gone due in
    let rest = Run-IsRemoved (after e g) h es more one.0 (step e r due) in
    (rest.0, rest.1, omega (arith, rest.2, one.1))

group_removed-IsRemoved : (g : Group) → IsRemoved (group_removed g)
unfolding group_removed take_off
group_removed-IsRemoved g = record {
  out = refl;
  hidden = if_lem (λ x. x.exported ≡ false) g.exported _ _ (λ shown. refl) (λ hidden. refl);
  quiet = if_lem (λ x. x.need_publish ≡ false) g.exported _ _ (λ shown. refl) (λ hidden. refl);
}

-- The callbacks that are due
abbrev pub pending : Group → ℕ
pending g = g.updates + g.idles + g.timers + g.polls

some_event : (g : Group) → 0 < pending g → (e : Event) × (enabled e g ≡ true)
unfolding enabled
some_event g h = elim (Bool-cases (ltb 0 g.updates)) [
  | inl u ↦ (report (ok []), u)
  | inr nu ↦ elim (Bool-cases (ltb 0 g.idles)) [
    | inl i ↦ (idle 1 1, ground (arith, i))
    | inr ni ↦ elim (Bool-cases (ltb 0 g.timers)) [
      | inl t ↦ (expire 1 1, ground (arith, t))
      | inr nt ↦ (polled 1, ground (arith, h, nu, ni, nt))
    ]
  ]
]

-- A group of the table is removed. Whatever happens after that, in whatever order, is a callback that
-- was due, and there are at most as many as the weight of the group says; as long as some are due, one
-- of them can run. The group is finalized, once, when none is left if it has never had a logical
-- volume; if it has had one, it is never finalized.
pub removed_group_ends :
    (g h : Group) (es : List Event)
    → Reach g
    → g.in_table ≡ true
    → Run (group_removed g) es h
    → (length es + weight h ≤ weight (group_removed g))
      × ((pending h ≡ 0) ⊎ ((e : Event) × (enabled e h ≡ true)))
      × (h.object.finalized ≡ one_if (pending h + h.volume_refs == 0))
unfolding after enabled
removed_group_ends g h es r here run =
    let done =
      Run-IsRemoved (group_removed g) h es run (group_removed-IsRemoved g) (step remove r here) in
    let held : holders h ≡ pending h + h.volume_refs = ground (arith, done.1.out, done.1.hidden) in
    (
      done.2,
      elim (Bool-cases (ltb 0 (pending h))) [
        | inl due ↦ inr (some_event h (ground (arith, due)))
        | inr none_due ↦ inl (ground (arith, none_due))
      ],
      (Reach-IsCounted h done.0).counts.once ∙ ap (λ n. one_if (n == 0)) held,
    )
