-- ===== src/Daemon/Bus/Things.antt =====
-- The interfaces of one object of src/daemon.c.
use storaged.Prelude.{
  ◌≡◌, refl, ap, Bool, true, not, ◌&&◌, ◌||◌, List, [], ◌∷◌, str_eq, eq_iff, eq_refl, any, arith,
  Bool-cases, inl, inr,
}
use storaged.Objects.{
  Thing, manager, volume_group, logical_volume, logical_volume_block, physical_volume_block, job,
}
use storaged.Daemon.Bus.{thing_eq, iface_name, remove_things, add_interface}

pub thing_eq_sound : (a b : Thing) → thing_eq a b ≡ true → a ≡ b
unfolding thing_eq
thing_eq_sound manager manager h = refl
thing_eq_sound (volume_group a) (volume_group b) h = ground (arith, eq_iff a b)
thing_eq_sound (logical_volume g a) (logical_volume x b) h = ground (arith, eq_iff a b, eq_iff g x)
thing_eq_sound (logical_volume_block a) (logical_volume_block b) h = ground (arith, eq_iff a b)
thing_eq_sound (physical_volume_block a) (physical_volume_block b) h = ground (arith, eq_iff a b)
thing_eq_sound (job m) (job n) h = ground arith
thing_eq_sound _ _ h = cc

pub thing_eq_refl : (t : Thing) → thing_eq t t ≡ true
unfolding thing_eq
thing_eq_refl manager = refl
thing_eq_refl (volume_group a) = eq_refl a
thing_eq_refl (logical_volume g a) = ground (arith, eq_refl a, eq_refl g)
thing_eq_refl (logical_volume_block a) = eq_refl a
thing_eq_refl (physical_volume_block a) = eq_refl a
thing_eq_refl (job n) = ground arith

pub any-remove_things :
    (p : Thing → Bool) (u : Thing) (ts : List Thing)
    → any (thing_eq u) (remove_things p ts) ≡ (any (thing_eq u) ts && not (p u))
unfolding remove_things
any-remove_things p u [] = ground arith
any-remove_things p u (t ∷ ts) = elim (Bool-cases (thing_eq u t)) [
  | inl same ↦
      let e : p u ≡ p t = ap p (thing_eq_sound u t same) in
      ground (arith, any-remove_things p u ts, e)
  | inr differs ↦ ground (arith, any-remove_things p u ts)
]

pub any-add_interface :
    (t u : Thing) (ts : List Thing)
    → any (thing_eq u) (add_interface t ts)
      ≡ (thing_eq u t || (any (thing_eq u) ts && not (str_eq (iface_name u) (iface_name t))))
unfolding add_interface
any-add_interface t u ts =
    ground (arith, any-remove_things (λ (v : Thing). str_eq (iface_name v) (iface_name t)) u ts)
