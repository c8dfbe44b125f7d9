-- ===== src/Daemon/Bus/Shown.antt =====
-- The bus as the relation between paths and what they show.
use mathlib.Core.Path.{fun_ext}
use storaged.Prelude.{
  ◌≡◌, ◌≢◌, refl, sym, ap, ◌∙◌, String, Bool, true, false, not, ◌&&◌, ◌||◌, Option, none, some,
  List, [], ◌∷◌, lookup, insert, remove, str_eq, eq_iff, any, if◌then◌else◌, arith, lookup-insert,
  lookup-remove, Bool-cases, inl, inr,
}
use storaged.Objects.{Thing, Effect, publish, unpublish, trigger_udev, progress}
use storaged.Daemon.Bus.{
  Bus, thing_eq, iface_name, remove_things, add_interface, interfaces_of, interfaces_at,
  daemon_publish, is_other, unpublish_from, unpublish_found, daemon_unpublish, apply_effect,
  apply_effects,
}
use storaged.Daemon.Bus.Things.{thing_eq_sound, any-remove_things, any-add_interface}

-- What a path shows
abbrev pub shows : Bus → String → Thing → Bool
shows bus path t = any (thing_eq t) (interfaces_at path bus)

-- No object without an interface is exported.
abbrev pub IsTidy : Bus → Type 0
IsTidy bus = (path : String) → lookup path bus ≢ some []

-- A path shows what was published last for each interface name.
abbrev pub publishing : (String → Thing → Bool) → String → Thing → String → Thing → Bool
publishing f path t q u =
    if str_eq path q
    then thing_eq u t || (f q u && not (str_eq (iface_name u) (iface_name t)))
    else f q u

abbrev pub unpublishing : (String → Thing → Bool) → String → Thing → String → Thing → Bool
unpublishing f path t q u = f q u && not (str_eq path q && thing_eq u t)

shows-insert :
    (path : String) (ts : List Thing) (bus : Bus) (q : String) (u : Thing)
    → shows (insert path ts bus) q u
      ≡ (if str_eq path q then any (thing_eq u) ts else shows bus q u)
shows-insert path ts bus q u =
    ap (λ o. any (thing_eq u) (interfaces_of o)) (lookup-insert path q ts bus) ∙ ground arith

shows-remove :
    (path : String) (bus : Bus) (q : String) (u : Thing)
    → shows (remove path bus) q u ≡ (if str_eq path q then false else shows bus q u)
shows-remove path bus q u =
    ap (λ o. any (thing_eq u) (interfaces_of o)) (lookup-remove path q bus) ∙ ground arith

pub shows-publish :
    (path : String) (t : Thing) (bus : Bus) (q : String) (u : Thing)
    → shows (daemon_publish path t bus) q u ≡ publishing (shows bus) path t q u
unfolding daemon_publish
shows-publish path t bus q u = elim (Bool-cases (str_eq path q)) [
  | inl same ↦
      let e : shows bus path u ≡ shows bus q u = ap (λ x. shows bus x u) ((eq_iff path q).0 same) in
      ground (
        arith,
        shows-insert path (add_interface t (interfaces_at path bus)) bus q u,
        e,
        any-add_interface t u (interfaces_at path bus),
      )
  | inr differs ↦
      ground (arith, shows-insert path (add_interface t (interfaces_at path bus)) bus q u)
]

none_left :
    (t u : Thing) (ts : List Thing)
    → any (is_other t) ts ≡ false
    → (any (thing_eq u) ts && not (thing_eq u t)) ≡ false
unfolding is_other
none_left t u [] h = refl
none_left t u (x ∷ xs) h = elim (Bool-cases (thing_eq u x)) [
  | inl same ↦
      let e : thing_eq u t ≡ thing_eq x t =
        ap (λ (v : Thing). thing_eq v t) (thing_eq_sound u x same) in
      ground (arith, none_left t u xs, e)
  | inr differs ↦ ground (arith, none_left t u xs)
]

shows-unpublish_found :
    (path : String) (t : Thing) (o : Option (List Thing)) (bus : Bus) (q : String) (u : Thing)
    → lookup path bus ≡ o
    → shows (unpublish_found path t o bus) q u ≡ unpublishing (shows bus) path t q u
unfolding unpublish_found unpublish_from
shows-unpublish_found path t none bus q u h =
    let e : str_eq path q ≡ true → shows bus q u ≡ false = λ same.
      ap (λ x. shows bus x u) (sym ((eq_iff path q).0 same))
      ∙ ap (λ o. any (thing_eq u) (interfaces_of o)) h in
    elim (Bool-cases (str_eq path q)) [
      | inl same ↦ ground (arith, e same)
      | inr differs ↦ ground arith
    ]
shows-unpublish_found path t (some ts) bus q u h = elim (Bool-cases (str_eq path q)) [
  | inl same ↦
      let e : shows bus q u ≡ any (thing_eq u) ts =
        ap (λ x. shows bus x u) (sym ((eq_iff path q).0 same))
        ∙ ap (λ o. any (thing_eq u) (interfaces_of o)) h in
      ground (
        arith,
        e,
        shows-remove path bus q u,
        none_left t u ts,
        shows-insert path (remove_things (λ (v : Thing). thing_eq v t) ts) bus q u,
        any-remove_things (λ (v : Thing). thing_eq v t) u ts,
      )
  | inr differs ↦ ground (
    arith,
    shows-remove path bus q u,
    shows-insert path (remove_things (λ (v : Thing). thing_eq v t) ts) bus q u,
  )
]

shows-unpublish :
    (path : String) (t : Thing) (bus : Bus) (q : String) (u : Thing)
    → shows (daemon_unpublish path t bus) q u ≡ unpublishing (shows bus) path t q u
unfolding daemon_unpublish
shows-unpublish path t bus q u = shows-unpublish_found path t (lookup path bus) bus q u refl

-- Tidiness
some_left :
    (t : Thing) (ts : List Thing)
    → any (is_other t) ts ≡ true
    → remove_things (λ u. thing_eq u t) ts ≢ []
unfolding remove_things is_other
some_left t [] h e = cc
some_left t (x ∷ xs) h e = ground (arith, some_left t xs)

insert-IsTidy :
    (path : String) (ts : List Thing) (bus : Bus)
    → ts ≢ []
    → IsTidy bus
    → IsTidy (insert path ts bus)
insert-IsTidy path ts bus full h q e = ground (arith, lookup-insert path q ts bus, h q)

remove-IsTidy : (path : String) (bus : Bus) → IsTidy bus → IsTidy (remove path bus)
remove-IsTidy path bus h q e = ground (arith, lookup-remove path q bus, h q)

publish-IsTidy :
    (path : String) (t : Thing) (bus : Bus) → IsTidy bus → IsTidy (daemon_publish path t bus)
unfolding daemon_publish add_interface
publish-IsTidy path t bus h = insert-IsTidy path _ bus (λ e. cc) h

unpublish_found-IsTidy :
    (path : String) (t : Thing) (o : Option (List Thing)) (bus : Bus)
    → IsTidy bus
    → IsTidy (unpublish_found path t o bus)
unfolding unpublish_found unpublish_from
unpublish_found-IsTidy path t none bus h = h
unpublish_found-IsTidy path t (some ts) bus h = elim (Bool-cases (any (is_other t) ts)) [
  | inl others ↦ rw others (insert-IsTidy path _ bus (some_left t ts others) h)
  | inr alone ↦ rw alone (remove-IsTidy path bus h)
]

-- The same effects, on the relation
pub replay : List Effect → (String → Thing → Bool) → String → Thing → Bool
replay [] f = f
replay (publish path t ∷ es) f = replay es (publishing f path t)
replay (unpublish path t ∷ es) f = replay es (unpublishing f path t)
replay (trigger_udev dev ∷ es) f = replay es f
replay (progress operation dev percent ∷ es) f = replay es f

-- From any tidy bus, and so from the empty one, any effects lead to a bus that shows what the relation
-- says: the things published and not unpublished since, where a path shows for each interface name the
-- thing published last. An object is exported exactly as long as it has an interface.
pub apply_effects_refines :
    (es : List Effect) (bus : Bus)
    → IsTidy bus
    → (shows (apply_effects es bus) ≡ replay es (shows bus)) × IsTidy (apply_effects es bus)
unfolding apply_effects apply_effect replay daemon_unpublish
apply_effects_refines [] bus h = (refl, h)
apply_effects_refines (publish path t ∷ es) bus h =
    let ih = apply_effects_refines es (daemon_publish path t bus) (publish-IsTidy path t bus h) in
    (ih.0 ∙ ap (replay es) (fun_ext λ q. fun_ext λ u. shows-publish path t bus q u), ih.1)
apply_effects_refines (unpublish path t ∷ es) bus h =
    let ih =
      apply_effects_refines es (daemon_unpublish path t bus)
        (unpublish_found-IsTidy path t (lookup path bus) bus h) in
    (ih.0 ∙ ap (replay es) (fun_ext λ q. fun_ext λ u. shows-unpublish path t bus q u), ih.1)
apply_effects_refines (trigger_udev dev ∷ es) bus h = apply_effects_refines es bus h
apply_effects_refines (progress operation dev percent ∷ es) bus h = apply_effects_refines es bus h
