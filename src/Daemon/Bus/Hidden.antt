-- ===== src/Daemon/Bus/Hidden.antt =====
-- What the escaping of src/util.c means for the volumes that src/daemon.c publishes.
use Prim.Native.Char.{Char}
use storaged.Prelude.{
  String, ◌≡◌, refl, sym, ◌∙◌, true, false, some, [], ◌∷◌, ◌++◌, ◌<>◌, arith, str_eq, eq_refl,
  eq_iff,
}
use storaged.Objects.{logical_volume, publish_at, Thing, publish}
use storaged.Util.ObjectPath.{escape, has_slash_suffix, build_object_path}
use storaged.Util.ObjectPath.Collision.{escaped_name_collides}
use storaged.Daemon.Bus.{Bus, thing_eq, iface_name, apply_effect, apply_effects, daemon_publish}
use storaged.Daemon.Bus.Shown.{shows, shows-publish}
use storaged.Daemon.Bus.Things.{thing_eq_refl}

publish-hides :
    (path : String) (t u : Thing) (bus : Bus)
    → thing_eq t u ≡ false
    → iface_name t ≡ iface_name u
    → (shows (apply_effects (publish path t ∷ publish path u ∷ []) bus) path t ≡ false)
      × (shows (apply_effects (publish path t ∷ publish path u ∷ []) bus) path u ≡ true)
unfolding apply_effects apply_effect
publish-hides path t u bus differ alike = (
  ground (
    arith,
    shows-publish path u (daemon_publish path t bus) path t,
    eq_refl path,
    eq_iff (iface_name t) (iface_name u),
  ),
  ground (
    arith,
    shows-publish path u (daemon_publish path t bus) path u,
    eq_refl path,
    thing_eq_refl u,
  ),
)

-- Of two volumes whose names differ only in that one has a character where the other has its escape,
-- the one that is published first is hidden: its path shows the other one instead.
pub escaped_name_hides :
    (base group s t : String) (c : Char) (bus : Bus) {path : String}
    → has_slash_suffix base ≡ false
    → build_object_path (some base) (group ∷ (s <> String.◌∷◌ c t) ∷ []) ≡ some path
    → str_eq (s <> String.◌∷◌ c t) (s <> (escape c <> t)) ≡ false
    → let first = logical_volume group (s <> String.◌∷◌ c t) in
      let second = logical_volume group (s <> (escape c <> t)) in
      let after =
        apply_effects
          (publish_at (build_object_path (some base) (group ∷ (s <> String.◌∷◌ c t) ∷ [])) first
            ++ publish_at
                (build_object_path (some base) (group ∷ (s <> (escape c <> t)) ∷ []))
                second)
          bus in
      (shows after path first ≡ false) × (shows after path second ≡ true)
escaped_name_hides base group s t c bus {path} h e differ =
    let e' = sym (escaped_name_collides base group s t c h) ∙ e in
    rw (e, e')
      (publish-hides path _ _ bus (unfold thing_eq in ground (arith, differ))
        (unfold iface_name in refl))
