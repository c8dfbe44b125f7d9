-- ===== src/Examples/Bus.antt =====
-- The bus with the volumes of a group, the blocks of udisksd, and a client that comes and goes.
use storaged.Prelude.{
  ◌≡◌, refl, String, true, false, some, List, [], ◌∷◌, none, ◌++◌, ◌<>◌, lookup, insert, remove,
  arith, length,
}
use storaged.Objects.{Effect, publish, unpublish, logical_volume, volume_group, publish_at}
use storaged.Util.ObjectPath.{
  escape, has_slash_suffix, build_object_path, append_parts, safe_append_to_object_path,
  is_path_char, printf_02x, hex, hex_digit, int_of_char,
}
use storaged.Daemon.Bus.{apply_effects}
use storaged.Daemon.Bus.Shown.{shows, IsTidy, replay, apply_effects_refines}
use storaged.Daemon.Bus.Hidden.{escaped_name_hides}
use storaged.Daemon.Lifecycle.{Daemon, daemon_new}
use storaged.Daemon.Clients.{Item, told, other, hear_all, clients_counted}
use storaged.Invocation.Clients.{
  appeared, disappeared, Invocations, client_create, client_vanished, got_unix_user, uid_valid,
}
use storaged.Invocation.Clients.Life.{calls, vanishes, answers, run, after}
use storaged.VolumeGroup.State.{volume_group_new}
use storaged.Manager.Blocks.{RealBlock}
use storaged.Manager.Blocks.Udisks.{block, other_interface, object_goes, manager_init}
use storaged.Manager.Blocks.Udisks.Seen.{
  Happening, signalled, groups_become, group_updates, all_happen, view_of, overlays_refine_udisks,
}

no_objects-IsTidy : IsTidy []
unfolding lookup
no_objects-IsTidy path e = cc

-- A group with a volume, which goes
abbrev life : List Effect
life =
    publish "/vg0" (volume_group "vg0")
    ∷ publish "/vg0/data" (logical_volume "vg0" "data")
    ∷ unpublish "/vg0/data" (logical_volume "vg0" "data")
    ∷ []

apply_effects_refines_example :
    (shows (apply_effects life []) ≡ replay life (shows [])) × IsTidy (apply_effects life [])
apply_effects_refines_example = apply_effects_refines life [] no_objects-IsTidy

escaped_name_hides_example :
    let first = logical_volume "vg0" ("s" <> String.◌∷◌ "-" "t") in
    let second = logical_volume "vg0" ("s" <> (escape "-" <> "t")) in
    let after =
      apply_effects
        (publish_at
            (build_object_path (some "/lvm") ("vg0" ∷ ("s" <> String.◌∷◌ "-" "t") ∷ []))
            first
          ++ publish_at
              (build_object_path (some "/lvm") ("vg0" ∷ ("s" <> (escape "-" <> "t")) ∷ []))
              second)
        [] in
    (shows after "/lvm/vg0/s_2dt" first ≡ false) × (shows after "/lvm/vg0/s_2dt" second ≡ true)
unfolding has_slash_suffix build_object_path append_parts safe_append_to_object_path escape
    is_path_char printf_02x hex hex_digit int_of_char
escaped_name_hides_example =
    escaped_name_hides "/lvm" "vg0" "s" "t" "-" [] {path = "/lvm/vg0/s_2dt"} refl refl refl

-- One client calls and goes, and another calls and is told its uid.
abbrev one_left : Invocations
one_left = record {
  clients = (":1.6", record { uid_peer = 1000; uid_state = uid_valid }) ∷ [];
  notices = appeared ":1.5" ∷ appeared ":1.6" ∷ disappeared ":1.5" ∷ [];
}

abbrev heard : List Item
heard =
    told (appeared ":1.5")
    ∷ other (λ d. d) (λ d. refl)
    ∷ told (appeared ":1.6")
    ∷ told (disappeared ":1.5")
    ∷ []

clients_counted_example :
    (d : Daemon) × (hear_all heard (daemon_new false) ≡ some d)
    × (d.num_clients ≡ length one_left.clients)
unfolding run after client_create client_vanished got_unix_user lookup insert remove
clients_counted_example =
    clients_counted
      (calls ":1.5" ∷ calls ":1.6" ∷ vanishes ":1.5" ∷ answers ":1.6" (some 1000) ∷ []) heard false
      {inv = one_left} refl refl (omega arith, (omega arith, tt))

abbrev real_sda1 : RealBlock
real_sda1 = record { path = "/sda1"; device = "/dev/sda1"; symlinks = []; udev = none }

abbrev real_sdb1 : RealBlock
real_sdb1 = record { path = "/sdb1"; device = "/dev/sdb1"; symlinks = []; udev = none }

-- Of two blocks one goes, while there is a group that has updated both.
abbrev goes_in_group : List Happening
goes_in_group =
    groups_become (("vg0", volume_group_new "vg0") ∷ [])
    ∷ group_updates (volume_group_new "vg0")
    ∷ signalled (object_goes (block real_sda1 ∷ []))
    ∷ []

overlays_refine_udisks_example :
    view_of (
      lookup "/sda1"
        (all_happen goes_in_group
          (manager_init (
            some
              ((block real_sda1 ∷ other_interface ∷ []) ∷ (block real_sdb1 ∷ []) ∷ []))).0).blocks)
    ≡ none
overlays_refine_udisks_example =
    overlays_refine_udisks ((block real_sda1 ∷ other_interface ∷ []) ∷ (block real_sdb1 ∷ []) ∷ [])
      goes_in_group "/sda1"
