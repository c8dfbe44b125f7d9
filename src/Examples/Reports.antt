-- ===== src/Examples/Reports.antt =====
-- A group that the helper reports, through the pipe to the bus.
use storaged.Prelude.{
  ℕ, ◌≡◌, refl, sym, ap, String, false, Option, none, some, List, [], ◌∷◌, ◌++◌, is_some, lookup,
  if◌then◌else◌, str_eq,
}
use storaged.System.{Error, Result, ok, err, WaitStatus, exited, udisks_error, failed}
use storaged.Variant.{Info}
use storaged.Util.ObjectPath.{
  has_slash_suffix, build_object_path, append_parts, safe_append_to_object_path, escape,
  is_path_char,
}
use storaged.Objects.{logical_volume}
use storaged.Helper.Args.{arguments, volume_group_update_args}
use storaged.Helper.Show.{Vg, Lv, text, other, show_volume_group}
use storaged.Helper.Main.{Reply, names, group, helper_main, helper-writes}
use storaged.VolumeGroup.State.{volume_group_new}
use storaged.VolumeGroup.Update.{
  update_with_variant, volume_group_dispose, is_unchanged, publish_group,
}
use storaged.VolumeGroup.Update.Life.{run_reports, bus_mirrors_group}
use storaged.Daemon.Bus.Follow.{follow}
use storaged.Daemon.Reader.{Bytes, Directories, readable, ended, read_events, spawn_for_variant}
use storaged.Daemon.Reader.Answers.{answering, answered_once}
use storaged.Daemon.Reader.Pipeline.{IsMirror, helper_reaches_group}
use storaged.Examples.Volumes.{group_vg0, block_sda1, info_data, one_byte, one_byte-Accepts}

abbrev group_gone : Error
group_gone = udisks_error failed "storaged-lvm-helper exited with non-zero exit status 2"

bus_mirrors_group_example :
    let u =
      run_reports
        (err group_gone ∷ ok info_data ∷ ok [] ∷ [])
        (volume_group_new "vg0")
        (block_sda1 ∷ []) in
    (follow (logical_volume "vg0" "data") u.effects false
      ≡ is_some (lookup "data" u.group.logical_volumes))
    × (follow
          (logical_volume "vg0" "data")
          (u.effects ++ (volume_group_dispose u.group u.blocks).effects)
          false
        ≡ false)
unfolding publish_group volume_group_new has_slash_suffix build_object_path append_parts
    safe_append_to_object_path escape is_path_char
bus_mirrors_group_example =
    bus_mirrors_group "vg0" "data" "/org/freedesktop/UDisks2/lvm/vg0"
      (err group_gone ∷ ok info_data ∷ ok [] ∷ []) (block_sda1 ∷ []) refl refl

abbrev data_volume : Lv
data_volume = record {
  name = "data";
  uuid = "lv-uuid";
  size = 4194304;
  property = λ key. if str_eq key "lv_attr" then text (some "-wi-a-----") else other;
}

abbrev told_vg0 : Vg
told_vg0 = record {
  name = "vg0";
  uuid = "vg-uuid";
  size = 8388608;
  free_size = 4194304;
  extent_size = 4194304;
  lvs = data_volume ∷ [];
  pvs = record { device = "/dev/sda1"; uuid = "pv-uuid"; size = 8388608; free = 4194304 } ∷ [];
}

abbrev or_nothing : Option Info → Info
or_nothing none = []
or_nothing (some info) = info

abbrev told_info : Info
told_info = or_nothing (show_volume_group (some told_vg0))

-- Three bytes stand for the dictionary of the group.
abbrev write_variant : Reply → Bytes
write_variant (names ns) = []
write_variant (group info) = 7 ∷ 8 ∷ 9 ∷ []

abbrev read_variant : Bytes → Info
read_variant [] = []
read_variant (b ∷ bs) = told_info

abbrev dirs : Directories
dirs = record {
  lib_dir = "/usr/lib";
  data_dir = "/usr/share";
  build_filename = λ parts. "/usr/lib/storaged/storaged-lvm-helper";
}

abbrev start : List String → Result ℕ
start argv = ok 42

abbrev exit_error : WaitStatus → Error
exit_error status = group_gone

run_vg0 :
    helper_main
      (λ no_lock. "vg0" ∷ [])
      (λ no_lock name. some told_vg0)
      write_variant
      write_variant
      one_byte
      (arguments (volume_group_update_args false "vg0"))
    ≡ record { status = some 0; output = 7 ∷ 8 ∷ 9 ∷ [] }
unfolding show_volume_group
run_vg0 =
    helper-writes (λ no_lock. "vg0" ∷ []) (λ no_lock name. some told_vg0) write_variant
      write_variant one_byte false "vg0" told_vg0 {info = told_info} one_byte-Accepts refl refl

helper_reaches_group_example :
    (read_events read_variant exit_error
        (readable (7 ∷ []) ∷ readable (8 ∷ []) ∷ ended (exited 0) (some (9 ∷ [])) ∷ [])
        (spawn_for_variant read_variant exit_error dirs none start
          (volume_group_update_args false "vg0"))
      ≡ answering read_variant exit_error 42 (record { pid = 42; result = ok told_info } ∷ []))
    × IsMirror told_vg0 (update_with_variant (ok told_info) group_vg0 (block_sda1 ∷ [])).group
unfolding show_volume_group is_unchanged
helper_reaches_group_example =
    helper_reaches_group (λ no_lock. "vg0" ∷ []) (λ no_lock name. some told_vg0) write_variant
      write_variant one_byte read_variant exit_error dirs none start false "vg0" told_vg0 group_vg0
      (block_sda1 ∷ []) ((7 ∷ []) ∷ (8 ∷ []) ∷ []) (some (9 ∷ [])) [] 0 42 {info = told_info} refl
      one_byte-Accepts refl refl refl refl (ap (λ e. e.status) run_vg0)
      (sym (ap (λ e. e.output) run_vg0))

abbrev asked : List String
asked = volume_group_update_args false "vg0"

-- The helper writes a byte and fails; what it would have written after that is not heard.
answered_once_example :
    read_events read_variant exit_error
      (readable (7 ∷ []) ∷ ended (exited 2) none ∷ readable (8 ∷ []) ∷ [])
      (spawn_for_variant read_variant exit_error dirs none start asked)
    ≡ answering read_variant exit_error 42 (record { pid = 42; result = err group_gone } ∷ [])
answered_once_example =
    answered_once read_variant exit_error dirs none start asked ((7 ∷ []) ∷ []) (exited 2) none
      (readable (8 ∷ []) ∷ [])
