-- ===== src/Examples/Volumes.antt =====
-- Names, paths and command lines, and a block next to a volume group.
use Prim.Native.String
use Prim.Native.String.{count}
use storaged.Prelude.{ℕ, ◌≡◌, refl, true, false, Option, none, some, [], ◌∷◌, ◌||◌, ◌==◌, arith}
use storaged.Variant.{Info, str, u64, single, dicts}
use storaged.Util.ObjectPath.{is_path_char, append_parts, has_slash_suffix, build_object_path}
use storaged.Util.ObjectPath.Chars.{all_chars, build_object_path-chars}
use storaged.Helper.Output.{Accepts, write_all, written, write_all_complete}
use storaged.Block.{Block}
use storaged.LogicalVolume.State.{logical_volume_new}
use storaged.VolumeGroup.State.{VolumeGroup}
use storaged.VolumeGroup.Blocks.{update_block}
use storaged.VolumeGroup.Blocks.Members.{claims, is_pv_of, shown_after, members-update_block}

build_object_path-chars_example :
    (build_object_path (some "/org/freedesktop/UDisks2/lvm") ("vg-0" ∷ [])
      ≡ some (String.◌++◌ "/org/freedesktop/UDisks2/lvm" (append_parts "" ("vg-0" ∷ []))))
    × (all_chars (λ c. is_path_char c || c == b'/') (append_parts "" ("vg-0" ∷ [])) ≡ true)
unfolding has_slash_suffix
build_object_path-chars_example =
    build_object_path-chars "/org/freedesktop/UDisks2/lvm" ("vg-0" ∷ []) refl

-- A system that takes one byte at a time
abbrev pub one_byte : ℕ → ℕ → Option ℕ
one_byte round size = some 1

pub one_byte-Accepts : Accepts one_byte
one_byte-Accepts round size h = (1, refl, omega arith, omega arith)

write_all_complete_example : write_all one_byte 3 0 [] (7 ∷ 8 ∷ 9 ∷ []) ≡ (written, 7 ∷ 8 ∷ 9 ∷ [])
write_all_complete_example = write_all_complete one_byte (7 ∷ 8 ∷ 9 ∷ []) one_byte-Accepts

abbrev pub block_sda1 : Block
block_sda1 = record {
  object_path = "/org/freedesktop/UDisks2/block_devices/sda1";
  device = "/dev/sda1";
  symlinks = "/dev/disk/by-id/disk0" ∷ [];
  udev = some (record { vg_name = some "vg0"; lv_name = "data" });
  physical_volume = some (record { volume_group = some "/vg1"; size = 8; free_size = 4 });
  logical_volume = none;
}

abbrev pub group_vg0 : VolumeGroup
group_vg0 = record {
  name = "vg0";
  object_path = some "/vg0";
  need_publish = false;
  info = none;
  logical_volumes = ("data", logical_volume_new "vg0" "data") ∷ [];
  physical_volumes = ("/dev/sdb", ("size", u64 8) ∷ []) ∷ [];
  uuid = none;
  size = 0;
  free_size = 0;
  extent_size = 0;
  needs_polling = false;
}

members-update_block_example :
    let c = (update_block group_vg0 block_sda1).0 in
    (claims group_vg0 c ≡ is_pv_of group_vg0 block_sda1)
    × (c.logical_volume ≡ shown_after group_vg0 block_sda1.udev block_sda1.logical_volume)
members-update_block_example = members-update_block group_vg0 block_sda1

abbrev pub info_data : Info
info_data =
    ("name", single (str "vg0"))
    ∷ ("lvs", dicts ((("name", str "data") ∷ ("lv_attr", str "-wi-a-----") ∷ []) ∷ []))
    ∷ ("pvs", dicts ((("device", str "/dev/sda1") ∷ []) ∷ []))
    ∷ []
