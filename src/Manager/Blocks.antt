-- ===== src/Manager/Blocks.antt =====
-- The overlays that src/manager.c keeps for the blocks of udisksd.
pub mod Udisks
pub mod Kept
use storaged.Prelude.{
  String, Option, none, some, List, [], ◌∷◌, ◌++◌, Table, lookup, insert, remove,
}
use storaged.Objects.{Effect}
use storaged.Block.{Block, UdevDevice, block_dispose}
use storaged.VolumeGroup.State.{VolumeGroup}
use storaged.VolumeGroup.Blocks.{update_block}
use storaged.Manager.State.{Manager}

-- update_block_from_all_volume_groups
pub update_block_from_all : Table VolumeGroup → Block → Block × List Effect
update_block_from_all [] b = (b, [])
update_block_from_all ((name, vg) ∷ vgs) b =
    let (b', e) = update_block vg b in
    let (b'', es) = update_block_from_all vgs b' in (b'', e ++ es)

-- What udisksd and udev say of a block that appears
pub record RealBlock : Type 0 where
  pub path : String
  pub device : String
  pub symlinks : List String
  pub udev : Option UdevDevice

abbrev pub overlay_of : RealBlock → Block
overlay_of r = record {
  object_path = r.path;
  device = r.device;
  symlinks = r.symlinks;
  udev = r.udev;
  physical_volume = none;
  logical_volume = none;
}

-- What g_hash_table_insert does to an overlay that it replaces: with its last reference it is disposed
-- of.
replaced : Option Block → List Effect
replaced none = []
replaced (some b) = (block_dispose b).1

-- on_udisks_interface_added, for an interface that is a block
unfoldable pub block_added : RealBlock → Manager → Manager × List Effect
unfolding replaced
block_added r m =
    let (b, es) = update_block_from_all m.volume_groups (overlay_of r) in
    (record m { blocks = insert r.path b m.blocks }, replaced (lookup r.path m.blocks) ++ es)

-- on_udisks_interface_removed, for an interface that is a block
unfoldable pub block_removed : String → Manager → Manager × List Effect
block_removed path m = elim (lookup path m.blocks) [
  | none ↦ (m, [])
  | some b ↦ (record m { blocks = remove path m.blocks }, (block_dispose b).1)
]
