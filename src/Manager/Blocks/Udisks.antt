-- ===== src/Manager/Blocks/Udisks.antt =====
-- What src/manager.c hears from the object manager of udisksd: the objects that are there when
-- `storage_manager_init` runs, and the four signals after that.
pub mod Seen
use storaged.Prelude.{String, Option, none, some, List, [], ◌∷◌, ◌++◌}
use storaged.Objects.{Effect}
use storaged.Manager.State.{Manager, manager_new}
use storaged.Manager.Blocks.{RealBlock, block_added, block_removed}

-- An interface of an object of udisksd
pub data Interface : Type 0 where
  block : RealBlock → Interface
  other_interface : Interface

-- on_udisks_interface_added
unfoldable pub interface_added : Interface → Manager → Manager × List Effect
interface_added other_interface m = (m, [])
interface_added (block r) m = block_added r m

-- on_udisks_interface_removed
unfoldable pub interface_removed : Interface → Manager → Manager × List Effect
interface_removed other_interface m = (m, [])
interface_removed (block r) m = block_removed r.path m

-- on_udisks_object_added
unfoldable pub object_added : List Interface → Manager → Manager × List Effect
object_added [] m = (m, [])
object_added (i ∷ is) m =
    let (m', e) = interface_added i m in let (m'', es) = object_added is m' in (m'', e ++ es)

-- on_udisks_object_removed
unfoldable pub object_removed : List Interface → Manager → Manager × List Effect
object_removed [] m = (m, [])
object_removed (i ∷ is) m =
    let (m', e) = interface_removed i m in let (m'', es) = object_removed is m' in (m'', e ++ es)

read_objects : List (List Interface) → Manager → Manager × List Effect
read_objects [] m = (m, [])
read_objects (o ∷ os) m =
    let (m', e) = object_added o m in let (m'', es) = read_objects os m' in (m'', e ++ es)

-- storage_manager_init. `none` stands for udisksd that cannot be reached; then nothing is heard of it
-- later either.
unfoldable pub manager_init : Option (List (List Interface)) → Manager × List Effect
unfolding read_objects
manager_init none = (manager_new, [])
manager_init (some objects) = read_objects objects manager_new

-- The signals of the object manager
pub data Signal : Type 0 where
  object_appears object_goes : List Interface → Signal
  interface_appears interface_goes : Interface → Signal

unfoldable pub on_signal : Signal → Manager → Manager × List Effect
on_signal (object_appears is) m = object_added is m
on_signal (object_goes is) m = object_removed is m
on_signal (interface_appears i) m = interface_added i m
on_signal (interface_goes i) m = interface_removed i m
