-- ===== src/Methods/Sizes.antt =====
-- The sizes that the methods pass on to LVM.
use storaged.Prelude.{String, List, []}
use storaged.System.{Result, ok, err}
use storaged.LogicalVolume.State.{LogicalVolume}
use storaged.VolumeGroup.State.{VolumeGroup}
use storaged.Methods.Commands.{Launch}

abbrev pub argv_of : Result Launch → List String
argv_of (ok l) = l.argv
argv_of (err e) = []
