-- ===== src/Methods/Ends.antt =====
-- The handlers of a job's "completed" in src/volumegroup.c, src/logicalvolume.c and src/manager.c, with
-- the texts of their errors: those that answer the caller themselves, and those that share the closure
-- of a method that waits for an object.
pub mod Answered
use storaged.Prelude.{String, Bool, true, false, Option, none, some, List, [], ◌∷◌, ◌<>◌}
use storaged.System.{Error, udisks_error, failed}
use storaged.Job.Threaded.{Completion}
use storaged.Methods.Waiting.{Waiting, on_complete}

-- The reply of a method without results
pub data Answer : Type 0 where
  done : Answer
  failed_with : Error → Answer

-- The body that the handlers share, with the beginning of the text of an error
unfoldable pub finish : String → Bool → String → Answer
finish prefix true message = done
finish prefix false message = failed_with (udisks_error failed (prefix <> message))

-- on_delete_complete of src/volumegroup.c
abbrev pub on_delete_complete : Bool → String → Answer
on_delete_complete = finish "Error deleting volume group: "

-- on_adddev_complete
abbrev pub on_adddev_complete : Bool → String → Answer
on_adddev_complete = finish "Error adding device to volume group: "

-- on_remdev_complete
abbrev pub on_remdev_complete : Bool → String → Answer
on_remdev_complete = finish "Error removing device from volume group: "

-- on_empty_complete
abbrev pub on_empty_complete : Bool → String → Answer
on_empty_complete = finish "Error emptying device in volume group: "

-- on_complete_delete of src/logicalvolume.c
abbrev pub on_complete_delete : Bool → String → Answer
on_complete_delete = finish "Error deleting logical volume: "

-- on_resize_complete
abbrev pub on_resize_complete : Bool → String → Answer
on_resize_complete = finish "Error resizing logical volume: "

-- on_deactivate_complete
abbrev pub on_deactivate_complete : Bool → String → Answer
on_deactivate_complete = finish "Error deactivating logical volume: "

-- on_rename_complete of src/volumegroup.c
abbrev pub vg_on_rename_complete : Bool → String → Waiting → Option Waiting
vg_on_rename_complete = on_complete "Error renaming volume group: "

-- on_create_complete of src/volumegroup.c
abbrev pub vg_on_create_complete : Bool → String → Waiting → Option Waiting
vg_on_create_complete = on_complete "Error creating logical volume: "

-- on_rename_complete of src/logicalvolume.c
abbrev pub lv_on_rename_complete : Bool → String → Waiting → Option Waiting
lv_on_rename_complete = on_complete "Error renaming logical volume: "

-- on_activate_complete
abbrev pub on_activate_complete : Bool → String → Waiting → Option Waiting
on_activate_complete = on_complete "Error activating logical volume: "

-- on_snapshot_complete
abbrev pub on_snapshot_complete : Bool → String → Waiting → Option Waiting
on_snapshot_complete = on_complete "Error creating snapshot: "

-- on_create_complete of src/manager.c
abbrev pub manager_on_create_complete : Bool → String → Waiting → Option Waiting
manager_on_create_complete = on_complete "Error creating volume group: "

-- The answers to the completions of a job; `none` is a crash before the handler.
unfoldable pub answers : (Bool → String → Answer) → List (Option Completion) → List (Option Answer)
answers handler [] = []
answers handler (none ∷ cs) = none ∷ answers handler cs
answers handler (some c ∷ cs) = some (handler c.success c.message) ∷ answers handler cs

-- The same for a method that waits for an object, after the objects that have appeared so far
unfoldable pub waits :
    (Bool → String → Waiting → Option Waiting) → List (Option Completion) → Waiting → Option Waiting
waits handler [] w = some w
waits handler (none ∷ cs) w = none
waits handler (some c ∷ cs) w = elim (handler c.success c.message w) [
  | none ↦ none
  | some v ↦ waits handler cs v
]
