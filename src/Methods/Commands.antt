-- ===== src/Methods/Commands.antt =====
-- What the handlers of src/logicalvolume.c and src/volumegroup.c that launch a spawned job share.
use storaged.Prelude.{ℕ, ◌-◌, ◌%◌, String, List, ◌<>◌, printf_d}
use storaged.LogicalVolume.State.{LogicalVolume}
use storaged.Methods.Waiting.{Wanted}

-- When the caller is answered: at the end of the job, or when an object appears
pub data Wait : Type 0 where
  end_of_job : Wait
  object : Wanted → Wait

-- A job, by its operation and its command line
pub record Launch : Type 0 where
  pub operation : String
  pub argv : List String
  pub wait : Wait

abbrev pub full_name : LogicalVolume → String
full_name lv = lv.group <> "/" <> lv.name

abbrev pub launch : String → List String → Wait → Launch
launch operation argv wait = record { operation = operation; argv = argv; wait = wait }

-- size -= size % 512, on guint64
abbrev pub whole_sectors : ℕ → ℕ
whole_sectors size = size - size % 512

-- "%" G_GUINT64_FORMAT "b"
abbrev pub bytes_arg : ℕ → String
bytes_arg size = printf_d size <> "b"
