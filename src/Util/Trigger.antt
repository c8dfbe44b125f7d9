-- ===== src/Util/Trigger.antt =====
-- Events of udev: storage_util_trigger_udev of src/util.c and storage_block_trigger_uevent of
-- src/block.c, as the calls of the system that they make. What open and write answer is a parameter.
use storaged.Prelude.{
  ℕ, String, ◌≡◌, refl, Option, none, some, List, [], ◌∷◌, ◌<>◌, arith, ◌==◌, if◌then◌else◌,
  Option-cases, inl, inr,
}

pub data Call : Type 0 where
  open_write : (path : String) → Call
  open_read_write : (path : String) → Call
  write_text : (fd : ℕ) → (text : String) → Call
  close : (fd : ℕ) → Call

module _ (open_fd : String → Option ℕ) where
  -- storage_util_trigger_udev
  pub util_trigger_udev : String → List Call
  util_trigger_udev device =
      open_read_write device ∷ elim (open_fd device) [ none ↦ [] | some fd ↦ close fd ∷ [] ]

  -- From `fd = open (path, O_WRONLY)` on; whether all of the text is written changes only what is logged.
  write_change : String → List Call
  write_change path =
      open_write path
      ∷ elim (open_fd path) [ none ↦ [] | some fd ↦ write_text fd "change" ∷ close fd ∷ [] ]

  -- storage_block_trigger_uevent, given the path of the udev device in sysfs, if there is a device
  pub block_trigger_uevent : Option String → List Call
  unfolding write_change
  block_trigger_uevent none = []
  block_trigger_uevent (some sysfs_path) = write_change (sysfs_path <> "/uevent")

-- The calls after which a descriptor that open gave is still open.
abbrev pub left_open : Option ℕ → List Call → Option ℕ
left_open fd [] = fd
left_open fd (close n ∷ cs) =
    let rest = left_open none cs in
    let kept = left_open fd cs in elim fd [ none ↦ kept | some m ↦ if n == m then rest else kept ]
left_open fd (c ∷ cs) = left_open fd cs

-- Whatever open and write answer, both leave no descriptor open.
pub triggers_close :
    (open_fd : String → Option ℕ) (device sysfs_path : String)
    → (left_open (open_fd device) (util_trigger_udev open_fd device) ≡ none)
      × (left_open
            (open_fd (sysfs_path <> "/uevent"))
            (block_trigger_uevent open_fd (some sysfs_path))
          ≡ none)
unfolding util_trigger_udev block_trigger_uevent write_change
triggers_close open_fd device sysfs_path = (
  elim (Option-cases (open_fd device)) [
    | inl failed ↦ rw failed refl
    | inr (fd, opened) ↦ rw opened (ground arith)
  ],
  elim (Option-cases (open_fd (sysfs_path <> "/uevent"))) [
    | inl failed ↦ rw failed refl
    | inr (fd, opened) ↦ rw opened (ground arith)
  ],
)
