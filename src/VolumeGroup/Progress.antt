-- ===== src/VolumeGroup/Progress.antt =====
-- `update_progress_for_device` of src/volumegroup.c: the progress of the jobs that work on a device.
use storaged.Prelude.{
  ℕ, String, ◌≡◌, refl, sym, ap, ap₂, ◌∙◌, Bool, true, false, ◌&&◌, ◌||◌, Option, none, some, List,
  [], ◌∷◌, any, map, str_eq, if◌then◌else◌, same_text, arith, Bool-cases, inl, inr,
}
use storaged.Block.{Block}
use storaged.Manager.State.{Manager, find_block}

-- UDisksJob: the properties that matter here. The progress is in units of 1 / 100000000, that is the
-- number that is divided by 100000000.0 for the caller.
pub record JobObject : Type 0 where
  pub operation : Option String
  pub objects : List String
  pub progress : ℕ
  pub progress_valid : Bool

-- The loop over the symlinks of a block, which ends at the first that is the device.
names_symlink : String → List String → Bool
names_symlink dev [] = false
names_symlink dev (link ∷ links) =
    let rest = names_symlink dev links in if str_eq link dev then true else rest

-- `found`, for the block that an object path of the job stands for
is_on_device : String → Option Block → Bool
unfolding names_symlink
is_on_device dev none = false
is_on_device dev (some b) = if str_eq b.device dev then true else names_symlink dev b.symlinks

set_progress : ℕ → JobObject → JobObject
set_progress percent j = record j { progress = percent; progress_valid = true }

-- The loop over the objects of a job
update_objects : Manager → String → ℕ → List String → JobObject → JobObject
unfolding is_on_device set_progress
update_objects m dev percent [] j = j
update_objects m dev percent (path ∷ paths) j =
    update_objects m dev percent paths
      (if is_on_device dev (find_block m (some path)) then set_progress percent j else j)

update_job : Manager → String → String → ℕ → JobObject → JobObject
unfolding update_objects
update_job m operation dev percent j =
    if same_text j.operation (some operation) then update_objects m dev percent j.objects j else j

-- update_progress_for_device, over the jobs of storage_daemon_get_jobs
pub update_progress_for_device : Manager → String → String → ℕ → List JobObject → List JobObject
unfolding update_job
update_progress_for_device m operation dev percent [] = []
update_progress_for_device m operation dev percent (j ∷ js) =
    update_job m operation dev percent j ∷ update_progress_for_device m operation dev percent js

-- The reference: a job is concerned if it has the operation and an object that is a block of the device.
abbrev is_block_of : String → Option Block → Bool
is_block_of dev none = false
is_block_of dev (some b) = any (λ name. str_eq name dev) (b.device ∷ b.symlinks)

abbrev pub is_concerned : Manager → String → String → JobObject → Bool
is_concerned m operation dev j =
    same_text j.operation (some operation)
    && any (λ path. is_block_of dev (find_block m (some path))) j.objects

abbrev pub with_progress : ℕ → JobObject → JobObject
with_progress percent j = record j { progress = percent; progress_valid = true }

symlink-any :
    (dev : String) (links : List String)
    → names_symlink dev links ≡ any (λ name. str_eq name dev) links
unfolding names_symlink
symlink-any dev [] = refl
symlink-any dev (link ∷ links) = ground (arith, symlink-any dev links)

device-any : (dev : String) (b : Option Block) → is_on_device dev b ≡ is_block_of dev b
unfolding is_on_device
device-any dev none = refl
device-any dev (some b) = ground (arith, symlink-any dev b.symlinks)

-- Once the progress is set it stays as it is.
set_already :
    (m : Manager) (dev : String) (percent : ℕ) (paths : List String) (j : JobObject)
    → update_objects m dev percent paths (with_progress percent j) ≡ with_progress percent j
unfolding update_objects set_progress
set_already m dev percent [] j = refl
set_already m dev percent (path ∷ paths) j =
    elim (Bool-cases (is_on_device dev (find_block m (some path)))) [
      | inl here ↦ rw here (set_already m dev percent paths j)
      | inr elsewhere ↦ rw elsewhere (set_already m dev percent paths j)
    ]

objects-any :
    (m : Manager) (dev : String) (percent : ℕ) (paths : List String) (j : JobObject)
    → update_objects m dev percent paths j ≡ (
        if any (λ path. is_block_of dev (find_block m (some path))) paths
        then with_progress percent j
        else j)
unfolding update_objects set_progress
objects-any m dev percent [] j = refl
objects-any m dev percent (path ∷ paths) j =
    let o = find_block m (some path) in
    let others = any (λ path. is_block_of dev (find_block m (some path))) paths in
    let choice = λ (b : Bool). if b || others then with_progress percent j else j in
    elim (Bool-cases (is_on_device dev o)) [
      | inl here ↦
          let set : update_objects m dev percent (path ∷ paths) j ≡ with_progress percent j =
            rw here (set_already m dev percent paths j) in
          set ∙ ap choice (sym here ∙ device-any dev o)
      | inr elsewhere ↦
          let skipped : update_objects m dev percent (path ∷ paths) j
              ≡ update_objects m dev percent paths j =
            rw elsewhere refl in
          skipped ∙ objects-any m dev percent paths j ∙ ap choice (sym elsewhere ∙ device-any dev o)
    ]

job-any :
    (m : Manager) (operation dev : String) (percent : ℕ) (j : JobObject)
    → update_job m operation dev percent j
      ≡ (if is_concerned m operation dev j then with_progress percent j else j)
unfolding update_job
job-any m operation dev percent j = elim (Bool-cases (same_text j.operation (some operation))) [
  | inl same ↦ rw same (objects-any m dev percent j.objects j)
  | inr other ↦ rw other refl
]

-- The nested loops are one choice for each job: the job gets the progress, which becomes valid, exactly
-- if it has the operation and one of its objects is a block of the manager that has the name as its
-- device or as a symlink; every other job stays as it is.
pub update_progress-map :
    (m : Manager) (operation dev : String) (percent : ℕ) (js : List JobObject)
    → update_progress_for_device m operation dev percent js
      ≡ map (λ j. if is_concerned m operation dev j then with_progress percent j else j) js
unfolding update_progress_for_device
update_progress-map m operation dev percent [] = refl
update_progress-map m operation dev percent (j ∷ js) =
    ap₂ ◌∷◌ (job-any m operation dev percent j) (update_progress-map m operation dev percent js)
