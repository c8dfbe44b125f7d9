-- ===== src/Manager/Update/Waiting.antt =====
-- When the update of src/manager.c is done, and what keeps it from being done.
use storaged.Prelude.{
  ℕ, suc, ◌+◌, ◌-◌, ◌≤◌, ◌<◌, String, ◌≡◌, refl, Bool, true, false, ◌&&◌, Option, none, some, List,
  [], ◌∷◌, Table, lookup, ◌==◌, if◌then◌else◌, length, arith, ◌∙◌,
}
use storaged.System.{Error, Result, ok, err}
use storaged.Variant.{Info}
use storaged.VolumeGroup.State.{VolumeGroup}
use storaged.VolumeGroup.Update.Outcome.{done-failure}
use storaged.Manager.State.{Manager}
use storaged.Manager.Update.{
  Update, lvm_update, lvm_update_done, lvm_vg_update_done, lvm_update_from_variant, values,
  report_of, group_reported, groups_reported, dispose_obsolete,
}

-- Whether the group that a report is on calls back
abbrev called_by : Result Info → Option VolumeGroup → Manager → Bool
called_by r none m = false
called_by r (some vg) m = (report_of r vg m).done_called

abbrev calls_back : String → Result Info → Update → Bool
calls_back name r u = called_by r (lookup name u.manager.volume_groups) u.manager

abbrev one_if : Bool → ℕ
one_if true = 1
one_if false = 0

-- How many of the reports call back
pub callbacks : ℕ → List (String × Result Info) → Update → ℕ
callbacks id [] u = 0
callbacks id ((name, r) ∷ rest) u =
    one_if (calls_back name r u) + callbacks id rest (group_reported id name r u)

-- How many of the reports are failures
abbrev is_failure : Result Info → Bool
is_failure (ok info) = false
is_failure (err e) = true

unfoldable pub failures : List (String × Result Info) → ℕ
failures [] = 0
failures ((name, r) ∷ rest) = one_if (is_failure r) + failures rest

fields-group_reported :
    (id : ℕ) (name : String) (r : Result Info) (u : Update)
    → let v = group_reported id name r u in
      (v.has_task ≡ u.has_task)
      × (v.pending_vg_updates ≡ u.pending_vg_updates - one_if (calls_back name r u))
      × (v.task_returned ≡ (
          if calls_back name r u && u.pending_vg_updates - 1 == 0
          then u.has_task
          else u.task_returned))
unfolding group_reported lvm_vg_update_done lvm_update_done
fields-group_reported id name r u = (ground arith, ground arith, ground arith)

returned-groups_reported :
    (id : ℕ) (reports : List (String × Result Info)) (u : Update)
    → u.task_returned ≡ false
    → 0 < u.pending_vg_updates
    → length reports ≤ u.pending_vg_updates
    → (groups_reported id reports u).task_returned
      ≡ (u.has_task && callbacks id reports u == u.pending_vg_updates)
unfolding groups_reported callbacks
returned-groups_reported id [] u w pos le = ground arith
returned-groups_reported id ((name, r) ∷ []) u w pos le =
    ground (arith, fields-group_reported id name r u)
returned-groups_reported id ((name, r) ∷ x ∷ rest) u w pos le = ground (
  arith,
  fields-group_reported id name r u,
  returned-groups_reported id (x ∷ rest) (group_reported id name r u),
)

-- A failed report does not call back, on any group.
failure_silent :
    (vg : Option VolumeGroup) (m : Manager) (e : Error) → called_by (err e) vg m ≡ false
failure_silent none m e = refl
failure_silent (some vg) m e = done-failure e vg (values m.blocks)

callbacks-le :
    (id : ℕ) (reports : List (String × Result Info)) (u : Update)
    → callbacks id reports u + failures reports ≤ length reports
unfolding callbacks failures
callbacks-le id [] u = omega arith
callbacks-le id ((name, ok info) ∷ rest) u =
    ground (arith, callbacks-le id rest (group_reported id name (ok info) u))
callbacks-le id ((name, err e) ∷ rest) u = ground (
  arith,
  failure_silent (lookup name u.manager.volume_groups) u.manager e,
  callbacks-le id rest (group_reported id name (err e) u),
)

fields-dispose_obsolete :
    (names : List String) (vgs : Table VolumeGroup) (u : Update)
    → let v = dispose_obsolete names vgs u in
      (v.has_task ≡ u.has_task)
      × (v.task_returned ≡ u.task_returned)
      × (v.ignore_locks ≡ u.ignore_locks)
unfolding dispose_obsolete
fields-dispose_obsolete names [] u = (refl, refl, refl)
fields-dispose_obsolete names ((name, vg) ∷ vgs) u =
    ground (arith, fields-dispose_obsolete names vgs (dispose_obsolete names ((name, vg) ∷ []) u))

fields-lvm_update_from_variant :
    (id : ℕ) (name : String) (names : List String) (locks task : Bool) (m : Manager)
    → let v = lvm_update_from_variant id (ok (name ∷ names)) (lvm_update locks task m) in
      (v.has_task ≡ task) × (v.task_returned ≡ false) × (v.pending_vg_updates ≡ suc (length names))
unfolding lvm_update_from_variant lvm_update
fields-lvm_update_from_variant id name names locks task m =
    let u = lvm_update locks task m in
    let h = fields-dispose_obsolete (name ∷ names) m.volume_groups (unfold lvm_update in u) in
    (ground (arith, h), ground (arith, h), ground arith)

not_all : (k n : ℕ) → k < n → (k == n) ≡ false
not_all k n h = ground arith

-- An update that was asked for with a task, and that lists at least one group, returns the task
-- exactly when every group has called back, in whatever order the reports come: as many reports as
-- there are groups return it if and only if each of them calls back, fewer never do.
pub task-returned_iff :
    (id : ℕ) (name : String) (names : List String) (locks : Bool) (m : Manager)
    (reports : List (String × Result Info))
    → length reports ≤ suc (length names)
    → let u = lvm_update_from_variant id (ok (name ∷ names)) (lvm_update locks true m) in
      (groups_reported id reports u).task_returned ≡ (callbacks id reports u == suc (length names))
task-returned_iff id name names locks m reports h =
    let u = lvm_update_from_variant id (ok (name ∷ names)) (lvm_update locks true m) in
    let (task, fresh, pending) = fields-lvm_update_from_variant id name names locks true m in
    ground (
      arith,
      task,
      pending,
      returned-groups_reported id reports u fresh (omega (arith, pending)) (omega (arith, pending)),
    )

-- A flaw: in an update that was asked for with a task and that lists at least one group, if the report
-- on a group fails, then after up to as many reports as there are groups, in any order, the task has not
-- been returned.
pub failure_keeps_waiting :
    (id : ℕ) (name : String) (names : List String) (locks : Bool) (m : Manager)
    (reports : List (String × Result Info))
    → length reports ≤ suc (length names)
    → 0 < failures reports
    → let u = lvm_update_from_variant id (ok (name ∷ names)) (lvm_update locks true m) in
      (groups_reported id reports u).task_returned ≡ false
failure_keeps_waiting id name names locks m reports h some_failed =
    let u = lvm_update_from_variant id (ok (name ∷ names)) (lvm_update locks true m) in
    task-returned_iff id name names locks m reports h
    ∙ not_all (callbacks id reports u) (suc (length names))
        (omega (arith, callbacks-le id reports u))
