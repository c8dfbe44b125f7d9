-- ===== src/Manager/Update.antt =====
-- `lvm_update` of src/manager.c: the list of the volume groups is read, one report is asked for each
-- group, and when all have called back the update is done. At the start the daemon waits for that.
pub mod Waiting
pub mod Listed
use storaged.Prelude.{
  ℕ, ◌+◌, ◌-◌, String, Bool, true, false, not, Option, none, some, List, [], ◌∷◌, ◌++◌, Table,
  lookup, insert, remove, retain, any, str_eq, ◌==◌, if◌then◌else◌, length,
}
use storaged.System.{Error, Result, ok, err}
use storaged.Variant.{Info}
use storaged.Objects.{Effect}
use storaged.Block.{Block}
use storaged.VolumeGroup.State.{VolumeGroup, volume_group_new}
use storaged.VolumeGroup.Update.{Updated, update_with_variant, volume_group_dispose}
use storaged.Manager.State.{Manager, trigger_delayed_lvm_update}

-- The manager together with one UpdateData and its task: `task_returned` once g_task_return_boolean
-- has been called for it. Reports of other updates do not come in between.
pub record Update : Type 0 where
  pub manager : Manager
  pub ignore_locks : Bool
  pub has_task : Bool
  pub pending_vg_updates : ℕ
  pub task_returned : Bool
  pub effects : List Effect

-- lvm_update; storage_manager_init_async calls it with TRUE and a task.
pub lvm_update : Bool → Bool → Manager → Update
lvm_update ignore_locks has_task m = record {
  manager = m;
  ignore_locks = ignore_locks;
  has_task = has_task;
  pending_vg_updates = 0;
  task_returned = false;
  effects = [];
}

-- lvm_update_done, with the id of the timeout that it may set
pub lvm_update_done : ℕ → Update → Update
lvm_update_done id u = record u {
  manager = if u.ignore_locks then trigger_delayed_lvm_update id u.manager else u.manager;
  task_returned = u.has_task;
}

-- lvm_vg_update_done
pub lvm_vg_update_done : ℕ → Update → Update
unfolding lvm_update_done
lvm_vg_update_done id u =
    let v = record u { pending_vg_updates = u.pending_vg_updates - 1 } in
    if v.pending_vg_updates == 0 then lvm_update_done id v else v

-- The values of udisks_path_to_block after all have been updated
abbrev zip_blocks : Table Block → List Block → Table Block
zip_blocks [] bs = []
zip_blocks ((path, old) ∷ t) [] = []
zip_blocks ((path, old) ∷ t) (b ∷ bs) = (path, b) ∷ zip_blocks t bs

abbrev values : Table Block → List Block
values [] = []
values ((path, b) ∷ t) = b ∷ values t

abbrev put_blocks : List Block → Manager → Manager
put_blocks bs m = record m { blocks = zip_blocks m.blocks bs }

-- The groups that the list does not name are disposed of, one after the other.
dispose_obsolete : List String → Table VolumeGroup → Update → Update
dispose_obsolete names [] u = u
dispose_obsolete names ((name, vg) ∷ vgs) u =
    let gone = volume_group_dispose vg (values u.manager.blocks) in
    dispose_obsolete names vgs (
      if any (str_eq name) names then u else record u {
        manager = put_blocks gone.blocks u.manager;
        effects = u.effects ++ gone.effects;
      })

-- A group that is new is created. One report is asked for each name of the list.
add_groups : List String → Table VolumeGroup → Table VolumeGroup
add_groups [] vgs = vgs
add_groups (name ∷ names) vgs =
    add_groups names
      (elim (lookup name vgs) [ none ↦ insert name (volume_group_new name) vgs | some vg ↦ vgs ])

take_names : List String → Update → Update
unfolding dispose_obsolete add_groups
take_names names u =
    let v = dispose_obsolete names u.manager.volume_groups u in
    let kept = retain (λ name. any (str_eq name) names) u.manager.volume_groups in
    record v {
      manager = record (v.manager) { volume_groups = add_groups names kept };
      pending_vg_updates = u.pending_vg_updates + length names;
    }

-- lvm_update_from_variant
pub lvm_update_from_variant : ℕ → Result (List String) → Update → Update
unfolding take_names lvm_update_done
lvm_update_from_variant id (err e) u = u
lvm_update_from_variant id (ok names) u =
    let v = take_names names u in if v.pending_vg_updates == 0 then lvm_update_done id v else v

abbrev report_of : Result Info → VolumeGroup → Manager → Updated
report_of r vg m = update_with_variant r vg (values m.blocks)

-- The report on one group, or its failure, has come: update_with_variant runs, and calls
-- lvm_vg_update_done if it comes to that.
pub group_reported : ℕ → String → Result Info → Update → Update
unfolding lvm_vg_update_done
group_reported id name r u = elim (lookup name u.manager.volume_groups) [
  | none ↦ u
  | some vg ↦
      let done = report_of r vg u.manager in
      let v = record u {
        manager = record (put_blocks done.blocks u.manager) {
          volume_groups = insert name done.group u.manager.volume_groups;
        };
        effects = u.effects ++ done.effects;
      } in
      if done.done_called then lvm_vg_update_done id v else v
]

-- Reports in the order in which they come
pub groups_reported : ℕ → List (String × Result Info) → Update → Update
groups_reported id [] u = u
groups_reported id ((name, r) ∷ rest) u = groups_reported id rest (group_reported id name r u)
