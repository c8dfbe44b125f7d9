-- ===== src/VolumeGroup/Poll.antt =====
-- The polling of src/volumegroup.c: `storage_volume_group_poll`, `poll_in_main`, `poll_timeout`,
-- `poll_now` and `poll_with_variant`.
pub mod Rate
use storaged.Prelude.{
  ℕ, ◌+◌, String, Bool, true, false, not, ◌&&◌, Option, none, some, List, [], ◌∷◌, ◌++◌, Table,
  lookup, insert, ◌==◌, ltb, if◌then◌else◌,
}
use storaged.System.{Result, ok, err}
use storaged.Variant.{Dict, Info, lookup_str, info_dicts}
use storaged.Objects.{Effect}
use storaged.LogicalVolume.State.{LogicalVolume}
use storaged.LogicalVolume.Update.{logical_volume_update}
use storaged.VolumeGroup.State.{VolumeGroup, volume_group_update_props}
use storaged.VolumeGroup.Update.{update_operations, list_of}

-- poll_pid, poll_timeout_id and poll_requested of StorageVolumeGroup; 0 is none. `spawns` are the
-- processes that poll_now has started and `kills` those that it has sent SIGINT.
pub record Polling : Type 0 where
  pub poll_pid : ℕ
  pub poll_timeout_id : ℕ
  pub poll_requested : Bool
  pub spawns : List ℕ
  pub kills : List ℕ

abbrev pub no_polling : Polling
no_polling = record {
  poll_pid = 0;
  poll_timeout_id = 0;
  poll_requested = false;
  spawns = [];
  kills = [];
}

-- poll_now, with the ids that g_timeout_add and storage_daemon_spawn_for_variant return. If the
-- process cannot be started the pid is 0, and the error reaches poll_with_variant first, which then
-- only writes the 0 that poll_pid gets anyway.
unfoldable pub poll_now : ℕ → ℕ → Polling → Polling
poll_now timeout pid p = record p {
  poll_timeout_id = timeout;
  kills = if p.poll_pid == 0 then p.kills else p.poll_pid ∷ p.kills;
  poll_pid = pid;
  spawns = pid ∷ p.spawns;
}

-- poll_in_main, the idle callback of a request
unfoldable pub poll_in_main : ℕ → ℕ → Polling → Polling
unfolding poll_now
poll_in_main timeout pid p =
    if ltb 0 p.poll_timeout_id then record p { poll_requested = true } else poll_now timeout pid p

-- poll_timeout
unfoldable pub poll_timeout : ℕ → ℕ → Polling → Polling
unfolding poll_now
poll_timeout timeout pid p =
    let q = record p { poll_timeout_id = 0 } in
    if q.poll_requested then poll_now timeout pid (record q { poll_requested = false }) else q

-- One volume of a polled report: it is updated if the group knows it.
poll_entry :
    VolumeGroup → Dict → Table LogicalVolume × List Effect → Table LogicalVolume × List Effect
poll_entry vg info (lvs, effects) =
    let name = lookup_str "name" info in
    let told = effects ++ update_operations name info in
    elim name [
      | none ↦ (lvs, told)
      | some n ↦ elim (lookup n lvs) [
        | none ↦ (lvs, told)
        | some lv ↦
            let (lv', more) = logical_volume_update lvs vg.name vg.object_path info lv in
            (insert n lv' lvs, told ++ more)
      ]
    ]

poll_entries :
    VolumeGroup → List Dict → Table LogicalVolume × List Effect → Table LogicalVolume × List Effect
unfolding poll_entry
poll_entries vg [] s = s
poll_entries vg (info ∷ infos) s = poll_entries vg infos (poll_entry vg info s)

poll_info : Info → VolumeGroup → VolumeGroup × List Effect
unfolding poll_entries
poll_info info vg =
    let updated = volume_group_update_props info vg in
    let (lvs, effects) =
      poll_entries updated (list_of (info_dicts "lvs" info)) (vg.logical_volumes, []) in
    (record updated { logical_volumes = lvs }, effects)

abbrev poll_result : Result Info → VolumeGroup → VolumeGroup × List Effect
poll_result (err e) vg = (vg, [])
poll_result (ok info) vg = poll_info info vg

-- What poll_with_variant leaves
pub record Polled : Type 0 where
  pub polling : Polling
  pub group : VolumeGroup
  pub effects : List Effect

-- poll_with_variant
pub poll_with_variant : ℕ → Result Info → Polling → VolumeGroup → Polled
unfolding poll_info
poll_with_variant pid r p vg =
    let (polled, told) = poll_result r vg in
    if pid == p.poll_pid
    then record { polling = record p { poll_pid = 0 }; group = polled; effects = told }
    else record { polling = p; group = vg; effects = [] }
