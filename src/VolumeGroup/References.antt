-- ===== src/VolumeGroup/References.antt =====
-- Who holds a reference to a group of src/volumegroup.c, and the `struct UpdateData` of its updates:
-- `storage_volume_group_update`, `storage_volume_group_poll` and what they lead to.
pub mod Events
pub mod Counted
pub mod Kept
pub mod Drained
pub mod Freed
use storaged.Prelude.{
  ℕ, ◌+◌, ◌-◌, Bool, true, false, ◌&&◌, ◌||◌, Option, none, some, List, [], ◌∷◌, String, not, any,
  str_eq, ◌==◌, ltb, if◌then◌else◌,
}
use storaged.System.{Error, Result, ok, err}
use storaged.Variant.{Dict, Info, lookup_str, info_dicts}
use storaged.VolumeGroup.Update.{is_unchanged, list_of}
use storaged.Util.Name.{lv_is_visible}
use storaged.VolumeGroup.Poll.{Polling, no_polling, poll_in_main, poll_timeout}

-- A GObject: its count, how often it was finalized, and whether it was referred to after that.
pub record Object : Type 0 where
  pub refs : ℕ
  pub finalized : ℕ
  pub misused : Bool

-- g_object_ref
unfoldable pub ref : Object → Object
ref o = if o.refs == 0 then record o { misused = true } else record o { refs = o.refs + 1 }

-- g_object_unref
unfoldable pub unref : Object → Object
unref o = if o.refs == 0 then record o { misused = true } else record o {
  refs = o.refs - 1;
  finalized = if o.refs == 1 then o.finalized + 1 else o.finalized;
}

-- A group with what refers to it: the table of the manager, its object on the bus, the updates that
-- are under way, the idle callbacks of requests to poll, the timeout, and the processes that poll,
-- and its logical volumes. `update_data` counts the allocated UpdateData, `volumes` are the names in the
-- table of logical volumes, and `volume_refs` counts the volumes that have been made: each refers to
-- the group, by storage_logical_volume_set_volume_group, and neither its dispose nor its finalize drops
-- that reference.
pub record Group : Type 0 where
  pub object : Object
  pub need_publish : Bool
  pub info : Option Info
  pub polling : Polling
  pub in_table : Bool
  pub exported : Bool
  pub updates : ℕ
  pub idles : ℕ
  pub timers : ℕ
  pub polls : ℕ
  pub update_data : ℕ
  pub volumes : List String
  pub volume_refs : ℕ

-- storage_volume_group_new, and g_hash_table_insert of lvm_update_from_variant, which takes the
-- reference over
unfoldable pub group_created : Group
group_created = record {
  object = record { refs = 1; finalized = 0; misused = false };
  need_publish = true;
  info = none;
  polling = no_polling;
  in_table = true;
  exported = false;
  updates = 0;
  idles = 0;
  timers = 0;
  polls = 0;
  update_data = 0;
  volumes = [];
  volume_refs = 0;
}

-- storage_volume_group_update, as far as the call that starts the helper
unfoldable pub volume_group_update : Group → Group
unfolding ref
volume_group_update g = record g {
  object = ref g.object;
  updates = g.updates + 1;
  update_data = g.update_data + 1;
}

-- storage_daemon_publish adds the group to an object on the bus, which refers to it from then on.
unfoldable pub publish_once : Group → Group
unfolding ref
publish_once g =
    if g.need_publish
    then record g { object = ref g.object; need_publish = false; exported = true }
    else g

-- One of the updates is over.
unfoldable pub update_over : Group → Group
unfolding unref
update_over g = record g { object = unref g.object; updates = g.updates - 1 }

-- The volumes that a report adds, each by storage_logical_volume_new
unfoldable pub add_volume : Option String → Group → Group
unfolding ref
add_volume none g = g
add_volume (some name) g =
    if lv_is_visible (some name) && not (any (str_eq name) g.volumes)
    then record g {
      object = ref g.object;
      volumes = name ∷ g.volumes;
      volume_refs = g.volume_refs + 1;
    }
    else g

unfoldable pub add_volumes : List Dict → Group → Group
unfolding add_volume
add_volumes [] g = g
add_volumes (info ∷ infos) g = add_volumes infos (add_volume (lookup_str "name" info) g)

-- The volumes that the report does not name leave the table.
unfoldable pub visible_names : List Dict → List String
visible_names [] = []
visible_names (info ∷ infos) =
    let rest = visible_names infos in
    elim (lookup_str "name" info) [
      | none ↦ rest
      | some n ↦ if lv_is_visible (some n) then n ∷ rest else rest
    ]

-- update_with_variant. Only its last path frees the UpdateData.
unfoldable pub update_reported : Result Info → Group → Group
unfolding publish_once update_over add_volumes visible_names
update_reported (err e) g = update_over (publish_once g)
update_reported (ok info) g =
    let p = publish_once g in
    if is_unchanged p.info info
    then update_over p
    else let infos = list_of (info_dicts "lvs" info) in
      let added = add_volumes infos (record p { info = some info }) in
      let over = update_over (record added { volumes = visible_names infos }) in
      record over { update_data = over.update_data - 1 }

-- storage_volume_group_poll, of handle_poll: g_idle_add with a reference
unfoldable pub volume_group_poll : Group → Group
unfolding ref
volume_group_poll g = record g { object = ref g.object; idles = g.idles + 1 }

-- poll_now: a reference for the timeout and one for the process. If the process cannot be started the
-- pid is 0, and poll_with_variant has dropped the second one.
unfoldable pub hold_poll : ℕ → Group → Group
unfolding ref unref
hold_poll pid g =
    let both = record g { object = ref (ref g.object); timers = g.timers + 1 } in
    if pid == 0
    then record both { object = unref both.object }
    else record both { polls = both.polls + 1 }

-- poll_in_main
unfoldable pub idle_called : ℕ → ℕ → Group → Group
unfolding hold_poll unref
idle_called timeout pid g =
    let held = if ltb 0 g.polling.poll_timeout_id then g else hold_poll pid g in
    record held {
      object = unref held.object;
      polling = poll_in_main timeout pid g.polling;
      idles = held.idles - 1;
    }

-- poll_timeout
unfoldable pub timeout_called : ℕ → ℕ → Group → Group
unfolding hold_poll unref
timeout_called timeout pid g =
    let held = if g.polling.poll_requested then hold_poll pid g else g in
    record held {
      object = unref held.object;
      polling = poll_timeout timeout pid g.polling;
      timers = held.timers - 1;
    }

-- poll_with_variant, which ends every path with g_object_unref
unfoldable pub poll_reported : ℕ → Group → Group
unfolding unref
poll_reported pid g = record g {
  object = unref g.object;
  polling = if pid == g.polling.poll_pid then record g.polling { poll_pid = 0 } else g.polling;
  polls = g.polls - 1;
}

-- storage_volume_group_dispose takes the group off the bus.
unfoldable pub take_off : Group → Group
unfolding unref
take_off g =
    let off = record g { need_publish = false; info = none; exported = false; volumes = [] } in
    if g.exported then record off { object = unref g.object } else off

-- A group that is not in the list any more, in lvm_update_from_variant: g_object_run_dispose, which
-- holds a reference meanwhile, and g_hash_table_iter_remove
unfoldable pub group_removed : Group → Group
unfolding ref unref take_off
group_removed g =
    let off = take_off (record g { object = ref g.object }) in
    record off { object = unref (unref off.object); in_table = false }
