-- ===== src/VolumeGroup/References/Events.antt =====
-- What happens to a group of src/volumegroup.c while something refers to it.
use storaged.Prelude.{ℕ, ◌≡◌, Bool, true, ◌&&◌, ltb}
use storaged.System.{Result}
use storaged.Variant.{Info}
use storaged.VolumeGroup.References.{
  Group, group_created, volume_group_update, update_reported, volume_group_poll, idle_called,
  timeout_called, poll_reported, group_removed,
}

-- What happens to a group: the manager asks for an update, the helper's report comes, a client asks
-- to poll, the callbacks of that run, and the manager removes the group.
pub data Event : Type 0 where
  update : Event
  report : Result Info → Event
  request : Event
  idle : (timeout pid : ℕ) → Event
  expire : (timeout pid : ℕ) → Event
  polled : ℕ → Event
  remove : Event

-- A callback runs if it is due; only a group in the table is updated or removed, and only one that is
-- on the bus is called. An id of GLib is not 0.
unfoldable pub enabled : Event → Group → Bool
enabled update g = g.in_table
enabled (report r) g = ltb 0 g.updates
enabled request g = g.exported
enabled (idle timeout pid) g = ltb 0 g.idles && ltb 0 timeout
enabled (expire timeout pid) g = ltb 0 g.timers && ltb 0 timeout
enabled (polled pid) g = ltb 0 g.polls
enabled remove g = g.in_table

unfoldable pub after : Event → Group → Group
after update g = volume_group_update g
after (report r) g = update_reported r g
after request g = volume_group_poll g
after (idle timeout pid) g = idle_called timeout pid g
after (expire timeout pid) g = timeout_called timeout pid g
after (polled pid) g = poll_reported pid g
after remove g = group_removed g

-- The groups that come of a new one
pub data Reach : Group → Type 0 where
  start : Reach group_created
  step : {g : Group} (e : Event) → Reach g → enabled e g ≡ true → Reach (after e g)
