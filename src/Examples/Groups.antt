-- ===== src/Examples/Groups.antt =====
-- A group that is updated, polled and removed, with those that refer to it.
use storaged.Prelude.{
  ◌+◌, ◌≤◌, ◌≡◌, ◌⊎◌, refl, false, true, List, [], ◌∷◌, ◌==◌, length, lookup, strstr,
}
use storaged.System.{Error, ok, err, udisks_error, failed}
use storaged.Util.Name.{lv_is_visible}
use storaged.VolumeGroup.Poll.{poll_in_main, poll_now, poll_timeout}
use storaged.VolumeGroup.Update.{is_unchanged}
use storaged.VolumeGroup.References.{
  Group, group_created, group_removed, volume_group_update, update_reported, publish_once,
  update_over, add_volumes, add_volume, visible_names, volume_group_poll, idle_called,
  timeout_called, hold_poll, poll_reported, take_off,
}
use storaged.VolumeGroup.References.Events.{
  Event, update, report, request, idle, expire, polled, enabled, after, Reach, start, step,
}
use storaged.VolumeGroup.References.Counted.{one_if, holders}
use storaged.VolumeGroup.References.Kept.{finalized_unheld}
use storaged.VolumeGroup.References.Drained.{weight}
use storaged.VolumeGroup.References.Freed.{Run, finish, next, pending, removed_group_ends}
use storaged.Examples.Volumes.{info_data}

abbrev no_helper : Error
no_helper = udisks_error failed "Failed to execute child process"

-- The first report is a failure, which publishes the group; then a client asks to poll.
abbrev polled_group : Group
polled_group = after request (after (report (err no_helper)) (after update group_created))

polled_group-Reach : Reach polled_group
unfolding after enabled volume_group_update update_reported publish_once update_over group_created
polled_group-Reach = step request (step (report (err no_helper)) (step update start refl) refl) refl

abbrev with_volume : Group
with_volume = after (report (ok info_data)) (after update polled_group)

with_volume-Reach : Reach with_volume
unfolding after enabled volume_group_update update_reported publish_once update_over group_created
    volume_group_poll
with_volume-Reach = step (report (ok info_data)) (step update polled_group-Reach refl) refl

finalized_unheld_example :
    (with_volume.object.finalized ≡ one_if (holders with_volume == 0))
    × (with_volume.object.misused ≡ false)
finalized_unheld_example = finalized_unheld with_volume with_volume-Reach

-- The volume still refers to the group when it has been removed and nothing is due.
volume_stays : (after (polled 42) (after (idle 5 42) (group_removed with_volume))).volume_refs ≡ 1
unfolding after volume_group_update update_reported publish_once update_over add_volumes add_volume
    visible_names group_created volume_group_poll group_removed take_off idle_called hold_poll
    poll_reported is_unchanged lookup lv_is_visible strstr
volume_stays = refl

abbrev callbacks : List Event
callbacks = idle 5 42 ∷ polled 42 ∷ expire 6 43 ∷ []

abbrev ended : Group
ended = after (expire 6 43) (after (polled 42) (after (idle 5 42) (group_removed polled_group)))

callbacks-Run : Run (group_removed polled_group) callbacks ended
unfolding after enabled volume_group_update update_reported publish_once update_over group_created
    volume_group_poll group_removed take_off idle_called timeout_called hold_poll poll_reported
    poll_in_main poll_now poll_timeout
callbacks-Run = next (idle 5 42) _ refl (next (polled 42) _ refl (next (expire 6 43) _ refl finish))

removed_group_ends_example :
    (length callbacks + weight ended ≤ weight (group_removed polled_group))
    × ((pending ended ≡ 0) ⊎ ((e : Event) × (enabled e ended ≡ true)))
    × (ended.object.finalized ≡ one_if (pending ended + ended.volume_refs == 0))
unfolding group_created after volume_group_update volume_group_poll update_reported update_over
    publish_once
removed_group_ends_example =
    removed_group_ends polled_group ended callbacks polled_group-Reach refl callbacks-Run
