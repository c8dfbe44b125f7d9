-- ===== src/Examples/Updates.antt =====
-- Reports on the volume group vg0, and what asks for them.
use storaged.Prelude.{
  ◌+◌, ◌≤◌, ◌≡◌, refl, String, true, false, List, [], ◌∷◌, ◌==◌, length, arith, ◌⊎◌,
}
use storaged.System.{Error, udisks_error, failed, Result, ok, err}
use storaged.Variant.{Info}
use storaged.VolumeGroup.Poll.{no_polling, poll_in_main, poll_timeout}
use storaged.VolumeGroup.Poll.Rate.{
  IsRemembered, request, expire, report, IsSound, run, expiries, spawns_bounded, request_served,
}
use storaged.Manager.State.{manager_new}
use storaged.Manager.Update.{lvm_update, lvm_update_from_variant, groups_reported}
use storaged.Manager.Update.Waiting.{callbacks, failures, task-returned_iff, failure_keeps_waiting}
use storaged.Examples.Volumes.{group_vg0, info_data}

spawns_bounded_example :
    length
      (run group_vg0
        (request 1 100 ∷ request 2 101 ∷ report 100 (ok info_data) ∷ expire 2 102 ∷ [])
        no_polling).spawns
    ≤ 1 + expiries (request 1 100 ∷ request 2 101 ∷ report 100 (ok info_data) ∷ expire 2 102 ∷ [])
unfolding IsSound
spawns_bounded_example =
    spawns_bounded group_vg0
      (request 1 100 ∷ request 2 101 ∷ report 100 (ok info_data) ∷ expire 2 102 ∷ [])
      (omega arith, (omega arith, (tt, (omega arith, tt))))

request_served_example :
    let p = run group_vg0 (request 1 100 ∷ []) no_polling in
    let q = poll_in_main 2 101 p in
    let r = run group_vg0 (report 100 (ok info_data) ∷ request 3 102 ∷ []) q in
    ((q.spawns ≡ 101 ∷ p.spawns) × (p.poll_timeout_id ≡ 0))
    ⊎ (IsRemembered r
        × ((poll_timeout 4 103 r).spawns ≡ 103 ∷ r.spawns)
        × ((poll_timeout 4 103 r).poll_requested ≡ false))
unfolding IsSound
request_served_example =
    request_served group_vg0 (request 1 100 ∷ []) (report 100 (ok info_data) ∷ request 3 102 ∷ []) 2
      101 4 103 (omega arith, tt) (tt, (omega arith, tt)) (unfold expiries in refl)

abbrev group_gone : Error
group_gone = udisks_error failed "storaged-lvm-helper exited with non-zero exit status 2"

abbrev both_reports : List (String × Result Info)
both_reports = ("vg1", err group_gone) ∷ ("vg0", ok info_data) ∷ []

task-returned_iff_example :
    let u =
      lvm_update_from_variant 5 (ok ("vg0" ∷ "vg1" ∷ [])) (lvm_update true true manager_new) in
    (groups_reported 5 both_reports u).task_returned ≡ (callbacks 5 both_reports u == 2)
task-returned_iff_example =
    task-returned_iff 5 "vg0" ("vg1" ∷ []) true manager_new both_reports (omega arith)

failure_keeps_waiting_example :
    let u =
      lvm_update_from_variant 5 (ok ("vg0" ∷ "vg1" ∷ [])) (lvm_update true true manager_new) in
    (groups_reported 5 both_reports u).task_returned ≡ false
unfolding failures
failure_keeps_waiting_example =
    failure_keeps_waiting 5 "vg0" ("vg1" ∷ []) true manager_new both_reports (omega arith)
      (omega arith)
