-- ===== src/Methods/Threads/Order.antt =====
-- That no group is made of a device that was not wiped, and that no device is wiped before its group
-- is gone.
use mathlib.Core.List.{append_assoc, append-nil}
use storaged.Prelude.{
  zero, suc, some, subst, String, ◌≡◌, refl, sym, ap, ◌∙◌, Bool, ◌&&◌, List, [], ◌∷◌, ◌++◌, map,
  any, str_eq, if◌then◌else◌, arith, inl, inr, Bool-cases,
}
use storaged.System.{Error, Result, ok, err, exited, signaled, neither}
use storaged.Util.Status.{check_status_and_output, check_status_and_output_lem}
use storaged.Block.{Block}
use storaged.VolumeGroup.State.{VolumeGroup}
use storaged.Methods.Wiping.{
  Call, spawn_sync, trigger_udev, Host, wipe_block, SpawnReply, not_spawned, finished,
}
use storaged.Methods.Wiping.Order.{
  wipe_calls, Done, Stopped, Wiped, all_done, stopped, wipe_block-Wiped, Succeeded, exited_0,
  Unsuccessful, not_started, exited_other, was_signaled, was_neither,
}
use storaged.Methods.Threads.{
  and_then, stop_or, checked, trigger_all, is_member_of, devices_of, delete_devices, run_program,
  wipe_all, create_thread, delete_thread,
}

-- The calls of the wipes of all devices
abbrev pub wipes : List String → List Call
wipes [] = []
wipes (d ∷ ds) = wipe_calls d ++ wipes ds

module _ (host : Host) where
  -- Every device was wiped completely, each after those before it.
  abbrev pub AllDone : List String → List Call → Type 0
  AllDone [] trace = Unit
  AllDone (d ∷ ds) trace = Done host d trace × AllDone ds (trace ++ wipe_calls d)

  module _ (devices : List String) (trace : List Call) where
    -- The wipe of a device failed after those before it, and those after it were not touched.
    pub data Broken (out : Result (Unit {0}) × List Call) : Type 0 where
      broken :
          (before : List String) (d : String) (after : List String) (calls : List Call) (e : Error)
          → devices ≡ before ++ d ∷ after
          → AllDone before trace
          → Stopped host d (trace ++ wipes before) calls
          → out.0 ≡ err e
          → out.1 ≡ trace ++ (wipes before ++ calls)
          → Broken out

    -- All devices were wiped, in order, or one failed.
    pub data AllWiped (out : Result (Unit {0}) × List Call) : Type 0 where
      complete :
          AllDone devices trace → out.0 ≡ ok tt → out.1 ≡ trace ++ wipes devices → AllWiped out
      incomplete : Broken out → AllWiped out

    -- How the creation of a group came out
    module _ (vgname : String) where
      abbrev pub vgcreate_argv : List String
      vgcreate_argv = "vgcreate" ∷ vgname ∷ devices

      pub data Created (out : Result (Unit {0}) × List Call) : Type 0 where
        wipe_failed : Broken out → Created out
        vgcreate_failed :
            (e : Error)
            → AllDone devices trace
            → Unsuccessful (host.spawn (trace ++ wipes devices) vgcreate_argv)
            → out.0 ≡ err e
            → out.1 ≡ (trace ++ wipes devices) ++ spawn_sync vgcreate_argv ∷ []
            → Created out
        created :
            AllDone devices trace
            → Succeeded (host.spawn (trace ++ wipes devices) vgcreate_argv)
            → out.0 ≡ ok tt
            → out.1
              ≡ ((trace ++ wipes devices) ++ spawn_sync vgcreate_argv ∷ [])
                ++ map trigger_udev devices
            → Created out

  cons-AllWiped :
      (d : String) (ds : List String) (trace : List Call)
      (first rest : Result (Unit {0}) × List Call)
      → Wiped host d trace first
      → AllWiped ds first.1 rest
      → AllWiped (d ∷ ds) trace (stop_or first.0 first.1 rest)
  cons-AllWiped d ds trace first rest (all_done one r t) (complete all r' t') = rw r (
      complete (one, subst (AllDone ds) t all) r'
        (t' ∙ ap (λ l. l ++ wipes ds) t ∙ append_assoc trace (wipe_calls d) (wipes ds)))
  cons-AllWiped d ds trace first rest (all_done one r t)
        (incomplete (broken before x after calls e split all stop r' t')) =
      rw r (
        incomplete (
          broken (d ∷ before) x after calls e (ap (λ l. d ∷ l) split)
            (one, subst (AllDone before) t all)
            (subst (λ l. Stopped host x l calls)
              (ap (λ l. l ++ wipes before) t ∙ append_assoc trace (wipe_calls d) (wipes before))
              stop)
            r'
            (t'
              ∙ ap (λ l. l ++ (wipes before ++ calls)) t
              ∙ append_assoc trace (wipe_calls d) (wipes before ++ calls)
              ∙ ap (λ l. trace ++ l) (sym (append_assoc (wipe_calls d) (wipes before) calls)))))
  cons-AllWiped d ds trace first rest (stopped e calls stop r t) w = rw r (
      incomplete (
        broken [] d ds calls e refl tt
          (subst (λ l. Stopped host d l calls) (sym (append-nil trace)) stop) refl t))

  wipe_all-AllWiped :
      (devices : List String) (trace : List Call)
      → AllWiped devices trace (wipe_all host devices trace)
  unfolding wipe_all
  wipe_all-AllWiped [] trace = complete tt refl (sym (append-nil trace))
  wipe_all-AllWiped (d ∷ ds) trace =
      let first = wipe_block host d trace in
      cons-AllWiped d ds trace first (wipe_all host ds first.1) (wipe_block-Wiped host d trace)
        (wipe_all-AllWiped ds first.1)

-- storage_util_check_status_and_output fails exactly for a program that did not succeed.
data Checked (cmd : String) (reply : SpawnReply) : Type 0 where
  good : Succeeded reply → checked cmd reply ≡ ok tt → Checked cmd reply
  bad : (e : Error) → Unsuccessful reply → checked cmd reply ≡ err e → Checked cmd reply

reply-Checked : (cmd : String) (reply : SpawnReply) → Checked cmd reply
unfolding check_status_and_output
reply-Checked cmd (not_spawned e) = bad e (not_started e) refl
reply-Checked cmd (finished (exited zero) out error) = good (exited_0 out error) refl
reply-Checked cmd (finished (exited (suc n)) out error) =
    elim (check_status_and_output_lem cmd (exited (suc n)) (some out) (some error)) [
      | inl (success, _) ↦ absurd (ground (arith, success))
      | inr (_, e) ↦ bad _ (exited_other n out error) e
    ]
reply-Checked cmd (finished (signaled n) out error) =
    elim (check_status_and_output_lem cmd (signaled n) (some out) (some error)) [
      | inl (success, _) ↦ absurd (ground (arith, success))
      | inr (_, e) ↦ bad _ (was_signaled n out error) e
    ]
reply-Checked cmd (finished neither out error) =
    elim (check_status_and_output_lem cmd neither (some out) (some error)) [
      | inl (success, _) ↦ absurd (ground (arith, success))
      | inr (_, e) ↦ bad _ (was_neither out error) e
    ]

trigger_all-map :
    (devices : List String) (trace : List Call)
    → trigger_all devices trace ≡ (ok tt, trace ++ map trigger_udev devices)
unfolding trigger_all
trigger_all-map [] trace = rw (append-nil trace) refl
trigger_all-map (d ∷ ds) trace =
    trigger_all-map ds (trace ++ trigger_udev d ∷ [])
    ∙ ap (λ l. (ok tt, l)) (append_assoc trace (trigger_udev d ∷ []) (map trigger_udev ds))

Created-vgcreate :
    (host : Host) (vgname : String) (devices : List String) (trace : List Call)
    → AllDone host devices trace
    → let argv = "vgcreate" ∷ vgname ∷ devices in
      Checked "vgcreate" (host.spawn (trace ++ wipes devices) argv)
      → Created host devices trace vgname (
          let t = (trace ++ wipes devices) ++ spawn_sync argv ∷ [] in
          stop_or
            (checked "vgcreate" (host.spawn (trace ++ wipes devices) argv))
            t
            (trigger_all devices t))
Created-vgcreate host vgname devices trace all (bad e fails r) =
    rw r (vgcreate_failed e all fails refl refl)
Created-vgcreate host vgname devices trace all (good runs r) =
    let t = (trace ++ wipes devices) ++ spawn_sync ("vgcreate" ∷ vgname ∷ devices) ∷ [] in
    rw (r, trigger_all-map devices t) (created all runs refl refl)

Created-wiped :
    (host : Host) (vgname : String) (devices : List String) (trace : List Call)
    (w : Result (Unit {0}) × List Call)
    → AllWiped host devices trace w
    → Created host devices trace vgname (
        and_then
          (λ t. stop_or w.0 w.1 (run_program host "vgcreate" (vgname ∷ devices) w.1))
          (trigger_all devices)
          trace)
unfolding run_program
Created-wiped host vgname devices trace w (complete all r t) =
    rw (r, t) (Created-vgcreate host vgname devices trace all (reply-Checked "vgcreate" _))
Created-wiped host vgname devices trace w
      (incomplete (broken before d after calls e split all stop r t)) =
    rw r (wipe_failed (broken before d after calls e split all stop refl t))

-- vgcreate is run only after the system has let every device be wiped completely, in the order of the
-- call; its devices get a udev event, and the job succeeds, exactly if vgcreate exits with 0. If a
-- device cannot be wiped vgcreate is not run, and the devices after it are not touched.
pub create_thread-Created :
    (host : Host) (vgname : String) (devices : List String) (trace : List Call)
    → Created host devices trace vgname (create_thread host vgname devices trace)
unfolding create_thread
create_thread-Created host vgname devices trace =
    Created-wiped host vgname devices trace (wipe_all host devices trace)
      (wipe_all-AllWiped host devices trace)

-- How the deletion of a group came out
module _ (host : Host) (devices : List String) (trace : List Call) (vgname : String) where
  abbrev pub vgremove_argv : List String
  vgremove_argv = "vgremove" ∷ "-f" ∷ vgname ∷ []

  pub data Deleted (out : Result (Unit {0}) × List Call) : Type 0 where
    kept :
        (e : Error)
        → Unsuccessful (host.spawn trace vgremove_argv)
        → out.0 ≡ err e
        → out.1 ≡ trace ++ spawn_sync vgremove_argv ∷ []
        → Deleted out
    gone :
        Succeeded (host.spawn trace vgremove_argv)
        → AllWiped host devices (trace ++ spawn_sync vgremove_argv ∷ []) out
        → Deleted out

  Deleted-vgremove :
      Checked "vgremove" (host.spawn trace vgremove_argv)
      → Deleted (
          let t = trace ++ spawn_sync vgremove_argv ∷ [] in
          stop_or (checked "vgremove" (host.spawn trace vgremove_argv)) t (wipe_all host devices t))
  Deleted-vgremove (bad e fails r) = rw r (kept e fails refl refl)
  Deleted-vgremove (good runs r) = rw r (gone runs (wipe_all-AllWiped host devices _))

abbrev pub names_device : VolumeGroup → String → Block → Bool
names_device vg d b = is_member_of b.physical_volume vg && str_eq d b.device

member-devices_of :
    (vg : VolumeGroup) (d : String) (blocks : List Block)
    → any (str_eq d) (devices_of vg blocks) ≡ any (names_device vg d) blocks
unfolding devices_of
member-devices_of vg d [] = refl
member-devices_of vg d (b ∷ bs) = ground (arith, member-devices_of vg d bs)

-- A deletion runs vgremove; if that does not exit with 0 the job fails and nothing is wiped, and if it
-- does the devices are wiped in order up to the first failure. They are none if the caller does not want it, and otherwise exactly those of the
-- blocks whose physical volume names this group.
pub delete_thread-Deleted :
    (host : Host) (wipe : Bool) (vg : VolumeGroup) (blocks : List Block) (trace : List Call)
    → Deleted host
        (delete_devices wipe vg blocks)
        trace
        vg.name
        (delete_thread host vg.name (delete_devices wipe vg blocks) trace)
      × ((d : String)
          → any (str_eq d) (delete_devices wipe vg blocks)
            ≡ (wipe && any (names_device vg d) blocks))
unfolding delete_thread run_program delete_devices
delete_thread-Deleted host wipe vg blocks trace = (
  Deleted-vgremove host (if wipe then devices_of vg blocks else []) trace vg.name
      (reply-Checked "vgremove" _),
  λ d. elim (Bool-cases wipe) [
    | inl wanted ↦ rw wanted (member-devices_of vg d blocks)
    | inr unwanted ↦ rw unwanted refl
  ],
)
