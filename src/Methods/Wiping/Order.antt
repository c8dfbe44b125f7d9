-- ===== src/Methods/Wiping/Order.antt =====
-- In which order a device is wiped, and where a failure stops it.
use mathlib.Core.List.{append_assoc}
use storaged.Prelude.{
  ℕ, zero, suc, false, ◌==◌, sym, subst, arith, String, ◌≡◌, refl, Option, none, some, List, [],
  ◌∷◌, ◌++◌,
}
use storaged.System.{Error, Result, ok, err, exited, signaled, neither}
use storaged.Methods.Wiping.{
  Call, open_excl, write_zeroes, reread_partitions, close_device, spawn_sync, Host, SpawnReply,
  IoctlReply, done, einval, fault, not_spawned, finished, wipefs, pvscan, scan, labels_wiped,
  wipe_labels, partitions_gone, erased, opened, wipe_block,
}

-- All calls of a wipe that succeeds
abbrev pub wipe_calls : String → List Call
wipe_calls device =
    open_excl device
    ∷ write_zeroes device
    ∷ reread_partitions device
    ∷ close_device device
    ∷ spawn_sync (wipefs device)
    ∷ spawn_sync (pvscan device)
    ∷ []

positive : (n : ℕ) → (suc n == 0) ≡ false
positive n = ground arith

-- A program was started and exited with status 0.
pub data Succeeded : SpawnReply → Type 0 where
  exited_0 : (out error : String) → Succeeded (finished (exited 0) out error)

-- It was not started, or ended in another way.
pub data Unsuccessful : SpawnReply → Type 0 where
  not_started : (e : Error) → Unsuccessful (not_spawned e)
  exited_other : (n : ℕ) (out error : String) → Unsuccessful (finished (exited (suc n)) out error)
  was_signaled : (n : ℕ) (out error : String) → Unsuccessful (finished (signaled n) out error)
  was_neither : (out error : String) → Unsuccessful (finished neither out error)

-- The partitions were read again, or the device can have none.
pub data Reread : IoctlReply → Type 0 where
  reread : Reread done
  unpartitioned : Reread einval

abbrev pub upto_open : String → List Call → List Call
upto_open device trace = trace ++ open_excl device ∷ []

abbrev pub upto_write : String → List Call → List Call
upto_write device trace = upto_open device trace ++ write_zeroes device ∷ []

abbrev pub upto_reread : String → List Call → List Call
upto_reread device trace = upto_write device trace ++ reread_partitions device ∷ []

abbrev pub upto_close : String → List Call → List Call
upto_close device trace = upto_reread device trace ++ close_device device ∷ []

module _ (host : Host) (device : String) (trace : List Call) where
  -- What the system answered to the calls of a wipe that succeeds
  pub record Done : Type 0 where
    pub opens : host.open_device trace device ≡ none
    pub writes : host.write_512 (upto_open device trace) device ≡ none
    pub rereads : Reread (host.reread (upto_write device trace) device)
    pub wipefs_runs : Succeeded (host.spawn (upto_close device trace) (wipefs device))

  -- The calls of one that fails, with the answer that was the failure: to the opening, the writing, the
  -- rereading, or wipefs
  pub data Stopped : List Call → Type 0 where
    at_open :
        (m : String) → host.open_device trace device ≡ some m → Stopped (open_excl device ∷ [])
    at_write :
        (m : String)
        → host.open_device trace device ≡ none
        → host.write_512 (upto_open device trace) device ≡ some m
        → Stopped (open_excl device ∷ write_zeroes device ∷ close_device device ∷ [])
    at_reread :
        (m : String)
        → host.open_device trace device ≡ none
        → host.write_512 (upto_open device trace) device ≡ none
        → host.reread (upto_write device trace) device ≡ fault m
        → Stopped (
            open_excl device
            ∷ write_zeroes device
            ∷ reread_partitions device
            ∷ close_device device
            ∷ [])
    at_wipefs :
        host.open_device trace device ≡ none
        → host.write_512 (upto_open device trace) device ≡ none
        → Reread (host.reread (upto_write device trace) device)
        → Unsuccessful (host.spawn (upto_close device trace) (wipefs device))
        → Stopped (
            open_excl device
            ∷ write_zeroes device
            ∷ reread_partitions device
            ∷ close_device device
            ∷ spawn_sync (wipefs device)
            ∷ [])

  -- How a wipe came out, after the calls of the trace
  pub data Wiped (out : Result (Unit {0}) × List Call) : Type 0 where
    all_done : Done → out.0 ≡ ok tt → out.1 ≡ trace ++ wipe_calls device → Wiped out
    stopped :
        (e : Error) (calls : List Call)
        → Stopped calls
        → out.0 ≡ err e
        → out.1 ≡ trace ++ calls
        → Wiped out

  module _ (opens : host.open_device trace device ≡ none) where
    module _ (writes : host.write_512 (upto_open device trace) device ≡ none) where
      after_wipefs :
          (reply : SpawnReply)
          → Reread (host.reread (upto_write device trace) device)
          → host.spawn (upto_close device trace) (wipefs device) ≡ reply
          → Wiped (
              labels_wiped host device reply
                (upto_close device trace ++ spawn_sync (wipefs device) ∷ []))
      unfolding labels_wiped scan
      after_wipefs (not_spawned e) again told =
          stopped e _ (at_wipefs opens writes again (subst Unsuccessful (sym told) (not_started e)))
            refl (simp append_assoc)
      after_wipefs (finished (exited zero) out error) again told =
          all_done
            (record {
              opens = opens;
              writes = writes;
              rereads = again;
              wipefs_runs = subst Succeeded (sym told) (exited_0 out error);
            })
            refl (simp append_assoc)
      after_wipefs (finished (exited (suc n)) out error) again told = rw (positive n) (
          stopped _ _
            (at_wipefs opens writes again
              (subst Unsuccessful (sym told) (exited_other n out error)))
            refl (simp append_assoc))
      after_wipefs (finished (signaled n) out error) again told =
          stopped _ _
            (at_wipefs opens writes again
              (subst Unsuccessful (sym told) (was_signaled n out error)))
            refl (simp append_assoc)
      after_wipefs (finished neither out error) again told =
          stopped _ _
            (at_wipefs opens writes again (subst Unsuccessful (sym told) (was_neither out error)))
            refl (simp append_assoc)

      after_reread :
          (reply : IoctlReply)
          → host.reread (upto_write device trace) device ≡ reply
          → Wiped (partitions_gone host device reply (upto_reread device trace))
      unfolding partitions_gone wipe_labels
      after_reread done told = after_wipefs _ (subst Reread (sym told) reread) refl
      after_reread einval told = after_wipefs _ (subst Reread (sym told) unpartitioned) refl
      after_reread (fault m) told =
          stopped _ _ (at_reread m opens writes told) refl (simp append_assoc)

    after_write :
        (reply : Option String)
        → host.write_512 (upto_open device trace) device ≡ reply
        → Wiped (erased host device reply (upto_write device trace))
    unfolding erased
    after_write none told = after_reread told _ refl
    after_write (some m) told = stopped _ _ (at_write m opens told) refl (simp append_assoc)

  after_open :
      (reply : Option String)
      → host.open_device trace device ≡ reply
      → Wiped (opened host device reply (upto_open device trace))
  unfolding opened
  after_open none told = after_write told _ refl
  after_open (some m) told = stopped _ _ (at_open m told) refl refl

-- A wipe opens the device exclusively, overwrites its first sector, has the partitions read again,
-- closes the device and runs wipefs and pvscan, in this order. It succeeds exactly if the system lets
-- each of the first three pass (a device without partitions passes the third) and wipefs exits with
-- 0; the first failure of these stops it there, after the device is closed if it was open. Nothing
-- else is done, and to no other device.
pub wipe_block-Wiped :
    (host : Host) (device : String) (trace : List Call)
    → Wiped host device trace (wipe_block host device trace)
unfolding wipe_block
wipe_block-Wiped host device trace = after_open host device trace _ refl
