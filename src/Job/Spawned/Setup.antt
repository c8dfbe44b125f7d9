-- ===== src/Job/Spawned/Setup.antt =====
-- child_setup of src/spawnedjob.c: how the child becomes the user that the job names.
use storaged.Prelude.{
  ℕ, ◌≡◌, refl, String, Bool, ◌&&◌, Option, none, some, List, [], ◌∷◌, if◌then◌else◌, ◌==◌, arith,
  ◌⊎◌, inl, inr, Bool-cases,
}

-- struct passwd, as far as it is read
pub record Passwd : Type 0 where
  pub name : String
  pub uid : ℕ
  pub gid : ℕ

-- The system calls that change who a process is
pub data IdCall : Type 0 where
  setgroups_none : IdCall
  initgroups : (name : String) (gid : ℕ) → IdCall
  setregid : (rgid egid : ℕ) → IdCall
  setreuid : (ruid euid : ℕ) → IdCall

-- The ids of a process, its groups as the name and the group that they were taken from; `trace` the
-- calls it made, latest first.
pub record Ids : Type 0 where
  pub uid : ℕ
  pub euid : ℕ
  pub gid : ℕ
  pub egid : ℕ
  pub trace : List IdCall

-- What a call does where it succeeds, with ids that users and groups have: 2 ^ 32 - 1, which leaves an
-- id as it is, is none of them.
unfoldable pub apply_call : IdCall → Ids → Ids
apply_call setgroups_none ids = record ids { trace = setgroups_none ∷ ids.trace }
apply_call (initgroups n g) ids = record ids { trace = initgroups n g ∷ ids.trace }
apply_call (setregid r e) ids = record ids { gid = r; egid = e; trace = setregid r e ∷ ids.trace }
apply_call (setreuid r e) ids = record ids { uid = r; euid = e; trace = setreuid r e ∷ ids.trace }

abbrev become_calls : ℕ → (effective user : Passwd) → List IdCall
become_calls run_as_euid effective user =
    setgroups_none
    ∷ initgroups user.name user.gid
    ∷ setregid user.gid effective.gid
    ∷ setreuid user.uid run_as_euid
    ∷ []

-- The user database, and which calls the kernel allows in which state
module _ (getpwuid : ℕ → Option Passwd) (allows : IdCall → Ids → Bool) where
  -- The calls in turn, up to the first that fails, which aborts: then the program is never run.
  unfoldable pub call_all : List IdCall → Ids → Option Ids
  unfolding apply_call
  call_all [] ids = some ids
  call_all (c ∷ cs) ids =
      let rest = call_all cs (apply_call c ids) in if allows c ids then rest else none

  called_all : List IdCall → Ids → Ids
  called_all [] ids = ids
  called_all (c ∷ cs) ids = called_all cs (apply_call c ids)

  call_all-called_all :
      (cs : List IdCall) (ids after : Ids)
      → call_all cs ids ≡ some after
      → after ≡ called_all cs ids
  unfolding call_all called_all
  call_all-called_all [] ids after h = ground arith
  call_all-called_all (c ∷ cs) ids after h =
      call_all-called_all cs (apply_call c ids) after (ground arith)

  unfoldable pub become : ℕ → Option Passwd → Option Passwd → Ids → Option Ids
  unfolding call_all
  become run_as_euid none user ids = none
  become run_as_euid (some effective) none ids = none
  become run_as_euid (some effective) (some user) ids =
      call_all (become_calls run_as_euid effective user) ids

  -- child_setup; `none` is abort ().
  unfoldable pub child_setup : (run_as_uid run_as_euid : ℕ) → Ids → Option Ids
  unfolding become
  child_setup run_as_uid run_as_euid ids =
      if (run_as_uid == ids.uid) && (run_as_euid == ids.euid)
      then some ids
      else become run_as_euid (getpwuid run_as_euid) (getpwuid run_as_uid) ids

  -- What changed, if anything did
  data Became (u e : ℕ) (ids after : Ids) : Type 0 where
    same : u ≡ ids.uid → e ≡ ids.euid → after ≡ ids → Became u e ids after
    changed :
        (user effective : Passwd)
        → getpwuid u ≡ some user
        → getpwuid e ≡ some effective
        → after ≡ record {
          uid = user.uid;
          euid = e;
          gid = user.gid;
          egid = effective.gid;
          trace =
              setreuid user.uid e
              ∷ setregid user.gid effective.gid
              ∷ initgroups user.name user.gid
              ∷ setgroups_none
              ∷ ids.trace;
        }
        → Became u e ids after

  become-Became :
      (u e : ℕ) (ids after : Ids) (effective user : Option Passwd)
      → getpwuid e ≡ effective
      → getpwuid u ≡ user
      → become e effective user ids ≡ some after
      → Became u e ids after
  unfolding become called_all apply_call
  become-Became u e ids after none user he hu h = absurd (ground arith)
  become-Became u e ids after (some x) none he hu h = absurd (ground arith)
  become-Became u e ids after (some x) (some y) he hu h =
      changed y x hu he (call_all-called_all (become_calls e x y) ids after h)

  child_setup-Became :
      (u e : ℕ) (ids after : Ids) → child_setup u e ids ≡ some after → Became u e ids after
  unfolding child_setup
  child_setup-Became u e ids after h = elim (Bool-cases ((u == ids.uid) && (e == ids.euid))) [
    | inl is_same ↦ same (ground arith) (ground arith) (ground arith)
    | inr differs ↦ become-Became u e ids after (getpwuid e) (getpwuid u) refl refl (ground arith)
  ]

  -- The program is run only as the users that the job names, both real and effective, where the user
  -- database finds for a uid the record of that uid. If the child had to change, its real group is the
  -- user's, and the groups were dropped before any id was changed, the user ids last.
  pub runs_as_named :
      (run_as_uid run_as_euid : ℕ) (ids after : Ids)
      → ((n : ℕ) (pw : Passwd) → getpwuid n ≡ some pw → pw.uid ≡ n)
      → child_setup run_as_uid run_as_euid ids ≡ some after
      → (after.uid ≡ run_as_uid)
        × (after.euid ≡ run_as_euid)
        × ((after ≡ ids)
            ⊎ ((user : Passwd) × (effective : Passwd) × (getpwuid run_as_uid ≡ some user)
                × (getpwuid run_as_euid ≡ some effective)
                × (after.gid ≡ user.gid)
                × (after.egid ≡ effective.gid)
                × (after.trace
                    ≡ setreuid user.uid run_as_euid
                      ∷ setregid user.gid effective.gid
                      ∷ initgroups user.name user.gid
                      ∷ setgroups_none
                      ∷ ids.trace)))
  unfolding child_setup
  runs_as_named u e ids after db h = elim (child_setup-Became u e ids after h) [
    | same hu he x ↦ (ground arith, ground arith, inl x)
    | changed user effective hu he x ↦ (
      ground (arith, db u user hu),
      ground arith,
      inr (user, effective, hu, he, ground arith, ground arith, ground arith),
    )
  ]
