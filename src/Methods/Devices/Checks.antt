-- ===== src/Methods/Devices/Checks.antt =====
-- That a device is checked and wiped before a group gets it.
use mathlib.Core.List.{append_assoc, append-nil}
use storaged.Prelude.{
  ℕ, ◌+◌, ◌≡◌, refl, sym, ap, ◌∙◌, String, Bool, true, false, Option, none, some, List, [], ◌∷◌,
  ◌++◌, Option-cases, inl, inr, arith, All, All-append, is_some,
}
use storaged.System.{Result, ok, err}
use storaged.Block.{Block}
use storaged.VolumeGroup.State.{VolumeGroup}
use storaged.Manager.State.{Manager, find_block}
use storaged.Methods.Commands.{Launch, launch, end_of_job}
use storaged.Methods.Wiping.{
  Call, open_read_excl, close_device, Host, wipe_block, block_is_unused, unused,
}
use storaged.Methods.Wiping.Order.{wipe_calls, Done, Wiped, all_done, stopped, wipe_block-Wiped}
use storaged.Methods.Threads.{stop_or, validate, validate_blocks}
use storaged.Methods.Devices.{
  handle_add_device, add_block, extend_after, handle_volume_group_create, create_after, devices_at,
}

-- A call that changes no device
abbrev pub is_probe : Call → Bool
is_probe (open_read_excl device) = true
is_probe (close_device device) = true
is_probe _ = false

abbrev pub IsProbe : Call → Type 0
IsProbe c = is_probe c ≡ true

-- Only probes were made after the calls of the trace.
data Probed (trace : List Call) (out : List Call) : Type 0 where
  probed : (calls : List Call) → All IsProbe calls → out ≡ trace ++ calls → Probed trace out

Probed-unused :
    (host : Host) (device : String) (trace : List Call) (reply : Option String)
    → Probed trace (unused host device reply (trace ++ open_read_excl device ∷ [])).1
unfolding unused
Probed-unused host device trace (some m) = probed (open_read_excl device ∷ []) (refl, tt) refl
Probed-unused host device trace none =
    probed (open_read_excl device ∷ close_device device ∷ []) (refl, (refl, tt))
      (append_assoc trace (open_read_excl device ∷ []) (close_device device ∷ []))

Probed-validate :
    (host : Host) (path : String) (n : ℕ) (b : Option Block) (trace : List Call)
    → Probed trace (validate host path n b trace).1
unfolding validate block_is_unused
Probed-validate host path n none trace = probed [] tt (sym (append-nil trace))
Probed-validate host path n (some b) trace =
    Probed-unused host b.device trace (host.open_read trace b.device)

Probed-both :
    (trace : List Call) (first rest : Result (Unit {0}) × List Call)
    → Probed trace first.1
    → Probed first.1 rest.1
    → Probed trace (stop_or first.0 first.1 rest).1
Probed-both trace (ok u, t) rest (probed xs p e) (probed ys q e') =
    probed (xs ++ ys) (All-append IsProbe xs ys p q)
      (e' ∙ ap (λ l. l ++ ys) e ∙ append_assoc trace xs ys)
Probed-both trace (err x, t) rest p q = p

Probed-validate_blocks :
    (host : Host) (m : Manager) (n : ℕ) (paths : List String) (trace : List Call)
    → Probed trace (validate_blocks host m n paths trace).1
unfolding validate_blocks
Probed-validate_blocks host m n [] trace = probed [] tt (sym (append-nil trace))
Probed-validate_blocks host m n (path ∷ paths) trace =
    let first = validate host path n (find_block m (some path)) trace in
    Probed-both trace first (validate_blocks host m (n + 1) paths first.1)
      (Probed-validate host path n (find_block m (some path)) trace)
      (Probed-validate_blocks host m (n + 1) paths first.1)

abbrev pub HasBlock : Manager → String → Type 0
HasBlock m path = is_some (find_block m (some path)) ≡ true

validate-is_some :
    (host : Host) (path : String) (n : ℕ) (b : Option Block) (trace : List Call)
    → (validate host path n b trace).0 ≡ ok tt
    → is_some b ≡ true
unfolding validate
validate-is_some host path n none trace h = absurd (ground arith)
validate-is_some host path n (some b) trace h = refl

stop_or-both :
    (first rest : Result (Unit {0}) × List Call)
    → (stop_or first.0 first.1 rest).0 ≡ ok tt
    → (first.0 ≡ ok tt) × (rest.0 ≡ ok tt)
stop_or-both (ok u, t) rest h = (refl, h)
stop_or-both (err e, t) rest h = absurd (ground arith)

validate_blocks-HasBlock :
    (host : Host) (m : Manager) (n : ℕ) (paths : List String) (trace : List Call)
    → (validate_blocks host m n paths trace).0 ≡ ok tt
    → All (HasBlock m) paths
unfolding validate_blocks
validate_blocks-HasBlock host m n [] trace h = tt
validate_blocks-HasBlock host m n (path ∷ paths) trace h =
    let first = validate host path n (find_block m (some path)) trace in
    let both = stop_or-both first (validate_blocks host m (n + 1) paths first.1) h in
    (
      validate-is_some host path n (find_block m (some path)) trace both.0,
      validate_blocks-HasBlock host m (n + 1) paths first.1 both.1,
    )

create_after-lem :
    (host : Host) (devices : List String) (out : Result (Unit {0}) × List Call)
    (found : List String)
    → ((create_after host devices out).1 ≡ out.1)
      × ((create_after host devices out).0 ≡ ok found → out.0 ≡ ok tt)
unfolding create_after
create_after-lem host devices (ok u, t) found = (refl, λ h. refl)
create_after-lem host devices (err e, t) found = (refl, λ h. absurd (ground arith))

-- Until the job of a new group is launched no device is changed: each is only opened exclusively for
-- reading, and closed. The job is launched only if every path that the caller names is that of a block.
pub handle_volume_group_create-IsProbe :
    (host : Host) (m : Manager) (paths devices : List String)
    → All IsProbe (handle_volume_group_create host m paths []).1
      × ((handle_volume_group_create host m paths []).0 ≡ ok devices → All (HasBlock m) paths)
unfolding handle_volume_group_create
handle_volume_group_create-IsProbe host m paths devices =
    let out = validate_blocks host m 0 paths [] in
    let after = create_after-lem host (devices_at m paths) out devices in
    (
      elim (Probed-validate_blocks host m 0 paths []) [ probed calls p e ↦ rw (after.0 ∙ e) p ],
      λ h. validate_blocks-HasBlock host m 0 paths [] (after.1 h),
    )

extend_after-lem :
    (host : Host) (vg : VolumeGroup) (b : Block) (trace : List Call)
    (out : Result (Unit {0}) × List Call) (l : Launch)
    → Wiped host b.device trace out
    → (extend_after host vg b out).0 ≡ ok l
    → Done host b.device trace
      × ((extend_after host vg b out).1 ≡ trace ++ wipe_calls b.device)
      × (l ≡ launch "lvm-vg-add-device" ("vgextend" ∷ vg.name ∷ b.device ∷ []) end_of_job)
unfolding extend_after
extend_after-lem host vg b trace (ok u, t) l (all_done d r e) h = (d, e, ground arith)
extend_after-lem host vg b trace (ok u, t) l (stopped x calls s r e) h = absurd (ground arith)
extend_after-lem host vg b trace (err x, t) l w h = absurd (ground arith)

-- The calls of a check, after those of a trace
abbrev pub checked_calls : String → List Call → List Call
checked_calls device trace = (trace ++ open_read_excl device ∷ []) ++ close_device device ∷ []

-- The exclusive opening for reading succeeded, and then every step of the wipe.
abbrev pub WasUnused : Host → String → List Call → Type 0
WasUnused host device trace =
    (host.open_read trace device ≡ none) × Done host device (checked_calls device trace)

add_unused :
    (host : Host) (vg : VolumeGroup) (b : Block) (trace : List Call) (reply : Option String)
    (l : Launch)
    → host.open_read trace b.device ≡ reply
    → let first = unused host b.device reply (trace ++ open_read_excl b.device ∷ []) in
      (extend_after host vg b (stop_or first.0 first.1 (wipe_block host b.device first.1))).0 ≡ ok l
      → WasUnused host b.device trace
        × ((extend_after host vg b (stop_or first.0 first.1 (wipe_block host b.device first.1))).1
            ≡ trace ++ (open_read_excl b.device ∷ close_device b.device ∷ wipe_calls b.device))
        × (l ≡ launch "lvm-vg-add-device" ("vgextend" ∷ vg.name ∷ b.device ∷ []) end_of_job)
unfolding unused extend_after
add_unused host vg b trace (some m) l told h = absurd (ground arith)
add_unused host vg b trace none l told h =
    let t = checked_calls b.device trace in
    let x =
      extend_after-lem host vg b t (wipe_block host b.device t) l (wipe_block-Wiped host b.device t)
        h in
    ((told, x.0), x.1 ∙ simp append_assoc, x.2)

-- A device is added to a group, by vgextend, only if the path is that of a block; and then the system
-- first let the block's device be opened exclusively for reading, so that it was not in use, which was
-- closed again, and then let every step of its wipe succeed.
pub handle_add_device-wipe_calls :
    (host : Host) (path : String) (vg : VolumeGroup) (m : Manager) (trace : List Call) (l : Launch)
    → (handle_add_device host path vg m trace).0 ≡ ok l
    → (b : Block) × (find_block m (some path) ≡ some b)
      × WasUnused host b.device trace
      × ((handle_add_device host path vg m trace).1
          ≡ trace ++ (open_read_excl b.device ∷ close_device b.device ∷ wipe_calls b.device))
      × (l ≡ launch "lvm-vg-add-device" ("vgextend" ∷ vg.name ∷ b.device ∷ []) end_of_job)
unfolding handle_add_device add_block block_is_unused
handle_add_device-wipe_calls host path vg m trace l h =
    elim (Option-cases (find_block m (some path))) [
      | inl none_there ↦ absurd (ground (arith, none_there))
      | inr (b, there) ↦
          let x =
            add_unused host vg b trace (host.open_read trace b.device) l refl (rw there at h) in
          (b, there, x.0, rw there (x.1), x.2)
    ]
