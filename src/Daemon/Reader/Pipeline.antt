-- ===== src/Daemon/Reader/Pipeline.antt =====
-- From the helper of src/helper.c through the pipe to the daemon: `storage_volume_group_update` of
-- src/volumegroup.c asks for a group, and `update_with_variant` gets what lvm2app told the helper.
use storaged.Prelude.{
  ℕ, String, ◌≡◌, sym, ap, ◌∙◌, Bool, false, Option, none, some, List, [], ◌∷◌, ◌++◌, map, any,
  lookup, is_some, arith, Bool-cases, inl, inr,
}
use storaged.System.{Error, Result, ok, WaitStatus, exited}
use storaged.Variant.{Info, info_str, info_u64, info_dicts}
use storaged.Block.{Block}
use storaged.Helper.Args.{volume_group_update_args, arguments}
use storaged.Helper.Output.{Accepts}
use storaged.Helper.Show.{Vg, show_volume_group}
use storaged.Helper.Main.{Reply, group, Ended, helper_main, helper-writes}
use storaged.LogicalVolume.Update.{or_keep, or_else}
use storaged.VolumeGroup.State.{VolumeGroup, volume_group_update_props}
use storaged.VolumeGroup.Update.{
  update_with_variant, is_unchanged, publish_group, take_info, list_of,
}
use storaged.VolumeGroup.Update.Volumes.{volumes-update, reports}
use storaged.VolumeGroup.Update.Told.{is_shown, entries_reported}
use storaged.VolumeGroup.Update.Told.Reached.{IsTold, update-IsTold}
use storaged.Daemon.Reader.{
  Event, argv_of, Bytes, Directories, readable, ended, rest_of, read_events, spawn_for_variant,
}
use storaged.Daemon.Reader.Answers.{answered_once, joined, answering, expected}

-- The D-Bus properties of the group are what lvm2app told. It has an object for each visible volume,
-- and only for these, with the uuid and the size of the last visible volume of that name; and it has
-- each physical volume, and only these, by its device with its uuid, its size and what is free.
pub record IsMirror (vg : Vg) (g : VolumeGroup) : Type 0 where
  pub uuid : g.uuid ≡ some vg.uuid
  pub size : g.size ≡ vg.size
  pub free_size : g.free_size ≡ vg.free_size
  pub extent_size : g.extent_size ≡ vg.extent_size
  pub volumes :
      (name : String) → is_some (lookup name g.logical_volumes) ≡ any (is_shown name) vg.lvs
  pub volumes_and_devices : IsTold vg.lvs vg.pvs g

-- The properties of an updated group are those of the report.
abbrev Reports : Info → VolumeGroup → Type 0
Reports info g =
    (g.uuid ≡ or_keep (info_str "uuid" info) g.uuid)
    × (g.size ≡ or_else (info_u64 "size" info) g.size)
    × (g.free_size ≡ or_else (info_u64 "free-size" info) g.free_size)
    × (g.extent_size ≡ or_else (info_u64 "extent-size" info) g.extent_size)

update-Reports :
    (info : Info) (g : VolumeGroup) (blocks : List Block)
    → Reports info (update_with_variant (ok info) g blocks).group
unfolding update_with_variant publish_group take_info volume_group_update_props
update-Reports info g blocks = elim (Bool-cases g.need_publish) [
  | inl first ↦ elim (Bool-cases (is_unchanged g.info info)) [
    | inl same ↦ rw (first, same) (ground arith)
    | inr fresh ↦ rw (first, fresh) (ground arith)
  ]
  | inr again ↦ elim (Bool-cases (is_unchanged g.info info)) [
    | inl same ↦ rw (again, same) (ground arith)
    | inr fresh ↦ rw (again, fresh) (ground arith)
  ]
]

abbrev or_given : Info → Option Info → Info
or_given other none = other
or_given other (some info) = info

-- Whatever the group was before, after the helper's report it is the group that lvm2app told of.
pub update-IsMirror :
    (vg : Vg) (g : VolumeGroup) (blocks : List Block) {info : Info}
    → show_volume_group (some vg) ≡ some info
    → is_unchanged g.info info ≡ false
    → IsMirror vg (update_with_variant (ok info) g blocks).group
unfolding show_volume_group lookup
update-IsMirror vg g blocks {info} e fresh =
    let same = ap (or_given info) (sym e) in
    let g' = (update_with_variant (ok info) g blocks).group in
    let (uuid, size, free_size, extent_size) = update-Reports info g blocks in
    record {
      uuid = uuid ∙ ap (λ i. or_keep (info_str "uuid" i) g'.uuid) same;
      size = size ∙ ap (λ i. or_else (info_u64 "size" i) g'.size) same;
      free_size = free_size ∙ ap (λ i. or_else (info_u64 "free-size" i) g'.free_size) same;
      extent_size = extent_size ∙ ap (λ i. or_else (info_u64 "extent-size" i) g'.extent_size) same;
      volumes = λ name.
          volumes-update g info blocks name fresh
          ∙ ap (λ i. reports i name) same
          ∙ entries_reported name vg.lvs;
      volumes_and_devices =
          update-IsTold vg.lvs vg.pvs info (ap (λ (i : Info). list_of (info_dicts "lvs" i)) same)
            (ap (λ (i : Info). list_of (info_dicts "pvs" i)) same) g blocks fresh;
    }

-- Where g_variant_new_from_data reads back the report that g_variant_get_data wrote, write (2) accepts
-- at least a byte of each request, lvm2app opens the group, the helper can be started, and the daemon
-- gets its exit status and all its output: whatever writes the report is cut into and whatever chunks
-- it is read in, `update_with_variant` is called once, with a report that, if it differs from the last
-- one, makes the group of the daemon the group that lvm2app told of: in its uuid and sizes, in the names,
-- uuids and sizes of its visible volumes, and in the devices, uuids and sizes of its physical volumes.
pub helper_reaches_group :
    (vg_names : Bool → List String) (vg_open : Bool → String → Option Vg)
    (serialize print : Reply → Bytes) (accept : ℕ → ℕ → Option ℕ) (parse : Bytes → Info)
    (exit_error : WaitStatus → Error) (dirs : Directories) (resource_dir : Option String)
    (spawn : List String → Result ℕ) (ignore_locks : Bool) (name : String) (vg : Vg)
    (g : VolumeGroup) (blocks : List Block) (chunks : List Bytes) (rest : Option Bytes)
    (after : List Event) (n pid : ℕ) {info : Info}
    → parse (serialize (group info)) ≡ info
    → Accepts accept
    → vg_open ignore_locks name ≡ some vg
    → show_volume_group (some vg) ≡ some info
    → is_unchanged g.info info ≡ false
    → let args = volume_group_update_args ignore_locks name in
      let run = helper_main vg_names vg_open serialize print accept (arguments args) in
      spawn (argv_of dirs resource_dir args) ≡ ok pid
      → run.status ≡ some n
      → joined chunks ++ rest_of rest ≡ run.output
      → (read_events parse exit_error
            (map readable chunks ++ ended (exited n) rest ∷ after)
            (spawn_for_variant parse exit_error dirs resource_dir spawn args)
          ≡ answering parse exit_error pid (record { pid = pid; result = ok info } ∷ []))
        × IsMirror vg (update_with_variant (ok info) g blocks).group
helper_reaches_group vg_names vg_open serialize print accept parse exit_error dirs resource_dir
      spawn ignore_locks name vg g blocks chunks rest after n pid {info} reads sound opens shows
      fresh starts ends piped =
    let args = volume_group_update_args ignore_locks name in
    let wrote =
      helper-writes vg_names vg_open serialize print accept ignore_locks name vg sound opens
        shows in
    let zero_status : n ≡ 0 = ground (arith, ends, wrote) in
    let left = λ (s : Result ℕ) (b : Bytes) (m : ℕ).
      let a = expected parse exit_error s b (exited m) in
      answering parse exit_error a.pid (a ∷ []) in
    let once =
      answered_once parse exit_error dirs resource_dir spawn args chunks (exited n) rest after in
    let written_out = piped ∙ ap (λ (e : Ended). e.output) wrote in
    (
      once
          ∙ ap (λ s. left s (joined chunks ++ rest_of rest) n) starts
          ∙ ap (λ b. left (ok pid) b n) written_out
          ∙ ap (λ m. left (ok pid) (serialize (group info)) m) zero_status
          ∙ ap (λ i. answering parse exit_error pid (record { pid = pid; result = ok i } ∷ []))
              reads,
      update-IsMirror vg g blocks shows fresh,
    )
