-- ===== src/Daemon/Bus.antt =====
-- The objects that src/daemon.c exports: storage_daemon_publish, storage_daemon_unpublish,
-- storage_daemon_find_thing and storage_daemon_get_jobs, and the export of a job. The object manager is
-- GLib's GDBusObjectManagerServer: a table of paths with the interfaces of each object. No caller asks
-- storage_daemon_publish to publish uniquely; that branch is left out.
pub mod Shown
pub mod Follow
pub mod Hidden
pub mod Things
use storaged.Prelude.{
  ℕ, ◌≡◌, refl, String, Bool, true, false, not, ◌&&◌, ◌||◌, Option, none, some, List, [], ◌∷◌, ◌++◌,
  ◌<>◌, ◌==◌, Table, lookup, insert, remove, str_eq, any, if◌then◌else◌, printf_d,
}
use storaged.Objects.{
  Thing, manager, volume_group, logical_volume, logical_volume_block, physical_volume_block, job,
  Effect, publish, unpublish, trigger_udev, progress,
}

abbrev pub Bus : Type 0
Bus = Table (List Thing)

-- G_DBUS_INTERFACE (a) == G_DBUS_INTERFACE (b)
unfoldable pub thing_eq : Thing → Thing → Bool
thing_eq manager manager = true
thing_eq (volume_group a) (volume_group b) = str_eq a b
thing_eq (logical_volume g a) (logical_volume h b) = str_eq g h && str_eq a b
thing_eq (logical_volume_block a) (logical_volume_block b) = str_eq a b
thing_eq (physical_volume_block a) (physical_volume_block b) = str_eq a b
thing_eq (job m) (job n) = m == n
thing_eq _ _ = false

-- The name of its interface
unfoldable pub iface_name : Thing → String
iface_name manager = "com.redhat.lvm2.Manager"
iface_name (volume_group a) = "com.redhat.lvm2.VolumeGroup"
iface_name (logical_volume g a) = "com.redhat.lvm2.LogicalVolume"
iface_name (logical_volume_block a) = "com.redhat.lvm2.LogicalVolumeBlock"
iface_name (physical_volume_block a) = "com.redhat.lvm2.PhysicalVolumeBlock"
iface_name (job n) = "org.freedesktop.UDisks2.Job"

pub remove_things : (Thing → Bool) → List Thing → List Thing
remove_things p [] = []
remove_things p (t ∷ ts) = let rest = remove_things p ts in if p t then rest else t ∷ rest

-- g_dbus_object_skeleton_add_interface: an interface of the same name is replaced.
pub add_interface : Thing → List Thing → List Thing
unfolding remove_things
add_interface t ts = t ∷ remove_things (λ u. str_eq (iface_name u) (iface_name t)) ts

abbrev pub interfaces_of : Option (List Thing) → List Thing
interfaces_of none = []
interfaces_of (some ts) = ts

abbrev pub interfaces_at : String → Bus → List Thing
interfaces_at path bus = interfaces_of (lookup path bus)

-- storage_daemon_publish, not uniquely
pub daemon_publish : String → Thing → Bus → Bus
unfolding add_interface
daemon_publish path thing bus = insert path (add_interface thing (interfaces_at path bus)) bus

pub is_other : Thing → Thing → Bool
is_other thing u = not (thing_eq u thing)

-- An object goes with its last interface.
unpublish_from : String → Thing → List Thing → Bus → Bus
unfolding is_other
unpublish_from path thing ts bus =
    if any (is_other thing) ts
    then insert path (remove_things (λ u. thing_eq u thing) ts) bus
    else remove path bus

unpublish_found : String → Thing → Option (List Thing) → Bus → Bus
unfolding unpublish_from
unpublish_found path thing none bus = bus
unpublish_found path thing (some ts) bus = unpublish_from path thing ts bus

-- storage_daemon_unpublish, of an interface
pub daemon_unpublish : String → Thing → Bus → Bus
unfolding unpublish_found
daemon_unpublish path thing bus = unpublish_found path thing (lookup path bus) bus

find_interface : (Thing → Bool) → List Thing → Option Thing
find_interface is_type [] = none
find_interface is_type (t ∷ ts) =
    let rest = find_interface is_type ts in if is_type t then some t else rest

-- storage_daemon_find_thing, for the type of an interface
pub find_thing : String → (Thing → Bool) → Bus → Option Thing
unfolding find_interface
find_thing path is_type bus = find_interface is_type (interfaces_at path bus)

-- g_dbus_object_get_interface (object, "org.freedesktop.UDisks2.Job")
job_of : List Thing → List Thing
job_of [] = []
job_of (t ∷ ts) =
    let rest = job_of ts in
    if str_eq (iface_name t) "org.freedesktop.UDisks2.Job" then t ∷ [] else rest

-- storage_daemon_get_jobs
pub get_jobs : Bus → List Thing
unfolding job_of iface_name
get_jobs [] = []
get_jobs ((path, ts) ∷ bus) = get_jobs bus ++ job_of ts

-- The path of a job, in storage_daemon_launch_spawned_jobv and storage_daemon_launch_threaded_job
pub job_path : ℕ → String
job_path id = "/org/freedesktop/UDisks2/jobs/" <> printf_d id

-- g_dbus_object_manager_server_export of a new job, and _unexport in on_job_completed
pub export_job : ℕ → Bus → Bus
unfolding job_path
export_job id bus = insert (job_path id) (job id ∷ []) bus

pub unexport_job : ℕ → Bus → Bus
unfolding job_path
unexport_job id bus = remove (job_path id) bus

-- What the effects of the other components do to the bus
unfoldable pub apply_effect : Effect → Bus → Bus
unfolding daemon_publish daemon_unpublish
apply_effect (publish path thing) bus = daemon_publish path thing bus
apply_effect (unpublish path thing) bus = daemon_unpublish path thing bus
apply_effect (trigger_udev dev) bus = bus
apply_effect (progress operation dev percent) bus = bus

unfoldable pub apply_effects : List Effect → Bus → Bus
unfolding apply_effect
apply_effects [] bus = bus
apply_effects (e ∷ es) bus = apply_effects es (apply_effect e bus)
