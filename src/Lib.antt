-- ===== src/Lib.antt =====
-- Verification library of storaged, the D-Bus service that adds LVM2 to UDisks.
--
-- The program: the helper (src/helper.c) prints what liblvm2app tells of all volume groups, or of
-- one of them, as a GVariant. The daemon runs it as a child. Its manager (src/manager.c) asks for
-- the list of the groups whenever udev reports a device of LVM, and then for a report on each
-- group; a group (src/volumegroup.c) takes a report, keeps its logical volumes
-- (src/logicalvolume.c), and tells the blocks that udisksd has (src/block.c,
-- src/physicalvolume.c) whether they belong to it. Groups, volumes and blocks are published on
-- the bus. Methods of clients are authorized (src/invocation.c) and run programs or threads as
-- jobs (src/job.c, src/spawnedjob.c, src/threadedjob.c). The daemon (src/daemon.c) lives as long
-- as it has clients or jobs.
--
-- Files and code. Functions keep the names of the source without the prefix storage_ or the name
-- of their file; where a C function is one long body, its parts have names of their own, each
-- said to be a part above it.
--
--   Prelude: numbers, tests, lists, tables (a hash table is an association list; a lookup finds
--     the first entry, and an insertion replaces it) and texts.
--   System, Variant, Objects: GError, wait statuses, the dictionaries a{sv}, and the effects on
--     the bus (publish, unpublish, progress, an extra udev event) as a list in the order in which
--     they happen.
--   Util: src/util.c, that is the names that LVM reserves, object paths (ObjectPath, and
--     Collision for the names that get the same path), the check of a child's status, and the
--     events of udev (Trigger).
--   Helper: src/helper.c, that is its command line (Args), its dictionaries (Show), its writing
--     (Output), a run of the program (Main), and its list of the groups (Lvm).
--   LogicalVolume, Block: src/logicalvolume.c, src/block.c and src/physicalvolume.c.
--   VolumeGroup: src/volumegroup.c. State is the object, Blocks what it tells the blocks, Update
--     the report of the helper (Update.Told is what a group shows of what lvm2app told the
--     helper, Update.Life follows a group from its construction to its disposal), Progress the
--     progress of jobs, Poll the polling for the progress of pvmove and thin volumes, and
--     References who holds a reference to a group until it is finalized.
--   Manager: src/manager.c. State is the delayed update and the events of udev, Blocks the
--     overlays of the blocks of udisksd (Blocks.Udisks its objects and signals), Update the list
--     of the groups with the reports that it asks for.
--   LogicalVolume.Methods, VolumeGroup.Methods, Methods: the handlers of the D-Bus methods of
--     src/logicalvolume.c, src/volumegroup.c and src/manager.c. Commands and Sizes are the
--     programs that they launch, Waiting the closure that waits for the job and the object,
--     Wiping storage_util_wipe_block of src/util.c, Devices the handlers that check the devices
--     that they are given, Threads the jobs that run in a thread, and Ends what the caller is
--     told when a job has ended.
--   Daemon: src/daemon.c. Lifecycle is the name, clients and jobs, Clients their number as
--     src/invocation.c tells it, Bus the objects on the bus as a table of paths and interfaces,
--     and Reader the run of the helper and the reading of its output (Reader.Pipeline joins it to
--     src/helper.c and src/volumegroup.c, Reader.Listing to src/helper.c and src/manager.c).
--   Properties: what GObject knows of the seven classes, that is class_init, set_property and
--     get_property of each (Class says how they agree), and the objects that are made with
--     properties (Construction).
--   Main: src/main.c, that is the main loop with what ends it, and the log handlers.
--   Invocation: src/invocation.c. Filter is what sees each message, Clients the table of callers,
--     Callers one client with its count of references and the threads that wait in it, Authorize
--     the decision on a method.
--   Job: Base is src/job.c, Threaded src/threadedjob.c, Spawned src/spawnedjob.c with its
--     callbacks (State), their order (Events), and the change of user (Setup).
--   Examples: concrete inputs.
--
-- State is passed explicitly: an operation takes the object and returns it with its effects.
-- Orders of events are lists of events, or the steps of the relation
-- Daemon.Lifecycle.Accounting.Step. A crash, a failed g_assert and abort () are `none` (in Main,
-- `aborted`). The program's critical sections, idle callbacks and timeouts are each one step.
--
-- Numbers are natural numbers. The counters of clients and jobs are guint and wrap at 2 ^ 32
-- (Daemon.Lifecycle.u32); a byte is signed where gchar is; a percentage is read as int64_t. The
-- only fuel is that of Helper.Output.write_all, and the number of bytes to write is enough.
--
-- Parameters stand for code outside the repository: polkit (Invocation.Authorize.Polkit), write
-- (2) (Helper.Output.Accepts says what it may return), lvm2app (Helper.Show.Vg, Helper.Main), the
-- serialization of GVariant (Helper.Main, Daemon.Reader), the start of a process, the system
-- calls and programs of a wipe (Methods.Wiping.Host, which may answer by all calls so far), the
-- user database and the kernel's permission to change ids (Job.Spawned.Setup), floating point
-- numbers (Job.Base.Floats), and the numbers of error codes.
--
-- Not modelled: a udev device that has DM_VG_NAME but no DM_LV_NAME; the path that GLib unsets
-- when another object is exported in place of a logical volume; the references to objects other
-- than groups and clients, since objects are values; the conversion of values by GObject; the
-- branch of storage_daemon_publish for unique paths, which nobody asks for; the texts of polkit's
-- dialog; reading and writing of the log and of device files, which is input and output.
pub mod Prelude
pub mod System
pub mod Variant
pub mod Util
pub mod Helper
pub mod Objects
pub mod LogicalVolume
pub mod Block
pub mod VolumeGroup
pub mod Manager
pub mod Daemon
pub mod Invocation
pub mod Examples
pub mod Job
pub mod Main
pub mod Methods
pub mod Properties
