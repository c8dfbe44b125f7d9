-- ===== src/Daemon/Lifecycle.antt =====
-- The life of the daemon of src/daemon.c: the bus name, the clients and the jobs that keep it alive,
-- and the signal `finished`, on which `main` of src/main.c quits its loop.
pub mod Accounting
use storaged.Prelude.{
  ℕ, ◌+◌, ◌-◌, ◌%◌, ◌^◌, String, Bool, true, false, not, ◌&&◌, Option, none, some, List, [], ◌∷◌,
  ◌==◌, ltb, if◌then◌else◌,
}

-- StorageDaemon. A name_owner_id of 0 means that the name is not asked for. `jobs` are the numbers of
-- the job objects that are exported, `job_id` is the static counter, and `finished` counts emissions
-- of the signal.
pub record Daemon : Type 0 where
  pub name_owner_id : ℕ
  pub name_owned : Bool
  pub num_clients : ℕ
  pub num_jobs : ℕ
  pub persist : Bool
  pub jobs : List ℕ
  pub job_id : ℕ
  pub finished : ℕ

-- storage_daemon_init and the property "persist"; the name is not asked for.
unfoldable pub daemon_new : Bool → Daemon
daemon_new persist = record {
  name_owner_id = 0;
  name_owned = false;
  num_clients = 0;
  num_jobs = 0;
  persist = persist;
  jobs = [];
  job_id = 0;
  finished = 0;
}

-- guint arithmetic
abbrev pub u32 : ℕ → ℕ
u32 n = n % 2 ^ 32

-- The condition of maybe_finished
abbrev pub is_idle : Daemon → Bool
is_idle d = not d.persist && not d.name_owned && d.num_clients == 0 && d.num_jobs == 0

unfoldable pub maybe_finished : Daemon → Daemon
maybe_finished d = if is_idle d then record d { finished = d.finished + 1 } else d

unfoldable pub on_name_lost : Daemon → Daemon
unfolding maybe_finished
on_name_lost d = maybe_finished (record d { name_owned = false })

unfoldable pub on_name_acquired : Daemon → Daemon
on_name_acquired d = record d { name_owned = true }

unfoldable pub on_client_appeared : Daemon → Daemon
on_client_appeared d = record d { num_clients = u32 (d.num_clients + 1) }

-- The last client has gone: the name is released, unless the daemon is to persist.
unfoldable pub release_name : Daemon → Daemon
release_name d =
    if not d.persist && not (d.name_owner_id == 0)
    then record d { name_owner_id = 0; name_owned = false }
    else d

-- `none` is a failed g_assert.
unfoldable pub on_client_disappeared : Daemon → Option Daemon
unfolding release_name maybe_finished
on_client_disappeared d =
    let e = record d { num_clients = d.num_clients - 1 } in
    if ltb 0 d.num_clients
    then some (maybe_finished (if ltb 0 e.num_clients then e else release_name e))
    else none

-- The end of on_manager_ready: GLib gives the id under which the name is asked for.
unfoldable pub on_manager_ready : ℕ → Daemon → Daemon
on_manager_ready id d = record d { name_owner_id = id }

unfoldable pub unexport : ℕ → List ℕ → List ℕ
unexport j [] = []
unexport j (k ∷ ks) = if j == k then ks else k ∷ unexport j ks

-- What storage_daemon_launch_spawned_jobv and storage_daemon_launch_threaded_job do to the daemon:
-- the job is exported under the next number, in place of a job that still has it after the counter has
-- come round, and counted.
unfoldable pub launch_job : Daemon → Daemon
unfolding unexport
launch_job d = record d {
  jobs = d.job_id ∷ unexport d.job_id d.jobs;
  job_id = u32 (d.job_id + 1);
  num_jobs = u32 (d.num_jobs + 1);
}

-- on_job_completed of the job with the number; `none` is a failed g_assert.
unfoldable pub on_job_completed : ℕ → Daemon → Option Daemon
unfolding unexport maybe_finished
on_job_completed j d =
    if ltb 0 d.num_jobs
    then some (maybe_finished (record d { jobs = unexport j d.jobs; num_jobs = d.num_jobs - 1 }))
    else none
