-- ===== src/Examples/Service.antt =====
-- A daemon with a client and a job, and callers of its methods.
use storaged.Prelude.{
  String, ◌≡◌, refl, true, false, not, none, some, [], ◌∷◌, is_some, lookup, arith,
}
use storaged.Daemon.Lifecycle.{
  Daemon, daemon_new, on_manager_ready, on_name_acquired, on_client_appeared, on_client_disappeared,
  launch_job, release_name, maybe_finished,
}
use storaged.Daemon.Lifecycle.Accounting.{
  World, is_exported, Reach, start, next, Inv, manager_ready, name_acquired, appears, launches,
  Reach-Inv,
}
use storaged.Invocation.Clients.{
  appeared, disappeared, Invocations, Client, uid_failed, uid_valid, Lookup, returned,
  client_lookup, credentials_error, max_uint, get_caller_uid, uid,
}
use storaged.Invocation.Clients.Life.{
  calls, vanishes, answers, run, no_clients, early_departure_crashes,
}
use storaged.Invocation.Authorize.{Method, result, Polkit, on_authorize_method}
use storaged.Invocation.Authorize.Decision.{
  ActionOf, flags_of, asked_quiet, permits, known_caller, failed_caller_let_through,
}

-- The daemon has its name, and one client has come.
abbrev with_client : World
with_client = record {
  daemon = on_client_appeared (on_name_acquired (on_manager_ready 7 (daemon_new false)));
  clients = 1;
}

with_client-Reach : Reach false with_client
unfolding on_client_appeared on_name_acquired on_manager_ready daemon_new
with_client-Reach =
    next (next (next start (manager_ready 7 (omega arith))) (name_acquired (omega arith)))
      (appears (omega arith))

-- It has started a job.
abbrev with_job : World
with_job = record { daemon = launch_job with_client.daemon; clients = 1 }

with_job-Reach : Reach false with_job
unfolding on_client_appeared on_name_acquired on_manager_ready daemon_new launch_job is_exported
with_job-Reach = next with_client-Reach (launches (omega arith) refl)

abbrev gone : Daemon
gone = record {
  name_owner_id = 0;
  name_owned = false;
  num_clients = 0;
  num_jobs = 0;
  persist = false;
  jobs = [];
  job_id = 0;
  finished = 1;
}

Reach-Inv_example : Inv with_job
Reach-Inv_example = Reach-Inv with_job-Reach

client_goes : on_client_disappeared with_client.daemon ≡ some gone
unfolding on_client_appeared on_client_disappeared release_name maybe_finished on_name_acquired
    on_manager_ready daemon_new
client_goes = refl

-- A client that has called, left, called again and been told its uid
abbrev returning : Invocations
returning = record {
  clients = (":1.5", record { uid_peer = 1000; uid_state = uid_valid }) ∷ [];
  notices = appeared ":1.5" ∷ disappeared ":1.5" ∷ appeared ":1.5" ∷ [];
}

early_departure_crashes_example :
    run no_clients (calls ":1.9" ∷ vanishes ":1.9" ∷ answers ":1.9" (some 1000) ∷ []) ≡ none
unfolding lookup
early_departure_crashes_example = early_departure_crashes ":1.9" 1000 no_clients refl

-- A polkit that lets nobody through
abbrev strict : Polkit
strict = some (λ action flags. result false false false)

abbrev create_volume : Method
create_volume = record {
  name = "CreatePlainVolume";
  action_id = none;
  arguments = [];
  job_started_by = none;
}

known_caller_example :
    (l : Lookup) × (action : String) × (client_lookup ":1.5" returning ≡ returned l)
    × ActionOf create_volume 1000 action
    × ((on_authorize_method strict create_volume l).authorized
        ≡ permits strict action (flags_of (asked_quiet [])) 1000)
    × (is_some (on_authorize_method strict create_volume l).reply
        ≡ not (on_authorize_method strict create_volume l).authorized)
unfolding lookup
known_caller_example =
    known_caller strict create_volume ":1.5" returning
      (record { uid_peer = 1000; uid_state = uid_valid }) refl refl

-- A client of which the bus could not tell the uid
abbrev unknown_uid : Client
unknown_uid = record { uid_peer = max_uint; uid_state = uid_failed }

abbrev failing : Invocations
failing = record { clients = (":1.7", unknown_uid) ∷ []; notices = appeared ":1.7" ∷ [] }

failed_caller_let_through_example :
    (l : Lookup) × (client_lookup ":1.7" failing ≡ returned l)
    × (on_authorize_method strict create_volume l
        ≡ record { authorized = true; reply = some credentials_error })
    × (get_caller_uid ":1.7" failing ≡ uid max_uint)
unfolding lookup
failed_caller_let_through_example =
    failed_caller_let_through strict create_volume ":1.7" failing unknown_uid refl refl
