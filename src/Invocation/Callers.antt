-- ===== src/Invocation/Callers.antt =====
-- One client of src/invocation.c with its count of references, and the threads that
-- `invocation_client_lookup` gives it to or that wait in it for the client's uid.
pub mod Held
pub mod Gone
use storaged.Prelude.{ℕ, ◌+◌, ◌-◌, Bool, true, false, Option, none, some, ◌==◌, ltb, if◌then◌else◌}
use storaged.Invocation.Clients.{
  Client, UidState, uid_loading, uid_failed, uid_valid, new_client, with_uid,
}

-- The memory of an InvocationClient: its `refs`, how often it was freed, and whether it was used after
-- that.
pub record Memory : Type 0 where
  pub refs : ℕ
  pub freed : ℕ
  pub misused : Bool

-- invocation_client_ref
unfoldable pub invocation_client_ref : Memory → Memory
invocation_client_ref m =
    if m.refs == 0 then record m { misused = true } else record m { refs = m.refs + 1 }

-- invocation_client_unref
unfoldable pub invocation_client_unref : Memory → Memory
invocation_client_unref m =
    if m.refs == 0
    then record m { misused = true }
    else record m { refs = m.refs - 1; freed = if m.refs == 1 then m.freed + 1 else m.freed }

-- A client, whether it is in the table, how many threads wait for its uid, how many have got it or the
-- error, and how often a thread has dropped the client without its reference.
pub record Caller : Type 0 where
  pub memory : Memory
  pub client : Client
  pub in_table : Bool
  pub waiting : ℕ
  pub using : ℕ
  pub lost : ℕ

-- The end of invocation_client_create, where the client enters the table
unfoldable pub caller_created : Caller
caller_created = record {
  memory = record { refs = 1; freed = 0; misused = false };
  client = new_client;
  in_table = true;
  waiting = 0;
  using = 0;
  lost = 0;
}

-- invocation_client_lookup, with a place for the uid, by a thread that finds the client: it waits as
-- long as the uid is loading.
unfoldable pub lookup_by : UidState → Caller → Caller
lookup_by uid_loading c = record c { waiting = c.waiting + 1 }
lookup_by _ c = record c { using = c.using + 1 }

unfoldable pub looked_up : Caller → Caller
unfolding lookup_by invocation_client_ref
looked_up c = lookup_by c.client.uid_state (record c { memory = invocation_client_ref c.memory })

-- on_get_connection_unix_user for a client that is not in the table: `none` is the debug message that
-- follows NULL for the uid; an error only writes a message.
abbrev pub answered_unknown : Option ℕ → Caller → Option Caller
answered_unknown (some uid) c = none
answered_unknown none c = some c

-- on_get_connection_unix_user: the client is found by its name, so only in the table. After the
-- broadcast every thread tests uid_state again.
unfoldable pub answered : Option ℕ → Caller → Option Caller
answered answer c =
    if c.in_table
    then some
        (record c { client = with_uid answer c.client; waiting = 0; using = c.using + c.waiting })
    else answered_unknown answer c

-- on_authorize_method or storage_invocation_get_caller_uid is done with the client and drops its
-- reference.
unfoldable pub caller_released : Caller → Caller
unfolding invocation_client_unref
caller_released c = record c { memory = invocation_client_unref c.memory; using = c.using - 1 }

-- on_authorize_method returns at once when the lookup tells it an error: the reference that the lookup
-- took is not dropped.
unfoldable pub caller_dropped : Caller → Caller
caller_dropped c = record c { using = c.using - 1; lost = c.lost + 1 }

-- on_client_vanished, which takes the client out of the table and drops the reference of the table
unfoldable pub vanished : Caller → Caller
unfolding invocation_client_unref
vanished c = record c { memory = invocation_client_unref c.memory; in_table = false }
