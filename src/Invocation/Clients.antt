-- ===== src/Invocation/Clients.antt =====
-- The clients of src/invocation.c. The table is guarded by a mutex: each function here is one critical
-- section, or the rest of a function between two of them.
pub mod Life
use storaged.Prelude.{
  ℕ, ◌+◌, ◌^◌, ◌-◌, String, ◌≡◌, refl, Bool, true, false, Option, none, some, List, [], ◌∷◌, ◌++◌,
  Table, lookup, insert, remove, is_some, arith, if◌then◌else◌, str_eq, eq_iff, lookup-insert,
  lookup-remove,
}
use storaged.System.{Error, udisks_error, failed, other_code}

pub data UidState : Type 0 where
  uid_loading uid_failed uid_valid : UidState

-- InvocationClient
pub record Client : Type 0 where
  pub uid_peer : ℕ
  pub uid_state : UidState

-- What invocation.c tells the daemon of, in order
pub data Notice : Type 0 where
  appeared disappeared : String → Notice

pub record Invocations : Type 0 where
  pub clients : Table Client
  pub notices : List Notice

abbrev pub max_uint : ℕ
max_uint = 2 ^ 32 - 1

-- g_new0, uid_peer = ~0 and uid_state = UID_LOADING in invocation_client_create
abbrev pub new_client : Client
new_client = record { uid_peer = max_uint; uid_state = uid_loading }

-- invocation_client_create, for a call that comes in from the sender
unfoldable pub client_create : String → Invocations → Invocations
client_create sender inv = elim (lookup sender inv.clients) [
  | some c ↦ inv
  | none ↦ record {
    clients = insert sender new_client inv.clients;
    notices = inv.notices ++ appeared sender ∷ [];
  }
]

-- on_client_vanished
unfoldable pub client_vanished : String → Invocations → Invocations
client_vanished name inv = elim (lookup name inv.clients) [
  | none ↦ inv
  | some c ↦ record {
    clients = remove name inv.clients;
    notices = inv.notices ++ disappeared name ∷ [];
  }
]

abbrev pub with_uid : Option ℕ → Client → Client
with_uid none c = record c { uid_state = uid_failed }
with_uid (some uid) c = record { uid_peer = uid; uid_state = uid_valid }

-- on_get_connection_unix_user; an answer of `none` is an error of the bus, and a result of `none` the
-- NULL pointer that g_debug's argument client->uid_peer follows where the client is not in the table.
unfoldable pub got_unix_user : String → Option ℕ → Invocations → Option Invocations
got_unix_user name answer inv = elim (lookup name inv.clients) [
  | none ↦ if is_some answer then none else some inv
  | some c ↦ some (record inv { clients = insert name (with_uid answer c) inv.clients })
]

-- What invocation_client_lookup gives its caller: whether there is a client, *uid_of_client (`none`
-- where it is not written), and the error.
pub record Lookup : Type 0 where
  pub found : Bool
  pub uid : Option ℕ
  pub error : Option Error

-- `waiting` stands for g_cond_wait while the uid is being loaded.
pub data LookupResult : Type 0 where
  waiting : LookupResult
  returned : Lookup → LookupResult

abbrev pub credentials_error : Error
credentials_error =
    udisks_error failed "Cannot determine the unix credentials of the calling process"

abbrev pub unknown_caller : Error
unknown_caller = record {
  domain = "g-dbus-error-quark";
  code = other_code 0;
  message = "Method call from unknown caller (internal error)";
}

lookup_state : UidState → ℕ → LookupResult
lookup_state uid_loading peer = waiting
lookup_state uid_failed peer =
    returned (record { found = true; uid = some max_uint; error = some credentials_error })
lookup_state uid_valid peer = returned (record { found = true; uid = some peer; error = none })

lookup_client : Option Client → LookupResult
unfolding lookup_state
lookup_client none = returned (record { found = false; uid = none; error = some unknown_caller })
lookup_client (some c) = lookup_state c.uid_state c.uid_peer

-- invocation_client_lookup with a place for the uid
unfoldable pub client_lookup : String → Invocations → LookupResult
unfolding lookup_client
client_lookup sender inv = lookup_client (lookup sender inv.clients)

-- What storage_invocation_get_caller_uid does: it waits, returns a uid, or aborts by g_error.
pub data CallerUid : Type 0 where
  wait abort : CallerUid
  uid : ℕ → CallerUid

caller_of : LookupResult → CallerUid
caller_of waiting = wait
caller_of (returned l) = elim l.uid [ some n ↦ if l.found then uid n else abort | none ↦ abort ]

-- storage_invocation_get_caller_uid; the only lookup that leaves the uid unwritten finds no client.
unfoldable pub get_caller_uid : String → Invocations → CallerUid
unfolding caller_of client_lookup
get_caller_uid sender inv = caller_of (client_lookup sender inv)
