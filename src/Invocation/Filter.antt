-- ===== src/Invocation/Filter.antt =====
-- `on_connection_filter` of src/invocation.c, which sees every message of the connection before the
-- rest of the program does.
use storaged.Prelude.{
  String, ◌≡◌, refl, Bool, true, false, Option, none, some, lookup, is_some, Option-cases, inl, inr,
  arith,
}
use storaged.Invocation.Clients.{Invocations, client_create}
use storaged.Invocation.Clients.Life.{lookup-client_create}

pub data MessageType : Type 0 where
  method_call other_message : MessageType

-- Whether the message goes on to the rest of the program, and the clients. A method call without a
-- sender is dropped by g_return_val_if_fail.
unfoldable pub connection_filter :
    Bool → MessageType → Option String → Invocations → Bool × Invocations
connection_filter false type sender inv = (true, inv)
connection_filter true other_message sender inv = (true, inv)
connection_filter true method_call none inv = (false, inv)
connection_filter true method_call (some sender) inv = (true, client_create sender inv)

-- The sender of a method call that gets through is a client from then on.
pub caller_is_client :
    (sender : Option String) (inv : Invocations)
    → (connection_filter true method_call sender inv).0 ≡ true
    → (name : String) × (sender ≡ some name)
      × (is_some (lookup name (connection_filter true method_call sender inv).1.clients) ≡ true)
unfolding connection_filter
caller_is_client none inv h = absurd (ground arith)
caller_is_client (some name) inv h = (
  name,
  refl,
  elim (Option-cases (lookup name inv.clients)) [
    | inl missing ↦ rw (lookup-client_create name inv missing) refl
    | inr (c, there) ↦ unfold client_create in rw (there, client_create) (rw there refl)
  ],
)
