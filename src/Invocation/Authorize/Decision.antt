-- ===== src/Invocation/Authorize/Decision.antt =====
-- Who is let through by `on_authorize_method` of src/invocation.c.
use storaged.Prelude.{
  ℕ, String, ◌≡◌, refl, Bool, true, false, not, ◌&&◌, ◌||◌, none, some, ◌==◌, is_some, arith,
  lookup, Option, List, [], ◌∷◌, str_eq, ◌≢◌, ap, sym, ◌∙◌, Bool-cases, inl, inr, if◌then◌else◌,
}
use storaged.Variant.{lookup_boolean}
use storaged.Invocation.Clients.{
  Invocations, Client, uid_failed, uid_valid, Lookup, returned, client_lookup, credentials_error,
  max_uint, uid, get_caller_uid,
}
use storaged.Invocation.Authorize.{
  Argument, Flags, no_interaction, allow_user_interaction, cancel_action, find_flag, flag_or,
  Method, Answer, polkit_error, other_error, result, Polkit, ask, judge, lookup_method_action,
  lookup_invocation_flags, on_authorize_method, action_or_default, authorize_without_polkit,
}

-- polkit cannot be asked, and so only root is let through.
abbrev falls_back : Answer → Bool
falls_back other_error = true
falls_back _ = false

abbrev agrees : Answer → Bool
agrees (result authorized dismissed challenge) = authorized
agrees _ = false

-- The action that polkit is to be asked about for a method and the uid of its caller: whoever cancels a
-- job cancels an own one or another user's; every other method has the action of its annotation, or
-- else the one for managing LVM.
pub data ActionOf (m : Method) (n : ℕ) : String → Type 0 where
  cancel_own :
      m.job_started_by ≡ some n
      → str_eq m.name "Cancel" ≡ true
      → ActionOf m n "org.freedesktop.udisks2.cancel-job"
  cancel_other :
      (started_by : ℕ)
      → m.job_started_by ≡ some started_by
      → n ≢ started_by
      → str_eq m.name "Cancel" ≡ true
      → ActionOf m n "org.freedesktop.udisks2.cancel-job-other-user"
  annotated :
      (action : String)
      → (is_some m.job_started_by && str_eq m.name "Cancel") ≡ false
      → m.action_id ≡ some action
      → ActionOf m n action
  unannotated :
      (is_some m.job_started_by && str_eq m.name "Cancel") ≡ false
      → m.action_id ≡ none
      → ActionOf m n "com.redhat.lvm2.manage-lvm"

-- What the last argument that says so in its options says of user interaction
unfoldable pub asked_quiet : List Argument → Option Bool
asked_quiet [] = none
asked_quiet (a ∷ rest) =
    let later = asked_quiet rest in
    if is_some later
    then later
    else if str_eq a.name "options" && str_eq a.signature "a{sv}"
    then lookup_boolean "auth.no_user_interaction" a.options
    else none

abbrev pub flags_of : Option Bool → Flags
flags_of (some true) = no_interaction
flags_of _ = allow_user_interaction

-- The rule by which a caller with a known uid is let through, given the action.
abbrev pub permits : Polkit → String → Flags → ℕ → Bool
permits none action flags n = n == 0
permits (some check) action flags n =
    agrees (check action flags) || (falls_back (check action flags) && n == 0)

by_test :
    (P : Option String → Type 0) (b : Bool) (x y : Option String)
    → (b ≡ true → P x)
    → (b ≡ false → P y)
    → P (if b then x else y)
by_test P true x y h k = h refl
by_test P false x y h k = k refl

module _ (name : String) (arguments : List Argument) (n : ℕ) where
  abbrev called : Option String → Option ℕ → Method
  called a j = record { name = name; action_id = a; arguments = arguments; job_started_by = j }

  uncancelled :
      (a : Option String) (j : Option ℕ)
      → (is_some j && str_eq name "Cancel") ≡ false
      → ActionOf (called a j) n (action_or_default a)
  uncancelled none j h = unannotated h refl
  uncancelled (some action) j h = annotated action h refl

  cancelled :
      (a : Option String) (k : ℕ)
      → str_eq name "Cancel" ≡ true
      → ActionOf (called a (some k)) n (cancel_action n k)
  unfolding cancel_action
  cancelled a k h = elim (Bool-cases (n == k)) [
    | inl own ↦ rw own (cancel_own (ap some (sym (ground (arith, own)))) h)
    | inr other ↦ rw other (cancel_other k refl (ground (arith, other)) h)
  ]

  action-called :
      (a : Option String) (j : Option ℕ)
      → ActionOf (called a j) n (action_or_default (lookup_method_action (called a j) n))
  unfolding lookup_method_action
  action-called a none = uncancelled a none refl
  action-called a (some k) =
      by_test (λ x. ActionOf (called a (some k)) n (action_or_default x)) (str_eq name "Cancel") _ _
        (cancelled a k) (λ h. uncancelled a (some k) h)

find_flag-asked_quiet :
    (found : Bool) (arguments : List Argument)
    → find_flag found arguments ≡ flag_or (asked_quiet arguments) found
unfolding find_flag asked_quiet
find_flag-asked_quiet found [] = refl
find_flag-asked_quiet found (a ∷ rest) =
    let here =
      if str_eq a.name "options" && str_eq a.signature "a{sv}"
      then flag_or (lookup_boolean "auth.no_user_interaction" a.options) found
      else found in
    ground (arith, find_flag-asked_quiet here rest)

lookup_invocation_flags-asked_quiet :
    (m : Method) → lookup_invocation_flags m ≡ flags_of (asked_quiet m.arguments)
unfolding lookup_invocation_flags
lookup_invocation_flags-asked_quiet m = ground (arith, find_flag-asked_quiet false m.arguments)

judge-permits :
    (n : ℕ) (answer : Answer)
    → ((judge n answer).authorized ≡ (agrees answer || (falls_back answer && n == 0)))
      × (is_some (judge n answer).reply ≡ not (judge n answer).authorized)
unfolding judge authorize_without_polkit
judge-permits n (polkit_error m d c) = (refl, refl)
judge-permits n other_error = (ground arith, ground arith)
judge-permits n (result a d c) = (ground arith, ground arith)

ask-permits :
    (polkit : Polkit) (m : Method) (n : ℕ)
    → let action = action_or_default (lookup_method_action m n) in
      ((ask polkit m n).authorized ≡ permits polkit action (lookup_invocation_flags m) n)
      × (is_some (ask polkit m n).reply ≡ not (ask polkit m n).authorized)
unfolding ask authorize_without_polkit
ask-permits none m n = (ground arith, ground arith)
ask-permits (some check) m n = judge-permits n _

-- A caller whose uid is known is let through exactly when polkit says that the action of the method is
-- authorized, asked with interaction unless the options of the call decline it, or when polkit cannot
-- be asked and the uid is 0; an error of polkit itself lets nobody through. Whoever is not let through
-- gets an error, and whoever is gets none from here.
pub known_caller :
    (polkit : Polkit) (m : Method) (sender : String) (inv : Invocations) (c : Client)
    → lookup sender inv.clients ≡ some c
    → c.uid_state ≡ uid_valid
    → (l : Lookup) × (action : String) × (client_lookup sender inv ≡ returned l)
      × ActionOf m c.uid_peer action
      × ((on_authorize_method polkit m l).authorized
          ≡ permits polkit action (flags_of (asked_quiet m.arguments)) c.uid_peer)
      × (is_some (on_authorize_method polkit m l).reply
          ≡ not (on_authorize_method polkit m l).authorized)
unfolding on_authorize_method client_lookup
known_caller polkit m sender inv c there valid = (
  record { found = true; uid = some c.uid_peer; error = none },
  action_or_default (lookup_method_action m c.uid_peer),
  ground arith,
  action-called m.name m.arguments c.uid_peer m.action_id m.job_started_by,
  (ask-permits polkit m c.uid_peer).0
      ∙ ap
          (λ f. permits polkit (action_or_default (lookup_method_action m c.uid_peer)) f c.uid_peer)
          (lookup_invocation_flags-asked_quiet m),
  (ask-permits polkit m c.uid_peer).1,
)

-- The flaw: a caller for which the bus could not tell the uid is let through to every method, whatever
-- polkit would say and whether or not there is a polkit, although it has already got an error; and the
-- handler that asks for the caller's uid goes on with 2 ^ 32 - 1.
pub failed_caller_let_through :
    (polkit : Polkit) (m : Method) (sender : String) (inv : Invocations) (c : Client)
    → lookup sender inv.clients ≡ some c
    → c.uid_state ≡ uid_failed
    → (l : Lookup) × (client_lookup sender inv ≡ returned l)
      × (on_authorize_method polkit m l
          ≡ record { authorized = true; reply = some credentials_error })
      × (get_caller_uid sender inv ≡ uid max_uint)
unfolding on_authorize_method client_lookup get_caller_uid
failed_caller_let_through polkit m sender inv c there bad = (
  record { found = true; uid = some max_uint; error = some credentials_error },
  ground arith,
  refl,
  ground arith,
)
