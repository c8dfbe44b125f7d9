-- ===== src/Invocation/Authorize.antt =====
-- `on_authorize_method` of src/invocation.c, the handler of "g-authorize-method", and what it calls.
-- GDBus goes on to the method's handler exactly when it returns TRUE. polkit is a parameter. The texts
-- of the details, which only show in the authentication dialog, are left out; no object of the program
-- has a property "polkit-details".
pub mod Decision
use storaged.Prelude.{
  ℕ, ◌+◌, String, Bool, true, false, not, ◌&&◌, Option, none, some, List, [], ◌∷◌, str_eq, ◌==◌,
  if◌then◌else◌, ◌<>◌, printf_d,
}
use storaged.System.{
  Error, udisks_error, failed, not_authorized, not_authorized_can_obtain, not_authorized_dismissed,
  ErrorCode,
}
use storaged.Variant.{Dict, lookup_boolean}
use storaged.Invocation.Clients.{Lookup, max_uint}

-- An argument of a D-Bus method, with its value if that is a dictionary
pub record Argument : Type 0 where
  pub name : String
  pub signature : String
  pub options : Dict

-- A method of an object: its name, the annotation polkit.action_id, its arguments, and the user who
-- started the job if the object is a job.
pub record Method : Type 0 where
  pub name : String
  pub action_id : Option String
  pub arguments : List Argument
  pub job_started_by : Option ℕ

pub data Flags : Type 0 where
  no_interaction allow_user_interaction : Flags

-- The answer of polkit_authority_check_authorization_sync: an error, of polkit's own domain or of
-- another, or a result.
pub data Answer : Type 0 where
  polkit_error : (message domain : String) (code : ℕ) → Answer
  other_error : Answer
  result : (is_authorized dismissed is_challenge : Bool) → Answer

-- What the caller gets: TRUE or FALSE, and the error that was returned to the invocation
pub record Verdict : Type 0 where
  pub authorized : Bool
  pub reply : Option Error

cancel_action : ℕ → ℕ → String
cancel_action uid started_by =
    if uid == started_by
    then "org.freedesktop.udisks2.cancel-job"
    else "org.freedesktop.udisks2.cancel-job-other-user"

-- lookup_method_action_and_details
lookup_method_action : Method → ℕ → Option String
unfolding cancel_action
lookup_method_action m uid = elim m.job_started_by [
  | none ↦ m.action_id
  | some started_by ↦
      if str_eq m.name "Cancel" then some (cancel_action uid started_by) else m.action_id
]

abbrev flag_or : Option Bool → Bool → Bool
flag_or none old = old
flag_or (some b) old = b

-- The loop of lookup_invocation_flags over the arguments
find_flag : Bool → List Argument → Bool
find_flag found [] = found
find_flag found (a ∷ as') =
    find_flag
      (if str_eq a.name "options" && str_eq a.signature "a{sv}"
        then flag_or (lookup_boolean "auth.no_user_interaction" a.options) found
        else found)
      as'

pub lookup_invocation_flags : Method → Flags
unfolding find_flag
lookup_invocation_flags m =
    if find_flag false m.arguments then no_interaction else allow_user_interaction

abbrev pub deny : Error → Verdict
deny e = record { authorized = false; reply = some e }

abbrev pub allow : Verdict
allow = record { authorized = true; reply = none }

pub authorize_without_polkit : ℕ → Verdict
authorize_without_polkit uid =
    if uid == 0
    then allow
    else deny (
        udisks_error not_authorized
          "Not authorized to perform operation (polkit authority not available and caller is not uid 0)")

abbrev denial_code : Bool → ErrorCode
denial_code true = not_authorized_can_obtain
denial_code false = not_authorized

abbrev dismissal : Bool → Bool → Verdict
dismissal true challenge =
    deny (udisks_error not_authorized_dismissed "The authentication dialog was dismissed")
dismissal false challenge =
    deny (udisks_error (denial_code challenge) "Not authorized to perform operation")

judge : ℕ → Answer → Verdict
judge uid (polkit_error message domain code) = deny (
    udisks_error failed (
      "Error checking authorization: "
      <> message
      <> " ("
      <> domain
      <> ", "
      <> printf_d code
      <> ")"))
judge uid other_error = authorize_without_polkit uid
judge uid (result authorized dismissed challenge) =
    if authorized then allow else dismissal dismissed challenge

abbrev action_or_default : Option String → String
action_or_default none = "com.redhat.lvm2.manage-lvm"
action_or_default (some a) = a

-- polkit: the action, the flags and the caller's uid determine the answer for a client. `none` is the
-- authority that could not be reached at the start.
abbrev pub Polkit : Type 0
Polkit = Option (String → Flags → Answer)

ask : Polkit → Method → ℕ → Verdict
unfolding judge authorize_without_polkit lookup_method_action
ask none m uid = authorize_without_polkit uid
ask (some check) m uid =
    judge uid (check (action_or_default (lookup_method_action m uid)) (lookup_invocation_flags m))

abbrev uid_or_max : Option ℕ → ℕ
uid_or_max none = max_uint
uid_or_max (some n) = n

-- on_authorize_method, once invocation_client_lookup has returned. The error of the lookup is sent to
-- the caller, and TRUE returned.
pub on_authorize_method : Polkit → Method → Lookup → Verdict
unfolding ask
on_authorize_method polkit m l = elim l.error [
  | some e ↦ record { authorized = true; reply = some e }
  | none ↦ ask polkit m (uid_or_max l.uid)
]
