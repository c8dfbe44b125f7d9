-- ===== src/Job/Base.antt =====
-- The base class of jobs, src/job.c. The time and the floating point numbers are parameters.
pub mod Samples
pub mod Objects
use storaged.Prelude.{
  ℕ, zero, suc, ◌+◌, ◌-◌, String, Bool, true, false, not, ◌&&◌, Option, none, some, List, [], ◌∷◌,
  ◌++◌, ◌==◌, ltb, leb, str_eq, ◌≡◌, Bool-cases, arith, if◌then◌else◌, length, drop,
}
use storaged.System.{Error, udisks_error, failed, already_cancelled}

-- gdouble, with the operations that on_notify_progress uses: `of_time` reads a gint64 of microseconds,
-- `of_nat` a guint64, and `round` is the conversion to gint64.
pub record Floats : Type 1 where
  pub Real : Type 0
  pub zero : Real
  pub one : Real
  pub add : Real → Real → Real
  pub sub : Real → Real → Real
  pub mul : Real → Real → Real
  pub div : Real → Real → Real
  pub of_nat : ℕ → Real
  pub elapsed : ℕ → ℕ → Real
  pub round_after : ℕ → Real → ℕ

abbrev pub max_samples : ℕ
max_samples = 100

-- Whether the path is in the list already
has_path : String → List String → Bool
has_path path [] = false
has_path path (p ∷ ps) = let rest = has_path path ps in if str_eq p path then true else rest

-- The new array of n + 2 zeroes gets the path at n alone. A list ends at the first NULL, so with any
-- path in the list before it is empty then.
abbrev array_with : String → List String → List String
array_with path [] = path ∷ []
array_with path (p ∷ ps) = []

-- storage_job_add_thing, given the object path of the object or interface
pub add_thing : Option String → List String → List String
unfolding has_path
add_thing none paths = paths
add_thing (some path) paths = if has_path path paths then paths else array_with path paths

-- What handle_cancel does to its invocation
pub data CancelReply : Type 0 where
  refused : Error → CancelReply
  completed : CancelReply

-- handle_cancel, given "cancelable" and whether the GCancellable is cancelled: whether it is cancelled
-- now, and the reply.
pub handle_cancel : Bool → Bool → Bool × CancelReply
handle_cancel false cancelled =
    (cancelled, refused (udisks_error failed "The job cannot be canceled"))
handle_cancel true true =
    (true, refused (udisks_error already_cancelled "The job has already been cancelled"))
handle_cancel true false = (true, completed)

-- Connecting the handler of "notify::progress" gives an id, which is not 0.
pub record AutoEstimate : Type 0 where
  pub auto_estimate : Bool
  pub handler_id : ℕ
  pub has_samples : Bool

bool_eq : Bool → Bool → Bool
bool_eq true b = b
bool_eq false b = not b

-- storage_job_set_auto_estimate; `none` is a failed assertion.
pub set_auto_estimate : ℕ → Bool → AutoEstimate → Option AutoEstimate
unfolding bool_eq
set_auto_estimate id value s =
    if bool_eq value s.auto_estimate
    then some s
    else if value
    then (if s.handler_id == 0 && not (id == 0)
        then some (record { auto_estimate = true; handler_id = id; has_samples = true })
        else none)
    else (if s.handler_id == 0
        then none
        else some (record s { auto_estimate = false; handler_id = 0 }))

pub set_auto_estimate-value :
    (id : ℕ) (value : Bool) (s t : AutoEstimate)
    → set_auto_estimate id value s ≡ some t
    → t.auto_estimate ≡ value
unfolding set_auto_estimate bool_eq
set_auto_estimate-value id value s t h =
    ground (arith, Bool-cases value, Bool-cases s.auto_estimate)

module _ (F : Floats) where
  open F use {Real}

  -- Sample
  pub record Sample : Type 0 where
    pub time_usec : ℕ
    pub value : Real

  -- What on_notify_progress writes once there are five samples
  pub record Estimate : Type 0 where
    pub rate : Real
    pub expected_end_time : ℕ

  -- The array keeps its last samples: the oldest makes room.
  pub add_sample : Sample → List Sample → List Sample
  add_sample s samples =
      (if length samples == max_samples then drop 1 samples else samples) ++ s ∷ []

  speed : Sample → Sample → Real
  speed a b = F.div (F.sub b.value a.value) (F.elapsed a.time_usec b.time_usec)

  -- sum_of_speeds and num_speeds after the loop
  pub sum_speeds : Real → ℕ → List Sample → Real × ℕ
  unfolding speed
  sum_speeds sum n [] = (sum, n)
  sum_speeds sum n (a ∷ []) = (sum, n)
  sum_speeds sum n (a ∷ b ∷ rest) = sum_speeds (F.add sum (speed a b)) (n + 1) (b ∷ rest)

  estimate : ℕ → ℕ → Real → List Sample → Estimate
  unfolding sum_speeds
  estimate now bytes progress samples =
      let (sum, n) = sum_speeds F.zero 0 samples in
      let avg_speed = F.div sum (F.of_nat n) in
      record {
        rate =
            if ltb 0 bytes
            then F.mul (F.mul (F.of_nat bytes) avg_speed) (F.of_nat 1000000)
            else F.zero;
        expected_end_time = F.round_after now (F.div (F.sub F.one progress) avg_speed);
      }

  -- on_notify_progress at a time, with the job's bytes and progress
  pub on_notify_progress : ℕ → ℕ → Real → List Sample → List Sample × Option Estimate
  unfolding add_sample estimate
  on_notify_progress now bytes progress samples =
      let added = add_sample (record { time_usec = now; value = progress }) samples in
      (added, if ltb (length added) 5 then none else some (estimate now bytes progress added))
