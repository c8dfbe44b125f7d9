-- ===== src/Properties/Job.antt =====
-- The properties of StorageJob, src/job.c.
use storaged.Prelude.{
  ℕ, ◌≡◌, refl, ap, ◌∙◌, true, false, Option, none, some, ◌⊎◌, inl, inr, arith, Option-cases,
}
use storaged.Job.Base.{AutoEstimate, set_auto_estimate, set_auto_estimate-value}
use storaged.Properties.Values.{
  holds, Value, object, boolean, of_object, of_boolean, get_object, get_boolean, ParamSpec,
  object_is_read, boolean_is_read,
}
use storaged.Properties.Class.{
  Outcome, done, invalid, aborted, then_do, set_once, Class, Agrees, is_valid, is_readable,
  is_writable, is_typed, is_rereadable, is_valid-set_once, then_do-set_once,
}

pub data JobId : Type 0 where
  prop_daemon : JobId
  prop_cancellable : JobId
  prop_auto_estimate : JobId

-- The private fields that the properties set. `next_id` is the id that GLib gives the next handler
-- that is connected.
pub record JobFields : Type 0 where
  pub cancellable : Option ℕ
  pub estimate : AutoEstimate
  pub next_id : ℕ

-- The fields of a new object, which are zero
unfoldable pub job_init : ℕ → JobFields
job_init next = record {
  cancellable = none;
  estimate = record { auto_estimate = false; handler_id = 0; has_samples = false };
  next_id = next;
}

-- storage_job_set_auto_estimate as a property function
abbrev estimating : Option AutoEstimate → JobFields → Outcome JobFields
estimating none j = aborted
estimating (some e) j = done (record j { estimate = e })

estimating-valid : (e : Option AutoEstimate) (j : JobFields) → is_valid (estimating e j) ≡ true
estimating-valid none j = refl
estimating-valid (some e) j = refl

unfoldable pub job_spec : JobId → Option ParamSpec
job_spec prop_daemon = none
job_spec prop_cancellable = some (record {
  name = "cancellable";
  value_type = of_object;
  readable = true;
  writable = true;
  construct_only = true;
})
job_spec prop_auto_estimate = some (record {
  name = "auto-estimate";
  value_type = of_boolean;
  readable = true;
  writable = true;
  construct_only = false;
})

unfoldable pub job_set_property : JobId → Value → JobFields → Outcome JobFields
job_set_property prop_cancellable v j =
    set_once j.cancellable (record j { cancellable = get_object v })
job_set_property prop_auto_estimate v j =
    estimating (set_auto_estimate j.next_id (get_boolean v) j.estimate) j
job_set_property _ v j = invalid

unfoldable pub job_get_property : JobId → JobFields → Outcome Value
job_get_property prop_cancellable j = done (object j.cancellable)
job_get_property prop_auto_estimate j = done (boolean j.estimate.auto_estimate)
job_get_property _ j = invalid

-- storage_job_constructed: a job that got no GCancellable makes one.
unfoldable pub job_constructed : ℕ → JobFields → JobFields
job_constructed fresh j = elim j.cancellable [
  | none ↦ record j { cancellable = some fresh }
  | some c ↦ j
]

-- storage_job_get_cancellable
abbrev pub job_get_cancellable : JobFields → Option ℕ
job_get_cancellable j = j.cancellable

abbrev pub job_class : Class JobId JobFields
job_class = record {
  spec = job_spec;
  set_property = job_set_property;
  get_property = job_get_property;
}

job_gets :
    (i : JobId) (j : JobFields)
    → (is_valid (job_get_property i j) ≡ is_readable (job_spec i))
      × (is_typed (job_spec i) (job_get_property i j) ≡ true)
unfolding job_spec job_get_property
job_gets prop_daemon j = (refl, refl)
job_gets prop_cancellable j = (refl, refl)
job_gets prop_auto_estimate j = (refl, refl)

job_sets :
    (i : JobId) (v : Value) (j : JobFields)
    → is_valid (job_set_property i v j) ≡ is_writable (job_spec i)
unfolding job_spec job_set_property
job_sets prop_daemon v j = refl
job_sets prop_cancellable v j = is_valid-set_once j.cancellable _
job_sets prop_auto_estimate v j = estimating-valid _ j

auto_estimate-reread :
    (v : Value) (j : JobFields)
    → holds of_boolean v ≡ true
    → (then_do
          (estimating (set_auto_estimate j.next_id (get_boolean v) j.estimate) j)
          (λ k. done (boolean k.estimate.auto_estimate))
        ≡ done v)
      ⊎ (estimating (set_auto_estimate j.next_id (get_boolean v) j.estimate) j ≡ aborted)
auto_estimate-reread v j h =
    elim (Option-cases (set_auto_estimate j.next_id (get_boolean v) j.estimate)) [
      | inl failed ↦ rw failed (inr refl)
      | inr (e, changed) ↦ rw changed (
          inl (
            ap (λ b. done (boolean b)) (set_auto_estimate-value _ _ _ e changed)
            ∙ ap done (boolean_is_read v h)))
    ]

job_rereads :
    (i : JobId) (v : Value) (j : JobFields)
    → is_rereadable (job_spec i) v ≡ true
    → (then_do (job_set_property i v j) (job_class.get_property i) ≡ done v)
      ⊎ (job_set_property i v j ≡ aborted)
unfolding job_spec job_set_property job_get_property
job_rereads prop_daemon v j h = absurd (ground arith)
job_rereads prop_cancellable v j h =
    then_do-set_once j.cancellable _ _ v (ap done (object_is_read v h))
job_rereads prop_auto_estimate v j h = auto_estimate-reread v j h

pub job_class-Agrees : Agrees job_class
job_class-Agrees = record {
  gets = λ i j. (job_gets i j).0;
  gets_typed = λ i j. (job_gets i j).1;
  sets = job_sets;
  rereads = job_rereads;
}
