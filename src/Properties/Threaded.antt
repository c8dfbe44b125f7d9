-- ===== src/Properties/Threaded.antt =====
-- The properties of StorageThreadedJob, src/threadedjob.c.
use storaged.Prelude.{ℕ, ◌≡◌, refl, ap, true, Option, none, some, ◌⊎◌}
use storaged.Properties.Values.{Value, pointer, of_pointer, get_pointer, ParamSpec, pointer_is_read}
use storaged.Properties.Class.{
  Outcome, done, aborted, then_do, set_once, Class, Agrees, is_valid, is_readable, is_writable,
  is_typed, is_rereadable, is_valid-set_once, then_do-set_once,
}

pub data ThreadedId : Type 0 where
  prop_job_func : ThreadedId
  prop_user_data : ThreadedId
  prop_user_data_free_func : ThreadedId

-- The fields that the properties set
pub record ThreadedFields : Type 0 where
  pub job_func : Option ℕ
  pub user_data : Option ℕ
  pub user_data_free_func : Option ℕ

-- The fields of a new object, which are zero
abbrev pub threaded_fields_new : ThreadedFields
threaded_fields_new = record { job_func = none; user_data = none; user_data_free_func = none }

-- storage_threaded_job_get_user_data
abbrev pub threaded_job_get_user_data : ThreadedFields → Option ℕ
threaded_job_get_user_data t = t.user_data

unfoldable pub threaded_job_spec : ThreadedId → Option ParamSpec
threaded_job_spec prop_job_func = some (record {
  name = "job-func";
  value_type = of_pointer;
  readable = true;
  writable = true;
  construct_only = true;
})
threaded_job_spec prop_user_data = some (record {
  name = "user-data";
  value_type = of_pointer;
  readable = true;
  writable = true;
  construct_only = true;
})
threaded_job_spec prop_user_data_free_func = some (record {
  name = "user-data-free-func";
  value_type = of_pointer;
  readable = true;
  writable = true;
  construct_only = true;
})

unfoldable pub threaded_job_set_property :
    ThreadedId → Value → ThreadedFields → Outcome ThreadedFields
threaded_job_set_property prop_job_func v t =
    set_once t.job_func (record t { job_func = get_pointer v })
threaded_job_set_property prop_user_data v t =
    set_once t.user_data (record t { user_data = get_pointer v })
threaded_job_set_property prop_user_data_free_func v t =
    set_once t.user_data_free_func (record t { user_data_free_func = get_pointer v })

unfoldable pub threaded_job_get_property : ThreadedId → ThreadedFields → Outcome Value
threaded_job_get_property prop_job_func t = done (pointer t.job_func)
threaded_job_get_property prop_user_data t = done (pointer t.user_data)
threaded_job_get_property prop_user_data_free_func t = done (pointer t.user_data_free_func)

abbrev pub threaded_job_class : Class ThreadedId ThreadedFields
threaded_job_class = record {
  spec = threaded_job_spec;
  set_property = threaded_job_set_property;
  get_property = threaded_job_get_property;
}

threaded_job_gets :
    (i : ThreadedId) (t : ThreadedFields)
    → (is_valid (threaded_job_get_property i t) ≡ is_readable (threaded_job_spec i))
      × (is_typed (threaded_job_spec i) (threaded_job_get_property i t) ≡ true)
unfolding threaded_job_spec threaded_job_get_property
threaded_job_gets prop_job_func t = (refl, refl)
threaded_job_gets prop_user_data t = (refl, refl)
threaded_job_gets prop_user_data_free_func t = (refl, refl)

threaded_job_sets :
    (i : ThreadedId) (v : Value) (t : ThreadedFields)
    → is_valid (threaded_job_set_property i v t) ≡ is_writable (threaded_job_spec i)
unfolding threaded_job_spec threaded_job_set_property
threaded_job_sets prop_job_func v t = is_valid-set_once t.job_func _
threaded_job_sets prop_user_data v t = is_valid-set_once t.user_data _
threaded_job_sets prop_user_data_free_func v t = is_valid-set_once t.user_data_free_func _

threaded_job_rereads :
    (i : ThreadedId) (v : Value) (t : ThreadedFields)
    → is_rereadable (threaded_job_spec i) v ≡ true
    → (then_do (threaded_job_set_property i v t) (threaded_job_class.get_property i) ≡ done v)
      ⊎ (threaded_job_set_property i v t ≡ aborted)
unfolding threaded_job_spec threaded_job_set_property threaded_job_get_property
threaded_job_rereads prop_job_func v t h =
    then_do-set_once t.job_func _ _ v (ap done (pointer_is_read v h))
threaded_job_rereads prop_user_data v t h =
    then_do-set_once t.user_data _ _ v (ap done (pointer_is_read v h))
threaded_job_rereads prop_user_data_free_func v t h =
    then_do-set_once t.user_data_free_func _ _ v (ap done (pointer_is_read v h))

pub threaded_job_class-Agrees : Agrees threaded_job_class
threaded_job_class-Agrees = record {
  gets = λ i t. (threaded_job_gets i t).0;
  gets_typed = λ i t. (threaded_job_gets i t).1;
  sets = threaded_job_sets;
  rereads = threaded_job_rereads;
}
