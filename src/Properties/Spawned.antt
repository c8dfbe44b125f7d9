-- ===== src/Properties/Spawned.antt =====
-- The properties of StorageSpawnedJob, src/spawnedjob.c.
use storaged.Prelude.{ℕ, String, ◌≡◌, refl, ap, true, false, Option, none, some, List, ◌⊎◌, arith}
use storaged.Properties.Values.{
  Value, strv, of_strv, of_text, of_uint, get_boxed, get_string, get_uint, ParamSpec, strv_is_read,
}
use storaged.Properties.Class.{
  Outcome, done, invalid, aborted, then_do, set_once, Class, Agrees, is_valid, is_readable,
  is_writable, is_typed, is_rereadable, is_valid-set_once, then_do-set_once,
}

pub data SpawnedId : Type 0 where
  prop_argv : SpawnedId
  prop_input_string : SpawnedId
  prop_run_as_uid : SpawnedId
  prop_run_as_euid : SpawnedId

-- The fields that the properties set
pub record SpawnedFields : Type 0 where
  pub argv : Option (List String)
  pub input_string : Option String
  pub run_as_uid : ℕ
  pub run_as_euid : ℕ

-- The fields of a new object, which are zero
abbrev pub spawned_fields_new : SpawnedFields
spawned_fields_new = record { argv = none; input_string = none; run_as_uid = 0; run_as_euid = 0 }

-- storage_spawned_job_get_argv
abbrev pub spawned_job_get_argv : SpawnedFields → Option (List String)
spawned_job_get_argv s = s.argv

unfoldable pub spawned_job_spec : SpawnedId → Option ParamSpec
spawned_job_spec prop_argv = some (record {
  name = "argv";
  value_type = of_strv;
  readable = true;
  writable = true;
  construct_only = true;
})
spawned_job_spec prop_input_string = some (record {
  name = "input-string";
  value_type = of_text;
  readable = false;
  writable = true;
  construct_only = true;
})
spawned_job_spec prop_run_as_uid = some (record {
  name = "run-as-uid";
  value_type = of_uint;
  readable = false;
  writable = true;
  construct_only = true;
})
spawned_job_spec prop_run_as_euid = some (record {
  name = "run-as-euid";
  value_type = of_uint;
  readable = false;
  writable = true;
  construct_only = true;
})

unfoldable pub spawned_job_set_property : SpawnedId → Value → SpawnedFields → Outcome SpawnedFields
spawned_job_set_property prop_argv v s = set_once s.argv (record s { argv = get_boxed v })
spawned_job_set_property prop_input_string v s =
    set_once s.input_string (record s { input_string = get_string v })
spawned_job_set_property prop_run_as_uid v s = done (record s { run_as_uid = get_uint v })
spawned_job_set_property prop_run_as_euid v s = done (record s { run_as_euid = get_uint v })

unfoldable pub spawned_job_get_property : SpawnedId → SpawnedFields → Outcome Value
spawned_job_get_property prop_argv s = done (strv (spawned_job_get_argv s))
spawned_job_get_property _ s = invalid

abbrev pub spawned_job_class : Class SpawnedId SpawnedFields
spawned_job_class = record {
  spec = spawned_job_spec;
  set_property = spawned_job_set_property;
  get_property = spawned_job_get_property;
}

spawned_job_gets :
    (i : SpawnedId) (s : SpawnedFields)
    → (is_valid (spawned_job_get_property i s) ≡ is_readable (spawned_job_spec i))
      × (is_typed (spawned_job_spec i) (spawned_job_get_property i s) ≡ true)
unfolding spawned_job_spec spawned_job_get_property
spawned_job_gets prop_argv s = (refl, refl)
spawned_job_gets prop_input_string s = (refl, refl)
spawned_job_gets prop_run_as_uid s = (refl, refl)
spawned_job_gets prop_run_as_euid s = (refl, refl)

spawned_job_sets :
    (i : SpawnedId) (v : Value) (s : SpawnedFields)
    → is_valid (spawned_job_set_property i v s) ≡ is_writable (spawned_job_spec i)
unfolding spawned_job_spec spawned_job_set_property
spawned_job_sets prop_argv v s = is_valid-set_once s.argv _
spawned_job_sets prop_input_string v s = is_valid-set_once s.input_string _
spawned_job_sets prop_run_as_uid v s = refl
spawned_job_sets prop_run_as_euid v s = refl

spawned_job_rereads :
    (i : SpawnedId) (v : Value) (s : SpawnedFields)
    → is_rereadable (spawned_job_spec i) v ≡ true
    → (then_do (spawned_job_set_property i v s) (spawned_job_class.get_property i) ≡ done v)
      ⊎ (spawned_job_set_property i v s ≡ aborted)
unfolding spawned_job_spec spawned_job_set_property spawned_job_get_property
spawned_job_rereads prop_argv v s h = then_do-set_once s.argv _ _ v (ap done (strv_is_read v h))
spawned_job_rereads prop_input_string v s h = absurd (ground arith)
spawned_job_rereads prop_run_as_uid v s h = absurd (ground arith)
spawned_job_rereads prop_run_as_euid v s h = absurd (ground arith)

pub spawned_job_class-Agrees : Agrees spawned_job_class
spawned_job_class-Agrees = record {
  gets = λ i s. (spawned_job_gets i s).0;
  gets_typed = λ i s. (spawned_job_gets i s).1;
  sets = spawned_job_sets;
  rereads = spawned_job_rereads;
}
