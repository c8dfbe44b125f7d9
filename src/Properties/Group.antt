-- ===== src/Properties/Group.antt =====
-- The properties of StorageVolumeGroup, src/volumegroup.c.
use storaged.Prelude.{ℕ, String, ◌≡◌, refl, ap, true, false, Option, none, some, ◌⊎◌, inl}
use storaged.Properties.Values.{
  Value, object, text, of_object, of_text, get_object, get_string, ParamSpec, object_is_read,
  text_is_read,
}
use storaged.Properties.Class.{
  Outcome, done, aborted, then_do, set_once, Class, Agrees, is_valid, is_readable, is_writable,
  is_typed, is_rereadable, is_valid-set_once, then_do-set_once,
}

pub data GroupId : Type 0 where
  prop_name : GroupId
  prop_manager : GroupId

-- The fields that the properties set. The group does not own its manager.
pub record GroupFields : Type 0 where
  pub name : Option String
  pub manager : Option ℕ

-- The fields of a new object, which are zero
abbrev pub group_fields_new : GroupFields
group_fields_new = record { name = none; manager = none }

-- storage_volume_group_get_name
abbrev pub volume_group_get_name : GroupFields → Option String
volume_group_get_name g = g.name

unfoldable pub volume_group_spec : GroupId → Option ParamSpec
volume_group_spec prop_name = some (record {
  name = "name";
  value_type = of_text;
  readable = true;
  writable = true;
  construct_only = false;
})
volume_group_spec prop_manager = some (record {
  name = "manager";
  value_type = of_object;
  readable = true;
  writable = true;
  construct_only = true;
})

unfoldable pub volume_group_set_property : GroupId → Value → GroupFields → Outcome GroupFields
volume_group_set_property prop_name v g = done (record g { name = get_string v })
volume_group_set_property prop_manager v g =
    set_once g.manager (record g { manager = get_object v })

unfoldable pub volume_group_get_property : GroupId → GroupFields → Outcome Value
volume_group_get_property prop_name g = done (text (volume_group_get_name g))
volume_group_get_property prop_manager g = done (object g.manager)

abbrev pub volume_group_class : Class GroupId GroupFields
volume_group_class = record {
  spec = volume_group_spec;
  set_property = volume_group_set_property;
  get_property = volume_group_get_property;
}

volume_group_gets :
    (i : GroupId) (g : GroupFields)
    → (is_valid (volume_group_get_property i g) ≡ is_readable (volume_group_spec i))
      × (is_typed (volume_group_spec i) (volume_group_get_property i g) ≡ true)
unfolding volume_group_spec volume_group_get_property
volume_group_gets prop_name g = (refl, refl)
volume_group_gets prop_manager g = (refl, refl)

volume_group_sets :
    (i : GroupId) (v : Value) (g : GroupFields)
    → is_valid (volume_group_set_property i v g) ≡ is_writable (volume_group_spec i)
unfolding volume_group_spec volume_group_set_property
volume_group_sets prop_name v g = refl
volume_group_sets prop_manager v g = is_valid-set_once g.manager _

volume_group_rereads :
    (i : GroupId) (v : Value) (g : GroupFields)
    → is_rereadable (volume_group_spec i) v ≡ true
    → (then_do (volume_group_set_property i v g) (volume_group_class.get_property i) ≡ done v)
      ⊎ (volume_group_set_property i v g ≡ aborted)
unfolding volume_group_spec volume_group_set_property volume_group_get_property
volume_group_rereads prop_name v g h = inl (ap done (text_is_read v h))
volume_group_rereads prop_manager v g h =
    then_do-set_once g.manager _ _ v (ap done (object_is_read v h))

pub volume_group_class-Agrees : Agrees volume_group_class
volume_group_class-Agrees = record {
  gets = λ i g. (volume_group_gets i g).0;
  gets_typed = λ i g. (volume_group_gets i g).1;
  sets = volume_group_sets;
  rereads = volume_group_rereads;
}
