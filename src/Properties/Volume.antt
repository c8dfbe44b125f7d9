-- ===== src/Properties/Volume.antt =====
-- The properties of StorageLogicalVolume, src/logicalvolume.c. The path that D-Bus knows of a group is a
-- parameter.
use storaged.Prelude.{
  ℕ, String, ◌≡◌, refl, ap, true, false, Option, none, some, List, [], ◌∷◌, ◌⊎◌, inl, inr,
}
use storaged.Properties.Values.{
  Value, object, text, of_object, of_text, get_object, get_string, ParamSpec, object_is_read,
  text_is_read,
}
use storaged.Properties.Class.{
  Outcome, done, aborted, then_do, Class, Agrees, is_valid, is_readable, is_writable, is_typed,
  is_rereadable,
}

pub data VolumeId : Type 0 where
  prop_name : VolumeId
  prop_group : VolumeId
  prop_volume_group : VolumeId

-- The fields that the properties set, with the names of the properties that were notified
pub record VolumeFields : Type 0 where
  pub name : Option String
  pub group : Option ℕ
  pub notified : List String

-- The fields of a new object, which are zero
abbrev pub volume_fields_new : VolumeFields
volume_fields_new = record { name = none; group = none; notified = [] }

-- storage_logical_volume_get_name
abbrev pub logical_volume_get_name : VolumeFields → Option String
logical_volume_get_name l = l.name

-- storage_logical_volume_get_volume_group
abbrev pub logical_volume_get_volume_group : VolumeFields → Option ℕ
logical_volume_get_volume_group l = l.group

-- storage_logical_volume_set_volume_group: what the field held is released, and it holds the new group
-- then, or NULL.
unfoldable pub set_volume_group : Option ℕ → VolumeFields → VolumeFields
set_volume_group group l = record l {
  group = group;
  notified = "volume-group" ∷ "group" ∷ l.notified;
}

unfoldable pub logical_volume_spec : VolumeId → Option ParamSpec
logical_volume_spec prop_name = some (record {
  name = "name";
  value_type = of_text;
  readable = true;
  writable = true;
  construct_only = false;
})
logical_volume_spec prop_group = some (record {
  name = "group";
  value_type = of_object;
  readable = true;
  writable = true;
  construct_only = false;
})
logical_volume_spec prop_volume_group = some (record {
  name = "volume-group";
  value_type = of_text;
  readable = true;
  writable = true;
  construct_only = false;
})

unfoldable pub logical_volume_set_property : VolumeId → Value → VolumeFields → Outcome VolumeFields
logical_volume_set_property prop_name v l = done (record l { name = get_string v })
logical_volume_set_property prop_group v l = done (set_volume_group (get_object v) l)
logical_volume_set_property prop_volume_group v l = aborted

module _ (path_of : ℕ → Option String) where
  -- The path of the group, or "/" without one
  abbrev path_of_group : Option ℕ → Option String
  path_of_group none = some "/"
  path_of_group (some g) = path_of g

  unfoldable pub logical_volume_get_property : VolumeId → VolumeFields → Outcome Value
  logical_volume_get_property prop_name l = done (text (logical_volume_get_name l))
  logical_volume_get_property prop_group l = done (object (logical_volume_get_volume_group l))
  logical_volume_get_property prop_volume_group l =
      done (text (path_of_group (logical_volume_get_volume_group l)))

  abbrev pub logical_volume_class : Class VolumeId VolumeFields
  logical_volume_class = record {
    spec = logical_volume_spec;
    set_property = logical_volume_set_property;
    get_property = logical_volume_get_property;
  }

  logical_volume_gets :
      (i : VolumeId) (l : VolumeFields)
      → (is_valid (logical_volume_get_property i l) ≡ is_readable (logical_volume_spec i))
        × (is_typed (logical_volume_spec i) (logical_volume_get_property i l) ≡ true)
  unfolding logical_volume_spec logical_volume_get_property
  logical_volume_gets prop_name l = (refl, refl)
  logical_volume_gets prop_group l = (refl, refl)
  logical_volume_gets prop_volume_group l = (refl, refl)

  logical_volume_sets :
      (i : VolumeId) (v : Value) (l : VolumeFields)
      → is_valid (logical_volume_set_property i v l) ≡ is_writable (logical_volume_spec i)
  unfolding logical_volume_spec logical_volume_set_property
  logical_volume_sets prop_name v l = refl
  logical_volume_sets prop_group v l = refl
  logical_volume_sets prop_volume_group v l = refl

  logical_volume_rereads :
      (i : VolumeId) (v : Value) (l : VolumeFields)
      → is_rereadable (logical_volume_spec i) v ≡ true
      → (then_do (logical_volume_set_property i v l) (logical_volume_class.get_property i) ≡ done v)
        ⊎ (logical_volume_set_property i v l ≡ aborted)
  unfolding logical_volume_spec logical_volume_set_property logical_volume_get_property
      set_volume_group
  logical_volume_rereads prop_name v l h = inl (ap done (text_is_read v h))
  logical_volume_rereads prop_group v l h = inl (ap done (object_is_read v h))
  logical_volume_rereads prop_volume_group v l h = inr refl

  pub logical_volume_class-Agrees : Agrees logical_volume_class
  logical_volume_class-Agrees = record {
    gets = λ i l. (logical_volume_gets i l).0;
    gets_typed = λ i l. (logical_volume_gets i l).1;
    sets = logical_volume_sets;
    rereads = logical_volume_rereads;
  }
