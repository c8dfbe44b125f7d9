-- ===== src/Properties/Daemon.antt =====
-- The properties of StorageDaemon, src/daemon.c.
use storaged.Prelude.{ℕ, String, ◌≡◌, refl, Bool, true, false, ◌||◌, Option, none, some, ◌⊎◌, arith}
use storaged.Properties.Values.{
  Value, object, of_object, of_text, of_boolean, get_object, get_string, get_boolean, ParamSpec,
}
use storaged.Properties.Class.{
  Outcome, done, invalid, aborted, then_do, set_once, Class, Agrees, is_valid, is_readable,
  is_writable, is_typed, is_rereadable, is_valid-set_once,
}

pub data DaemonId : Type 0 where
  prop_connection : DaemonId
  prop_object_manager : DaemonId
  prop_resource_dir : DaemonId
  prop_replace_name : DaemonId
  prop_persist : DaemonId

-- GBusNameOwnerFlags
pub record NameFlags : Type 0 where
  pub allow_replacement : Bool
  pub replace : Bool

-- `flags |= (b ? G_BUS_NAME_OWNER_FLAGS_REPLACE : 0)`
abbrev pub or_replace : NameFlags → Bool → NameFlags
or_replace flags b = record flags { replace = flags.replace || b }

-- The fields that the properties set
pub record DaemonFields : Type 0 where
  pub connection : Option ℕ
  pub object_manager : Option ℕ
  pub resource_dir : Option String
  pub name_flags : NameFlags
  pub persist : Bool

-- storage_daemon_init, given whether default_daemon is there already, of a new object, which is zero
unfoldable pub daemon_init : Bool → Outcome DaemonFields
daemon_init true = aborted
daemon_init false = done (record {
  connection = none;
  object_manager = none;
  resource_dir = none;
  name_flags = record { allow_replacement = true; replace = false };
  persist = false;
})

unfoldable pub daemon_spec : DaemonId → Option ParamSpec
daemon_spec prop_connection = some (record {
  name = "connection";
  value_type = of_object;
  readable = false;
  writable = true;
  construct_only = true;
})
daemon_spec prop_object_manager = some (record {
  name = "object-manager";
  value_type = of_object;
  readable = true;
  writable = false;
  construct_only = false;
})
daemon_spec prop_resource_dir = some (record {
  name = "resource-dir";
  value_type = of_text;
  readable = false;
  writable = true;
  construct_only = true;
})
daemon_spec prop_replace_name = some (record {
  name = "replace-name";
  value_type = of_boolean;
  readable = false;
  writable = true;
  construct_only = true;
})
daemon_spec prop_persist = some (record {
  name = "persist";
  value_type = of_boolean;
  readable = false;
  writable = true;
  construct_only = true;
})

unfoldable pub daemon_set_property : DaemonId → Value → DaemonFields → Outcome DaemonFields
daemon_set_property prop_connection v d =
    set_once d.connection (record d { connection = get_object v })
daemon_set_property prop_resource_dir v d =
    set_once d.resource_dir (record d { resource_dir = get_string v })
daemon_set_property prop_replace_name v d =
    done (record d { name_flags = or_replace d.name_flags (get_boolean v) })
daemon_set_property prop_persist v d = done (record d { persist = get_boolean v })
daemon_set_property _ v d = invalid

unfoldable pub daemon_get_property : DaemonId → DaemonFields → Outcome Value
daemon_get_property prop_object_manager d = done (object d.object_manager)
daemon_get_property _ d = invalid

abbrev pub daemon_class : Class DaemonId DaemonFields
daemon_class = record {
  spec = daemon_spec;
  set_property = daemon_set_property;
  get_property = daemon_get_property;
}

daemon_gets :
    (i : DaemonId) (d : DaemonFields)
    → (is_valid (daemon_get_property i d) ≡ is_readable (daemon_spec i))
      × (is_typed (daemon_spec i) (daemon_get_property i d) ≡ true)
unfolding daemon_spec daemon_get_property
daemon_gets prop_connection d = (refl, refl)
daemon_gets prop_object_manager d = (refl, refl)
daemon_gets prop_resource_dir d = (refl, refl)
daemon_gets prop_replace_name d = (refl, refl)
daemon_gets prop_persist d = (refl, refl)

daemon_sets :
    (i : DaemonId) (v : Value) (d : DaemonFields)
    → is_valid (daemon_set_property i v d) ≡ is_writable (daemon_spec i)
unfolding daemon_spec daemon_set_property
daemon_sets prop_connection v d = is_valid-set_once d.connection _
daemon_sets prop_object_manager v d = refl
daemon_sets prop_resource_dir v d = is_valid-set_once d.resource_dir _
daemon_sets prop_replace_name v d = refl
daemon_sets prop_persist v d = refl

daemon_rereads :
    (i : DaemonId) (v : Value) (d : DaemonFields)
    → is_rereadable (daemon_spec i) v ≡ true
    → (then_do (daemon_set_property i v d) (daemon_class.get_property i) ≡ done v)
      ⊎ (daemon_set_property i v d ≡ aborted)
unfolding daemon_spec daemon_set_property daemon_get_property
daemon_rereads prop_connection v d h = absurd (ground arith)
daemon_rereads prop_object_manager v d h = absurd (ground arith)
daemon_rereads prop_resource_dir v d h = absurd (ground arith)
daemon_rereads prop_replace_name v d h = absurd (ground arith)
daemon_rereads prop_persist v d h = absurd (ground arith)

pub daemon_class-Agrees : Agrees daemon_class
daemon_class-Agrees = record {
  gets = λ i d. (daemon_gets i d).0;
  gets_typed = λ i d. (daemon_gets i d).1;
  sets = daemon_sets;
  rereads = daemon_rereads;
}
