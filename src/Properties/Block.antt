-- ===== src/Properties/Block.antt =====
-- The properties of StorageBlock, src/block.c.
use storaged.Prelude.{ℕ, ◌≡◌, refl, true, false, Option, none, some, ◌⊎◌, arith}
use storaged.Properties.Values.{Value, of_object, get_object, ParamSpec}
use storaged.Properties.Class.{
  Outcome, done, invalid, aborted, then_do, Class, Agrees, is_valid, is_readable, is_writable,
  is_rereadable,
}

pub data BlockId : Type 0 where
  prop_udev_client : BlockId
  prop_real_block : BlockId

-- The fields that the properties set
pub record BlockFields : Type 0 where
  pub real_block : Option ℕ
  pub udev_client : Option ℕ

-- The fields of a new object, which are zero
abbrev pub block_fields_new : BlockFields
block_fields_new = record { real_block = none; udev_client = none }

-- The field is written, and then g_assert (field != NULL).
abbrev pub set_object : Option ℕ → BlockFields → Outcome BlockFields
set_object none b = aborted
set_object (some o) b = done b

is_valid-set_object : (o : Option ℕ) (b : BlockFields) → is_valid (set_object o b) ≡ true
is_valid-set_object none b = refl
is_valid-set_object (some o) b = refl

unfoldable pub block_spec : BlockId → Option ParamSpec
block_spec prop_udev_client = some (record {
  name = "udev-client";
  value_type = of_object;
  readable = false;
  writable = true;
  construct_only = true;
})
block_spec prop_real_block = some (record {
  name = "real-block";
  value_type = of_object;
  readable = false;
  writable = true;
  construct_only = true;
})

unfoldable pub block_set_property : BlockId → Value → BlockFields → Outcome BlockFields
block_set_property prop_udev_client v b =
    set_object (get_object v) (record b { udev_client = get_object v })
block_set_property prop_real_block v b =
    set_object (get_object v) (record b { real_block = get_object v })

-- The class has no get_property; that of GObject warns of every property.
abbrev pub block_class : Class BlockId BlockFields
block_class = record {
  spec = block_spec;
  set_property = block_set_property;
  get_property = λ i b. invalid;
}

block_gets : (i : BlockId) → false ≡ is_readable (block_spec i)
unfolding block_spec
block_gets prop_udev_client = refl
block_gets prop_real_block = refl

block_sets :
    (i : BlockId) (v : Value) (b : BlockFields)
    → is_valid (block_set_property i v b) ≡ is_writable (block_spec i)
unfolding block_spec block_set_property
block_sets prop_udev_client v b = is_valid-set_object (get_object v) _
block_sets prop_real_block v b = is_valid-set_object (get_object v) _

block_rereads :
    (i : BlockId) (v : Value) (b : BlockFields)
    → is_rereadable (block_spec i) v ≡ true
    → (then_do (block_set_property i v b) (block_class.get_property i) ≡ done v)
      ⊎ (block_set_property i v b ≡ aborted)
unfolding block_spec block_set_property
block_rereads prop_udev_client v b h = absurd (ground arith)
block_rereads prop_real_block v b h = absurd (ground arith)

pub block_class-Agrees : Agrees block_class
block_class-Agrees = record {
  gets = λ i b. block_gets i;
  gets_typed = λ i b. refl;
  sets = block_sets;
  rereads = block_rereads;
}
