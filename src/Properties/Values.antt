-- ===== src/Properties/Values.antt =====
-- GValue and GParamSpec of GObject, as far as the property functions of src/*.c use them.
use storaged.Prelude.{ℕ, String, ◌≡◌, refl, Bool, true, false, Option, none, List, arith}

-- What a GValue holds. An object or another pointer is its address; `none` is NULL.
pub data Value : Type 0 where
  object : Option ℕ → Value
  strv : Option (List String) → Value
  text : Option String → Value
  boolean : Bool → Value
  uint : ℕ → Value
  pointer : Option ℕ → Value

-- The functions that make a GParamSpec: g_param_spec_object, g_param_spec_boxed with G_TYPE_STRV,
-- g_param_spec_string, g_param_spec_boolean, g_param_spec_uint and g_param_spec_pointer
pub data ValueType : Type 0 where
  of_object : ValueType
  of_strv : ValueType
  of_text : ValueType
  of_boolean : ValueType
  of_uint : ValueType
  of_pointer : ValueType

abbrev pub holds : ValueType → Value → Bool
holds of_object (object o) = true
holds of_strv (strv l) = true
holds of_text (text s) = true
holds of_boolean (boolean b) = true
holds of_uint (uint n) = true
holds of_pointer (pointer p) = true
holds _ _ = false

-- The functions that read a GValue: of a value of another type they give NULL, FALSE or 0.
abbrev pub get_object : Value → Option ℕ
get_object (object o) = o
get_object _ = none

abbrev pub get_boxed : Value → Option (List String)
get_boxed (strv l) = l
get_boxed _ = none

abbrev pub get_string : Value → Option String
get_string (text s) = s
get_string _ = none

abbrev pub get_boolean : Value → Bool
get_boolean (boolean b) = b
get_boolean _ = false

abbrev pub get_uint : Value → ℕ
get_uint (uint n) = n
get_uint _ = 0

abbrev pub get_pointer : Value → Option ℕ
get_pointer (pointer p) = p
get_pointer _ = none

pub object_is_read : (v : Value) → holds of_object v ≡ true → object (get_object v) ≡ v
object_is_read (object x) h = refl
object_is_read (strv x) h = absurd (ground arith)
object_is_read (text x) h = absurd (ground arith)
object_is_read (boolean x) h = absurd (ground arith)
object_is_read (uint x) h = absurd (ground arith)
object_is_read (pointer x) h = absurd (ground arith)

pub strv_is_read : (v : Value) → holds of_strv v ≡ true → strv (get_boxed v) ≡ v
strv_is_read (object x) h = absurd (ground arith)
strv_is_read (strv x) h = refl
strv_is_read (text x) h = absurd (ground arith)
strv_is_read (boolean x) h = absurd (ground arith)
strv_is_read (uint x) h = absurd (ground arith)
strv_is_read (pointer x) h = absurd (ground arith)

pub text_is_read : (v : Value) → holds of_text v ≡ true → text (get_string v) ≡ v
text_is_read (object x) h = absurd (ground arith)
text_is_read (strv x) h = absurd (ground arith)
text_is_read (text x) h = refl
text_is_read (boolean x) h = absurd (ground arith)
text_is_read (uint x) h = absurd (ground arith)
text_is_read (pointer x) h = absurd (ground arith)

pub boolean_is_read : (v : Value) → holds of_boolean v ≡ true → boolean (get_boolean v) ≡ v
boolean_is_read (object x) h = absurd (ground arith)
boolean_is_read (strv x) h = absurd (ground arith)
boolean_is_read (text x) h = absurd (ground arith)
boolean_is_read (boolean x) h = refl
boolean_is_read (uint x) h = absurd (ground arith)
boolean_is_read (pointer x) h = absurd (ground arith)

pub pointer_is_read : (v : Value) → holds of_pointer v ≡ true → pointer (get_pointer v) ≡ v
pointer_is_read (object x) h = absurd (ground arith)
pointer_is_read (strv x) h = absurd (ground arith)
pointer_is_read (text x) h = absurd (ground arith)
pointer_is_read (boolean x) h = absurd (ground arith)
pointer_is_read (uint x) h = absurd (ground arith)
pointer_is_read (pointer x) h = refl

-- A GParamSpec with its flags
pub record ParamSpec : Type 0 where
  pub name : String
  pub value_type : ValueType
  pub readable : Bool
  pub writable : Bool
  pub construct_only : Bool
