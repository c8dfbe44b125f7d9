-- ===== src/Variant.antt =====
-- The GVariant dictionaries that the helper writes and the daemon reads: `a{sv}`, where a value of a
-- volume group's dictionary may be `aa{sv}`, the dictionaries of its volumes.
use storaged.Prelude.{
  ℕ, String, ◌≡◌, refl, Bool, true, false, ◌&&◌, Option, none, some, List, [], ◌∷◌, Table, lookup,
  str_eq, eq_iff, eq_refl, ◌==◌, arith,
}

pub data Value : Type 0 where
  str : String → Value
  u64 : ℕ → Value
  boolean : Bool → Value

abbrev pub Dict : Type 0
Dict = Table Value

pub data Entry : Type 0 where
  single : Value → Entry
  dicts : List Dict → Entry

abbrev pub Info : Type 0
Info = Table Entry

abbrev as_str : Option Value → Option String
as_str (some (str s)) = some s
as_str _ = none

abbrev as_u64 : Option Value → Option ℕ
as_u64 (some (u64 n)) = some n
as_u64 _ = none

abbrev as_boolean : Option Value → Option Bool
as_boolean (some (boolean b)) = some b
as_boolean _ = none

abbrev as_value : Option Entry → Option Value
as_value (some (single v)) = some v
as_value _ = none

abbrev as_dicts : Option Entry → Option (List Dict)
as_dicts (some (dicts ds)) = some ds
as_dicts _ = none

-- g_variant_lookup: the first entry of the key, if it has the type that is asked for.
abbrev pub lookup_str : String → Dict → Option String
lookup_str k d = as_str (lookup k d)

abbrev pub lookup_u64 : String → Dict → Option ℕ
lookup_u64 k d = as_u64 (lookup k d)

abbrev pub lookup_boolean : String → Dict → Option Bool
lookup_boolean k d = as_boolean (lookup k d)

abbrev pub info_str : String → Info → Option String
info_str k i = as_str (as_value (lookup k i))

abbrev pub info_u64 : String → Info → Option ℕ
info_u64 k i = as_u64 (as_value (lookup k i))

abbrev pub info_dicts : String → Info → Option (List Dict)
info_dicts k i = as_dicts (lookup k i)

bool_eq : Bool → Bool → Bool
bool_eq true b = b
bool_eq false true = false
bool_eq false false = true

value_eq : Value → Value → Bool
unfolding bool_eq
value_eq (str s) (str t) = str_eq s t
value_eq (u64 m) (u64 n) = m == n
value_eq (boolean a) (boolean b) = bool_eq a b
value_eq _ _ = false

dict_eq : Dict → Dict → Bool
dict_eq [] [] = true
dict_eq ((k, v) ∷ d) ((l, w) ∷ e) = str_eq k l && value_eq v w && dict_eq d e
dict_eq _ _ = false

dicts_eq : List Dict → List Dict → Bool
dicts_eq [] [] = true
dicts_eq (d ∷ ds) (e ∷ es) = dict_eq d e && dicts_eq ds es
dicts_eq _ _ = false

entry_eq : Entry → Entry → Bool
entry_eq (single v) (single w) = value_eq v w
entry_eq (dicts ds) (dicts es) = dicts_eq ds es
entry_eq _ _ = false

-- g_variant_equal
pub info_eq : Info → Info → Bool
info_eq [] [] = true
info_eq ((k, v) ∷ d) ((l, w) ∷ e) = str_eq k l && entry_eq v w && info_eq d e
info_eq _ _ = false

value_eq_sound : (v w : Value) → value_eq v w ≡ true → v ≡ w
unfolding value_eq
value_eq_sound (str s) (str t) h = ground (arith, eq_iff s t)
value_eq_sound (u64 m) (u64 n) h = ground arith
value_eq_sound (boolean true) (boolean true) h = refl
value_eq_sound (boolean false) (boolean false) h = refl
value_eq_sound _ _ h = ground arith

dict_eq_sound : (d e : Dict) → dict_eq d e ≡ true → d ≡ e
unfolding dict_eq
dict_eq_sound [] [] h = refl
dict_eq_sound ((k, v) ∷ d) ((l, w) ∷ e) h =
    ground (arith, eq_iff k l, value_eq_sound v w, dict_eq_sound d e)
dict_eq_sound _ _ h = ground arith

dicts_eq_sound : (d e : List Dict) → dicts_eq d e ≡ true → d ≡ e
unfolding dicts_eq
dicts_eq_sound [] [] h = refl
dicts_eq_sound (x ∷ d) (y ∷ e) h = ground (arith, dict_eq_sound x y, dicts_eq_sound d e)
dicts_eq_sound _ _ h = ground arith

entry_eq_sound : (v w : Entry) → entry_eq v w ≡ true → v ≡ w
unfolding entry_eq
entry_eq_sound (single v) (single w) h = ground (arith, value_eq_sound v w)
entry_eq_sound (dicts d) (dicts e) h = ground (arith, dicts_eq_sound d e)
entry_eq_sound _ _ h = ground arith

-- Dictionaries that compare equal are equal.
pub info_eq_sound : (d e : Info) → info_eq d e ≡ true → d ≡ e
unfolding info_eq
info_eq_sound [] [] h = refl
info_eq_sound ((k, v) ∷ d) ((l, w) ∷ e) h =
    ground (arith, eq_iff k l, entry_eq_sound v w, info_eq_sound d e)
info_eq_sound _ _ h = ground arith

value_eq_refl : (v : Value) → value_eq v v ≡ true
unfolding value_eq
value_eq_refl (str s) = eq_refl s
value_eq_refl (u64 n) = ground arith
value_eq_refl (boolean true) = refl
value_eq_refl (boolean false) = refl

dict_eq_refl : (d : Dict) → dict_eq d d ≡ true
unfolding dict_eq
dict_eq_refl [] = refl
dict_eq_refl ((k, v) ∷ d) = ground (arith, eq_refl k, value_eq_refl v, dict_eq_refl d)

dicts_eq_refl : (ds : List Dict) → dicts_eq ds ds ≡ true
unfolding dicts_eq
dicts_eq_refl [] = refl
dicts_eq_refl (d ∷ ds) = ground (arith, dict_eq_refl d, dicts_eq_refl ds)

entry_eq_refl : (e : Entry) → entry_eq e e ≡ true
unfolding entry_eq
entry_eq_refl (single v) = value_eq_refl v
entry_eq_refl (dicts ds) = dicts_eq_refl ds

-- A dictionary compares equal to itself.
pub info_eq_refl : (i : Info) → info_eq i i ≡ true
unfolding info_eq
info_eq_refl [] = refl
info_eq_refl ((k, e) ∷ i) = ground (arith, eq_refl k, entry_eq_refl e, info_eq_refl i)
