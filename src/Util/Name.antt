-- ===== src/Util/Name.antt =====
-- storage_util_lvm_name_is_reserved of src/util.c, and the two tests of src/volumegroup.c on it.
use text.Mathlib.Text.{starts_with}
use text.Mathlib.TextPositions.{starts_with-append}
use storaged.Prelude.{
  String, ◌≡◌, Bool, true, false, not, ◌||◌, Option, none, some, arith, strstr, strstr-append, ◌<>◌,
  List, [], ◌∷◌, any,
}

-- storage_util_lvm_name_is_reserved
unfoldable pub lvm_name_is_reserved : String → Bool
lvm_name_is_reserved name =
    strstr name "_mlog"
    || strstr name "_mimage"
    || strstr name "_rimage"
    || strstr name "_rmeta"
    || strstr name "_tdata"
    || strstr name "_tmeta"
    || strstr name "_pmspare"
    || starts_with name "pvmove"
    || starts_with name "snapshot"

-- The name is NULL where the information has none.
unfoldable pub lv_is_pvmove_volume : Option String → Bool
lv_is_pvmove_volume none = false
lv_is_pvmove_volume (some name) = starts_with name "pvmove"

unfoldable pub lv_is_visible : Option String → Bool
unfolding lvm_name_is_reserved
lv_is_visible none = false
lv_is_visible (some name) = not (lvm_name_is_reserved name)

-- The infixes by which LVM marks the volumes that it keeps to itself
abbrev pub markers : List String
markers = "_mlog" ∷ "_mimage" ∷ "_rimage" ∷ "_rmeta" ∷ "_tdata" ∷ "_tmeta" ∷ "_pmspare" ∷ []

abbrev pub prefixes : List String
prefixes = "pvmove" ∷ "snapshot" ∷ []

-- A name is reserved exactly when it has one of the markers somewhere or one of the prefixes.
lvm_name_is_reserved_lem :
    (name : String)
    → lvm_name_is_reserved name ≡ (any (strstr name) markers || any (starts_with name) prefixes)
unfolding lvm_name_is_reserved
lvm_name_is_reserved_lem name = ground arith

any_of : (p : String → Bool) (x : String) (xs : List String) → p x ≡ true → any p (x ∷ xs) ≡ true
any_of p x xs h = ground arith

-- A volume that pvmove creates is never visible, whatever follows the prefix; nor is one whose name
-- has a marker inside.
pub lv_is_visible-reserved :
    (s t : String)
    → (lv_is_visible (some ("pvmove" <> t)) ≡ false)
      × (lv_is_pvmove_volume (some ("pvmove" <> t)) ≡ true)
      × (lv_is_visible (some (s <> ("_tmeta" <> t))) ≡ false)
      × (lv_is_visible (some (s <> ("_rimage" <> t))) ≡ false)
unfolding lv_is_visible lv_is_pvmove_volume
lv_is_visible-reserved s t = (
  ground (arith, starts_with-append "pvmove" t),
  starts_with-append "pvmove" t,
  ground (arith, strstr-append s "_tmeta" t),
  ground (arith, strstr-append s "_rimage" t),
)
