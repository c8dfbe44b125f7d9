-- ===== src/Util/ObjectPath.antt =====
-- safe_append_to_object_path and storage_util_build_object_path of src/util.c. A `gchar *` is a
-- text whose characters stand for bytes. Plain `char` is signed, as in the x86 and x86-64 ABIs.
pub mod Chars
pub mod Collision
use Prim.Native.Char.{Char, code}
use Prim.Native.String
use Prim.Native.String.{slice, len}
use text.Mathlib.TextLemmas.{nil-append, cons-append, append-nil}
use storaged.Prelude.{
  ℕ, zero, suc, ◌+◌, ◌-◌, ◌*◌, ◌/◌, ◌%◌, ◌^◌, ◌≤◌, ◌<◌, String, ◌≡◌, refl, Bool, true, false, ◌&&◌,
  ◌||◌, Option, none, some, List, [], ◌∷◌, arith, leb, ltb, ◌==◌, if◌then◌else◌, str_eq,
}

-- The characters that an element of a D-Bus object path may hold.
unfoldable pub is_path_char : ℕ → Bool
is_path_char c =
    (leb b'A' c && leb c b'Z')
    || (leb b'a' c && leb c b'z')
    || (leb b'0' c && leb c b'9')
    || c == b'_'

-- `gint c = s[n]`, read back by `%x` as an unsigned 32-bit number.
unfoldable pub int_of_char : ℕ → ℕ
int_of_char c = if ltb c 128 then c else c + 2 ^ 32 - 256

unfoldable pub hex_digit : ℕ → String
hex_digit d = slice "0123456789abcdef" d (d + 1)

-- The digits of a number below 16 ^ fuel, the first one at least.
unfoldable pub hex : ℕ → ℕ → String
hex zero n = ""
hex (suc fuel) n =
    let more = String.◌++◌ (hex fuel (n / 16)) (hex_digit (n % 16)) in
    if ltb n 16 then hex_digit n else more

-- printf's `%02x` of a 32-bit number
unfoldable pub printf_02x : ℕ → String
printf_02x n = if ltb n 16 then String.◌++◌ "0" (hex 8 n) else hex 8 n

unfoldable pub escape : Char → String
escape c =
    if is_path_char (code c)
    then String.◌∷◌ c ""
    else String.◌++◌ "_" (printf_02x (int_of_char (code c)))

unfoldable pub safe_append_to_object_path : String → String → String
safe_append_to_object_path str String.[] = str
safe_append_to_object_path str (String.◌∷◌ c s) =
    safe_append_to_object_path (String.◌++◌ str (escape c)) s

unfoldable pub append_parts : String → List String → String
append_parts path [] = path
append_parts path (part ∷ parts) =
    append_parts (safe_append_to_object_path (String.◌++◌ path "/") part) parts

-- g_str_has_suffix (base, "/")
unfoldable pub has_slash_suffix : String → Bool
has_slash_suffix s = str_eq (slice s (len s - 1) (len s)) "/"

-- `none` is the NULL of g_return_val_if_fail; a NULL base is `none` too.
unfoldable pub build_object_path : Option String → List String → Option String
build_object_path none parts = none
build_object_path (some base) parts =
    if has_slash_suffix base then none else some (append_parts base parts)
