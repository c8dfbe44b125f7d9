-- ===== src/Util/ObjectPath/Chars.antt =====
-- What the escaping of src/util.c writes into an object path.
use Prim.Native.Char.{Char, code}
use Prim.Native.String
use Prim.Native.String.{count}
use text.Mathlib.TextLemmas.{
  nil-append, cons-append, append-nil, append_assoc, length-append, length-cons,
}
use storaged.Prelude.{
  ℕ, zero, suc, ◌/◌, ◌%◌, ◌<◌, String, ◌≡◌, refl, Bool, true, false, ◌&&◌, ◌||◌, some, List, [],
  ◌∷◌, arith, ltb, ◌==◌, if◌then◌else◌, Bool-cases, inl, inr,
}
use storaged.Util.ObjectPath.{
  is_path_char, int_of_char, hex_digit, hex, printf_02x, escape, safe_append_to_object_path,
  append_parts, has_slash_suffix, build_object_path,
}

-- A test passes on every character of a text.
unfoldable pub all_chars : (ℕ → Bool) → String → Bool
all_chars p String.[] = true
all_chars p (String.◌∷◌ c s) = p (code c) && all_chars p s

all_chars-append :
    (p : ℕ → Bool) (s t : String)
    → all_chars p s ≡ true
    → all_chars p t ≡ true
    → all_chars p (String.◌++◌ s t) ≡ true
unfolding all_chars
all_chars-append p String.[] t hs ht = rw (nil-append t) ht
all_chars-append p (String.◌∷◌ c s) t hs ht =
    rw (cons-append c s t) (ground (arith, all_chars-append p s t))

all_chars-weaken :
    (s : String)
    → all_chars is_path_char s ≡ true
    → all_chars (λ c. is_path_char c || c == b'/') s ≡ true
unfolding all_chars
all_chars-weaken String.[] h = refl
all_chars-weaken (String.◌∷◌ c s) h = ground (arith, all_chars-weaken s)

-- A test passes on every number under a limit.
passes_under : (ℕ → Bool) → ℕ → Bool
passes_under p zero = true
passes_under p (suc limit) = let lower = passes_under p limit in if p limit then lower else false

passes_under-apply :
    (p : ℕ → Bool) (limit c : ℕ) → c < limit → passes_under p limit ≡ true → p c ≡ true
unfolding passes_under
passes_under-apply p zero c below all = absurd (omega arith)
passes_under-apply p (suc limit) c below all = ground (arith, passes_under-apply p limit c)

hex_digit_table : passes_under (λ d. all_chars is_path_char (hex_digit d)) 16 ≡ true
unfolding passes_under hex_digit all_chars is_path_char
hex_digit_table = refl

hex_digit_ok : (d : ℕ) → d < 16 → all_chars is_path_char (hex_digit d) ≡ true
hex_digit_ok d h = passes_under-apply _ 16 d h hex_digit_table

hex_ok : (fuel n : ℕ) → all_chars is_path_char (hex fuel n) ≡ true
unfolding hex
hex_ok zero n = unfold all_chars in refl
hex_ok (suc fuel) n = elim (Bool-cases (ltb n 16)) [
  | inl small ↦ rw small (hex_digit_ok n (ground arith))
  | inr large ↦ rw large (
      all_chars-append is_path_char (hex fuel (n / 16)) (hex_digit (n % 16)) (hex_ok fuel (n / 16))
        (hex_digit_ok (n % 16) (omega arith)))
]

printf_02x_ok : (n : ℕ) → all_chars is_path_char (printf_02x n) ≡ true
unfolding printf_02x
printf_02x_ok n = elim (Bool-cases (ltb n 16)) [
  | inl small ↦ rw small (
      all_chars-append is_path_char "0" (hex 8 n) (unfold all_chars is_path_char in refl)
        (hex_ok 8 n))
  | inr large ↦ rw large (hex_ok 8 n)
]

pub escape_ok : (c : Char) → all_chars is_path_char (escape c) ≡ true
unfolding escape
escape_ok c = elim (Bool-cases (is_path_char (code c))) [
  | inl plain ↦ rw plain (unfold all_chars in rw plain)
  | inr other ↦ rw other (
      all_chars-append is_path_char "_" (printf_02x (int_of_char (code c)))
        (unfold all_chars is_path_char in refl) (printf_02x_ok (int_of_char (code c))))
]

safe_append-ok :
    (str s : String)
    → all_chars (λ c. is_path_char c || c == b'/') str ≡ true
    → all_chars (λ c. is_path_char c || c == b'/') (safe_append_to_object_path str s) ≡ true
unfolding safe_append_to_object_path
safe_append-ok str String.[] h = h
safe_append-ok str (String.◌∷◌ c s) h =
    safe_append-ok (String.◌++◌ str (escape c)) s
      (all_chars-append _ str (escape c) h (all_chars-weaken (escape c) (escape_ok c)))

-- The text appended to the base, which `append_parts` never looks at.
safe_append-append :
    (s t u : String)
    → safe_append_to_object_path (String.◌++◌ s t) u
      ≡ String.◌++◌ s (safe_append_to_object_path t u)
unfolding safe_append_to_object_path
safe_append-append s t String.[] = refl
safe_append-append s t (String.◌∷◌ c u) =
    rw (append_assoc s t (escape c)) (safe_append-append s (String.◌++◌ t (escape c)) u)

append_parts-append :
    (s t : String) (parts : List String)
    → append_parts (String.◌++◌ s t) parts ≡ String.◌++◌ s (append_parts t parts)
unfolding append_parts
append_parts-append s t [] = refl
append_parts-append s t (part ∷ parts) =
    rw (append_assoc s t "/", safe_append-append s (String.◌++◌ t "/") part)
      (append_parts-append s (safe_append_to_object_path (String.◌++◌ t "/") part) parts)

append_parts-ok :
    (path : String) (parts : List String)
    → all_chars (λ c. is_path_char c || c == b'/') path ≡ true
    → all_chars (λ c. is_path_char c || c == b'/') (append_parts path parts) ≡ true
unfolding append_parts
append_parts-ok path [] h = h
append_parts-ok path (part ∷ parts) h =
    append_parts-ok (safe_append_to_object_path (String.◌++◌ path "/") part) parts (
      safe_append-ok (String.◌++◌ path "/") part
        (all_chars-append _ path "/" h (unfold all_chars is_path_char in refl)))

-- For every base that is given and does not end in a slash, and all parts, the path is the base
-- followed by a text that does not depend on the base and that holds only slashes and the
-- characters that D-Bus allows in a path element.
pub build_object_path-chars :
    (base : String) (parts : List String)
    → has_slash_suffix base ≡ false
    → (build_object_path (some base) parts ≡ some (String.◌++◌ base (append_parts "" parts)))
      × (all_chars (λ c. is_path_char c || c == b'/') (append_parts "" parts) ≡ true)
unfolding build_object_path
build_object_path-chars base parts h = (
  rw (h, ← append_parts-append base "" parts, append-nil base),
  append_parts-ok "" parts (unfold all_chars in refl),
)

escape_lengths :
    passes_under (λ c. count (printf_02x (int_of_char c)) == (if ltb c 128 then 2 else 8)) 256
    ≡ true
unfolding passes_under printf_02x int_of_char hex hex_digit
escape_lengths = refl

-- A byte that D-Bus allows takes one character, another byte below 128 three characters, and a byte
-- from 128 on nine characters, since its sign is extended.
pub count-escape :
    (c : Char)
    → code c < 256
    → count (escape c) ≡ (if is_path_char (code c) then 1 else if ltb (code c) 128 then 3 else 9)
unfolding escape
count-escape c h = elim (Bool-cases (is_path_char (code c))) [
  | inl plain ↦ rw plain (length-cons c "")
  | inr other ↦
      rw (other, length-append "_" (printf_02x (int_of_char (code c))))
        (ground (arith, passes_under-apply _ 256 (code c) h escape_lengths))
]

pub build_object_path-some :
    (base : String) (parts : List String)
    → has_slash_suffix base ≡ false
    → build_object_path (some base) parts ≡ some (append_parts base parts)
unfolding build_object_path
build_object_path-some base parts h = rw h refl
