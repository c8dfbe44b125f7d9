-- ===== src/Prelude/Text.antt =====
-- Texts: concatenation, strstr, and the numbers that printf writes.
use Prim.Native.Nat.{ℕ, zero, suc, ◌+◌, ◌/◌, ◌%◌}
use Prim.Native.String
use Prim.Native.String.{String, slice}
use mathlib.Core.Path.{◌≡◌}
use mathlib.Core.Bool.{Bool, true, ◌||◌}
use mathlib.Core.List.{List, [], ◌∷◌}
use native.Mathlib.Omega.{arith}
use text.Mathlib.Text.{starts_with}
use text.Mathlib.TextLemmas.{nil-append, cons-append}
use text.Mathlib.TextPositions.{starts_with-append}
use storaged.Prelude.Tests.{ltb, if◌then◌else◌}

-- Texts joined end to end
infixr 65 ◌<>◌
abbrev pub ◌<>◌ : String → String → String
s <> t = String.◌++◌ s t

-- g_strjoinv
unfoldable pub join : String → List String → String
join sep [] = ""
join sep (s ∷ []) = s
join sep (s ∷ t ∷ rest) = s <> sep <> join sep (t ∷ rest)

-- strstr (s, t) != NULL
unfoldable pub strstr : String → String → Bool
strstr String.[] t = starts_with "" t
strstr (String.◌∷◌ c s) t = starts_with (String.◌∷◌ c s) t || strstr s t

true_or : (a b : Bool) → a ≡ true → (a || b) ≡ true
true_or a b h = ground arith

or_true : (a b : Bool) → b ≡ true → (a || b) ≡ true
or_true a b h = ground arith

strstr_here : (s t : String) → starts_with s t ≡ true → strstr s t ≡ true
unfolding strstr
strstr_here String.[] t h = h
strstr_here (String.◌∷◌ c s) t h = true_or _ _ h

-- A text is found wherever it stands.
pub strstr-append : (s t u : String) → strstr (s <> (t <> u)) t ≡ true
unfolding strstr
strstr-append String.[] t u =
    rw (nil-append (t <> u)) (strstr_here (t <> u) t (starts_with-append t u))
strstr-append (String.◌∷◌ c s) t u =
    rw (cons-append c s (t <> u)) (or_true _ _ (strstr-append s t u))

-- The digits of a number below base ^ fuel, base ≤ 16, one at least.
unfoldable pub digits : ℕ → ℕ → ℕ → String
digits base zero n = ""
digits base (suc fuel) n =
    let more = digits base fuel (n / base) <> slice "0123456789abcdef" (n % base) (n % base + 1) in
    if ltb n base then slice "0123456789abcdef" n (n + 1) else more

-- `%d` and `%lu` of a number below 2 ^ 64
unfoldable pub printf_d : ℕ → String
unfolding digits
printf_d n = digits 10 20 n
