-- ===== src/Util/ObjectPath/Collision.antt =====
-- Names that the escaping of src/util.c does not tell apart.
use Prim.Native.Char.{Char, code}
use text.Mathlib.TextLemmas.{nil-append, cons-append, append-nil, append_assoc}
use storaged.Prelude.{String, ◌≡◌, refl, sym, ap, ◌∙◌, true, false, some, [], ◌∷◌, ◌<>◌, arith}
use storaged.Util.ObjectPath.{
  is_path_char, escape, safe_append_to_object_path, append_parts, has_slash_suffix,
  build_object_path,
}
use storaged.Util.ObjectPath.Chars.{all_chars, escape_ok, build_object_path-some}

safe_append-parts :
    (str s t : String)
    → safe_append_to_object_path str (s <> t)
      ≡ safe_append_to_object_path (safe_append_to_object_path str s) t
unfolding safe_append_to_object_path
safe_append-parts str String.[] t = rw (nil-append t) refl
safe_append-parts str (String.◌∷◌ c s) t =
    rw (cons-append c s t) (safe_append-parts (str <> escape c) s t)

escape_plain : (c : Char) → is_path_char (code c) ≡ true → escape c ≡ String.◌∷◌ c ""
unfolding escape
escape_plain c h = rw h refl

safe_append-plain :
    (str s : String) → all_chars is_path_char s ≡ true → safe_append_to_object_path str s ≡ str <> s
unfolding safe_append_to_object_path all_chars
safe_append-plain str String.[] h = sym (append-nil str)
safe_append-plain str (String.◌∷◌ c s) h =
    let plain : is_path_char (code c) ≡ true = ground arith in
    let rest : all_chars is_path_char s ≡ true = ground arith in
    safe_append-plain (str <> escape c) s rest
    ∙ append_assoc str (escape c) s
    ∙ ap (λ u. str <> u)
        (ap (λ u. u <> s) (escape_plain c plain)
          ∙ cons-append c "" s
          ∙ ap (String.◌∷◌ c) (nil-append s))

step :
    (str s : String) (c : Char)
    → safe_append_to_object_path str (String.◌∷◌ c s)
      ≡ safe_append_to_object_path (str <> escape c) s
unfolding safe_append_to_object_path
step str s c = refl

-- A character has the same effect as its escape.
safe_append-escape :
    (str s t : String) (c : Char)
    → safe_append_to_object_path str (s <> String.◌∷◌ c t)
      ≡ safe_append_to_object_path str (s <> (escape c <> t))
safe_append-escape str s t c =
    let start = safe_append_to_object_path str s in
    safe_append-parts str s (String.◌∷◌ c t)
    ∙ step start t c
    ∙ ap (λ u. safe_append_to_object_path u t)
        (sym (safe_append-plain start (escape c) (escape_ok c)))
    ∙ sym (safe_append-parts start (escape c) t)
    ∙ sym (safe_append-parts str s (escape c <> t))

two_parts :
    (base group s t : String) (c : Char)
    → append_parts base (group ∷ (s <> String.◌∷◌ c t) ∷ [])
      ≡ append_parts base (group ∷ (s <> (escape c <> t)) ∷ [])
unfolding append_parts
two_parts base group s t c = safe_append-escape _ s t c

-- Two names of a group that differ in that one has a character where the other has its escape, `-` for
-- `_2d` say, have the same object path.
pub escaped_name_collides :
    (base group s t : String) (c : Char)
    → has_slash_suffix base ≡ false
    → build_object_path (some base) (group ∷ (s <> String.◌∷◌ c t) ∷ [])
      ≡ build_object_path (some base) (group ∷ (s <> (escape c <> t)) ∷ [])
escaped_name_collides base group s t c h =
    build_object_path-some base (group ∷ (s <> String.◌∷◌ c t) ∷ []) h
    ∙ ap some (two_parts base group s t c)
    ∙ sym (build_object_path-some base (group ∷ (s <> (escape c <> t)) ∷ []) h)
