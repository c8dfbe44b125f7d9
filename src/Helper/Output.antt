-- ===== src/Helper/Output.antt =====
-- `write_all` of src/helper.c. What write (2) returns is a parameter: `accept round size` for the
-- write of `size` bytes in that round, `none` for an error. Its `int` holds the sizes in question.
use storaged.Prelude.{
  ℕ, zero, suc, ◌-◌, ◌≤◌, ◌<◌, ◌≡◌, refl, Option, none, some, List, [], ◌∷◌, ◌++◌, arith, length,
  take, drop, ap, ◌∙◌,
}
use mathlib.Core.List.{append_assoc, append-nil}

-- What came of the call: all written, exit (1), or no end within the fuel.
pub data Outcome : Type 0 where
  written stopped running : Outcome

module _ (accept : ℕ → ℕ → Option ℕ) where
  -- The bytes on the descriptor come back with the outcome.
  pub write_all : ℕ → ℕ → List ℕ → List ℕ → Outcome × List ℕ
  write_all zero round out [] = (written, out)
  write_all zero round out (b ∷ mem) = (running, out)
  write_all (suc fuel) round out [] = (written, out)
  write_all (suc fuel) round out (b ∷ mem) = elim (accept round (length (b ∷ mem))) [
    | none ↦ (stopped, out)
    | some r ↦ write_all fuel (suc round) (out ++ take r (b ∷ mem)) (drop r (b ∷ mem))
  ]

-- What a sound write (2) may return for a request of at least one byte.
abbrev pub Accepts : (ℕ → ℕ → Option ℕ) → Type 0
Accepts accept =
    (round size : ℕ) → 0 < size → (r : ℕ) × (accept round size ≡ some r) × (0 < r) × (r ≤ size)

take-append-drop : (n : ℕ) (xs : List ℕ) → take n xs ++ drop n xs ≡ xs
take-append-drop zero xs = refl
take-append-drop (suc n) [] = refl
take-append-drop (suc n) (x ∷ xs) = ap (◌∷◌ x) (take-append-drop n xs)

length-drop : (n : ℕ) (xs : List ℕ) → length (drop n xs) ≡ length xs - n
length-drop zero xs = omega arith
length-drop (suc n) [] = omega arith
length-drop (suc n) (x ∷ xs) = omega (arith, length-drop n xs)

write_all-from :
    (accept : ℕ → ℕ → Option ℕ) (fuel round : ℕ) (out mem : List ℕ)
    → Accepts accept
    → length mem ≤ fuel
    → write_all accept fuel round out mem ≡ (written, out ++ mem)
unfolding write_all
write_all-from accept zero round out [] ok h = rw (append-nil out)
write_all-from accept zero round out (b ∷ mem) ok h = absurd (omega arith)
write_all-from accept (suc fuel) round out [] ok h = rw (append-nil out)
write_all-from accept (suc fuel) round out (b ∷ mem) ok h =
    let (r, e, pos, le) = ok round (length (b ∷ mem)) (omega arith) in
    rw (e, write_all)
      (write_all-from accept fuel (suc round) (out ++ take r (b ∷ mem)) (drop r (b ∷ mem)) ok
          (omega (arith, length-drop r (b ∷ mem)))
        ∙ ap (λ (x : List ℕ). (written, x))
            (append_assoc out (take r (b ∷ mem)) (drop r (b ∷ mem))
              ∙ ap (◌++◌ out) (take-append-drop r (b ∷ mem))))

-- However the system cuts the output into writes, each of at least one byte, as many rounds as there
-- are bytes are enough, and all bytes come out, once and in order.
pub write_all_complete :
    (accept : ℕ → ℕ → Option ℕ) (mem : List ℕ)
    → Accepts accept
    → write_all accept (length mem) 0 [] mem ≡ (written, mem)
write_all_complete accept mem ok = write_all-from accept (length mem) 0 [] mem ok (omega arith)
