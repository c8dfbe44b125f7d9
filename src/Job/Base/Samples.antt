-- ===== src/Job/Base/Samples.antt =====
-- The samples that src/job.c keeps.
use storaged.Prelude.{
  ℕ, zero, suc, ◌+◌, ◌-◌, ◌≤◌, ◌≡◌, refl, true, false, List, [], ◌∷◌, ◌++◌, ◌==◌, ltb, length, drop,
  length-append, arith, Bool-cases, inl, inr, ap, ◌∙◌,
}
use storaged.Job.Base.{Floats, Sample, max_samples, add_sample, on_notify_progress}
use mathlib.Core.List.{append_assoc, append-nil}

module _ {ℓ} {A : Type ℓ} where
  drop-append : (n : ℕ) (xs ys : List A) → n ≤ length xs → drop n (xs ++ ys) ≡ drop n xs ++ ys
  drop-append zero xs ys h = refl
  drop-append (suc n) [] ys h = absurd (omega arith)
  drop-append (suc n) (x ∷ xs) ys h = drop-append n xs ys (omega arith)

  length-drop : (n : ℕ) (xs : List A) → length (drop n xs) ≡ length xs - n
  length-drop zero xs = omega arith
  length-drop (suc n) [] = omega arith
  length-drop (suc n) (x ∷ xs) = omega (arith, length-drop n xs)

  drop-drop_one : (n : ℕ) (xs : List A) → drop 1 (drop n xs) ≡ drop (suc n) xs
  drop-drop_one zero xs = refl
  drop-drop_one (suc n) [] = refl
  drop-drop_one (suc n) (x ∷ xs) = drop-drop_one n xs

  -- The last 100 items of a list
  abbrev pub last_samples : List A → List A
  last_samples xs = drop (length xs - max_samples) xs

module _ (F : Floats) where
  add_full :
      (s : Sample F) (history : List (Sample F)) (k n : ℕ)
      → length history ≡ k + 100
      → n ≡ suc k
      → drop 1 (drop k history) ++ s ∷ [] ≡ drop n (history ++ s ∷ [])
  add_full s history k n e m =
      rw (m, drop-append (suc k) history (s ∷ []) (omega arith), drop-drop_one k history)

  add_sample-last :
      (s : Sample F) (history : List (Sample F))
      → add_sample F s (last_samples history) ≡ last_samples (history ++ s ∷ [])
  unfolding add_sample
  add_sample-last s history = elim (Bool-cases (ltb (length history) 100)) [
    | inl few ↦
        let none_dropped : length history - 100 ≡ 0 = ground arith in
        let none_after : length (history ++ s ∷ []) - 100 ≡ 0 =
          ground (arith, length-append history (s ∷ [])) in
        let not_full : (length history == 100) ≡ false = ground arith in
        rw (none_dropped, none_after, not_full)
    | inr many ↦
        let k = length history - 100 in
        let split : length history ≡ k + 100 = ground arith in
        let full : (length (drop k history) == 100) ≡ true =
          ground (arith, length-drop k history) in
        rw full (
          add_full s history k (length (history ++ s ∷ []) - 100) split
            (omega (arith, length-append history (s ∷ []))))
  ]

  -- One progress notification after the other, each with its time, the bytes and the progress
  pub notified : List (ℕ × ℕ × F.Real) → List (Sample F) → List (Sample F)
  notified [] samples = samples
  notified ((now, bytes, progress) ∷ rest) samples =
      notified rest (on_notify_progress F now bytes progress samples).0

  pub samples_of : List (ℕ × ℕ × F.Real) → List (Sample F)
  samples_of [] = []
  samples_of ((now, bytes, progress) ∷ rest) =
      record { time_usec = now; value = progress } ∷ samples_of rest

  notified-from :
      (ns : List (ℕ × ℕ × F.Real)) (history : List (Sample F))
      → notified ns (last_samples history) ≡ last_samples (history ++ samples_of ns)
  unfolding notified samples_of on_notify_progress
  notified-from [] history = rw (append-nil history)
  notified-from ((now, bytes, progress) ∷ rest) history =
      let s : Sample F = record { time_usec = now; value = progress } in
      rw (add_sample-last s history) (
        notified-from rest (history ++ s ∷ [])
        ∙ ap last_samples (append_assoc history (s ∷ []) (samples_of rest)))

  -- After any notifications the samples kept are the last hundred of all, oldest first, so the array
  -- of a hundred is never overrun.
  pub samples_are_last :
      (ns : List (ℕ × ℕ × F.Real))
      → (notified ns [] ≡ last_samples (samples_of ns)) × (length (notified ns []) ≤ 100)
  samples_are_last ns =
      let e : notified ns [] ≡ last_samples (samples_of ns) = notified-from ns [] in
      (e, rw e (omega (arith, length-drop (length (samples_of ns) - 100) (samples_of ns))))
