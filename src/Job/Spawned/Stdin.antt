-- ===== src/Job/Spawned/Stdin.antt =====
-- The input that a spawned job writes to its child.
use mathlib.Core.List.{append_assoc, append-nil}
use storaged.Prelude.{
  ℕ, zero, suc, ◌<◌, ◌≡◌, refl, ap, ◌∙◌, true, false, List, [], ◌∷◌, ◌++◌, take, drop, length, All,
  arith,
}
use storaged.Job.Spawned.State.{
  Bytes, SpawnedJob, on_cancelled, read_child_stdout, read_child_stderr, write_child_stdin,
  child_watch_cb, idle_cb, emit_idle, is_empty,
}
use storaged.Job.Spawned.Events.{
  Event, cancelled, readable_stdout, readable_stderr, writable_stdin, child_exited, idle, dispatch,
  run_events,
}

take-drop {ℓ} : {A : Type ℓ} (n : ℕ) (xs : List A) → take n xs ++ drop n xs ≡ xs
take-drop zero xs = refl
take-drop (suc n) [] = refl
take-drop (suc n) (x ∷ xs) = ap (λ l. x ∷ l) (take-drop n xs)

-- What was written, then what is left to write
abbrev pub all_input : SpawnedJob → Bytes
all_input s = s.written ++ s.input_cursor

input-write : (n : ℕ) (s : SpawnedJob) → all_input (write_child_stdin n s) ≡ all_input s
unfolding write_child_stdin
input-write n s = ground (
  arith,
  append_assoc s.written (take n s.input_cursor) (drop n s.input_cursor),
  take-drop n s.input_cursor,
)

input-idle : (es : List _) (s : SpawnedJob) → all_input (emit_idle es s) ≡ all_input s
unfolding emit_idle
input-idle [] s = refl
input-idle (e ∷ es) s = refl

input-dispatch : (e : Event) (s : SpawnedJob) → all_input (dispatch e s) ≡ all_input s
unfolding dispatch on_cancelled read_child_stdout read_child_stderr child_watch_cb idle_cb
input-dispatch (cancelled e) s = ground arith
input-dispatch (readable_stdout buf) s = ground arith
input-dispatch (readable_stderr buf) s = ground arith
input-dispatch (writable_stdin n) s = input-write n s
input-dispatch (child_exited status out error) s = ground arith
input-dispatch idle s = input-idle s.idles s

-- Whatever callbacks run, and however many bytes each write takes, the bytes written to the child
-- followed by those left at the cursor are the input: nothing is lost, repeated or reordered.
pub input_is_kept :
    (es : List Event) (s : SpawnedJob)
    → (run_events es s).written ++ (run_events es s).input_cursor ≡ s.written ++ s.input_cursor
unfolding run_events
input_is_kept [] s = refl
input_is_kept (e ∷ es) s = input_is_kept es (dispatch e s) ∙ input-dispatch e s

-- One callback for each of the numbers of bytes that the channel takes
unfoldable pub writes : List ℕ → List Event
writes [] = []
writes (n ∷ ns) = writable_stdin n ∷ writes ns

length-drop-suc {ℓ} :
    {A : Type ℓ} (n : ℕ) (x : A) (xs : List A) → length (drop n xs) < suc (length xs)
length-drop-suc zero x xs = omega arith
length-drop-suc (suc n) x [] = omega arith
length-drop-suc (suc n) x (y ∷ xs) = omega (arith, length-drop-suc n y xs)

write-closed : (n : ℕ) (s : SpawnedJob) → s.stdin_open ≡ false → write_child_stdin n s ≡ s
unfolding write_child_stdin
write-closed n s h = ground arith

write-empty :
    (n : ℕ) (s : SpawnedJob)
    → s.input_cursor ≡ []
    → ((write_child_stdin n s).stdin_open ≡ false) × ((write_child_stdin n s).input_cursor ≡ [])
unfolding write_child_stdin is_empty
write-empty n s h = ground arith

write-some :
    (n : ℕ) (b : ℕ) (bs : Bytes) (s : SpawnedJob)
    → s.input_cursor ≡ b ∷ bs
    → s.stdin_open ≡ true
    → ((write_child_stdin n s).stdin_open ≡ true)
      × ((write_child_stdin n s).input_cursor ≡ drop n (b ∷ bs))
unfolding write_child_stdin is_empty
write-some n b bs s h o = ground arith

closed-writes : (ns : List ℕ) (s : SpawnedJob) → s.stdin_open ≡ false → run_events (writes ns) s ≡ s
unfolding run_events dispatch writes
closed-writes [] s h = refl
closed-writes (n ∷ ns) s h = ap (run_events (writes ns)) (write-closed n s h) ∙ closed-writes ns s h

abbrev Positive : ℕ → Type 0
Positive n = 0 < n

cursor-writes :
    (ns : List ℕ) (input : Bytes) (s : SpawnedJob)
    → s.input_cursor ≡ input
    → s.stdin_open ≡ true
    → All Positive ns
    → length input < length ns
    → ((run_events (writes ns) s).stdin_open ≡ false)
      × ((run_events (writes ns) s).input_cursor ≡ [])
unfolding run_events dispatch writes
cursor-writes [] input s e o p h = absurd (omega arith)
cursor-writes (n ∷ ns) [] s e o p h =
    let w = write-empty n s e in rw (closed-writes ns (write_child_stdin n s) w.0) w
cursor-writes (zero ∷ ns) (b ∷ bs) s e o p h = absurd (omega (arith, p.0))
cursor-writes (suc n ∷ ns) (b ∷ bs) s e o p h =
    let w = write-some (suc n) b bs s e o in
    cursor-writes ns (drop n bs) (write_child_stdin (suc n) s) w.1 w.0 p.1
      (omega (arith, length-drop-suc n b bs))

-- A job that has its whole input before it, and is called more often than the input has bytes, each
-- write taking at least one, has written the input exactly and closed the child's input.
pub input_is_written :
    (ns : List ℕ) (s : SpawnedJob)
    → s.stdin_open ≡ true
    → s.written ≡ []
    → All Positive ns
    → length s.input_cursor < length ns
    → ((run_events (writes ns) s).stdin_open ≡ false)
      × ((run_events (writes ns) s).written ≡ s.input_cursor)
input_is_written ns s o w p h =
    let ends = cursor-writes ns s.input_cursor s refl o p h in
    let kept = input_is_kept (writes ns) s in
    (ends.0, ground (arith, kept, ends.1, w, append-nil (run_events (writes ns) s).written))
