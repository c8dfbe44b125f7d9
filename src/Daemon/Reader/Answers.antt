-- ===== src/Daemon/Reader/Answers.antt =====
-- How `storage_daemon_spawn_for_variant` of src/daemon.c answers: once, with all that the child wrote.
use storaged.Prelude.{
  ℕ, String, ◌≡◌, refl, sym, Option, none, some, List, [], ◌∷◌, ◌++◌, map, ap, ◌∙◌, if◌then◌else◌,
}
use mathlib.Core.List.{append_assoc, append-nil}
use storaged.System.{Error, Result, ok, err, WaitStatus}
use storaged.Util.Status.{is_success}
use storaged.Daemon.Reader.{
  Bytes, Directories, argv_of, Answer, Reading, Event, readable, ended, rest_of, step_reader,
  read_events, spawn_for_variant, start_reader,
}

abbrev pub joined : List Bytes → Bytes
joined [] = []
joined (chunk ∷ chunks) = chunk ++ joined chunks

module _ {ℓ} {V : Type ℓ} (parse : Bytes → V) (exit_error : WaitStatus → Error) where
  -- What the callback is to be given for the outcome of the start, all output, and the wait status.
  abbrev pub expected : Result ℕ → Bytes → WaitStatus → Answer V
  expected (err e) output status = record { pid = 0; result = err e }
  expected (ok pid) output status = record {
    pid = pid;
    result = if is_success status then ok (parse output) else err (exit_error status);
  }

  abbrev pub answering : ℕ → List (Answer V) → Reading V
  answering pid answers = record { returned = pid; reader = none; answers = answers }

  deaf :
      (es : List Event) (pid : ℕ) (answers : List (Answer V))
      → read_events parse exit_error es (answering pid answers) ≡ answering pid answers
  unfolding read_events step_reader
  deaf [] pid answers = refl
  deaf (e ∷ es) pid answers = deaf es pid answers

  read :
      (chunks : List Bytes) (status : WaitStatus) (rest : Option Bytes) (after : List Event)
      (pid : ℕ) (before : Bytes)
      → read_events parse exit_error (map readable chunks ++ ended status rest ∷ after) (record {
        returned = pid;
        reader = some (record { pid = pid; output = before });
        answers = [];
      })
        ≡ answering pid (expected (ok pid) ((before ++ joined chunks) ++ rest_of rest) status ∷ [])
  unfolding read_events step_reader
  read [] status rest after pid before =
      deaf after pid _
      ∙ ap (λ (bytes : Bytes). answering pid (expected (ok pid) bytes status ∷ []))
          (ap (λ (b : Bytes). b ++ rest_of rest) (sym (append-nil before)))
  read (chunk ∷ chunks) status rest after pid before =
      read chunks status rest after pid (before ++ chunk)
      ∙ ap
          (λ (bytes : Bytes). answering pid (expected (ok pid) (bytes ++ rest_of rest) status ∷ []))
          (append_assoc before chunk (joined chunks))

  outcome :
      (chunks : List Bytes) (status : WaitStatus) (rest : Option Bytes) (after : List Event)
      (started : Result ℕ)
      → let answer = expected started (joined chunks ++ rest_of rest) status in
        read_events parse exit_error
          (map readable chunks ++ ended status rest ∷ after)
          (start_reader parse exit_error started)
        ≡ answering answer.pid (answer ∷ [])
  unfolding start_reader
  outcome chunks status rest after (err e) = deaf _ 0 _
  outcome chunks status rest after (ok pid) = read chunks status rest after pid []

  -- Whatever chunks the output of the child is read in, the callback is called once: with all the
  -- output, parsed, and the pid that was returned, if the child succeeds; with the error of its status if
  -- it does not; and if it cannot be started, with that error and a pid of 0, while 0 is returned. Nothing
  -- that comes after is heard.
  pub answered_once :
      (dirs : Directories) (resource_dir : Option String) (spawn : List String → Result ℕ)
      (argv : List String) (chunks : List Bytes) (status : WaitStatus) (rest : Option Bytes)
      (after : List Event)
      → let started = spawn (argv_of dirs resource_dir argv) in
        let answer = expected started (joined chunks ++ rest_of rest) status in
        read_events parse exit_error
          (map readable chunks ++ ended status rest ∷ after)
          (spawn_for_variant parse exit_error dirs resource_dir spawn argv)
        ≡ answering answer.pid (answer ∷ [])
  unfolding spawn_for_variant
  answered_once dirs resource_dir spawn argv chunks status rest after =
      outcome chunks status rest after (spawn (argv_of dirs resource_dir argv))
