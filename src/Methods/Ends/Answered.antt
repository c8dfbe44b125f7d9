-- ===== src/Methods/Ends/Answered.antt =====
-- From the end of the program that a method runs to the reply to its caller.
use storaged.Prelude.{
  ℕ, String, ◌≡◌, refl, ap, ◌∙◌, true, false, Option, none, some, List, [], ◌∷◌, ◌++◌, ◌<>◌, All,
  if◌then◌else◌, Bool-cases, Option-cases, inl, inr,
}
use storaged.System.{Error, udisks_error, failed, WaitStatus}
use storaged.Util.Status.{is_success, status_message, output_message}
use storaged.Job.Spawned.State.{Bytes}
use storaged.Job.Spawned.Completion.{Quiet, started}
use storaged.Job.Spawned.Events.{Event, child_exited, run_events, read_out, read_err}
use storaged.Job.Spawned.Message.{completions, run_reports_once}
use storaged.Methods.Waiting.{
  Published, Wanted, returned_error, Waiting, wait_for, on_complete, all_published,
}
use storaged.Methods.Waiting.Replies.{first_wanted, reply_of, replies_once}
use storaged.Job.Threaded.{Completion}
use storaged.Methods.Ends.{done, failed_with, finish, answers, waits}

module _ (text : Bytes → String) (code_number : Error → ℕ) where
  -- A method that runs a program and waits for its end is answered once: without an error exactly if the
  -- program exits with 0, and otherwise with an error that names the method's failure, the program with
  -- its status, and both of its outputs.
  pub program_answers :
      (prefix argv0 : String) (input : Option Bytes) (pid : ℕ) (before after : List Event)
      (status : WaitStatus) (rest_out rest_err : Bytes)
      → All Quiet before
      → answers (finish prefix) (
          completions text code_number argv0
            (run_events
              (before ++ child_exited status rest_out rest_err ∷ after)
              (started input pid)).signals)
        ≡ some (
            if is_success status
            then done
            else failed_with (
                udisks_error failed (
                  prefix
                  <> (status_message argv0 status
                      <> output_message
                          (some (text (read_err before ++ rest_err)))
                          (some (text (read_out before ++ rest_out)))))))
          ∷ []
  unfolding answers finish
  program_answers prefix argv0 input pid before after status ro re q =
      ap (answers (finish prefix))
        (run_reports_once text code_number argv0 input pid before after status ro re q)
      ∙ elim (Bool-cases (is_success status)) [
        | inl zero ↦ rw zero refl
        | inr other ↦ rw other refl
      ]

  -- What a program that has ended reports
  abbrev pub ended_with : String → WaitStatus → Bytes → Bytes → String
  ended_with argv0 status out error =
      status_message argv0 status <> output_message (some (text error)) (some (text out))

  waits-one :
      (prefix : String) (c : Completion) (w : Waiting)
      → waits (on_complete prefix) (some c ∷ []) w ≡ on_complete prefix c.success c.message w
  unfolding waits
  waits-one prefix c w = elim (Option-cases (on_complete prefix c.success c.message w)) [
    | inl crash ↦ rw (crash, waits) refl
    | inr (v, next) ↦ rw (next, waits) refl
  ]

  -- A method that runs a program and waits for an object: if the program succeeds, the caller is answered
  -- once with the path of the first object that is wanted, be that before or after the end of the program,
  -- and not at all if none appears; if it fails before such an object has appeared, the caller gets one
  -- error, with the program's status and outputs, whatever appears later.
  pub program_waits :
      (prefix argv0 : String) (input : Option Bytes) (pid : ℕ) (before after : List Event)
      (status : WaitStatus) (rest_out rest_err : Bytes) (wanted : Wanted)
      (seen later : List Published)
      → All Quiet before
      → let reports =
          completions text code_number argv0
            (run_events
              (before ++ child_exited status rest_out rest_err ∷ after)
              (started input pid)).signals in
        let message =
          ended_with argv0 status (read_out before ++ rest_out) (read_err before ++ rest_err) in
        let waiting = all_published seen (wait_for wanted) in
        (is_success status ≡ true
          → (w : Waiting) × (waits (on_complete prefix) reports waiting ≡ some w)
            × ((all_published later w).replies ≡ reply_of (first_wanted wanted (seen ++ later))))
        × (is_success status ≡ false
            → first_wanted wanted seen ≡ none
            → (w : Waiting) × (waits (on_complete prefix) reports waiting ≡ some w)
              × ((all_published later w).replies
                  ≡ returned_error (udisks_error failed (prefix <> message)) ∷ []))
  unfolding on_complete
  program_waits prefix argv0 input pid before after status ro re wanted seen later q =
      let waiting = all_published seen (wait_for wanted) in
      let reported =
        ap (λ cs. waits (on_complete prefix) cs waiting)
          (run_reports_once text code_number argv0 input pid before after status ro re q)
        ∙ waits-one prefix _ waiting in
      let output = text (read_err before ++ re) in
      let message = ended_with argv0 status (read_out before ++ ro) (read_err before ++ re) in
      let once = replies_once wanted seen later prefix in
      (
        λ zero. (waiting, reported ∙ rw zero refl, (once output).0 waiting refl),
        λ other none_seen.
            let (w, failed_so, replied) = (once message).1 none_seen in
            (w, reported ∙ rw other failed_so, replied),
      )
