-- ===== src/Methods/Waiting/Replies.antt =====
-- How often a method that waits for an object replies, and with what.
use storaged.Prelude.{
  String, ◌≡◌, refl, ap, ◌∙◌, true, false, Option, none, some, List, [], ◌∷◌, ◌++◌, ◌<>◌,
  if◌then◌else◌, arith, is_some, not, sym, ◌≢◌, Bool-cases, inl, inr,
}
use storaged.System.{udisks_error, failed}
use storaged.Methods.Waiting.{
  Published, path_of, Wanted, is_wanted, Reply, completed, returned_error, Waiting, wait_for,
  answer, on_published, on_complete, all_published,
}

-- The first object that is wanted
unfoldable pub first_wanted : Wanted → List Published → Option Published
first_wanted wanted [] = none
first_wanted wanted (p ∷ ps) =
    let later = first_wanted wanted ps in if is_wanted wanted p then some p else later

all_published-disconnected :
    (ps : List Published) (w : Waiting) → w.connected ≡ false → all_published ps w ≡ w
unfolding all_published on_published
all_published-disconnected [] w h = refl
all_published-disconnected (p ∷ ps) w h =
    let kept : on_published p w ≡ w = ground arith in
    ap (all_published ps) kept ∙ all_published-disconnected ps w h

-- The replies to a call whose job did not fail
abbrev pub reply_of : Option Published → List Reply
reply_of none = []
reply_of (some p) = completed (path_of p) ∷ []

on_published-wait_for :
    (wanted : Wanted) (p : Published)
    → on_published p (wait_for wanted) ≡ (
        if is_wanted wanted p
        then record { wanted = wanted; connected = false; replies = completed (path_of p) ∷ [] }
        else wait_for wanted)
unfolding on_published answer
on_published-wait_for wanted p = ground arith

all_published-wait_for :
    (wanted : Wanted) (ps : List Published)
    → ((all_published ps (wait_for wanted)).replies ≡ reply_of (first_wanted wanted ps))
      × ((all_published ps (wait_for wanted)).connected ≡ not (is_some (first_wanted wanted ps)))
      × (first_wanted wanted ps ≡ none → all_published ps (wait_for wanted) ≡ wait_for wanted)
unfolding all_published first_wanted
all_published-wait_for wanted [] = (refl, refl, λ h. refl)
all_published-wait_for wanted (p ∷ ps) = elim (Bool-cases (is_wanted wanted p)) [
  | inl here ↦
      let done : Waiting = record {
        wanted = wanted;
        connected = false;
        replies = completed (path_of p) ∷ [];
      } in
      let first : on_published p (wait_for wanted) ≡ done =
        ground (arith, on_published-wait_for wanted p) in
      let rest : all_published ps (on_published p (wait_for wanted)) ≡ done =
        ap (all_published ps) first ∙ all_published-disconnected ps done refl in
      (ground (arith, rest), ground (arith, rest), λ h. absurd (ground arith))
  | inr elsewhere ↦
      let first : on_published p (wait_for wanted) ≡ wait_for wanted =
        ground (arith, on_published-wait_for wanted p) in
      let same : all_published ps (on_published p (wait_for wanted))
          ≡ all_published ps (wait_for wanted) =
        ap (all_published ps) first in
      let ih = all_published-wait_for wanted ps in
      (ground (arith, same, ih.0), ground (arith, same, ih.1), λ h. same ∙ ih.2 (ground arith))
]

all_published-append :
    (ps qs : List Published) (w : Waiting)
    → all_published (ps ++ qs) w ≡ all_published qs (all_published ps w)
unfolding all_published
all_published-append [] qs w = refl
all_published-append (p ∷ ps) qs w = all_published-append ps qs (on_published p w)

-- A call whose job succeeds is answered once, with the path of the first object that appears and is
-- wanted, be that before or after the end of the job; and not at all if none appears. A call whose job
-- fails before such an object has appeared gets one error with the job's message, whatever appears later.
pub replies_once :
    (wanted : Wanted) (before after : List Published) (prefix message : String)
    → ((w : Waiting)
        → on_complete prefix true message (all_published before (wait_for wanted)) ≡ some w
        → (all_published after w).replies ≡ reply_of (first_wanted wanted (before ++ after)))
      × (first_wanted wanted before ≡ none
          → (w : Waiting) × (on_complete prefix false message
                (all_published before (wait_for wanted))
              ≡ some w)
            × ((all_published after w).replies
                ≡ returned_error (udisks_error failed (prefix <> message)) ∷ []))
unfolding on_complete answer
replies_once wanted before after prefix message = (
  λ w e.
      let same : w ≡ all_published before (wait_for wanted) = ground arith in
      ap (λ v. (all_published after v).replies) same
      ∙ ap Waiting.replies (sym (all_published-append before after (wait_for wanted)))
      ∙ (all_published-wait_for wanted (before ++ after)).0,
  λ unseen.
      let still = (all_published-wait_for wanted before).2 unseen in
      let failed_wait : Waiting = record {
        wanted = wanted;
        connected = false;
        replies = returned_error (udisks_error failed (prefix <> message)) ∷ [];
      } in
      (
        failed_wait,
        ap (on_complete prefix false message) still,
        ap Waiting.replies (all_published-disconnected after failed_wait refl),
      ),
)

-- The flaw: if the object that is wanted has appeared when the job fails, the handler uses the closure
-- that was freed with the reply.
pub late_failure_uses_freed :
    (wanted : Wanted) (before : List Published) (prefix message : String)
    → first_wanted wanted before ≢ none
    → on_complete prefix false message (all_published before (wait_for wanted)) ≡ none
unfolding on_complete
late_failure_uses_freed wanted before prefix message seen =
    ground (arith, (all_published-wait_for wanted before).1)
