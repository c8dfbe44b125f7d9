-- ===== src/Daemon/Bus/Follow.antt =====
-- Whether one thing is published, as a list of effects changes it.
use storaged.Prelude.{◌≡◌, refl, Bool, true, false, List, [], ◌∷◌, ◌++◌, if◌then◌else◌}
use storaged.Objects.{Thing, Effect, publish, unpublish, trigger_udev, progress}
use storaged.Daemon.Bus.{thing_eq}

abbrev pub follow : Thing → List Effect → Bool → Bool
follow t [] s = s
follow t (publish path u ∷ es) s = follow t es (if thing_eq t u then true else s)
follow t (unpublish path u ∷ es) s = follow t es (if thing_eq t u then false else s)
follow t (trigger_udev dev ∷ es) s = follow t es s
follow t (progress operation dev percent ∷ es) s = follow t es s

pub follow-append :
    (t : Thing) (xs ys : List Effect) (s : Bool)
    → follow t (xs ++ ys) s ≡ follow t ys (follow t xs s)
follow-append t [] ys s = refl
follow-append t (publish path u ∷ xs) ys s = follow-append t xs ys _
follow-append t (unpublish path u ∷ xs) ys s = follow-append t xs ys _
follow-append t (trigger_udev dev ∷ xs) ys s = follow-append t xs ys s
follow-append t (progress operation dev percent ∷ xs) ys s = follow-append t xs ys s
