-- ===== src/Job/Base/Objects.antt =====
-- The objects that a job of src/job.c is about.
use storaged.Prelude.{String, Option, none, some, List, [], ◌∷◌, length, arith, ◌≤◌}
use storaged.Job.Base.{array_with, add_thing}

pub add_things : List (Option String) → List String → List String
add_things [] paths = paths
add_things (t ∷ ts) paths = add_things ts (add_thing t paths)

length-array_with : (path : String) (ps : List String) → length (array_with path ps) ≤ 1
length-array_with path [] = omega arith
length-array_with path (p ∷ ps) = omega arith

length-add_thing :
    (t : Option String) (ps : List String) → length ps ≤ 1 → length (add_thing t ps) ≤ 1
unfolding add_thing
length-add_thing none ps h = h
length-add_thing (some path) ps h = ground (arith, h, length-array_with path ps)

length-add_things_from :
    (ts : List (Option String)) (ps : List String) → length ps ≤ 1 → length (add_things ts ps) ≤ 1
unfolding add_things
length-add_things_from [] ps h = h
length-add_things_from (t ∷ ts) ps h =
    length-add_things_from ts (add_thing t ps) (length-add_thing t ps h)

-- Whatever objects are added to a job, at most one is in its list at a time.
pub length-add_things : (ts : List (Option String)) → length (add_things ts []) ≤ 1
length-add_things ts = length-add_things_from ts [] (omega arith)
