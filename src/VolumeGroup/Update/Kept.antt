-- ===== src/VolumeGroup/Update/Kept.antt =====
-- Tables of logical volumes of src/volumegroup.c that are all published.
use storaged.Prelude.{
  ◌≡◌, String, Bool, some, [], ◌∷◌, Table, lookup, insert, retain, str_eq, eq_iff, arith,
  Bool-cases, inl, inr,
}
use storaged.LogicalVolume.State.{LogicalVolume}
use storaged.LogicalVolume.Update.Published.{IsPublished}

-- Every volume of the table is published, and stands under its name.
abbrev pub AllPublished : String → Table LogicalVolume → Type 0
AllPublished group [] = Unit
AllPublished group ((name, lv) ∷ lvs) = IsPublished group name lv × AllPublished group lvs

pub lookup-AllPublished :
    (group name : String) (lvs : Table LogicalVolume) (lv : LogicalVolume)
    → AllPublished group lvs
    → lookup name lvs ≡ some lv
    → IsPublished group name lv
unfolding lookup
lookup-AllPublished group name [] lv h e = absurd (ground arith)
lookup-AllPublished group name ((k, x) ∷ lvs) lv h e = elim (Bool-cases (str_eq k name)) [
  | inl here ↦ ground (arith, h.0, eq_iff k name)
  | inr further ↦ lookup-AllPublished group name lvs lv h.1 (ground (arith, further))
]

pub insert-AllPublished :
    (group name : String) (lv : LogicalVolume) (lvs : Table LogicalVolume)
    → IsPublished group name lv
    → AllPublished group lvs
    → AllPublished group (insert name lv lvs)
unfolding insert
insert-AllPublished group name lv [] p h = (p, tt)
insert-AllPublished group name lv ((k, x) ∷ lvs) p h = elim (Bool-cases (str_eq k name)) [
  | inl here ↦ let e : k ≡ name = (eq_iff k name).0 here in rw (here, e) (p, h.1)
  | inr further ↦ rw further (h.0, insert-AllPublished group name lv lvs p h.1)
]

pub retain-AllPublished :
    (group : String) (keep : String → Bool) (lvs : Table LogicalVolume)
    → AllPublished group lvs
    → AllPublished group (retain keep lvs)
unfolding retain
retain-AllPublished group keep [] h = tt
retain-AllPublished group keep ((k, x) ∷ lvs) h = elim (Bool-cases (keep k)) [
  | inl kept ↦ rw kept (h.0, retain-AllPublished group keep lvs h.1)
  | inr gone ↦ rw gone (retain-AllPublished group keep lvs h.1)
]
