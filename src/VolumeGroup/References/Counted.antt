-- ===== src/VolumeGroup/References/Counted.antt =====
-- The count of a group of src/volumegroup.c is the number of those that hold a reference: the reports
-- of the helper.
use storaged.Prelude.{
  String, Option, none, some, List, [], ◌∷◌, not, any, str_eq, ℕ, ◌+◌, ◌≡◌, ◌<◌, refl, Bool, true,
  false, ◌&&◌, ◌==◌, if◌then◌else◌, arith, subst,
}
use storaged.System.{Result, ok, err}
use storaged.Variant.{Dict, Info, lookup_str, info_dicts}
use storaged.Util.Name.{lv_is_visible}
use storaged.VolumeGroup.Update.{is_unchanged, list_of}
use storaged.VolumeGroup.References.{
  add_volume, add_volumes, Object, ref, unref, Group, publish_once, update_over, update_reported,
}

abbrev pub one_if : Bool → ℕ
one_if b = if b then 1 else 0

abbrev pub holders : Group → ℕ
holders g =
    one_if g.in_table + one_if g.exported + g.updates + g.idles + g.timers + g.polls + g.volume_refs

-- An object with so many references
pub record Counts (n : ℕ) (o : Object) : Type 0 where
  pub counted : o.refs ≡ n
  pub once : o.finalized ≡ one_if (n == 0)
  pub unmisused : o.misused ≡ false

-- The count is right, and the group is put on the bus at most once.
pub record IsCounted (g : Group) : Type 0 where
  pub counts : Counts (holders g) g.object
  pub shown_once : (g.exported && g.need_publish) ≡ false

pub by_number : {m n : ℕ} {o : Object} → m ≡ n → Counts m o → Counts n o
by_number {o = o} e c = subst (λ k. Counts k o) e c

pub ref-Counts : {n : ℕ} {o : Object} → 0 < n → Counts n o → Counts (n + 1) (ref o)
unfolding ref
ref-Counts {n} {o} some_one c = record {
  counted = ground (arith, c.counted);
  once = ground (arith, c.counted, c.once);
  unmisused = ground (arith, c.counted, c.unmisused);
}

pub unref-Counts : {n : ℕ} {o : Object} → Counts (n + 1) o → Counts n (unref o)
unfolding unref
unref-Counts {n} {o} c = record {
  counted = ground (arith, c.counted);
  once = ground (arith, c.counted, c.once);
  unmisused = ground (arith, c.counted, c.unmisused);
}

pub if_lem :
    (P : Group → Type 0) (b : Bool) (x y : Group)
    → (b ≡ true → P x)
    → (b ≡ false → P y)
    → P (if b then x else y)
if_lem P true x y h k = h refl
if_lem P false x y h k = k refl

publish-IsCounted : (g : Group) → 0 < holders g → IsCounted g → IsCounted (publish_once g)
unfolding publish_once
publish-IsCounted g some_one h =
    if_lem IsCounted g.need_publish _ g
      (λ first. record {
        counts = by_number (ground (arith, first, h.shown_once)) (ref-Counts some_one h.counts);
        shown_once = refl;
      })
      (λ again. h)

-- A group with an update under way
pub record IsDue (g : Group) : Type 0 where
  pub is_counted : IsCounted g
  pub due : 0 < g.updates

publish-IsDue : (g : Group) → IsDue g → IsDue (publish_once g)
unfolding publish_once
publish-IsDue g h = record {
  is_counted = publish-IsCounted g (omega (arith, h.due)) h.is_counted;
  due = if_lem (λ x. 0 < x.updates) g.need_publish _ g (λ first. h.due) (λ again. h.due);
}

update_over-IsCounted : (g : Group) → IsDue g → IsCounted (update_over g)
unfolding update_over
update_over-IsCounted g h = record {
  counts = unref-Counts (by_number (omega (arith, h.due)) h.is_counted.counts);
  shown_once = h.is_counted.shown_once;
}

add_volume-IsDue : (n : Option String) (g : Group) → IsDue g → IsDue (add_volume n g)
unfolding add_volume
add_volume-IsDue none g h = h
add_volume-IsDue (some name) g h =
    if_lem IsDue (lv_is_visible (some name) && not (any (str_eq name) g.volumes)) _ g
      (λ new. record {
        is_counted = record {
          counts = by_number (omega arith) (ref-Counts (omega (arith, h.due)) h.is_counted.counts);
          shown_once = h.is_counted.shown_once;
        };
        due = h.due;
      })
      (λ old. h)

add_volumes-IsDue : (infos : List Dict) (g : Group) → IsDue g → IsDue (add_volumes infos g)
unfolding add_volumes
add_volumes-IsDue [] g h = h
add_volumes-IsDue (info ∷ infos) g h =
    add_volumes-IsDue infos _ (add_volume-IsDue (lookup_str "name" info) g h)

with_info : {g : Group} (info : Info) → IsDue g → IsDue (record g { info = some info })
with_info info h = record {
  is_counted = record { counts = h.is_counted.counts; shown_once = h.is_counted.shown_once };
  due = h.due;
}

with_volumes : {g : Group} (names : List String) → IsDue g → IsDue (record g { volumes = names })
with_volumes names h = record {
  is_counted = record { counts = h.is_counted.counts; shown_once = h.is_counted.shown_once };
  due = h.due;
}

with_data : {g : Group} (n : ℕ) → IsCounted g → IsCounted (record g { update_data = n })
with_data n h = record { counts = h.counts; shown_once = h.shown_once }

pub report-IsCounted : (r : Result Info) (g : Group) → IsDue g → IsCounted (update_reported r g)
unfolding update_reported
report-IsCounted (err e) g h = update_over-IsCounted _ (publish-IsDue g h)
report-IsCounted (ok info) g h =
    let p = publish-IsDue g h in
    if_lem IsCounted (is_unchanged (publish_once g).info info) _ _
      (λ same. update_over-IsCounted _ p)
      (λ news. with_data _ (
        update_over-IsCounted _ (
          with_volumes _
            (add_volumes-IsDue (list_of (info_dicts "lvs" info)) _ (with_info info p)))))
