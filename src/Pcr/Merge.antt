-- ===== src/Pcr/Merge.antt =====
-- What Merge of two lists selects.
mod Target
use go_tpm.Base.{
  ℕ, zero, suc, ◌+◌, ◌-◌, ◌^◌, ◌≤◌, ◌<◌, Bool, true, false, not, ◌&&◌, ◌||◌, Option, none, some,
  List, [], ◌∷◌, ◌++◌, ◌≡◌, refl, sym, ap, ap₂, ◌∙◌, arith, length, All, All-append, ltb, ◌==◌,
  ==_iff, if◌then◌else◌, Bool-cases, inl, inr, Outcome, ok, err, panic, ◌>>=◌,
}
use mathlib.Core.Path.{subst}
use go_tpm.Mu.Marshal.{max_list_length}
use go_tpm.Pcr.Bitmap.{Bitmap, PcrSelect, PcrError, to_pcrs, to_bitmap, has_pcr, bitmap_has}
use go_tpm.Pcr.Bits.{InRange, has_pcr-to_pcrs}
use go_tpm.Pcr.Wire.{IsSelection, Same, to_pcrs-InRange}
use go_tpm.Pcr.Sets.{bitmap_has-clear, length-clear, bitmap_has-set, length-set, full_bitmap}
use go_tpm.Pcr.Copy.{
  Copies, copy_selections-Copies, Copies-selected, Copies-IsSelection, must_copy-Same,
}
use go_tpm.Pcr.Selection.{Selection, copy_selections, must_copy, with_size, selected}
use go_tpm.Pcr.Lists.{
  clear_octets, set_octets, set_select, find_target, merge_into, merge_each, merge, must,
}
use Target.{Left, FoundIn, target_found}

set_select-at :
    (front : List Selection) (sl : Selection) (back : List Selection) (d : PcrSelect)
    → set_select (length front) d (front ++ sl ∷ back) ≡ front ++ record sl { select = d } ∷ back
set_select-at [] sl back d = refl
set_select-at (x ∷ front) sl back d = ap (λ l. x ∷ l) (set_select-at front sl back d)

-- The PCRs of a selection of bank h are added to a list.
Adds : Selection → List Selection → List Selection → Type 0
Adds sr out out' =
    (h k : ℕ) → selected h k out' ≡ (selected h k out || ((sr.hash == h) && has_pcr k sr.select))

selected-middle :
    (h k : ℕ) (front : List Selection) (s : Selection) (back : List Selection)
    → selected h k (front ++ s ∷ back)
      ≡ (selected h k front || (((s.hash == h) && has_pcr k s.select) || selected h k back))
selected-middle h k [] s back = refl
selected-middle h k (x ∷ front) s back = rw (selected-middle h k front s back) (ground arith)

All-middle :
    (front : List Selection) (s s' : Selection) (back : List Selection)
    → IsSelection s'
    → All IsSelection (front ++ s ∷ back)
    → All IsSelection (front ++ s' ∷ back)
All-middle [] s s' back h v = (h, v.1)
All-middle (x ∷ front) s s' back h v = (v.0, All-middle front s s' back h v.1)

All-at :
    (front : List Selection) (s : Selection) (back : List Selection)
    → All IsSelection (front ++ s ∷ back)
    → IsSelection s
All-at [] s back v = v.0
All-at (x ∷ front) s back v = All-at front s back v.1

-- What is added to the target, in Booleans: f, t and b are whether the selections before, at and
-- after the target have a PCR, and r whether the source has.
added : (f t b r : Bool) → (f || ((t || (r && not (f || (t || b)))) || b)) ≡ ((f || (t || b)) || r)
added true t b r = refl
added false true b r = refl
added false false true true = refl
added false false true false = refl
added false false false true = refl
added false false false false = refl

into_target :
    (sr : Selection) (front : List Selection) (sl : Selection) (back : List Selection)
    (lbmp rbmp rbmp' : Bitmap)
    → sl.hash ≡ sr.hash
    → length lbmp ≡ 255
    → length rbmp ≡ 255
    → ((k : ℕ) → bitmap_has k lbmp ≡ has_pcr k sl.select)
    → ((k : ℕ) → bitmap_has k rbmp ≡ has_pcr k sr.select)
    → Left sr.hash (front ++ sl ∷ back) rbmp rbmp'
    → Adds sr
        (front ++ sl ∷ back)
        (front ++ record sl { select = to_pcrs (set_octets lbmp rbmp') } ∷ back)
unfolding Left Adds
into_target sr front sl back lbmp rbmp rbmp' hash hl hr hb hs (size, bits) h k =
    let s' : Selection = record sl { select = to_pcrs (set_octets lbmp rbmp') } in
    let union : has_pcr k s'.select ≡ (
        has_pcr k sl.select
        || (has_pcr k sr.select && not (selected sr.hash k (front ++ sl ∷ back)))) =
      rw
        (
          has_pcr-to_pcrs,
          bitmap_has-set k lbmp rbmp' (omega (arith, size, hl, hr)),
          hb k,
          bits k,
          hs k,
        )
        refl in
    elim (Bool-cases (sr.hash == h)) [
      | inl same ↦
          let bank : sr.hash ≡ h = ground arith in
          let at : (sl.hash == h) ≡ true = ground arith in
          let whole = selected-middle h k front sl back in
          let before : selected sr.hash k (front ++ sl ∷ back)
              ≡ (selected h k front || (has_pcr k sl.select || selected h k back)) =
            ap (λ x. selected x k (front ++ sl ∷ back)) bank ∙ (rw at at whole) in
          rw (selected-middle h k front s' back, whole, union, before, at, same)
            (added (selected h k front) (has_pcr k sl.select) (selected h k back)
              (has_pcr k sr.select))
      | inr other ↦
          let off : (sl.hash == h) ≡ false = ground arith in
          rw (selected-middle h k front s' back, selected-middle h k front sl back, off, other)
            (ground arith)
    ]

in_range_of :
    (sl : Selection) (lbmp rbmp : Bitmap)
    → length lbmp ≡ 255
    → IsSelection sl
    → IsSelection (record sl { select = to_pcrs (set_octets lbmp rbmp) })
in_range_of sl lbmp rbmp hl v =
    (v.0, v.1, to_pcrs-InRange (set_octets lbmp rbmp) (omega (arith, length-set lbmp rbmp, hl)))

selected-last :
    (h k : ℕ) (out : List Selection) (s : Selection)
    → selected h k (out ++ s ∷ []) ≡ (selected h k out || ((s.hash == h) && has_pcr k s.select))
selected-last h k [] s = ground arith
selected-last h k (x ∷ out) s = rw (selected-last h k out s) (ground arith)

-- The end of an iteration.
merge_into-Adds :
    (sr : Selection) (out : List Selection) (t : Option (ℕ × Bitmap)) (rbmp rbmp' : Bitmap)
    → IsSelection sr
    → All IsSelection out
    → length rbmp ≡ 255
    → ((k : ℕ) → bitmap_has k rbmp ≡ has_pcr k sr.select)
    → FoundIn sr.hash 0 out t
    → Left sr.hash out rbmp rbmp'
    → (out' : List Selection) × (merge_into sr out (t, rbmp') ≡ ok out')
      × All IsSelection out'
      × Adds sr out out'
unfolding FoundIn
merge_into-Adds sr out none rbmp rbmp' vs v hr hs found left =
    let (s', e, valid, same) = must_copy-Same sr vs in
    let s'' = with_size sr.size_of_select s' in
    (
      out ++ s'' ∷ [],
      rw e refl,
      All-append IsSelection out (s'' ∷ []) v ((valid.0, vs.1, valid.2), tt),
      unfold Adds in λ h k. rw (selected-last h k out s'', same.0, same.1 k) refl,
    )
merge_into-Adds sr out (some (j, lbmp)) rbmp rbmp' vs v hr hs (front, sl, back, e, at, hash, hl, hb)
      left =
    let d = to_pcrs (set_octets lbmp rbmp') in
    let s' : Selection = record sl { select = d } in
    let place : j ≡ length front = omega arith in
    let changed : set_select j d out ≡ front ++ s' ∷ back =
      rw (place, e) (set_select-at front sl back d) in
    let v' : All IsSelection (front ++ sl ∷ back) = subst (All IsSelection) e v in
    let left' : Left sr.hash (front ++ sl ∷ back) rbmp rbmp' =
      subst (λ l. Left sr.hash l rbmp rbmp') e left in
    (
      front ++ s' ∷ back,
      ap ok changed,
      All-middle front sl s' back (in_range_of sl lbmp rbmp' hl (All-at front sl back v')) v',
      subst (λ l. Adds sr l (front ++ s' ∷ back)) (sym e)
          (into_target sr front sl back lbmp rbmp rbmp' hash hl hr hb hs left'),
    )

merge_each-selected :
    (r out : List Selection)
    → All IsSelection r
    → All IsSelection out
    → (out' : List Selection) × (merge_each r out ≡ ok out')
      × ((h k : ℕ) → selected h k out' ≡ (selected h k out || selected h k r))
unfolding merge_each Adds
merge_each-selected [] out vr v = (out, refl, λ h k. ground arith)
merge_each-selected (sr ∷ r) out vr v =
    let (rbmp, e1, hr, hs) = full_bitmap sr.select vr.0.2 in
    let (t, rbmp', e2, found, left) = target_found sr.hash 0 out rbmp v in
    let (mid, e3, vm, m) = merge_into-Adds sr out t rbmp rbmp' vr.0 v hr hs found left in
    let (out', e4, s) = merge_each-selected r mid vr.1 vm in
    (out', rw (e1, e2, e3) e4, λ h k. rw (s h k, m h k) (ground arith))

-- For lists that may be marshalled, Merge succeeds, and a PCR of a bank is selected by its result
-- exactly if one of the two lists selects it.
pub merge-selected :
    (l r : List Selection)
    → All IsSelection l
    → All IsSelection r
    → length l ≤ max_list_length
    → (out : List Selection) × (merge l r ≡ ok out)
      × ((h k : ℕ) → selected h k out ≡ (selected h k l || selected h k r))
unfolding merge
merge-selected l r vl vr hl =
    let (copy, e1, c) = copy_selections-Copies l vl hl in
    let (out, e2, s) = merge_each-selected r copy vr (Copies-IsSelection l copy c) in
    (out, rw e1 e2, λ h k. rw (s h k, Copies-selected h k l copy c) refl)
