-- ===== src/Pcr/Empties.antt =====
-- The last loop of Remove, which drops empty selections.
use go_tpm.Base.{
  ℕ, zero, suc, ◌-◌, Bool, true, false, ◌&&◌, ◌||◌, some, List, [], ◌∷◌, ◌++◌, ◌≡◌, refl, sym, ap,
  ◌∙◌, arith, length, length-append, take, take-append, get_elem?, All, All-append, ltb, ◌==◌,
  if◌then◌else◌, ok,
}
use mathlib.Core.List.{append_assoc, append-nil}
use go_tpm.Pcr.Bitmap.{PcrSelect, has_pcr}
use go_tpm.Pcr.Selection.{Selection, selected, selects_none}
use go_tpm.Pcr.Lists.{shift, drop_empties}

abbrev pub SelectsSome : Selection → Type 0
SelectsSome s = selects_none s.select ≡ false

element :
    (front : List Selection) (s : Selection) (back : List Selection)
    → get_elem? (front ++ s ∷ back) (length front) ≡ some s
element [] s back = refl
element (x ∷ front) s back = element front s back

-- Where the selections to come are not empty, the first m of the array are the result.
All-kept :
    (done back : List Selection) (i m : ℕ)
    → i ≡ length done
    → All SelectsSome back
    → drop_empties (length back) i m (done ++ back) ≡ ok (take m (done ++ back))
unfolding drop_empties
All-kept done [] i m at h = refl
All-kept done (s ∷ back) i m at h =
    let here : get_elem? (done ++ s ∷ back) i ≡ some s = rw at (element done s back) in
    let later =
      All-kept (done ++ s ∷ []) back (suc i) m (omega (arith, length-append done (s ∷ []))) h.1 in
    rw (drop_empties, here, h.0) (rw append_assoc at later)

last_of : Selection → List Selection → Selection
last_of s [] = s
last_of s (t ∷ back) = last_of t back

last_of-SelectsSome :
    (s : Selection) (back : List Selection)
    → SelectsSome s
    → All SelectsSome back
    → SelectsSome (last_of s back)
unfolding last_of
last_of-SelectsSome s [] hs h = hs
last_of-SelectsSome s (t ∷ back) hs h = last_of-SelectsSome t back h.0 h.1

-- The cells behind an empty one move to the left, and the last one stays as well.
shift_first :
    (e s : Selection) (back : List Selection)
    → shift 0 (length (e ∷ s ∷ back)) (e ∷ s ∷ back) ≡ (s ∷ back) ++ last_of s back ∷ []
unfolding shift last_of
shift_first e s [] = refl
shift_first e s (t ∷ back) = ap (λ cells. s ∷ cells) (shift_first s t back)

shift_done :
    (done : List Selection) (e s : Selection) (back : List Selection)
    → shift (length done) (length (done ++ e ∷ s ∷ back)) (done ++ e ∷ s ∷ back)
      ≡ done ++ ((s ∷ back) ++ last_of s back ∷ [])
unfolding shift
shift_done [] e s back = shift_first e s back
shift_done (x ∷ []) e s back = ap (λ cells. x ∷ cells) (shift_done [] e s back)
shift_done (x ∷ y ∷ done) e s back = ap (λ cells. x ∷ cells) (shift_done (y ∷ done) e s back)

-- An empty selection is dropped.
step_empty :
    (n i m : ℕ) (cells : List Selection) (s : Selection)
    → get_elem? cells i ≡ some s
    → selects_none s.select ≡ true
    → drop_empties (suc n) i (suc m) cells
      ≡ drop_empties n (suc i) m (if ltb i (suc m - 1) then shift i (suc m) cells else cells)
unfolding drop_empties
step_empty n i m cells s h e = rw (drop_empties, h, e) refl

-- A selection that is not empty is passed over.
step_some :
    (n i m : ℕ) (cells : List Selection) (s : Selection)
    → get_elem? cells i ≡ some s
    → SelectsSome s
    → drop_empties (suc n) i m cells ≡ drop_empties n (suc i) m cells
unfolding drop_empties
step_some n i m cells s h e = rw (drop_empties, h, e) refl

take_kept :
    (done : List Selection) (s : Selection) (back : List Selection) (last : Selection) (m : ℕ)
    → m ≡ length (done ++ s ∷ back)
    → take m ((done ++ s ∷ []) ++ (back ++ last ∷ [])) ≡ done ++ s ∷ back
take_kept done s back last m size =
    let whole : (done ++ s ∷ []) ++ (back ++ last ∷ []) ≡ (done ++ s ∷ back) ++ last ∷ [] =
      rw (append_assoc, append_assoc) refl in
    rw (whole, size) (take-append (done ++ s ∷ back) (last ∷ []))

-- At the empty selection.
at_empty :
    (done : List Selection) (e : Selection) (back : List Selection) (i m : ℕ)
    → i ≡ length done
    → m ≡ length (done ++ e ∷ back)
    → selects_none e.select ≡ true
    → All SelectsSome back
    → drop_empties (length (e ∷ back)) i m (done ++ e ∷ back) ≡ ok (done ++ back)
at_empty done e back i zero at size he h = absurd (omega (arith, length-append done (e ∷ back)))
at_empty done e [] i (suc m) at size he h =
    let here : get_elem? (done ++ e ∷ []) i ≡ some e = rw at (element done e []) in
    let whole : m ≡ length done = omega (arith, length-append done (e ∷ [])) in
    let no_shift : ltb i (suc m - 1) ≡ false = ground arith in
    let result : take m (done ++ e ∷ []) ≡ done ++ [] =
      rw (whole, append-nil) (take-append done (e ∷ [])) in
    let ends : drop_empties 0 (suc i) m (done ++ e ∷ []) ≡ ok (done ++ []) =
      unfold drop_empties in ap ok result in
    step_empty 0 i m (done ++ e ∷ []) e here he ∙ rw no_shift ends
at_empty done e (s ∷ back) i (suc m) at size he h =
    let here : get_elem? (done ++ e ∷ s ∷ back) i ≡ some e = rw at (element done e (s ∷ back)) in
    let sizes = length-append done (e ∷ s ∷ back) in
    let shifts : ltb i (suc m - 1) ≡ true = ground (arith, sizes) in
    let last = last_of s back in
    let moved : shift i (suc m) (done ++ e ∷ s ∷ back) ≡ (done ++ s ∷ []) ++ (back ++ last ∷ []) =
      rw (at, size, append_assoc) (shift_done done e s back) in
    let count : length (back ++ last ∷ []) ≡ suc (length back) =
      omega (arith, length-append back (last ∷ [])) in
    let kept =
      All-kept (done ++ s ∷ []) (back ++ last ∷ []) (suc i) m
        (omega (arith, length-append done (s ∷ [])))
        (All-append SelectsSome back (last ∷ []) h.1 (last_of-SelectsSome s back h.0 h.1, tt)) in
    let result =
      take_kept done s back last m (omega (arith, sizes, length-append done (s ∷ back))) in
    step_empty (suc (length back)) i m (done ++ e ∷ s ∷ back) e here he
    ∙ rw (shifts, moved) (rw count at kept ∙ ap ok result)

-- Up to the empty selection.
before_empty :
    (done front : List Selection) (e : Selection) (back : List Selection) (i m : ℕ)
    → i ≡ length done
    → m ≡ length (done ++ (front ++ e ∷ back))
    → selects_none e.select ≡ true
    → All SelectsSome front
    → All SelectsSome back
    → drop_empties (length (front ++ e ∷ back)) i m (done ++ (front ++ e ∷ back))
      ≡ ok (done ++ (front ++ back))
before_empty done [] e back i m at size he hf hb = at_empty done e back i m at size he hb
before_empty done (s ∷ front) e back i m at size he hf hb =
    let rest = front ++ e ∷ back in
    let here : get_elem? (done ++ s ∷ rest) i ≡ some s = rw at (element done s rest) in
    let next : (done ++ s ∷ []) ++ rest ≡ done ++ s ∷ rest = rw append_assoc refl in
    let later =
      before_empty (done ++ s ∷ []) front e back (suc i) m
        (omega (arith, length-append done (s ∷ []))) (size ∙ ap length (sym next)) he hf.1 hb in
    step_some (length rest) i m (done ++ s ∷ rest) s here hf.0
    ∙ (rw (append_assoc, append_assoc) at later)

selected-append :
    (h k : ℕ) (l l' : List Selection) → selected h k (l ++ l') ≡ (selected h k l || selected h k l')
selected-append h k [] l' = refl
selected-append h k (s ∷ l) l' = rw (selected-append h k l l') (ground arith)

none_selected : (k : ℕ) (d : PcrSelect) → selects_none d ≡ true → has_pcr k d ≡ false
none_selected k [] h = refl
none_selected k (i ∷ d) h = cc

nothing_added : (t a b : Bool) → (a || b) ≡ (a || ((t && false) || b))
nothing_added true a b = refl
nothing_added false a b = refl

selected-dropped :
    (h k : ℕ) (front : List Selection) (e : Selection) (back : List Selection)
    → selects_none e.select ≡ true
    → selected h k (front ++ back) ≡ selected h k (front ++ e ∷ back)
selected-dropped h k front e back he =
    rw (selected-append, selected-append, none_selected k e.select he)
      (nothing_added (e.hash == h) (selected h k front) (selected h k back))

-- The last loop of Remove drops an empty selection, wherever it stands among selections that are
-- not empty, and the result selects the same PCRs.
pub drop_empties-one :
    (front : List Selection) (e : Selection) (back : List Selection)
    → selects_none e.select ≡ true
    → All SelectsSome front
    → All SelectsSome back
    → (drop_empties (length (front ++ e ∷ back)) 0 (length (front ++ e ∷ back)) (front ++ e ∷ back)
        ≡ ok (front ++ back))
      × ((h k : ℕ) → selected h k (front ++ back) ≡ selected h k (front ++ e ∷ back))
drop_empties-one front e back he hf hb = (
  before_empty [] front e back 0 (length (front ++ e ∷ back)) refl refl he hf hb,
  λ h k. selected-dropped h k front e back he,
)

-- Of three selections of which only the middle one selects PCRs, the last loop of Remove leaves
-- none: the PCRs of the middle one are lost.
pub drop_empties-loses :
    (e s e' : Selection)
    → selects_none e.select ≡ true
    → SelectsSome s
    → selects_none e'.select ≡ true
    → drop_empties 3 0 3 (e ∷ s ∷ e' ∷ []) ≡ ok []
drop_empties-loses e s e' he hs he' =
    step_empty 2 0 2 (e ∷ s ∷ e' ∷ []) e refl he
    ∙ (unfold shift in
        step_empty 1 1 1 (s ∷ e' ∷ e' ∷ []) e' refl he'
        ∙ (step_empty 0 2 0 (s ∷ e' ∷ e' ∷ []) e' refl he' ∙ (unfold drop_empties in refl)))
