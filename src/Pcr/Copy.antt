-- ===== src/Pcr/Copy.antt =====
-- What the copy of a list of selections selects.
use go_tpm.Base.{ℕ, ◌≤◌, false, List, [], ◌∷◌, ◌++◌, ◌≡◌, refl, arith, length, All, ltb, ok}
use mathlib.Core.List.{append_assoc, append-nil}
use go_tpm.Mu.Bytes.{Bytes, read_number-big_endian}
use go_tpm.Mu.Marshal.{max_list_length}
use go_tpm.Pcr.Selection.{
  Selection, unmarshal_selection, marshal_each, unmarshal_each, copy_list, must_copy, restore_sizes,
  copy_selections, selected,
}
use go_tpm.Pcr.Wire.{IsSelection, Same, unmarshal_selection-marshal_selection}

-- Selections that stand for each other, one by one.
abbrev pub Copies : List Selection → List Selection → Type 0
Copies [] [] = Unit
Copies (s ∷ l) (s' ∷ out) = Same s s' × IsSelection s' × Copies l out
Copies _ _ = ⊥

each_copied :
    (l : List Selection) (rest : Bytes)
    → All IsSelection l
    → (bs : Bytes) × (marshal_each l ≡ ok bs)
      × (out : List Selection) × (unmarshal_each (length l) (bs ++ rest) ≡ ok (out, rest))
      × Copies l out
unfolding marshal_each unmarshal_each
each_copied [] rest h = ([], refl, [], refl, tt)
each_copied (s ∷ l) rest h =
    let (ys, e1, out, e2, c) = each_copied l rest h.1 in
    let (xs, e3, s', e4, valid, same) = unmarshal_selection-marshal_selection s (ys ++ rest) h.0 in
    (xs ++ ys, rw (e3, e1) refl, s' ∷ out, rw (append_assoc, e4, e2) refl, (same, valid, c))

copy_list-Copies :
    (l : List Selection)
    → All IsSelection l
    → length l ≤ max_list_length
    → (out : List Selection) × (copy_list l ≡ ok out) × Copies l out
unfolding copy_list
copy_list-Copies l h hl =
    let (xs, e1, out, e2, c) = each_copied l [] h in
    let whole : unmarshal_each (length l) xs ≡ ok (out, []) = rw append-nil at e2 in
    let short : ltb max_list_length (length l) ≡ false = ground arith in
    (out, rw (short, e1, read_number-big_endian 4 (length l) xs (omega arith), whole) refl, c)

restore_sizes-Copies :
    (l out : List Selection) → All IsSelection l → Copies l out → Copies l (restore_sizes l out)
restore_sizes-Copies [] [] h c = tt
restore_sizes-Copies (s ∷ l) (s' ∷ out) h (same, valid, c) =
    (same, (valid.0, h.0.1, valid.2), restore_sizes-Copies l out h.1 c)
restore_sizes-Copies [] (s' ∷ out) h c = absurd c
restore_sizes-Copies (s ∷ l) [] h c = absurd c

-- The copy of selections that may be marshalled.
pub copy_selections-Copies :
    (l : List Selection)
    → All IsSelection l
    → length l ≤ max_list_length
    → (out : List Selection) × (copy_selections l ≡ ok out) × Copies l out
unfolding copy_selections
copy_selections-Copies l h hl =
    let (out, e, c) = copy_list-Copies l h hl in
    (restore_sizes l out, rw e refl, restore_sizes-Copies l out h c)

pub must_copy-Same :
    (s : Selection)
    → IsSelection s
    → (s' : Selection) × (must_copy s ≡ ok s') × IsSelection s' × Same s s'
unfolding must_copy
must_copy-Same s h =
    let (xs, e1, s', e2, valid, same) = unmarshal_selection-marshal_selection s [] h in
    let whole : unmarshal_selection xs ≡ ok (s', []) = rw append-nil at e2 in
    (s', rw (must_copy, e1, whole) refl, valid, same)

pub Copies-selected :
    (h k : ℕ) (l out : List Selection) → Copies l out → selected h k out ≡ selected h k l
Copies-selected h k [] [] c = refl
Copies-selected h k (s ∷ l) (s' ∷ out) (same, valid, c) =
    rw (same.0, same.1 k, Copies-selected h k l out c) refl
Copies-selected h k [] (s' ∷ out) c = absurd c
Copies-selected h k (s ∷ l) [] c = absurd c

pub Copies-IsSelection : (l out : List Selection) → Copies l out → All IsSelection out
Copies-IsSelection [] [] c = tt
Copies-IsSelection (s ∷ l) (s' ∷ out) (same, valid, c) = (valid, Copies-IsSelection l out c)
Copies-IsSelection [] (s' ∷ out) c = absurd c
Copies-IsSelection (s ∷ l) [] c = absurd c
