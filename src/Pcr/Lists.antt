-- ===== src/Pcr/Lists.antt =====
-- Merge and Remove of a PCRSelectionList, of types_structures.go.
use go_tpm.Base.{
  ℕ, zero, suc, ◌-◌, bit_and, bit_or, bit_xor, true, false, not, Option, none, some, List, [], ◌∷◌,
  ◌++◌, length, take, get_elem?, ltb, ◌==◌, if◌then◌else◌, Outcome, ok, err, panic, ◌>>=◌,
}
use go_tpm.Pcr.Bitmap.{Bitmap, PcrSelect, PcrError, to_pcrs, to_bitmap}
use go_tpm.Pcr.Selection.{Selection, copy_selections, must_copy, with_size, selects_none}

-- `x &^ y` of bytes.
abbrev pub and_not : ℕ → ℕ → ℕ
and_not x y = bit_and x (bit_xor y 255)

-- `for j := 0; j < math.MaxUint8; j++ { xs[j] &^= ys[j] }`. Both bitmaps have 255 octets.
unfoldable pub clear_octets : Bitmap → Bitmap → Bitmap
clear_octets (x ∷ xs) (y ∷ ys) = and_not x y ∷ clear_octets xs ys
clear_octets xs _ = xs

-- `for j := 0; j < math.MaxUint8; j++ { xs[j] |= ys[j] }`
unfoldable pub set_octets : Bitmap → Bitmap → Bitmap
set_octets (x ∷ xs) (y ∷ ys) = bit_or x y ∷ set_octets xs ys
set_octets xs _ = xs

-- `out[i].Select = d`
abbrev pub set_select : ℕ → PcrSelect → List Selection → List Selection
set_select i d [] = []
set_select zero d (s ∷ l) = record s { select = d } ∷ l
set_select (suc i) d (s ∷ l) = s ∷ set_select i d l

-- A call whose error is a panic.
abbrev pub must : {A : Type 0} → Outcome PcrError A → Outcome PcrError A
must (ok a) = ok a
must (err e) = panic
must panic = panic

-- The loop of Merge over the destination list, from index i on: `target` holds dsti and dstbmp.
unfoldable pub find_target :
    ℕ
    → ℕ
    → List Selection
    → Option (ℕ × Bitmap)
    → Bitmap
    → Outcome PcrError (Option (ℕ × Bitmap) × Bitmap)
find_target h i [] target rbmp = ok (target, rbmp)
find_target h i (sl ∷ out) target rbmp =
    let skip = find_target h (suc i) out target rbmp in
    let here = must (to_bitmap 255 sl.select) >>= λ lbmp.
    find_target h (suc i) out (elim target [ none ↦ some (i, lbmp) | some t ↦ some t ])
      (clear_octets rbmp lbmp) in
    if not (sl.hash == h) then skip else here

-- The end of an iteration of Merge.
abbrev pub merge_into :
    Selection → List Selection → Option (ℕ × Bitmap) × Bitmap → Outcome PcrError (List Selection)
merge_into sr out (some (i, dstbmp), rbmp) =
    ok (set_select i (to_pcrs (set_octets dstbmp rbmp)) out)
merge_into sr out (none, rbmp) = do
  sr2 ← must_copy sr
  ok (out ++ with_size sr.size_of_select sr2 ∷ [])

-- The loop of Merge over the source list.
unfoldable pub merge_each : List Selection → List Selection → Outcome PcrError (List Selection)
merge_each [] out = ok out
merge_each (sr ∷ r) out = do
  rbmp ← to_bitmap 255 sr.select
  found ← find_target sr.hash 0 out none rbmp
  out' ← merge_into sr out found
  merge_each r out'

-- Merge
unfoldable pub merge : List Selection → List Selection → Outcome PcrError (List Selection)
merge l r = do out ← copy_selections l; merge_each r out

-- The loop of Remove over the destination list.
unfoldable pub remove_from : ℕ → Bitmap → List Selection → Outcome PcrError (List Selection)
remove_from h rbmp [] = ok []
remove_from h rbmp (sl ∷ out) =
    let rest = remove_from h rbmp out in
    let here = must (to_bitmap 255 sl.select) >>= λ lbmp.
    rest >>= λ out'. ok (record sl { select = to_pcrs (clear_octets lbmp rbmp) } ∷ out') in
    if not (sl.hash == h) then (do out' ← rest; ok (sl ∷ out')) else here

-- The loop of Remove over the list to remove.
unfoldable pub remove_each : List Selection → List Selection → Outcome PcrError (List Selection)
remove_each [] out = ok out
remove_each (sr ∷ r) out = do
  rbmp ← to_bitmap 255 sr.select
  out' ← remove_from sr.hash rbmp out
  remove_each r out'

-- `copy(out[i:], out[i+1:])`, where `out` is the first m elements of the array.
unfoldable pub shift : ℕ → ℕ → List Selection → List Selection
shift i zero cells = cells
shift i (suc m) [] = []
shift i (suc m) (c ∷ []) = c ∷ []
shift zero (suc zero) (c ∷ d ∷ cells) = c ∷ d ∷ cells
shift zero (suc (suc m)) (c ∷ d ∷ cells) = d ∷ shift zero (suc m) (d ∷ cells)
shift (suc i) (suc m) (c ∷ d ∷ cells) = c ∷ shift i m (d ∷ cells)

-- The last loop of Remove, with n iterations to go: it ranges over the array that `out` was made of
-- at its start, and `out` is the first m elements of that array.
unfoldable pub drop_empties : ℕ → ℕ → ℕ → List Selection → Outcome PcrError (List Selection)
drop_empties zero i m cells = ok (take m cells)
drop_empties (suc n) i m cells = elim (get_elem? cells i) [
  | none ↦ panic
  | some so ↦ elim (selects_none so.select) [
    | false ↦ drop_empties n (suc i) m cells
    | true ↦ elim m [
      | zero ↦ panic
      | suc m' ↦
          drop_empties n (suc i) m' (if ltb i (suc m' - 1) then shift i (suc m') cells else cells)
    ]
  ]
]

-- Remove
unfoldable pub remove : List Selection → List Selection → Outcome PcrError (List Selection)
remove l r = do
  out ← copy_selections l
  out' ← remove_each r out
  drop_empties (length out') 0 (length out') out'
