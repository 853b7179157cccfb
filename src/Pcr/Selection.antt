-- ===== src/Pcr/Selection.antt =====
-- PCRSelection and the copying of a PCRSelectionList, of types_structures.go.
use go_tpm.Base.{
  ℕ, zero, suc, Bool, true, false, not, ◌&&◌, ◌||◌, List, [], ◌∷◌, ◌++◌, length, ltb, ◌==◌,
  if◌then◌else◌, Outcome, ok, err, panic, ◌>>=◌,
}
use go_tpm.Mu.Types.{MuError}
use go_tpm.Mu.Bytes.{Bytes, big_endian, read_full, read_number}
use go_tpm.Mu.Marshal.{sized1_buffer, max_list_length}
use go_tpm.Pcr.Bitmap.{PcrSelect, PcrError, mu_error, list_too_long, to_pcrs, to_bitmap, has_pcr}

pub record Selection : Type 0 where
  pub hash : ℕ
  pub select : PcrSelect
  pub size_of_select : ℕ

-- An error of the package mu.
abbrev pub from_mu : {A : Type 0} → Outcome MuError A → Outcome PcrError A
from_mu (ok a) = ok a
from_mu (err e) = err (mu_error e)
from_mu panic = panic

-- Marshal
unfoldable pub marshal_selection : Selection → Outcome PcrError Bytes
marshal_selection s = do
  bmp ← to_bitmap s.size_of_select s.select
  xs ← from_mu (sized1_buffer bmp)
  ok (big_endian 2 s.hash ++ xs)

-- Unmarshal
unfoldable pub unmarshal_selection : Bytes → Outcome PcrError (Selection × Bytes)
unmarshal_selection input = do
  (h, rest) ← from_mu (read_number 2 input)
  (size, rest') ← from_mu (read_number 1 rest)
  (bmp, rest'') ← from_mu (read_full size rest')
  ok (record { hash = h; select = to_pcrs bmp; size_of_select = length bmp }, rest'')

-- The elements of a list, one after the other.
unfoldable pub marshal_each : List Selection → Outcome PcrError Bytes
marshal_each [] = ok []
marshal_each (s ∷ l) = do xs ← marshal_selection s; ys ← marshal_each l; ok (xs ++ ys)

unfoldable pub unmarshal_each : ℕ → Bytes → Outcome PcrError (List Selection × Bytes)
unmarshal_each zero input = ok ([], input)
unmarshal_each (suc n) input = do
  (s, rest) ← unmarshal_selection input
  (l, rest') ← unmarshal_each n rest
  ok (s ∷ l, rest')

-- A PCRSelectionList is marshalled as any list is.
abbrev pub marshal_selections : List Selection → Outcome PcrError Bytes
marshal_selections l =
    if ltb max_list_length (length l)
    then err list_too_long
    else (do xs ← marshal_each l; ok (big_endian 4 (length l) ++ xs))

-- mu.CopyValue of a PCRSelectionList: the list is marshalled, and what was written is read back.
unfoldable pub copy_list : List Selection → Outcome PcrError (List Selection)
copy_list l = do
  bs ← marshal_selections l
  (n, rest) ← from_mu (read_number 4 bs)
  (out, rest') ← unmarshal_each n rest
  ok out

-- mu.MustCopyValue of a PCRSelection.
unfoldable pub must_copy : Selection → Outcome PcrError Selection
must_copy s = elim (marshal_selection s) [
  | ok xs ↦ elim (unmarshal_selection xs) [ ok r ↦ ok r.0 | err e ↦ panic | panic ↦ panic ]
  | err e ↦ panic
  | panic ↦ panic
]

abbrev pub with_size : ℕ → Selection → Selection
with_size n s = record s { size_of_select = n }

-- `for i, s := range l { out[i].SizeOfSelect = s.SizeOfSelect }`
abbrev pub restore_sizes : List Selection → List Selection → List Selection
restore_sizes (s ∷ l) (s' ∷ out) = with_size s.size_of_select s' ∷ restore_sizes l out
restore_sizes _ out = out

-- The copy that Sort, Merge and Remove start with.
unfoldable pub copy_selections : List Selection → Outcome PcrError (List Selection)
copy_selections l = do out ← copy_list l; ok (restore_sizes l out)

-- WithMinSelectSize
unfoldable pub with_min_select_size : ℕ → List Selection → List Selection
with_min_select_size n [] = []
with_min_select_size n (s ∷ l) =
    record { hash = s.hash; select = s.select; size_of_select = n } ∷ with_min_select_size n l

abbrev pub selects_none : PcrSelect → Bool
selects_none [] = true
selects_none (i ∷ d) = false

-- IsEmpty
unfoldable pub is_empty : List Selection → Bool
is_empty [] = true
is_empty (s ∷ l) = if not (selects_none s.select) then false else is_empty l

-- Whether a PCR of a bank is selected by one of the selections.
abbrev pub selected : ℕ → ℕ → List Selection → Bool
selected h k [] = false
selected h k (s ∷ l) = ((s.hash == h) && has_pcr k s.select) || selected h k l
