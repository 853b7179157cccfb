-- ===== src/Pcr/Examples.antt =====
-- The theorems on PCR selections, at selections of SHA-1 (4), SHA-256 (11) and SHA-384 (12) banks.
use go_tpm.Base.{ℕ, ◌≡◌, ◌↔◌, ◌&&◌, ◌||◌, not, refl, arith, All, List, [], ◌∷◌, ◌++◌, ok, ◌>>=◌}
use go_tpm.Base.Int.{pos}
use go_tpm.Mu.Bytes.{Bytes, read_full, read_number, from_big_endian}
use go_tpm.Pcr.Bitmap.{Bitmap, to_bitmap, octet_pcrs, to_pcrs_from}
use go_tpm.Pcr.Bits.{InRange, to_bitmap_ok}
use go_tpm.Pcr.Selection.{
  Selection, marshal_selection, unmarshal_selection, copy_selections, selected,
}
use go_tpm.Pcr.Wire.{
  IsSelection, Same, unmarshal_selection-marshal_selection, marshal_selection-unmarshal_selection,
}
use go_tpm.Pcr.Lists.{merge, remove_each, drop_empties}
use go_tpm.Pcr.Merge.{merge-selected}
use go_tpm.Pcr.Remove.{remove_each-copy_selections}
use go_tpm.Pcr.Empties.{drop_empties-loses}

abbrev sha1 : Selection
sha1 = record { hash = 4; select = pos 1 ∷ []; size_of_select = 0 }

abbrev sha256 : Selection
sha256 = record { hash = 11; select = pos 7 ∷ pos 23 ∷ []; size_of_select = 0 }

abbrev sha384 : Selection
sha384 = record { hash = 12; select = pos 4 ∷ []; size_of_select = 0 }

-- A selection of no PCRs.
abbrev sha1_none : Selection
sha1_none = record { hash = 4; select = []; size_of_select = 0 }

abbrev sha384_none : Selection
sha384_none = record { hash = 12; select = []; size_of_select = 0 }

abbrev three : List Selection
three = sha1 ∷ sha256 ∷ sha384 ∷ []

abbrev outer : List Selection
outer = sha1 ∷ sha384 ∷ []

to_bitmap_ok_example :
    ((bmp : Bitmap) × (to_bitmap 3 (pos 2039 ∷ []) ≡ ok bmp)) ↔ All InRange (pos 2039 ∷ [])
to_bitmap_ok_example = to_bitmap_ok 3 (pos 2039 ∷ [])

unmarshal_selection-marshal_selection_example :
    (bs : Bytes) × (marshal_selection sha256 ≡ ok bs)
    × (s' : Selection) × (unmarshal_selection (bs ++ 255 ∷ []) ≡ ok (s', 255 ∷ []))
    × IsSelection s'
    × Same sha256 s'
unmarshal_selection-marshal_selection_example =
    unmarshal_selection-marshal_selection sha256 (255 ∷ []) (ground arith)

marshal_selection-unmarshal_selection_example :
    (bs : Bytes) × (marshal_selection
        (record { hash = 11; select = pos 7 ∷ []; size_of_select = 1 })
      ≡ ok bs)
    × (bs ++ 9 ∷ [] ≡ 0 ∷ 11 ∷ 1 ∷ 128 ∷ 9 ∷ [])
unfolding unmarshal_selection read_number read_full from_big_endian octet_pcrs to_pcrs_from
marshal_selection-unmarshal_selection_example =
    marshal_selection-unmarshal_selection (0 ∷ 11 ∷ 1 ∷ 128 ∷ 9 ∷ [])
      (record { hash = 11; select = pos 7 ∷ []; size_of_select = 1 }) (9 ∷ []) (ground arith) refl
      (omega arith)

three-valid : All IsSelection three
three-valid = ground arith

outer-valid : All IsSelection outer
outer-valid = ground arith

merge-selected_example :
    (out : List Selection) × (merge three outer ≡ ok out)
    × ((h k : ℕ) → selected h k out ≡ (selected h k three || selected h k outer))
merge-selected_example = merge-selected three outer three-valid outer-valid (omega arith)

remove_each-copy_selections_example :
    (out : List Selection) × ((copy_selections three >>= λ copy. remove_each outer copy) ≡ ok out)
    × ((h k : ℕ) → selected h k out ≡ (selected h k three && not (selected h k outer)))
remove_each-copy_selections_example =
    remove_each-copy_selections three outer three-valid outer-valid (omega arith)

drop_empties-loses_example : drop_empties 3 0 3 (sha1_none ∷ sha256 ∷ sha384_none ∷ []) ≡ ok []
drop_empties-loses_example = drop_empties-loses sha1_none sha256 sha384_none refl refl refl
