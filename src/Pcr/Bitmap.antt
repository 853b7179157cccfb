-- ===== src/Pcr/Bitmap.antt =====
-- PCRSelectBitmap and PCRSelect of types_structures.go: a selection as bytes, and as PCR indexes.
use go_tpm.Base.{
  ℕ, zero, suc, ◌+◌, ◌*◌, ◌/◌, ◌%◌, ◌^◌, bit_and, bit_or, Bool, false, ◌||◌, List, [], ◌∷◌, ◌++◌,
  replicate, leb, ◌==◌, if◌then◌else◌, Outcome, ok, err, ◌>>=◌,
}
use go_tpm.Mu.Types.{MuError}
use go_tpm.Base.Int.{ℤ, pos, negsuc, eq_ℤ}
use go_tpm.Base.Digits.{bit}

-- The field Bytes of a PCRSelectBitmap.
abbrev pub Bitmap : Type 0
Bitmap = List ℕ

abbrev pub PcrSelect : Type 0
PcrSelect = List ℤ

pub data PcrError : Type 0 where
  index_below_zero index_too_large list_too_long : PcrError
  mu_error : MuError → PcrError

-- The inner loop of ToPCRs, over n bits of octet i from `b` on.
unfoldable pub octet_pcrs : ℕ → ℕ → ℕ → ℕ → PcrSelect
octet_pcrs i octet zero b = []
octet_pcrs i octet (suc n) b =
    let rest = octet_pcrs i octet n (suc b) in
    if bit_and octet (2 ^ b) == 0 then rest else pos (i * 8 + b) ∷ rest

-- The outer loop, from octet i on.
unfoldable pub to_pcrs_from : ℕ → Bitmap → PcrSelect
to_pcrs_from i [] = []
to_pcrs_from i (octet ∷ bmp) = octet_pcrs i octet 8 0 ++ to_pcrs_from (suc i) bmp

-- ToPCRs
abbrev pub to_pcrs : Bitmap → PcrSelect
to_pcrs bmp = to_pcrs_from 0 bmp

-- `for octet >= len(out.Bytes) { append 0 }`, for octet = n - 1.
unfoldable pub grow : ℕ → Bitmap → Bitmap
grow zero bmp = bmp
grow (suc n) [] = 0 ∷ grow n []
grow (suc n) (x ∷ bmp) = x ∷ grow n bmp

-- `out.Bytes[octet] |= mask`
unfoldable pub or_octet : ℕ → ℕ → Bitmap → Bitmap
or_octet octet mask [] = []
or_octet zero mask (x ∷ bmp) = bit_or x mask ∷ bmp
or_octet (suc octet) mask (x ∷ bmp) = x ∷ or_octet octet mask bmp

-- The body of the loop of ToBitmap, for an index that is not negative.
unfoldable pub set_pcr : Bitmap → ℕ → Outcome PcrError Bitmap
set_pcr out i =
    let octet = i / 8 in
    if leb 255 octet
    then err index_too_large
    else ok (or_octet octet (2 ^ (i % 8)) (grow (suc octet) out))

-- The loop of ToBitmap.
unfoldable pub set_pcrs : Bitmap → PcrSelect → Outcome PcrError Bitmap
set_pcrs out [] = ok out
set_pcrs out (negsuc i ∷ d) = err index_below_zero
set_pcrs out (pos i ∷ d) = do out' ← set_pcr out i; set_pcrs out' d

-- ToBitmap
unfoldable pub to_bitmap : ℕ → PcrSelect → Outcome PcrError Bitmap
to_bitmap minsize d = set_pcrs (replicate (if minsize == 0 then 3 else minsize) 0) d

-- Whether a PCR is among the indexes.
abbrev pub has_pcr : ℕ → PcrSelect → Bool
has_pcr k [] = false
has_pcr k (i ∷ d) = eq_ℤ (pos k) i || has_pcr k d

abbrev pub octet_at : ℕ → Bitmap → ℕ
octet_at k [] = 0
octet_at zero (x ∷ bmp) = x
octet_at (suc k) (x ∷ bmp) = octet_at k bmp

-- Whether a PCR has its bit in the bytes.
abbrev pub bitmap_has : ℕ → Bitmap → Bool
bitmap_has k bmp = bit (k % 8) (octet_at (k / 8) bmp)
