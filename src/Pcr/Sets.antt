-- ===== src/Pcr/Sets.antt =====
-- The octet loops of Merge and Remove, as union and difference of PCRs.
use go_tpm.Base.{
  ℕ, zero, suc, ◌/◌, ◌%◌, ◌^◌, ◌≤◌, ◌<◌, true, not, ◌&&◌, ◌||◌, [], ◌∷◌, ◌≡◌, refl, ap, arith,
  length, replicate, All, ok, >>=-eq-ok,
}
use go_tpm.Base.Bits.{check_below, check_below-at}
use go_tpm.Base.Int.{pos, negsuc}
use go_tpm.Base.Digits.{bit, bit-bit_and, bit-bit_or, bit-bit_xor, bit-zero}
use go_tpm.Pcr.Bitmap.{
  Bitmap, PcrSelect, to_bitmap, set_pcr, set_pcrs, grow, has_pcr, octet_at, bitmap_has,
}
use go_tpm.Pcr.Bits.{InRange, bitmap_has-to_bitmap, to_bitmap_ok, length-grow, length-or_octet}
use go_tpm.Pcr.Octets.{to_bitmap-IsBitmap}
use go_tpm.Pcr.Lists.{and_not, clear_octets, set_octets}

bit-255 : (c : ℕ) → c < 8 → bit c 255 ≡ true
unfolding check_below
bit-255 c h = check_below-at 8 (λ x. bit x 255) c (unfold bit in refl) h

bit-and_not : (c x y : ℕ) → c < 8 → bit c (and_not x y) ≡ (bit c x && not (bit c y))
bit-and_not c x y h = rw (bit-bit_and, bit-bit_xor c y 255 (bit-255 c h)) refl

octet_at-clear :
    (c j : ℕ) (xs ys : Bitmap)
    → c < 8
    → bit c (octet_at j (clear_octets xs ys))
      ≡ (bit c (octet_at j xs) && not (bit c (octet_at j ys)))
unfolding clear_octets
octet_at-clear c j [] ys h = rw (bit-zero c) refl
octet_at-clear c j (x ∷ xs) [] h = rw (bit-zero c) (ground arith)
octet_at-clear c zero (x ∷ xs) (y ∷ ys) h = bit-and_not c x y h
octet_at-clear c (suc j) (x ∷ xs) (y ∷ ys) h = octet_at-clear c j xs ys h

pub bitmap_has-clear :
    (k : ℕ) (xs ys : Bitmap)
    → bitmap_has k (clear_octets xs ys) ≡ (bitmap_has k xs && not (bitmap_has k ys))
bitmap_has-clear k xs ys = octet_at-clear (k % 8) (k / 8) xs ys (omega arith)

octet_at-set :
    (c j : ℕ) (xs ys : Bitmap)
    → length ys ≤ length xs
    → bit c (octet_at j (set_octets xs ys)) ≡ (bit c (octet_at j xs) || bit c (octet_at j ys))
unfolding set_octets
octet_at-set c j [] [] h = rw (bit-zero c) refl
octet_at-set c j [] (y ∷ ys) h = absurd (omega arith)
octet_at-set c j (x ∷ xs) [] h = rw (bit-zero c) (ground arith)
octet_at-set c zero (x ∷ xs) (y ∷ ys) h = bit-bit_or c x y
octet_at-set c (suc j) (x ∷ xs) (y ∷ ys) h = octet_at-set c j xs ys (omega arith)

pub bitmap_has-set :
    (k : ℕ) (xs ys : Bitmap)
    → length ys ≤ length xs
    → bitmap_has k (set_octets xs ys) ≡ (bitmap_has k xs || bitmap_has k ys)
bitmap_has-set k xs ys h = octet_at-set (k % 8) (k / 8) xs ys h

pub length-clear : (xs ys : Bitmap) → length (clear_octets xs ys) ≡ length xs
unfolding clear_octets
length-clear [] ys = refl
length-clear (x ∷ xs) [] = refl
length-clear (x ∷ xs) (y ∷ ys) = ap suc (length-clear xs ys)

pub length-set : (xs ys : Bitmap) → length (set_octets xs ys) ≡ length xs
unfolding set_octets
length-set [] ys = refl
length-set (x ∷ xs) [] = refl
length-set (x ∷ xs) (y ∷ ys) = ap suc (length-set xs ys)

set_pcr-longer :
    (out : Bitmap) (i : ℕ) (out' : Bitmap) → set_pcr out i ≡ ok out' → length out ≤ length out'
unfolding set_pcr
set_pcr-longer out i out' e = ground (
  arith,
  length-or_octet (i / 8) (2 ^ (i % 8)) (grow (suc (i / 8)) out),
  length-grow (suc (i / 8)) out,
)

set_pcrs-longer :
    (d : PcrSelect) (out out' : Bitmap) → set_pcrs out d ≡ ok out' → length out ≤ length out'
unfolding set_pcrs
set_pcrs-longer [] out out' e = ground arith
set_pcrs-longer (negsuc i ∷ d) out out' e = cc
set_pcrs-longer (pos i ∷ d) out out' e =
    let (mid, e1, e2) = >>=-eq-ok (set_pcr out i) _ e in
    omega (arith, set_pcr-longer out i mid e1, set_pcrs-longer d mid out' e2)

-- ToBitmap with the largest minimum size.
pub full_bitmap :
    (d : PcrSelect)
    → All InRange d
    → (bmp : Bitmap) × (to_bitmap 255 d ≡ ok bmp)
      × (length bmp ≡ 255)
      × ((k : ℕ) → bitmap_has k bmp ≡ has_pcr k d)
unfolding to_bitmap
full_bitmap d h =
    let (bmp, e) = (to_bitmap_ok 255 d).1 h in
    let long = set_pcrs-longer d (replicate 255 0) bmp e in
    (
      bmp,
      e,
      omega (arith, long, (to_bitmap-IsBitmap 255 d bmp (omega arith) e).1),
      λ k. bitmap_has-to_bitmap k 255 d bmp e,
    )
