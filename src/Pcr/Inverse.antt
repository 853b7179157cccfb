-- ===== src/Pcr/Inverse.antt =====
-- From a bitmap to PCR indexes and back.
use go_tpm.Base.{
  ℕ, zero, suc, ◌+◌, ◌*◌, ◌/◌, ◌%◌, ◌≤◌, ◌<◌, false, [], ◌∷◌, ◌≡◌, refl, sym, ap, ap₂, ◌∙◌, arith,
  length, length-replicate, replicate, All, ◌==◌, ok,
}
use mathlib.Core.Path.{subst}
use go_tpm.Base.Digits.{bits_determine}
use go_tpm.Mu.Bytes.{IsByte}
use go_tpm.Pcr.Bitmap.{Bitmap, to_pcrs, to_bitmap, octet_at, bitmap_has}
use go_tpm.Pcr.Bits.{has_pcr-to_pcrs, bitmap_has-to_bitmap}
use go_tpm.Pcr.Octets.{IsBitmap, to_bitmap-IsBitmap, set-All-Within, to_pcrs-Within, Within}

octets_determine :
    (xs ys : Bitmap) → length xs ≡ length ys → ((j : ℕ) → octet_at j xs ≡ octet_at j ys) → xs ≡ ys
octets_determine [] [] hl h = refl
octets_determine [] (y ∷ ys) hl h = absurd (omega arith)
octets_determine (x ∷ xs) [] hl h = absurd (omega arith)
octets_determine (x ∷ xs) (y ∷ ys) hl h =
    ap₂ (λ z zs. z ∷ zs) (h 0) (octets_determine xs ys (omega arith) (λ j. h (suc j)))

octet-IsByte : (j : ℕ) (xs : Bitmap) → All IsByte xs → octet_at j xs < 256
octet-IsByte j [] h = omega arith
octet-IsByte zero (x ∷ xs) h = h.0
octet-IsByte (suc j) (x ∷ xs) h = octet-IsByte j xs h.1

-- Bitmaps of one length with the same PCRs are equal.
pcrs_determine :
    (xs ys : Bitmap)
    → All IsByte xs
    → All IsByte ys
    → length xs ≡ length ys
    → ((k : ℕ) → bitmap_has k xs ≡ bitmap_has k ys)
    → xs ≡ ys
pcrs_determine xs ys hx hy hl h = octets_determine xs ys hl (λ j.
    bits_determine 8 (octet_at j xs) (octet_at j ys) (octet-IsByte j xs hx) (octet-IsByte j ys hy)
      (λ c lt.
        let at_bit : (j * 8 + c) % 8 ≡ c = omega arith in
        let at_octet : (j * 8 + c) / 8 ≡ j = omega arith in
        rw (at_bit, at_octet) at (h (j * 8 + c))))

-- A bitmap of 1 to 255 bytes is converted to PCR indexes and back, with its own length as the
-- minimum size, without a change.
pub to_bitmap-to_pcrs :
    (bmp : Bitmap) → IsBitmap bmp → 1 ≤ length bmp → to_bitmap (length bmp) (to_pcrs bmp) ≡ ok bmp
unfolding to_bitmap
to_bitmap-to_pcrs bmp h h1 =
    let zeroes : Bitmap = replicate (length bmp) 0 in
    let long : length zeroes ≡ length bmp = length-replicate {A = ℕ} (length bmp) 0 in
    let inside = to_pcrs-Within (length bmp) 0 bmp (omega arith) in
    let (out, e, l) =
      set-All-Within (to_pcrs bmp) zeroes
        (subst (λ n. All (Within n) (to_pcrs bmp)) (sym long) inside) (omega (arith, long, h.1)) in
    let not_zero : (length bmp == 0) ≡ false = ground arith in
    let made : to_bitmap (length bmp) (to_pcrs bmp) ≡ ok out = rw not_zero e in
    let valid = to_bitmap-IsBitmap (length bmp) (to_pcrs bmp) out h.1 made in
    let same : out ≡ bmp =
      pcrs_determine out bmp valid.0 h.0 (l ∙ long)
        (λ k. bitmap_has-to_bitmap k (length bmp) (to_pcrs bmp) out made ∙ has_pcr-to_pcrs k bmp) in
    made ∙ ap ok same
