-- ===== src/Pcr/Octets.antt =====
-- The octets of a bitmap: bytes, at most 255 of them, and as many as before where they suffice.
use go_tpm.Base.{
  All-append, ltb→lt, bit_and, ℕ, zero, suc, ◌+◌, ◌/◌, ◌%◌, ◌^◌, ◌≤◌, ◌<◌, false, [], ◌∷◌, ◌≡◌,
  refl, ◌∙◌, arith, length, length-replicate, replicate, All, leb, ltb, ◌==◌, if◌then◌else◌,
  Bool-cases, inl, inr, ok, >>=-eq-ok, ok-injective,
}
use mathlib.Core.Path.{subst}
use go_tpm.Base.Bits.{check_below, check_below-at}
use go_tpm.Base.Int.{ℤ, pos, negsuc}
use go_tpm.Base.Digits.{bit_or_below}
use go_tpm.Mu.Bytes.{IsByte}
use go_tpm.Pcr.Bitmap.{
  Bitmap, PcrSelect, octet_pcrs, to_pcrs_from, grow, or_octet, set_pcr, set_pcrs, to_bitmap,
}
use go_tpm.Pcr.Bits.{grow_long, length-or_octet}

grow-IsByte : (n : ℕ) (bmp : Bitmap) → All IsByte bmp → All IsByte (grow n bmp)
unfolding grow
grow-IsByte zero bmp h = h
grow-IsByte (suc n) [] h = (omega arith, grow-IsByte n [] tt)
grow-IsByte (suc n) (x ∷ bmp) h = (h.0, grow-IsByte n bmp h.1)

mask-IsByte : (b : ℕ) → b < 8 → 2 ^ b < 256
unfolding check_below
mask-IsByte b h = ltb→lt (2 ^ b) 256 (check_below-at 8 (λ c. ltb (2 ^ c) 256) b refl h)

or_octet-IsByte :
    (j mask : ℕ) (bmp : Bitmap) → mask < 256 → All IsByte bmp → All IsByte (or_octet j mask bmp)
unfolding or_octet
or_octet-IsByte j mask [] hm h = tt
or_octet-IsByte zero mask (x ∷ bmp) hm h = (bit_or_below 8 x mask h.0 hm, h.1)
or_octet-IsByte (suc j) mask (x ∷ bmp) hm h = (h.0, or_octet-IsByte j mask bmp hm h.1)

length-grow_max : (n m : ℕ) (bmp : Bitmap) → length bmp ≤ m → n ≤ m → length (grow n bmp) ≤ m
unfolding grow
length-grow_max zero m bmp h hn = h
length-grow_max (suc n) zero bmp h hn = absurd (omega arith)
length-grow_max (suc n) (suc m) [] h hn =
    omega (arith, length-grow_max n m [] (omega arith) (omega arith))
length-grow_max (suc n) (suc m) (x ∷ bmp) h hn =
    omega (arith, length-grow_max n m bmp (omega arith) (omega arith))

-- What a PCRSelectBitmap can be on the wire.
abbrev pub IsBitmap : Bitmap → Type 0
IsBitmap bmp = All IsByte bmp × (length bmp ≤ 255)

set_pcr-IsBitmap :
    (out : Bitmap) (i : ℕ) (out' : Bitmap) → IsBitmap out → set_pcr out i ≡ ok out' → IsBitmap out'
unfolding set_pcr
set_pcr-IsBitmap out i out' h e = elim (Bool-cases (leb 255 (i / 8))) [
  | inl big ↦ absurd (ground arith)
  | inr small ↦
      let grown = grow (suc (i / 8)) out in
      let result : or_octet (i / 8) (2 ^ (i % 8)) grown ≡ out' = ground arith in
      let all_bytes =
        or_octet-IsByte (i / 8) (2 ^ (i % 8)) grown (mask-IsByte (i % 8) (omega arith))
          (grow-IsByte (suc (i / 8)) out h.0) in
      let long = length-grow_max (suc (i / 8)) 255 out h.1 (ground arith) in
      subst IsBitmap result
        (all_bytes, omega (arith, length-or_octet (i / 8) (2 ^ (i % 8)) grown, long))
]

set_pcrs-IsBitmap :
    (d : PcrSelect) (out out' : Bitmap) → IsBitmap out → set_pcrs out d ≡ ok out' → IsBitmap out'
unfolding set_pcrs
set_pcrs-IsBitmap [] out out' h e = subst IsBitmap (ok-injective e) h
set_pcrs-IsBitmap (negsuc i ∷ d) out out' h e = cc
set_pcrs-IsBitmap (pos i ∷ d) out out' h e =
    let (mid, e1, e2) = >>=-eq-ok (set_pcr out i) _ e in
    set_pcrs-IsBitmap d mid out' (set_pcr-IsBitmap out i mid h e1) e2

zeroes-IsByte : (n : ℕ) → All IsByte (replicate n 0)
zeroes-IsByte zero = tt
zeroes-IsByte (suc n) = (omega arith, zeroes-IsByte n)

pub to_bitmap-IsBitmap :
    (minsize : ℕ) (d : PcrSelect) (bmp : Bitmap)
    → minsize ≤ 255
    → to_bitmap minsize d ≡ ok bmp
    → IsBitmap bmp
unfolding to_bitmap
to_bitmap-IsBitmap minsize d bmp h e =
    let size = if minsize == 0 then 3 else minsize in
    let small : size ≤ 255 = ground arith in
    set_pcrs-IsBitmap d (replicate size 0) bmp
      (zeroes-IsByte size, omega (arith, length-replicate {A = ℕ} size 0, small)) e

-- A PCR whose octet is one of the first n.
unfoldable pub Within : ℕ → ℤ → Type 0
Within n (pos i) = i / 8 < n
Within n (negsuc i) = ⊥

octet_pcrs-Within :
    (n i octet m b : ℕ) → i < n → b + m ≤ 8 → All (Within n) (octet_pcrs i octet m b)
unfolding octet_pcrs Within
octet_pcrs-Within n i octet zero b h hb = tt
octet_pcrs-Within n i octet (suc m) b h hb = elim (Bool-cases (bit_and octet (2 ^ b) == 0)) [
  | inl clear ↦ rw clear (octet_pcrs-Within n i octet m (suc b) h (omega arith))
  | inr set ↦ rw set (omega arith, octet_pcrs-Within n i octet m (suc b) h (omega arith))
]

pub to_pcrs-Within :
    (n i : ℕ) (bmp : Bitmap) → i + length bmp ≤ n → All (Within n) (to_pcrs_from i bmp)
unfolding to_pcrs_from
to_pcrs-Within n i [] h = tt
to_pcrs-Within n i (octet ∷ bmp) h =
    All-append (Within n) (octet_pcrs i octet 8 0) (to_pcrs_from (suc i) bmp)
      (octet_pcrs-Within n i octet 8 0 (omega arith) (omega arith))
      (to_pcrs-Within n (suc i) bmp (omega arith))

-- PCRs within a bitmap are set in place.
set_within :
    (out : Bitmap) (i : ℕ)
    → i / 8 < length out
    → length out ≤ 255
    → (out' : Bitmap) × (set_pcr out i ≡ ok out') × (length out' ≡ length out)
unfolding set_pcr
set_within out i h hl =
    let small : leb 255 (i / 8) ≡ false = ground arith in
    let mask = 2 ^ (i % 8) in
    (
      or_octet (i / 8) mask (grow (suc (i / 8)) out),
      rw small refl,
      rw (length-or_octet (i / 8) mask, grow_long (suc (i / 8)) out (omega arith)) refl,
    )

pub set-All-Within :
    (d : PcrSelect) (out : Bitmap)
    → All (Within (length out)) d
    → length out ≤ 255
    → (out' : Bitmap) × (set_pcrs out d ≡ ok out') × (length out' ≡ length out)
unfolding set_pcrs Within
set-All-Within [] out h hl = (out, refl, refl)
set-All-Within (negsuc i ∷ d) out h hl = absurd h.0
set-All-Within (pos i ∷ d) out h hl =
    let (mid, e1, l1) = set_within out i h.0 hl in
    let (out', e2, l2) = set-All-Within d mid (rw l1 h.1) (omega (arith, l1)) in
    (out', rw (e1, e2) refl, l2 ∙ l1)
