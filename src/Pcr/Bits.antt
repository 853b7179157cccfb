-- ===== src/Pcr/Bits.antt =====
-- The PCRs that the two forms of a selection hold.
use go_tpm.Base.{
  ℕ, zero, suc, ◌+◌, ◌-◌, ◌*◌, ◌/◌, ◌%◌, ◌^◌, ◌≤◌, ◌<◌, bit_or, Bool, true, false, not, ◌&&◌, ◌||◌,
  [], ◌∷◌, ◌++◌, ◌≡◌, refl, ap, ◌↔◌, arith, length, replicate, All, leb, ltb, ◌==◌, if◌then◌else◌,
  Bool-cases, inl, inr, ok, >>=-eq-ok, ok-injective,
}
use go_tpm.Base.Int.{ℤ, pos, negsuc}
use go_tpm.Base.Digits.{bit, bit-bit_or, bit-power, bit-test, bit-zero}
use go_tpm.Pcr.Bitmap.{
  Bitmap, PcrSelect, octet_pcrs, to_pcrs_from, to_pcrs, grow, or_octet, set_pcr, set_pcrs,
  to_bitmap, has_pcr, octet_at, bitmap_has,
}

octet_at-grow : (k n : ℕ) (bmp : Bitmap) → octet_at k (grow n bmp) ≡ octet_at k bmp
unfolding grow
octet_at-grow k zero bmp = refl
octet_at-grow zero (suc n) [] = refl
octet_at-grow (suc k) (suc n) [] = octet_at-grow k n []
octet_at-grow zero (suc n) (x ∷ bmp) = refl
octet_at-grow (suc k) (suc n) (x ∷ bmp) = octet_at-grow k n bmp

pub length-grow :
    (n : ℕ) (bmp : Bitmap) → (length bmp ≤ length (grow n bmp)) × (n ≤ length (grow n bmp))
unfolding grow
length-grow zero bmp = omega arith
length-grow (suc n) [] = omega (arith, length-grow n [])
length-grow (suc n) (x ∷ bmp) = omega (arith, length-grow n bmp)

pub grow_long : (n : ℕ) (bmp : Bitmap) → n ≤ length bmp → grow n bmp ≡ bmp
unfolding grow
grow_long zero bmp h = refl
grow_long (suc n) [] h = absurd (omega arith)
grow_long (suc n) (x ∷ bmp) h = ap (λ ys. x ∷ ys) (grow_long n bmp (omega arith))

octet_at-or :
    (k j mask : ℕ) (bmp : Bitmap)
    → j < length bmp
    → octet_at k (or_octet j mask bmp)
      ≡ (if k == j then bit_or (octet_at k bmp) mask else octet_at k bmp)
unfolding or_octet
octet_at-or k j mask [] h = absurd (omega arith)
octet_at-or zero zero mask (x ∷ bmp) h = refl
octet_at-or (suc k) zero mask (x ∷ bmp) h = ground arith
octet_at-or zero (suc j) mask (x ∷ bmp) h = ground arith
octet_at-or (suc k) (suc j) mask (x ∷ bmp) h = ground (arith, octet_at-or k j mask bmp)

pub length-or_octet : (j mask : ℕ) (bmp : Bitmap) → length (or_octet j mask bmp) ≡ length bmp
unfolding or_octet
length-or_octet j mask [] = refl
length-or_octet zero mask (x ∷ bmp) = refl
length-or_octet (suc j) mask (x ∷ bmp) = ap suc (length-or_octet j mask bmp)

same_pcr : (k n : ℕ) → ((k / 8 == n / 8) && (k % 8 == n % 8)) ≡ (k == n)
same_pcr k n = ground arith

pub bitmap_has-set_pcr :
    (k i : ℕ) (out out' : Bitmap)
    → set_pcr out i ≡ ok out'
    → bitmap_has k out' ≡ ((k == i) || bitmap_has k out)
unfolding set_pcr
bitmap_has-set_pcr k i out out' e = elim (Bool-cases (leb 255 (i / 8))) [
  | inl big ↦ absurd (ground arith)
  | inr small ↦
      let long = (length-grow (suc (i / 8)) out).1 in
      let octets =
        octet_at-or (k / 8) (i / 8) (2 ^ (i % 8)) (grow (suc (i / 8)) out) (omega (arith, long)) in
      let result : or_octet (i / 8) (2 ^ (i % 8)) (grow (suc (i / 8)) out) ≡ out' = ground arith in
      rw (← result, octets, octet_at-grow (k / 8) (suc (i / 8)) out, ← same_pcr k i)
        (elim (Bool-cases (k / 8 == i / 8)) [
          | inl same ↦ rw (same, bit-bit_or, bit-power) (ground arith)
          | inr other ↦ rw other
        ])
]

bitmap_has-set_pcrs :
    (k : ℕ) (d : PcrSelect) (out out' : Bitmap)
    → set_pcrs out d ≡ ok out'
    → bitmap_has k out' ≡ (bitmap_has k out || has_pcr k d)
unfolding set_pcrs
bitmap_has-set_pcrs k [] out out' e = rw (← ok-injective e) (ground arith)
bitmap_has-set_pcrs k (negsuc i ∷ d) out out' e = cc
bitmap_has-set_pcrs k (pos i ∷ d) out out' e =
    let (mid, e1, e2) = >>=-eq-ok (set_pcr out i) _ e in
    rw (bitmap_has-set_pcrs k d mid out' e2, bitmap_has-set_pcr k i out mid e1) (ground arith)

octet_at-zeroes : (k n : ℕ) → octet_at k (replicate n 0) ≡ 0
octet_at-zeroes k zero = refl
octet_at-zeroes zero (suc n) = refl
octet_at-zeroes (suc k) (suc n) = octet_at-zeroes k n

-- ToBitmap sets the bits of the PCRs of its list, and no other.
pub bitmap_has-to_bitmap :
    (k minsize : ℕ) (d : PcrSelect) (bmp : Bitmap)
    → to_bitmap minsize d ≡ ok bmp
    → bitmap_has k bmp ≡ has_pcr k d
unfolding to_bitmap
bitmap_has-to_bitmap k minsize d bmp e =
    let size = if minsize == 0 then 3 else minsize in
    rw (
      bitmap_has-set_pcrs k d (replicate size 0) bmp e,
      octet_at-zeroes (k / 8) size,
      bit-zero (k % 8),
    )

has_pcr-append : (k : ℕ) (d d' : PcrSelect) → has_pcr k (d ++ d') ≡ (has_pcr k d || has_pcr k d')
has_pcr-append k [] d' = refl
has_pcr-append k (i ∷ d) d' = ground (arith, has_pcr-append k d d')

has_pcr-if :
    (k m : ℕ) (t : Bool) (rest : PcrSelect)
    → has_pcr k (if not t then rest else pos m ∷ rest) ≡ ((t && (k == m)) || has_pcr k rest)
has_pcr-if k m true rest = refl
has_pcr-if k m false rest = refl

has_pcr-octet :
    (k i octet n b : ℕ)
    → has_pcr k (octet_pcrs i octet n b)
      ≡ ((leb (i * 8 + b) k && ltb k (i * 8 + b + n)) && bit (k - i * 8) octet)
unfolding octet_pcrs
has_pcr-octet k i octet zero b = ground arith
has_pcr-octet k i octet (suc n) b =
    let later = has_pcr-octet k i octet n (suc b) in
    rw
      (
        bit-test b octet,
        has_pcr-if k (i * 8 + b) (bit b octet) (octet_pcrs i octet n (suc b)),
        later,
      )
      (elim (Bool-cases (k == i * 8 + b)) [
        | inl here ↦ let at : k - i * 8 ≡ b = ground arith in rw at (ground arith)
        | inr other ↦ ground arith
      ])

-- The bits of octet j of a number of octets that starts at octet i.
from_octet : ℕ → ℕ → Bitmap → Bool
from_octet k i bmp = leb i (k / 8) && bit (k % 8) (octet_at (k / 8 - i) bmp)

has_pcr-from : (k i : ℕ) (bmp : Bitmap) → has_pcr k (to_pcrs_from i bmp) ≡ from_octet k i bmp
unfolding to_pcrs_from from_octet
has_pcr-from k i [] = rw (bit-zero (k % 8)) (ground arith)
has_pcr-from k i (octet ∷ bmp) =
    rw (has_pcr-append, has_pcr-octet k i octet 8 0, has_pcr-from k (suc i) bmp)
      (elim (Bool-cases (k / 8 == i)) [
        | inl here ↦
            let at : k / 8 - i ≡ 0 = ground arith in
            let low : k - i * 8 ≡ k % 8 = ground arith in rw (at, low) (ground arith)
        | inr other ↦ elim (Bool-cases (ltb i (k / 8))) [
          | inl above ↦
              let step : k / 8 - i ≡ suc (k / 8 - suc i) = ground arith in rw step (ground arith)
          | inr below ↦ ground arith
        ]
      ])

-- ToPCRs lists the PCRs whose bits are set, and no other.
pub has_pcr-to_pcrs : (k : ℕ) (bmp : Bitmap) → has_pcr k (to_pcrs bmp) ≡ bitmap_has k bmp
unfolding from_octet
has_pcr-to_pcrs k bmp = ground (arith, has_pcr-from k 0 bmp)

-- An index that fits into a bitmap of 255 octets.
abbrev pub InRange : ℤ → Type 0
InRange (pos i) = i < 2040
InRange (negsuc i) = ⊥

set_pcr-ok : (out : Bitmap) (i : ℕ) → i < 2040 → (out' : Bitmap) × (set_pcr out i ≡ ok out')
unfolding set_pcr
set_pcr-ok out i h =
    let small : leb 255 (i / 8) ≡ false = ground arith in
    (or_octet (i / 8) (2 ^ (i % 8)) (grow (suc (i / 8)) out), rw small refl)

set_pcrs-ok :
    (d : PcrSelect) (out : Bitmap) → All InRange d → (out' : Bitmap) × (set_pcrs out d ≡ ok out')
unfolding set_pcrs
set_pcrs-ok [] out h = (out, refl)
set_pcrs-ok (pos i ∷ d) out h =
    let (mid, e1) = set_pcr-ok out i h.0 in
    let (out', e2) = set_pcrs-ok d mid h.1 in (out', rw (e1, e2) refl)
set_pcrs-ok (negsuc i ∷ d) out h = absurd h.0

set_pcrs-InRange : (d : PcrSelect) (out out' : Bitmap) → set_pcrs out d ≡ ok out' → All InRange d
unfolding set_pcrs set_pcr
set_pcrs-InRange [] out out' e = tt
set_pcrs-InRange (pos i ∷ d) out out' e =
    let (mid, e1, e2) = >>=-eq-ok (set_pcr out i) _ e in
    (ground arith, set_pcrs-InRange d mid out' e2)
set_pcrs-InRange (negsuc i ∷ d) out out' e = cc

-- ToBitmap succeeds exactly on the lists of indexes from 0 to 2039, whatever the minimum size.
pub to_bitmap_ok :
    (minsize : ℕ) (d : PcrSelect)
    → ((bmp : Bitmap) × (to_bitmap minsize d ≡ ok bmp)) ↔ All InRange d
unfolding to_bitmap
to_bitmap_ok minsize d = (λ r. set_pcrs-InRange d _ r.0 r.1, λ h. set_pcrs-ok d _ h)
