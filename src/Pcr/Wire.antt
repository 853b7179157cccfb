-- ===== src/Pcr/Wire.antt =====
-- The wire format of a PCR selection: what is read back, and what is written again.
use go_tpm.Base.{
  ℕ, zero, suc, ◌+◌, ◌-◌, ◌*◌, ◌/◌, ◌%◌, ◌^◌, ◌≤◌, ◌<◌, false, [], ◌∷◌, ◌++◌, ◌≡◌, refl, ap, ap₂,
  ◌∙◌, arith, length, All, ltb, Outcome, ok, err, panic, >>=-eq-ok, ok-injective,
}
use mathlib.Core.List.{append_assoc}
use mathlib.Core.Path.{subst}
use go_tpm.Base.Int.{pos, negsuc}
use go_tpm.Mu.Bytes.{
  Bytes, IsByte, big_endian, from_big_endian, read_full, read_number, read_full-append,
  read_number-big_endian,
}
use go_tpm.Mu.Types.{MuError}
use go_tpm.Mu.Marshal.{sized1_buffer}
use go_tpm.Pcr.Bitmap.{Bitmap, PcrSelect, to_pcrs, to_bitmap, has_pcr}
use go_tpm.Pcr.Bits.{InRange, has_pcr-to_pcrs, bitmap_has-to_bitmap, to_bitmap_ok}
use go_tpm.Pcr.Octets.{to_bitmap-IsBitmap, to_pcrs-Within, Within}
use go_tpm.Pcr.Selection.{Selection, marshal_selection, unmarshal_selection, from_mu}
use go_tpm.Pcr.Inverse.{to_bitmap-to_pcrs}

sized1_buffer-ok :
    (bmp : Bitmap) → length bmp ≤ 255 → sized1_buffer bmp ≡ ok (big_endian 1 (length bmp) ++ bmp)
sized1_buffer-ok bmp h =
    let small : ltb (2 ^ 8 - 1) (length bmp) ≡ false = ground arith in rw small refl

-- What is written of a selection whose bitmap is known.
marshal_selection-bitmap :
    (s : Selection) (bmp : Bitmap)
    → s.size_of_select ≤ 255
    → to_bitmap s.size_of_select s.select ≡ ok bmp
    → marshal_selection s ≡ ok (big_endian 2 s.hash ++ (big_endian 1 (length bmp) ++ bmp))
unfolding marshal_selection
marshal_selection-bitmap s bmp h e =
    rw (e, sized1_buffer-ok bmp (to_bitmap-IsBitmap s.size_of_select s.select bmp h e).1) refl

-- What is read of it.
unmarshal_selection-bitmap :
    (h : ℕ) (bmp rest : Bitmap)
    → h < 2 ^ 16
    → length bmp ≤ 255
    → unmarshal_selection ((big_endian 2 h ++ (big_endian 1 (length bmp) ++ bmp)) ++ rest)
      ≡ ok (record { hash = h; select = to_pcrs bmp; size_of_select = length bmp }, rest)
unfolding unmarshal_selection
unmarshal_selection-bitmap h bmp rest hh hl = rw (
  append_assoc,
  append_assoc,
  read_number-big_endian 2 h (big_endian 1 (length bmp) ++ (bmp ++ rest)) (omega arith),
  read_number-big_endian 1 (length bmp) (bmp ++ rest) (omega arith),
  read_full-append bmp rest,
)

Within-InRange : (d : PcrSelect) (n : ℕ) → n ≤ 255 → All (Within n) d → All InRange d
unfolding Within
Within-InRange [] n h w = tt
Within-InRange (pos i ∷ d) n h w = (omega (arith, w.0), Within-InRange d n h w.1)
Within-InRange (negsuc i ∷ d) n h w = absurd w.0

pub to_pcrs-InRange : (bmp : Bitmap) → length bmp ≤ 255 → All InRange (to_pcrs bmp)
to_pcrs-InRange bmp h =
    Within-InRange (to_pcrs bmp) (length bmp) h (to_pcrs-Within (length bmp) 0 bmp (omega arith))

-- A selection that may be marshalled.
abbrev pub IsSelection : Selection → Type 0
IsSelection s = (s.hash < 2 ^ 16) × (s.size_of_select ≤ 255) × All InRange s.select

-- Selections of one bank with the same PCRs.
abbrev pub Same : Selection → Selection → Type 0
Same s s' = (s'.hash ≡ s.hash) × ((k : ℕ) → has_pcr k s'.select ≡ has_pcr k s.select)

-- A selection of a 16-bit algorithm, a minimum size of at most 255 and PCRs from 0 to 2039 is
-- marshalled without an error, and what is read back has the same algorithm and the same PCRs, and
-- is a selection of that kind again. The bytes that follow are left.
pub unmarshal_selection-marshal_selection :
    (s : Selection) (rest : Bytes)
    → IsSelection s
    → (bs : Bytes) × (marshal_selection s ≡ ok bs)
      × (s' : Selection) × (unmarshal_selection (bs ++ rest) ≡ ok (s', rest))
      × IsSelection s'
      × Same s s'
unmarshal_selection-marshal_selection s rest h =
    let (bmp, e) = (to_bitmap_ok s.size_of_select s.select).1 h.2 in
    let valid = to_bitmap-IsBitmap s.size_of_select s.select bmp h.1 e in
    (
      big_endian 2 s.hash ++ (big_endian 1 (length bmp) ++ bmp),
      marshal_selection-bitmap s bmp h.1 e,
      record { hash = s.hash; select = to_pcrs bmp; size_of_select = length bmp },
      unmarshal_selection-bitmap s.hash bmp rest h.0 valid.1,
      (h.0, valid.1, to_pcrs-InRange bmp valid.1),
      (refl, λ k. has_pcr-to_pcrs k bmp ∙ bitmap_has-to_bitmap k s.size_of_select s.select bmp e),
    )

two_bytes :
    (input : Bytes) (h : ℕ) (rest : Bytes)
    → All IsByte input
    → read_number 2 input ≡ ok (h, rest)
    → (input ≡ big_endian 2 h ++ rest) × All IsByte rest
unfolding read_number read_full from_big_endian big_endian
two_bytes [] h rest hb e = cc
two_bytes (a ∷ []) h rest hb e = cc
two_bytes (a ∷ b ∷ input) h rest hb e =
    let p : ◌≡◌ {A = ℕ × Bytes} ((0 * 256 + a) * 256 + b, input) (h, rest) = ok-injective e in
    let number : (0 * 256 + a) * 256 + b ≡ h = ap (λ r. r.0) p in
    let left : input ≡ rest = ap (λ r. r.1) p in
    let high : a ≡ h / 256 % 256 = omega (arith, hb.0, hb.1.0) in
    let low : b ≡ h % 256 = omega (arith, hb.0, hb.1.0) in
    (ap₂ (λ x xs. x ∷ xs) high (ap₂ (λ x xs. x ∷ xs) low left), subst (All IsByte) left hb.1.1)

one-IsByte :
    (input : Bytes) (n : ℕ) (rest : Bytes)
    → All IsByte input
    → read_number 1 input ≡ ok (n, rest)
    → (input ≡ big_endian 1 n ++ rest) × (n < 256) × All IsByte rest
unfolding read_number read_full from_big_endian big_endian
one-IsByte [] h rest hb e = cc
one-IsByte (a ∷ input) n rest hb e =
    let p : ◌≡◌ {A = ℕ × Bytes} (0 * 256 + a, input) (n, rest) = ok-injective e in
    let number : 0 * 256 + a ≡ n = ap (λ r. r.0) p in
    let left : input ≡ rest = ap (λ r. r.1) p in
    let low : a ≡ n % 256 = omega (arith, hb.0) in
    (ap₂ (λ x xs. x ∷ xs) low left, omega (arith, hb.0), subst (All IsByte) left hb.1)

many_bytes :
    (n : ℕ) (input bmp rest : Bytes)
    → All IsByte input
    → read_full n input ≡ ok (bmp, rest)
    → (input ≡ bmp ++ rest) × (length bmp ≡ n) × All IsByte bmp
unfolding read_full
many_bytes zero input bmp rest hb e =
    let p : ([], input) ≡ (bmp, rest) = ok-injective e in
    let none_read : [] ≡ bmp = ap (λ r. r.0) p in
    subst (λ xs. (input ≡ xs ++ rest) × (length xs ≡ 0) × All IsByte xs) none_read
      (ap (λ r. r.1) p, refl, tt)
many_bytes (suc n) [] bmp rest hb e = cc
many_bytes (suc n) (b ∷ input) bmp rest hb e =
    let (r, e1, e2) = >>=-eq-ok (read_full n input) _ e in
    let (whole, size, all_bytes) = many_bytes n input r.0 r.1 hb.1 e1 in
    let p : (b ∷ r.0, r.1) ≡ (bmp, rest) = ok-injective e2 in
    subst (λ q. (b ∷ input ≡ q.0 ++ q.1) × (length q.0 ≡ suc n) × All IsByte q.0) p
      (ap (λ xs. b ∷ xs) whole, ap suc size, (hb.0, all_bytes))

from_mu-ok : {A : Type 0} (m : Outcome MuError A) (a : A) → from_mu m ≡ ok a → m ≡ ok a
from_mu-ok (ok b) a e = ap ok (ok-injective e)
from_mu-ok (err x) a e = cc
from_mu-ok panic a e = cc

unfoldable Rewrites : Bytes → Selection → Bytes → Type 0
Rewrites input s rest = (bs : Bytes) × (marshal_selection s ≡ ok bs) × (bs ++ rest ≡ input)

-- The three reads of a selection.
module _ (input r1 r2 rest bmp : Bytes) (h n : ℕ) where
  together :
      input ≡ big_endian 2 h ++ r1
      → r1 ≡ big_endian 1 n ++ r2
      → r2 ≡ bmp ++ rest
      → (big_endian 2 h ++ (big_endian 1 n ++ bmp)) ++ rest ≡ input
  together e1 e2 e3 = rw (append_assoc, append_assoc, ← e3, ← e2, ← e1)

  reads_rewrite :
      All IsByte input
      → read_number 2 input ≡ ok (h, r1)
      → read_number 1 r1 ≡ ok (n, r2)
      → read_full n r2 ≡ ok (bmp, rest)
      → 1 ≤ length bmp
      → Rewrites input (record { hash = h; select = to_pcrs bmp; size_of_select = length bmp }) rest
  unfolding Rewrites
  reads_rewrite hb e1 e2 e3 h1 =
      let (whole1, bytes1) = two_bytes input h r1 hb e1 in
      let (whole2, small, bytes2) = one-IsByte r1 n r2 bytes1 e2 in
      let (whole3, size, bytes3) = many_bytes n r2 bmp rest bytes2 e3 in
      let read : Selection = record {
        hash = h;
        select = to_pcrs bmp;
        size_of_select = length bmp;
      } in
      let short : length bmp ≤ 255 = omega (arith, size, small) in
      (
        big_endian 2 h ++ (big_endian 1 (length bmp) ++ bmp),
        marshal_selection-bitmap read bmp short (to_bitmap-to_pcrs bmp (bytes3, short) h1),
        rw size (together whole1 whole2 whole3),
      )

-- A selection that was read from bytes, with at least one octet, is written as the same bytes.
pub marshal_selection-unmarshal_selection :
    (input : Bytes) (s : Selection) (rest : Bytes)
    → All IsByte input
    → unmarshal_selection input ≡ ok (s, rest)
    → 1 ≤ s.size_of_select
    → (bs : Bytes) × (marshal_selection s ≡ ok bs) × (bs ++ rest ≡ input)
unfolding unmarshal_selection Rewrites
marshal_selection-unmarshal_selection input s rest hb e h1 =
    let ((h, r1), a1, e1) = >>=-eq-ok (from_mu (read_number 2 input)) _ e in
    let ((n, r2), a2, e2) = >>=-eq-ok (from_mu (read_number 1 r1)) _ e1 in
    let ((bmp, r3), a3, e3) = >>=-eq-ok (from_mu (read_full n r2)) _ e2 in
    let p : ◌≡◌ {A = Selection × Bytes}
        (record { hash = h; select = to_pcrs bmp; size_of_select = length bmp }, r3) (s, rest) =
      ok-injective e3 in
    let size : length bmp ≡ s.size_of_select = ap (λ q. q.0.size_of_select) p in
    subst (λ q. Rewrites input q.0 q.1) p
      (reads_rewrite input r1 r2 r3 bmp h n hb (from_mu-ok _ (h, r1) a1) (from_mu-ok _ (n, r2) a2)
        (from_mu-ok _ (bmp, r3) a3) (omega (arith, h1, size)))
