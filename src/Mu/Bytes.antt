-- ===== src/Mu/Bytes.antt =====
-- What mu.go takes from io and encoding/binary: reading a number of bytes in full, and big-endian
-- numbers. A reader is the list of the bytes that it has left.
use go_tpm.Base.{
  ℕ, zero, suc, ◌+◌, ◌*◌, ◌/◌, ◌%◌, ◌^◌, ◌<◌, ◌≡◌, refl, List, [], ◌∷◌, ◌++◌, length, length-append,
  arith, Outcome, ok, err, ◌>>=◌, All, All-append,
}
use native.Mathlib.Nat.{pow-suc}
use go_tpm.Mu.Types.{MuError, unexpected_eof}

abbrev pub Bytes : Type 0
Bytes = List ℕ

abbrev pub IsByte : ℕ → Type 0
IsByte b = b < 256

-- io.ReadFull into a buffer of n bytes. A reader that ends early is io.EOF or io.ErrUnexpectedEOF,
-- and newError makes both the latter.
unfoldable pub read_full : ℕ → Bytes → Outcome MuError (Bytes × Bytes)
read_full zero bs = ok ([], bs)
read_full (suc n) [] = err unexpected_eof
read_full (suc n) (b ∷ bs) = do (xs, rest) ← read_full n bs; ok (b ∷ xs, rest)

-- binary.Write of a number of w bytes, most significant first.
unfoldable pub big_endian : ℕ → ℕ → Bytes
big_endian zero x = []
big_endian (suc w) x = big_endian w (x / 256) ++ (x % 256) ∷ []

-- The number that bytes stand for, after those that have been read.
unfoldable pub from_big_endian : ℕ → Bytes → ℕ
from_big_endian acc [] = acc
from_big_endian acc (b ∷ bs) = from_big_endian (acc * 256 + b) bs

-- binary.Read of a number of w bytes.
unfoldable pub read_number : ℕ → Bytes → Outcome MuError (ℕ × Bytes)
unfolding read_full from_big_endian
read_number w bs = do (xs, rest) ← read_full w bs; ok (from_big_endian 0 xs, rest)

pub read_full-append : (xs rest : Bytes) → read_full (length xs) (xs ++ rest) ≡ ok (xs, rest)
unfolding read_full
read_full-append [] rest = refl
read_full-append (b ∷ xs) rest = rw (read_full-append xs rest)

pub length-big_endian : (w x : ℕ) → length (big_endian w x) ≡ w
unfolding big_endian
length-big_endian zero x = refl
length-big_endian (suc w) x =
    omega (
      arith,
      length-append (big_endian w (x / 256)) ((x % 256) ∷ []),
      length-big_endian w (x / 256),
    )

from_big_endian-append :
    (acc b : ℕ) (xs : Bytes) → from_big_endian acc (xs ++ b ∷ []) ≡ from_big_endian acc xs * 256 + b
unfolding from_big_endian
from_big_endian-append acc b [] = refl
from_big_endian-append acc b (x ∷ xs) = from_big_endian-append (acc * 256 + x) b xs

pub from_big_endian-big_endian : (w x : ℕ) → x < 256 ^ w → from_big_endian 0 (big_endian w x) ≡ x
unfolding big_endian
from_big_endian-big_endian zero x h = unfold from_big_endian in omega arith
from_big_endian-big_endian (suc w) x h =
    let small : x / 256 < 256 ^ w = omega (arith, pow-suc 256 w) in
    omega (
      arith,
      from_big_endian-append 0 (x % 256) (big_endian w (x / 256)),
      from_big_endian-big_endian w (x / 256) small,
    )

-- A number that fits its width is read back, and what follows it is left.
pub read_number-big_endian :
    (w x : ℕ) (rest : Bytes) → x < 256 ^ w → read_number w (big_endian w x ++ rest) ≡ ok (x, rest)
unfolding read_number
read_number-big_endian w x rest h =
    let whole : read_full w (big_endian w x ++ rest) ≡ ok (big_endian w x, rest) =
      rw length-big_endian at (read_full-append (big_endian w x) rest) in
    rw (whole, from_big_endian-big_endian w x h)

pub big_endian-IsByte : (w x : ℕ) → All IsByte (big_endian w x)
unfolding big_endian
big_endian-IsByte zero x = tt
big_endian-IsByte (suc w) x =
    All-append IsByte (big_endian w (x / 256)) _ (big_endian-IsByte w (x / 256)) (omega arith)
