-- ===== src/Mu/RoundTrip/Scalars.antt =====
-- The round trip of numbers and of byte slices, and the common start of every round trip.
use go_tpm.Base.{
  ℕ, ◌^◌, ◌≤◌, ◌<◌, ◌≡◌, Bool, Option, none, some, [], ◌++◌, length, arith, ◌==◌, ok, ◌>>=◌,
  ok-injective, Bool-cases, inl, inr,
}
use mathlib.Core.List.{append_assoc, append-nil}
use go_tpm.Mu.Types.{Value, num, nil, bytes}
use go_tpm.Mu.Kind.{TpmKind}
use go_tpm.Mu.Bytes.{Bytes, big_endian, read_full-append, read_number-big_endian}
use go_tpm.Mu.Marshal
use go_tpm.Mu.Marshal.{
  Written, marshal_primitive, marshal_raw_bytes, marshal_fixed_bytes, sized_buffer, sized1_buffer,
  sized1_list, marshal_elems, marshal_raw_list, marshal_list, marshal_slice, marshal_pointer,
  enter_sized_type, max_list_length,
}
use go_tpm.Mu.Unmarshal
use go_tpm.Mu.Unmarshal.{
  Parsed, unmarshal_primitive, unmarshal_bool, unmarshal_fixed_bytes, unmarshal_sized_bytes,
  unmarshal_raw_bytes, unmarshal_elems, unmarshal_raw_list, unmarshal_list, unmarshal_sized1_list,
  unmarshal_slice, unmarshal_pointer, unmarshal_pointee, pointee, limited,
}
use go_tpm.Mu.Fits.{Reads, KindFits, NumberFits, SizedFits, RawFits, ArrayFits}

-- The common start of both sides.
pub kind-Reads :
    (k : Option TpmKind) (dst v : Value) (bs : Bytes) (fits : TpmKind → Type 0)
    (write : TpmKind → Written) (read : TpmKind → Bytes → Parsed Value)
    → ((k' : TpmKind) → fits k' → write k' ≡ ok bs → Reads (read k') bs v)
    → KindFits k dst v fits
    → Marshal.with_kind k write ≡ ok bs
    → Reads (λ input. Unmarshal.with_kind k dst input (λ k'. read k' input)) bs v
kind-Reads none dst v bs fits write read step f w rest = absurd f
kind-Reads (some TpmKind.ignore) dst v bs fits write read step f w rest = cc
kind-Reads (some k) dst v bs fits write read step f w rest = step k f w rest

pub number-Reads :
    (w : ℕ) (v : Value) (bs : Bytes)
    → NumberFits (256 ^ w) v
    → marshal_primitive w v ≡ ok bs
    → Reads (unmarshal_primitive w) bs v
number-Reads w (num x) bs f e rest = rw (← ok-injective e, read_number-big_endian w x rest f)
number-Reads w _ bs f e rest = absurd f

pub bool-Reads :
    (v : Value) (bs : Bytes)
    → NumberFits 2 v
    → marshal_primitive 1 v ≡ ok bs
    → Reads unmarshal_bool bs v
bool-Reads (num x) bs f e rest =
    rw (← ok-injective e, read_number-big_endian 1 x rest (omega arith)) (ground arith)
bool-Reads _ bs f e rest = absurd f

fixed-Reads : (xs : Bytes) → Reads (unmarshal_fixed_bytes (length xs)) xs (bytes xs)
fixed-Reads xs rest = rw (read_full-append xs rest)

module _ (w : ℕ) (xs : Bytes) (nonempty : 1 ≤ length xs) (small : length xs < 256 ^ w) where
  -- A size, the bytes, and what follows.
  sized-Reads : Reads (unmarshal_sized_bytes w) (big_endian w (length xs) ++ xs) (bytes xs)
  sized-Reads rest =
      rw (append_assoc, read_number-big_endian w (length xs) (xs ++ rest) small)
        (elim (Bool-cases (length xs == 0)) [
          | inl empty ↦ absurd (ground arith)
          | inr full ↦ rw full (fixed-Reads xs rest)
        ])

nil-Reads : (w : ℕ) → 0 < 256 ^ w → Reads (unmarshal_sized_bytes w) (big_endian w 0) nil
nil-Reads w h rest = rw (read_number-big_endian w 0 rest h)

pub array-Reads :
    (n : ℕ) (v : Value) (bs : Bytes)
    → ArrayFits n v
    → marshal_fixed_bytes v ≡ ok bs
    → Reads (unmarshal_fixed_bytes n) bs v
array-Reads n (bytes xs) bs f e rest = rw (← ok-injective e, ← f) (fixed-Reads xs rest)
array-Reads n _ bs f e rest = absurd f

pub sized_buffer_ok :
    (xs bs : Bytes)
    → sized_buffer xs ≡ ok bs
    → (length xs < 256 ^ 2) × (big_endian 2 (length xs) ++ xs ≡ bs)
sized_buffer_ok xs bs e = ground arith

sized1_buffer_ok :
    (xs bs : Bytes)
    → sized1_buffer xs ≡ ok bs
    → (length xs < 256 ^ 1) × (big_endian 1 (length xs) ++ xs ≡ bs)
sized1_buffer_ok xs bs e = ground arith

pub sized1_bytes-Reads :
    (v : Value) (bs : Bytes)
    → SizedFits v
    → (marshal_raw_bytes v >>= sized1_buffer) ≡ ok bs
    → Reads (unmarshal_sized_bytes 1) bs v
sized1_bytes-Reads nil bs f e rest =
    let (small, whole) = sized1_buffer_ok [] bs e in
    rw (← whole, append-nil) (nil-Reads 1 (omega arith) rest)
sized1_bytes-Reads (bytes xs) bs f e rest =
    let (small, whole) = sized1_buffer_ok xs bs e in rw (← whole) (sized-Reads 1 xs f small rest)
sized1_bytes-Reads _ bs f e rest = absurd f

pub sized_bytes-Reads :
    (is_bytes : Bool) (write : Value → Written) (v : Value) (bs : Bytes)
    → SizedFits v
    → marshal_slice TpmKind.sized is_bytes write v ≡ ok bs
    → Reads (unmarshal_sized_bytes 2) bs v
sized_bytes-Reads is_bytes write nil bs f e rest =
    rw (← ok-injective e) (nil-Reads 2 (omega arith) rest)
sized_bytes-Reads is_bytes write (bytes xs) bs f e rest =
    let (small, whole) = sized_buffer_ok xs bs e in rw (← whole) (sized-Reads 2 xs f small rest)
sized_bytes-Reads is_bytes write _ bs f e rest = absurd f

pub raw_bytes-Reads :
    (dst v : Value) (bs : Bytes)
    → RawFits dst v
    → marshal_raw_bytes v ≡ ok bs
    → Reads (unmarshal_raw_bytes dst) bs v
raw_bytes-Reads nil nil bs f e rest = rw (← ok-injective e)
raw_bytes-Reads (bytes ys) (bytes xs) bs f e rest = rw (← ok-injective e, f) (fixed-Reads xs rest)
raw_bytes-Reads _ _ bs f e rest = absurd f
