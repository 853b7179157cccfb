-- ===== src/Names/Parts.antt =====
-- What a name is made of, and what its methods give back.
use go_tpm.Base.{
  ℕ, ◌+◌, ◌-◌, ◌^◌, ◌≤◌, ◌<◌, ◌≡◌, ◌⊎◌, refl, sym, ap, ◌∙◌, true, false, some, [], ◌++◌, arith,
  length, length-append, take, drop, take-append, drop-append, ltb, ◌==◌,
}
use mathlib.Core.List.{append-nil}
use go_tpm.Mu.Bytes.{Bytes, big_endian, length-big_endian, from_big_endian-big_endian}
use go_tpm.Names.Algorithm.{is_valid_algorithm, algorithm_size}
use go_tpm.Names.Name.{
  NameType, make_handle_name, name_type, is_valid_name, name_handle, name_algorithm, name_digest,
  uint16,
}

-- The name that MakeHandleName makes of a handle of 32 bits is a handle name, and gives the handle
-- back.
pub name_handle-make_handle_name :
    (h : ℕ) (n : Bytes)
    → h < 2 ^ 32
    → make_handle_name h ≡ some n
    → (name_type n ≡ NameType.handle) × (name_handle n ≡ some h)
unfolding make_handle_name name_handle
name_handle-make_handle_name h n small e =
    let written : big_endian 4 h ≡ n = ground arith in
    let four : length n ≡ 4 = ap length (sym written) ∙ length-big_endian 4 h in
    let is_handle : name_type n ≡ NameType.handle = unfold name_type in ground arith in
    let whole : take 4 n ≡ big_endian 4 h =
      (rw written at (rw (length-big_endian 4 h, append-nil) at (take-append (big_endian 4 h) [])))
      ∙ sym written in
    (
      is_handle,
      rw (name_handle, is_handle, whole, from_big_endian-big_endian 4 h (omega arith)) refl,
    )

sizes :
    (a k : ℕ)
    → algorithm_size a ≡ some k
    → (is_valid_algorithm a ≡ true) × (20 ≤ k) × (k ≤ 64) × (a < 2 ^ 16)
sizes a k e = ground arith

-- A valid algorithm and a digest of its size make a digest name, and are given back.
pub name_digest-append :
    (a k : ℕ) (d : Bytes)
    → algorithm_size a ≡ some k
    → length d ≡ k
    → (name_type (big_endian 2 a ++ d) ≡ NameType.digest)
      × (name_algorithm (big_endian 2 a ++ d) ≡ a)
      × (name_digest (big_endian 2 a ++ d) ≡ some d)
unfolding name_algorithm name_digest
name_digest-append a k d e hl =
    let (valid, low, high, small) = sizes a k e in
    let two = length-big_endian 2 a in
    let first : take 2 (big_endian 2 a ++ d) ≡ big_endian 2 a =
      rw two at (take-append (big_endian 2 a) d) in
    let rest : drop 2 (big_endian 2 a ++ d) ≡ d = rw two at (drop-append (big_endian 2 a) d) in
    let alg : uint16 (big_endian 2 a ++ d) ≡ a =
      rw first (from_big_endian-big_endian 2 a (omega arith)) in
    let long : length (big_endian 2 a ++ d) ≡ 2 + k =
      omega (arith, length-append (big_endian 2 a) d, two) in
    let not_empty : (length (big_endian 2 a ++ d) == 0) ≡ false = ground arith in
    let not_handle : (length (big_endian 2 a ++ d) == 4) ≡ false = ground arith in
    let long_enough : ltb (length (big_endian 2 a ++ d)) 2 ≡ false = ground arith in
    let whole : (length (big_endian 2 a ++ d) - 2 == k) ≡ true = ground arith in
    let is_digest : name_type (big_endian 2 a ++ d) ≡ NameType.digest =
      unfold name_type in rw (not_empty, not_handle, long_enough, alg, valid, e, whole) refl in
    (is_digest, rw (name_algorithm, is_digest, alg) refl, rw (name_digest, is_digest, rest) refl)

-- A valid name is empty, or has the length of a handle, or that of an algorithm and a digest of its
-- size.
pub is_valid_name-lengths :
    (n : Bytes)
    → is_valid_name n ≡ true
    → (length n ≡ 0) ⊎ (length n ≡ 4) ⊎ (algorithm_size (uint16 n) ≡ some (length n - 2))
unfolding is_valid_name name_type
is_valid_name-lengths n h = ground arith
