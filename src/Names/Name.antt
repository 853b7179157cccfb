-- ===== src/Names/Name.antt =====
-- The type Name of types_structures.go.
use go_tpm.Base.{
  ℕ, ◌-◌, Bool, true, false, not, ◌||◌, Option, none, some, length, take, drop, ltb, ◌==◌,
  if◌then◌else◌,
}
use go_tpm.Mu.Bytes.{Bytes, big_endian, from_big_endian}
use go_tpm.Names.Algorithm.{
  algorithm_null, is_valid_algorithm, algorithm_size, handle_type, handle_type_pcr,
  handle_type_hmac_session, handle_type_policy_session, handle_type_permanent,
}

-- MakeHandleName; `none` is its panic.
unfoldable pub make_handle_name : ℕ → Option Bytes
make_handle_name h =
    if handle_type h == handle_type_pcr
      || handle_type h == handle_type_hmac_session
      || handle_type h == handle_type_policy_session
      || handle_type h == handle_type_permanent
    then some (big_endian 4 h)
    else none

pub data NameType : Type 0 where
  invalid handle digest empty : NameType

-- binary.BigEndian.Uint16 and Uint32 of a name that is long enough.
abbrev pub uint16 : Bytes → ℕ
uint16 n = from_big_endian 0 (take 2 n)

abbrev pub uint32 : Bytes → ℕ
uint32 n = from_big_endian 0 (take 4 n)

-- Type
unfoldable pub name_type : Bytes → NameType
name_type n =
    if length n == 0
    then empty
    else if length n == 4
    then handle
    else if ltb (length n) 2
    then invalid
    else if not (is_valid_algorithm (uint16 n))
    then invalid
    else elim (algorithm_size (uint16 n)) [
      | none ↦ invalid
      | some size ↦ if not (length n - 2 == size) then invalid else digest
    ]

-- IsValid
unfoldable pub is_valid_name : Bytes → Bool
is_valid_name n = elim (name_type n) [ invalid ↦ false | _ ↦ true ]

-- Handle; `none` is its panic.
unfoldable pub name_handle : Bytes → Option ℕ
name_handle n = elim (name_type n) [ handle ↦ some (uint32 n) | _ ↦ none ]

-- Algorithm
unfoldable pub name_algorithm : Bytes → ℕ
name_algorithm n = elim (name_type n) [ digest ↦ uint16 n | _ ↦ algorithm_null ]

-- Digest; `none` is its panic.
unfoldable pub name_digest : Bytes → Option Bytes
name_digest n = elim (name_type n) [ digest ↦ some (drop 2 n) | _ ↦ none ]
