-- ===== src/Names/Algorithm.antt =====
-- HashAlgorithmId of types_interface.go, and the type of a Handle of types_handles.go.
use go_tpm.Base.{ℕ, ◌/◌, ◌%◌, ◌^◌, Bool, true, Option, none, some, ◌==◌, if◌then◌else◌}

abbrev pub algorithm_sha1 : ℕ
algorithm_sha1 = 0x4

abbrev pub algorithm_sha256 : ℕ
algorithm_sha256 = 0xb

abbrev pub algorithm_sha384 : ℕ
algorithm_sha384 = 0xc

abbrev pub algorithm_sha512 : ℕ
algorithm_sha512 = 0xd

abbrev pub algorithm_null : ℕ
algorithm_null = 0x10

abbrev pub algorithm_sm3_256 : ℕ
algorithm_sm3_256 = 0x12

abbrev pub algorithm_sha3_256 : ℕ
algorithm_sha3_256 = 0x27

abbrev pub algorithm_sha3_384 : ℕ
algorithm_sha3_384 = 0x28

abbrev pub algorithm_sha3_512 : ℕ
algorithm_sha3_512 = 0x29

-- IsValid
abbrev pub is_valid_algorithm : ℕ → Bool
is_valid_algorithm a =
    if a == algorithm_sha1
    then true
    else if a == algorithm_sha256
    then true
    else if a == algorithm_sha384
    then true
    else if a == algorithm_sha512
    then true
    else if a == algorithm_sm3_256
    then true
    else if a == algorithm_sha3_256
    then true
    else if a == algorithm_sha3_384
    then true
    else a == algorithm_sha3_512

-- Size; `none` is its panic.
abbrev pub algorithm_size : ℕ → Option ℕ
algorithm_size a =
    if a == algorithm_sha1
    then some 20
    else if a == algorithm_sha256
    then some 32
    else if a == algorithm_sha384
    then some 48
    else if a == algorithm_sha512
    then some 64
    else if a == algorithm_sm3_256
    then some 32
    else if a == algorithm_sha3_256
    then some 32
    else if a == algorithm_sha3_384
    then some 48
    else if a == algorithm_sha3_512
    then some 64
    else none

-- (Handle).Type
abbrev pub handle_type : ℕ → ℕ
handle_type h = h / 2 ^ 24 % 2 ^ 8

abbrev pub handle_type_pcr : ℕ
handle_type_pcr = 0x00

abbrev pub handle_type_hmac_session : ℕ
handle_type_hmac_session = 0x02

abbrev pub handle_type_policy_session : ℕ
handle_type_policy_session = 0x03

abbrev pub handle_type_permanent : ℕ
handle_type_permanent = 0x40
