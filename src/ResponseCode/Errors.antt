-- ===== src/ResponseCode/Errors.antt =====
-- The errors of errors.go that stand for a response code, with their ResponseCode methods.
use go_tpm.Base.{
  ℕ, ◌-◌, ◌*◌, ◌%◌, ◌^◌, bit_and, bit_or, not, ◌||◌, Option, none, some, ◌==◌, leb, if◌then◌else◌,
}
use go_tpm.Base.Int.{ℤ, magnitude, in_range}
use go_tpm.ResponseCode.Fields.{
  response_code_e0, response_code_e1, response_code_f, response_code_v, response_code_s,
  response_code_p, response_code_index_shift, rc_f, rc_v, rc_t,
}

-- The struct TPMError. A CommandCode is a uint32 and an ErrorCode a uint8.
pub record TpmError : Type 0 where
  pub command : ℕ
  pub code : ℕ

-- What DecodeResponseCode can return, other than nil.
pub data ResponseError : Type 0 where
  tpm_error_bad_tag : ℕ → ResponseError
  tpm_error : TpmError → ResponseError
  tpm_parameter_error tpm_session_error tpm_handle_error : TpmError → ℤ → ResponseError
  tpm_vendor_error tpm_warning : ℕ → ℕ → ResponseError
  invalid_response_code : ℕ → ResponseError

abbrev pub response_success : ℕ
response_success = 0

abbrev pub response_bad_tag : ℕ
response_bad_tag = 0x1e

abbrev pub error_code1_start : ℕ
error_code1_start = 0x80

abbrev pub max_response_code_handle_index : ℕ
max_response_code_handle_index = 7

abbrev pub max_response_code_parameter_index : ℕ
max_response_code_parameter_index = 15

abbrev pub response_code_index_is_session : ℕ
response_code_index_is_session = 0x8

-- (*TPMError).ResponseCode, `none` for its panic. Format-one codes lose their start before the test.
unfoldable pub tpm_error_code : TpmError → Option ℕ
tpm_error_code e =
    if leb 0x80 e.code
    then (if bit_and (e.code - error_code1_start) response_code_e1 == e.code - error_code1_start
        then some (bit_or response_code_f e.code)
        else none)
    else some (bit_or response_code_v e.code)

-- The panics that three of the methods share: the code has to be of format one, and the index in range.
unfoldable pub indexed_code : TpmError → ℤ → ℕ → (ℕ → ℕ) → Option ℕ
unfolding tpm_error_code rc_f
indexed_code e index max pack = elim (tpm_error_code e) [
  | none ↦ none
  | some code ↦
      if not (rc_f code) then none else if not (in_range index max) then none else some (pack code)
]

-- The methods named ResponseCode, one for each type of error.
unfoldable pub response_code : ResponseError → Option ℕ
unfolding tpm_error_code indexed_code rc_f rc_v rc_t
response_code (tpm_error_bad_tag command) = some response_bad_tag
response_code (tpm_error e) = tpm_error_code e
response_code (tpm_parameter_error e index) =
    indexed_code e index max_response_code_parameter_index (λ code.
      bit_or (bit_or (magnitude index * 2 ^ response_code_index_shift) response_code_p) code)
response_code (tpm_session_error e index) =
    indexed_code e index max_response_code_handle_index (λ code.
      bit_or
        (bit_or response_code_index_is_session (magnitude index % 2 ^ 8)
          * 2 ^ response_code_index_shift)
        code)
response_code (tpm_handle_error e index) =
    indexed_code e index max_response_code_handle_index
      (λ code. bit_or (magnitude index * 2 ^ response_code_index_shift) code)
response_code (tpm_vendor_error command code) = elim (rc_v code) [
  | none ↦ none
  | some v ↦ elim (rc_t code) [
    | none ↦ none
    | some t ↦ if rc_f code || not v || not t then none else some code
  ]
]
response_code (tpm_warning command code) =
    if bit_and code response_code_e0 == code
    then some (bit_or (bit_or response_code_s response_code_v) code)
    else none
response_code (invalid_response_code rc) = some rc
