-- ===== src/ResponseCode/Examples.antt =====
-- The theorems on response codes, at codes that a TPM sends.
use go_tpm.Base.{ℕ, ◌≡◌, refl, inl, some, arith, err}
use go_tpm.Base.Int.{pos}
use go_tpm.ResponseCode.Errors.{
  TpmError, tpm_parameter_error, tpm_session_error, invalid_response_code, response_code,
}
use go_tpm.ResponseCode.Decode.{decode_response_code}
use go_tpm.ResponseCode.RoundTrip.{
  decode_response_code-response_code, Explains, decode_response_code-Explains,
  decode_response_code-zero_index,
}

-- TPM_RC_VALUE, in answer to TPM2_Load.
abbrev value_error : TpmError
value_error = record { command = 0x157; code = 0x84 }

-- TPM_RC_VALUE of parameter 2.
decode_response_code-response_code_example :
    (rc : ℕ) × (response_code (tpm_parameter_error value_error (pos 2)) ≡ some rc)
    × (decode_response_code 0x157 rc ≡ err (tpm_parameter_error value_error (pos 2)))
decode_response_code-response_code_example =
    decode_response_code-response_code (tpm_parameter_error value_error (pos 2)) (omega arith)

decode_response_code-Explains_example : Explains 0x157 0x2c4 (decode_response_code 0x157 0x2c4)
decode_response_code-Explains_example =
    decode_response_code-Explains 0x157 0x2c4 (omega arith, inl refl)

decode_response_code-zero_index_example :
    (rcs : ℕ × ℕ) × (response_code (tpm_parameter_error value_error (pos 0)) ≡ some rcs.0)
    × (decode_response_code 0x157 rcs.0 ≡ err (invalid_response_code rcs.0))
    × (response_code (tpm_session_error value_error (pos 0)) ≡ some rcs.1)
    × (decode_response_code 0x157 rcs.1 ≡ err (invalid_response_code rcs.1))
decode_response_code-zero_index_example = decode_response_code-zero_index value_error (omega arith)

-- TPM_RC_TESTING, in answer to TPM2_SelfTest.
abbrev testing : ℕ
testing = 0x90a
