-- ===== src/ResponseCode/Success.antt =====
-- The response codes that DecodeResponseCode takes for a success.
use go_tpm.Base.{ℕ, ◌/◌, ◌%◌, ◌≡◌, ◌↔◌, ◌⊎◌, arith, ok}
use go_tpm.Base.Bits.{mask_7, bit_7, bit_8, bit_10, bit_11}
use go_tpm.ResponseCode.Decode.{decode_response_code, warning_testing, command_self_test}

-- TPM_RC_TESTING: a warning of format zero, whatever its unused bits are.
abbrev pub IsTesting : ℕ → Type 0
IsTesting rc =
    (rc / 128 % 2 ≡ 0)
    × (rc / 256 % 2 ≡ 1)
    × (rc / 1024 % 2 ≡ 0)
    × (rc / 2048 % 2 ≡ 1)
    × (rc % 128 ≡ warning_testing)

-- The nil error is returned exactly for TPM_RC_SUCCESS, and for TPM_RC_TESTING in answer to
-- TPM2_SelfTest.
pub decode_response_code_ok :
    (command rc : ℕ)
    → (decode_response_code command rc ≡ ok tt)
      ↔ ((rc ≡ 0) ⊎ ((command ≡ command_self_test) × IsTesting rc))
unfolding decode_response_code
decode_response_code_ok command rc = (
  (λ h. ground (arith, mask_7 rc, bit_7 rc, bit_8 rc, bit_10 rc, bit_11 rc)),
  (λ h. ground (arith, mask_7 rc, bit_7 rc, bit_8 rc, bit_10 rc, bit_11 rc)),
)
