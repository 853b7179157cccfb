-- ===== src/ResponseCode/Steps.antt =====
-- The encoders and the decoder of response codes on each type of error, in plain arithmetic.
use go_tpm.Base.{ℕ, ◌+◌, ◌-◌, ◌*◌, ◌/◌, ◌%◌, ◌≤◌, ◌<◌, ◌≡◌, ◌≢◌, some, arith, err}
use go_tpm.Base.Int.{pos}
use go_tpm.Base.Bits.{mask_6, mask_7, bit_3, bit_6, bit_7, bit_8, bit_10, bit_11, nibble_8}
use go_tpm.ResponseCode.Errors.{
  TpmError, tpm_error, tpm_parameter_error, tpm_session_error, tpm_handle_error, tpm_vendor_error,
  tpm_warning, invalid_response_code, response_code,
}
use go_tpm.ResponseCode.Decode.{decode_response_code, warning_testing, command_self_test}
use go_tpm.ResponseCode.Tables.{
  or_format1, or_version, or_warning, or_index, or_parameter, or_session,
}

abbrev pub IsFormat1 : TpmError → Type 0
IsFormat1 e = (128 ≤ e.code) × (e.code < 192)

-- The bits F, V and T of a vendor's error.
abbrev pub IsVendor : ℕ → Type 0
IsVendor code = (code / 128 % 2 ≡ 0) × (code / 256 % 2 ≡ 1) × (code / 1024 % 2 ≡ 1)

module _ (command : ℕ) where
  pub decode_parameter :
      (i c : ℕ)
      → 1 ≤ i
      → i < 16
      → c < 64
      → decode_response_code command (i * 256 + 192 + c)
        ≡ err (tpm_parameter_error (record { command = command; code = 128 + c }) (pos i))
  unfolding decode_response_code
  decode_parameter i c lo hi hc =
      let rc = i * 256 + 192 + c in ground (arith, bit_7 rc, bit_6 rc, mask_6 rc, nibble_8 rc)

  pub decode_handle :
      (i c : ℕ)
      → 1 ≤ i
      → i < 8
      → c < 64
      → decode_response_code command (i * 256 + 128 + c)
        ≡ err (tpm_handle_error (record { command = command; code = 128 + c }) (pos i))
  unfolding decode_response_code
  decode_handle i c lo hi hc =
      let rc = i * 256 + 128 + c in
      ground (arith, bit_7 rc, bit_6 rc, mask_6 rc, nibble_8 rc, bit_3 i)

  pub decode_session :
      (i c : ℕ)
      → 1 ≤ i
      → i < 8
      → c < 64
      → decode_response_code command ((8 + i) * 256 + 128 + c)
        ≡ err (tpm_session_error (record { command = command; code = 128 + c }) (pos i))
  unfolding decode_response_code
  decode_session i c lo hi hc =
      let rc = (8 + i) * 256 + 128 + c in
      ground (arith, bit_7 rc, bit_6 rc, mask_6 rc, nibble_8 rc, bit_3 (8 + i))

  pub decode_error1 :
      (c : ℕ)
      → c < 64
      → decode_response_code command (128 + c)
        ≡ err (tpm_error (record { command = command; code = 128 + c }))
  unfolding decode_response_code
  decode_error1 c hc =
      let rc = 128 + c in ground (arith, bit_7 rc, bit_6 rc, mask_6 rc, nibble_8 rc, bit_3 0)

  pub decode_error0 :
      (c : ℕ)
      → c < 128
      → decode_response_code command (256 + c)
        ≡ err (tpm_error (record { command = command; code = c }))
  unfolding decode_response_code
  decode_error0 c hc =
      let rc = 256 + c in ground (arith, bit_7 rc, bit_8 rc, bit_10 rc, bit_11 rc, mask_7 rc)

  pub decode_warning :
      (c : ℕ)
      → c < 128
      → ¬ ((c ≡ warning_testing) × (command ≡ command_self_test))
      → decode_response_code command (2304 + c) ≡ err (tpm_warning command c)
  unfolding decode_response_code
  decode_warning c hc other =
      let rc = 2304 + c in ground (arith, bit_7 rc, bit_8 rc, bit_10 rc, bit_11 rc, mask_7 rc)

  -- The codes that no TPM 2 error has.
  pub decode_parameter_zero :
      (c : ℕ)
      → c < 64
      → decode_response_code command (192 + c) ≡ err (invalid_response_code (192 + c))
  unfolding decode_response_code
  decode_parameter_zero c hc =
      let rc = 192 + c in ground (arith, bit_7 rc, bit_6 rc, mask_6 rc, nibble_8 rc)

  pub decode_session_zero :
      (c : ℕ)
      → c < 64
      → decode_response_code command (2176 + c) ≡ err (invalid_response_code (2176 + c))
  unfolding decode_response_code
  decode_session_zero c hc =
      let rc = 2176 + c in ground (arith, bit_7 rc, bit_6 rc, mask_6 rc, nibble_8 rc, bit_3 8)

  pub decode_tpm12 :
      (rc : ℕ)
      → rc / 128 % 2 ≡ 0
      → rc / 256 % 2 ≡ 0
      → rc ≢ 0
      → rc ≢ 30
      → decode_response_code command rc ≡ err (invalid_response_code rc)
  unfolding decode_response_code
  decode_tpm12 rc f v zero bad = ground (arith, bit_7 rc, bit_8 rc, bit_10 rc, bit_11 rc, mask_7 rc)

-- The code that each encoder computes, as a sum. An error number of format one is 128 + c.
pub code_parameter :
    (e : TpmError) (i : ℕ)
    → IsFormat1 e
    → i ≤ 15
    → response_code (tpm_parameter_error e (pos i)) ≡ some (i * 256 + 64 + e.code)
unfolding response_code
code_parameter e i h hi =
    let c = e.code - 128 in ground (arith, or_format1 c, or_parameter i c, bit_7 e.code, mask_6 c)

pub code_session :
    (e : TpmError) (i : ℕ)
    → IsFormat1 e
    → i ≤ 7
    → response_code (tpm_session_error e (pos i)) ≡ some ((8 + i) * 256 + e.code)
unfolding response_code
code_session e i h hi =
    let c = e.code - 128 in
    ground (arith, or_format1 c, or_session i, or_index (8 + i) c, bit_7 e.code, mask_6 c)

pub code_handle :
    (e : TpmError) (i : ℕ)
    → IsFormat1 e
    → i ≤ 7
    → response_code (tpm_handle_error e (pos i)) ≡ some (i * 256 + e.code)
unfolding response_code
code_handle e i h hi =
    let c = e.code - 128 in ground (arith, or_format1 c, or_index i c, bit_7 e.code, mask_6 c)

pub code_format1 : (e : TpmError) → IsFormat1 e → response_code (tpm_error e) ≡ some e.code
unfolding response_code
code_format1 e h = let c = e.code - 128 in ground (arith, or_format1 c, mask_6 c)

pub code_format0 : (e : TpmError) → e.code < 128 → response_code (tpm_error e) ≡ some (256 + e.code)
unfolding response_code
code_format0 e h = ground (arith, or_version e.code)

pub code_warning :
    (command c : ℕ) → c < 128 → response_code (tpm_warning command c) ≡ some (2304 + c)
unfolding response_code
code_warning command c h = ground (arith, or_warning c, mask_7 c)

pub code_vendor :
    (command code : ℕ) → IsVendor code → response_code (tpm_vendor_error command code) ≡ some code
unfolding response_code
code_vendor command code h = ground (arith, bit_7 code, bit_8 code, bit_10 code)

pub decode_vendor :
    (command code : ℕ)
    → IsVendor code
    → decode_response_code command code ≡ err (tpm_vendor_error command code)
unfolding decode_response_code
decode_vendor command code h = ground (arith, bit_7 code, bit_8 code, bit_10 code, bit_11 code)
