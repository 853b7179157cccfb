-- ===== src/ResponseCode/Decode.antt =====
-- DecodeResponseCode of errors.go.
use go_tpm.Base.{
  ℕ, ◌+◌, ◌-◌, ◌%◌, ◌^◌, bit_and, not, ◌&&◌, ◌==◌, if◌then◌else◌, Outcome, ok, err, ◌>>=◌, or_panic,
}
use go_tpm.Base.Int.{pos}
use go_tpm.ResponseCode.Fields.{rc_e, rc_f, rc_v, rc_t, rc_s, rc_p, rc_n}
use go_tpm.ResponseCode.Errors.{
  TpmError, ResponseError, tpm_error_bad_tag, tpm_error, tpm_parameter_error, tpm_session_error,
  tpm_handle_error, tpm_vendor_error, tpm_warning, invalid_response_code, response_success,
  response_bad_tag, error_code1_start, response_code_index_is_session,
}

abbrev pub warning_testing : ℕ
warning_testing = 0x0a

abbrev pub command_self_test : ℕ
command_self_test = 0x143

-- The case of a format-one code. `x &^ 8` is `x - (x & 8)`.
unfoldable pub decode_format1 : ℕ → ℕ → Outcome ResponseError (Unit {0})
unfolding rc_e rc_p rc_n
decode_format1 command resp = do
  let e : TpmError = record { command = command; code = (rc_e resp + error_code1_start) % 2 ^ 8 }
  p ← or_panic (rc_p resp)
  n ← or_panic (rc_n resp)
  let index = n - bit_and n response_code_index_is_session
  if p
      then (if n == 0
          then err (invalid_response_code resp)
          else err (tpm_parameter_error e (pos n)))
      else if not (bit_and n response_code_index_is_session == 0)
      then (if index == 0
          then err (invalid_response_code resp)
          else err (tpm_session_error e (pos index)))
      else if not (n == 0)
      then err (tpm_handle_error e (pos n))
      else err (tpm_error e)

-- The case of a format-zero code.
unfoldable pub decode_format0 : ℕ → ℕ → Outcome ResponseError (Unit {0})
unfolding rc_e rc_v rc_t rc_s
decode_format0 command resp = do
  v ← or_panic (rc_v resp)
  t ← or_panic (rc_t resp)
  s ← or_panic (rc_s resp)
  let code = rc_e resp
  if not v
      then err (invalid_response_code resp)
      else if t
      then err (tpm_vendor_error command resp)
      else if s
      then (if code == warning_testing && command == command_self_test
          then ok tt
          else err (tpm_warning command code))
      else err (tpm_error (record { command = command; code = code }))

-- `ok tt` is the nil error.
unfoldable pub decode_response_code : ℕ → ℕ → Outcome ResponseError (Unit {0})
unfolding decode_format0 decode_format1 rc_f
decode_response_code command resp =
    if resp == response_success
    then ok tt
    else if resp == response_bad_tag
    then err (tpm_error_bad_tag command)
    else if rc_f resp
    then decode_format1 command resp
    else decode_format0 command resp
