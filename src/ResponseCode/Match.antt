-- ===== src/ResponseCode/Match.antt =====
-- Matching of errors: the Is and Unwrap methods of errors.go, and the tests IsTPMError,
-- IsTPMParameterError, IsTPMSessionError, IsTPMHandleError and IsTPMWarning.
use go_tpm.Base.{ℕ, ◌≡◌, ◌⊎◌, Bool, true, false, ◌&&◌, ◌||◌, Option, none, some, arith, ◌==◌}
use go_tpm.Base.Int.{ℤ, negsuc, eq_ℤ}
use go_tpm.ResponseCode.Errors.{
  TpmError, ResponseError, tpm_error, tpm_parameter_error, tpm_session_error, tpm_handle_error,
  tpm_warning,
}

abbrev pub any_command_code : ℕ
any_command_code = 0xc0000000

abbrev pub any_error_code : ℕ
any_error_code = 0xff

abbrev pub any_warning_code : ℕ
any_warning_code = 0xff

-- AnyHandleIndex, AnyParameterIndex and AnySessionIndex are all -1.
abbrev pub any_index : ℤ
any_index = negsuc 0

-- (*TPMError).Is, on a target of its own type.
unfoldable pub tpm_error_is : TpmError → TpmError → Bool
tpm_error_is e t =
    (t.code == any_error_code || t.code == e.code)
    && (t.command == any_command_code || t.command == e.command)

abbrev index_is : ℤ → ℤ → Bool
index_is i t = eq_ℤ t any_index || eq_ℤ t i

-- The methods named Is: a target of another type is no match. An error with no such method is
-- compared by errors.Is with a target that is freshly made, which it never equals.
unfoldable pub is_target : ResponseError → ResponseError → Bool
unfolding tpm_error_is
is_target (tpm_error e) (tpm_error t) = tpm_error_is e t
is_target (tpm_parameter_error e i) (tpm_parameter_error t j) = tpm_error_is e t && index_is i j
is_target (tpm_session_error e i) (tpm_session_error t j) = tpm_error_is e t && index_is i j
is_target (tpm_handle_error e i) (tpm_handle_error t j) = tpm_error_is e t && index_is i j
is_target (tpm_warning command code) (tpm_warning command' code') =
    (code' == any_warning_code || code' == code)
    && (command' == any_command_code || command' == command)
is_target _ _ = false

-- The methods named Unwrap.
unfoldable pub unwrap : ResponseError → Option TpmError
unwrap (tpm_parameter_error e i) = some e
unwrap (tpm_session_error e i) = some e
unwrap (tpm_handle_error e i) = some e
unwrap _ = none

-- errors.Is: the error itself, then what it wraps. A TPMError wraps nothing.
unfoldable pub errors_is : ResponseError → ResponseError → Bool
unfolding is_target unwrap
errors_is e target =
    is_target e target
    || elim (unwrap e) [ none ↦ false | some inner ↦ is_target (tpm_error inner) target ]

unfoldable pub is_tpm_error : ResponseError → ℕ → ℕ → Bool
unfolding errors_is
is_tpm_error e code command = errors_is e (tpm_error (record { command = command; code = code }))

unfoldable pub is_tpm_handle_error : ResponseError → ℕ → ℕ → ℤ → Bool
unfolding errors_is
is_tpm_handle_error e code command handle =
    errors_is e (tpm_handle_error (record { command = command; code = code }) handle)

unfoldable pub is_tpm_parameter_error : ResponseError → ℕ → ℕ → ℤ → Bool
unfolding errors_is
is_tpm_parameter_error e code command param =
    errors_is e (tpm_parameter_error (record { command = command; code = code }) param)

unfoldable pub is_tpm_session_error : ResponseError → ℕ → ℕ → ℤ → Bool
unfolding errors_is
is_tpm_session_error e code command session =
    errors_is e (tpm_session_error (record { command = command; code = code }) session)

unfoldable pub is_tpm_warning : ResponseError → ℕ → ℕ → Bool
unfolding errors_is
is_tpm_warning e code command = errors_is e (tpm_warning command code)

-- The three specific tests imply the general one, which sees through the chain of wrapped errors.
pub is_tpm_error_of_specific :
    (e : ResponseError) (code command : ℕ) (index : ℤ)
    → (is_tpm_handle_error e code command index ≡ true)
      ⊎ (is_tpm_parameter_error e code command index ≡ true)
      ⊎ (is_tpm_session_error e code command index ≡ true)
    → is_tpm_error e code command ≡ true
unfolding is_tpm_handle_error is_tpm_parameter_error is_tpm_session_error is_tpm_error
is_tpm_error_of_specific (tpm_error x) code command index h = ground arith
is_tpm_error_of_specific _ code command index h = ground arith
