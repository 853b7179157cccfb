-- ===== src/Transport/Busy.antt =====
-- When runCommand of internal/transportutil/retrier.go submits a command again, and after which delay.
use go_tpm.Base.{
  ℕ, zero, suc, ◌*◌, ◌/◌, ◌%◌, ◌^◌, ◌≡◌, ◌≢◌, ◌⊎◌, sym, ap, ◌∙◌, arith, true, false, ok,
}
use native.Mathlib.Nat.{pow-suc, mul-suc, mul_assoc}
use go_tpm.Base.Bits.{mask_7, bit_7, bit_8, bit_10, bit_11}
use go_tpm.ResponseCode.Decode.{decode_response_code, command_self_test}
use go_tpm.ResponseCode.Match.{is_tpm_warning}
use go_tpm.Transport.Retrier.{RetryParams, scale_delay, should_retry}

-- The codes of the warnings TPM_RC_YIELDED, TPM_RC_RETRY and, except in reply to TPM2_SelfTest,
-- TPM_RC_TESTING: a code of format zero of a TPM 2 with the severity bit, and no vendor's.
abbrev pub IsBusy : ℕ → ℕ → Type 0
IsBusy command code =
    (code / 128 % 2 ≡ 0)
    × (code / 256 % 2 ≡ 1)
    × (code / 1024 % 2 ≡ 0)
    × (code / 2048 % 2 ≡ 1)
    × ((code % 128 ≡ 0x08)
        ⊎ (code % 128 ≡ 0x22)
        ⊎ ((code % 128 ≡ 0x0a) × (command ≢ command_self_test)))

pub should_retry-IsBusy :
    (command code : ℕ) → IsBusy command code → should_retry command code ≡ ok true
unfolding should_retry decode_response_code is_tpm_warning
should_retry-IsBusy command code h =
    ground (arith, bit_7 code, bit_8 code, bit_10 code, bit_11 code, mask_7 code)

pub should_retry_else :
    (command code : ℕ) → (should_retry command code ≡ ok false) ⊎ IsBusy command code
unfolding should_retry decode_response_code is_tpm_warning
should_retry_else command code =
    ground (arith, bit_7 code, bit_8 code, bit_10 code, bit_11 code, mask_7 code)

mod_mul : (a b : ℕ) → (a % 2 ^ 64) * b % 2 ^ 64 ≡ a * b % 2 ^ 64
mod_mul a zero = omega arith
mod_mul a (suc b) = omega (arith, mod_mul a b, mul-suc (a % 2 ^ 64) b, mul-suc a b)

-- The delay after j retries, in an int64: the initial one times the rate for each of them.
abbrev pub delay_after : RetryParams → ℕ → ℕ
delay_after params j = params.initial_backoff * params.backoff_rate ^ j % 2 ^ 64

pub scale_delay-delay_after :
    (params : RetryParams) (j : ℕ)
    → scale_delay (delay_after params j) params.backoff_rate ≡ delay_after params (suc j)
scale_delay-delay_after params j =
    mod_mul (params.initial_backoff * params.backoff_rate ^ j) params.backoff_rate
    ∙ ap (λ n. n % 2 ^ 64)
        (mul_assoc params.initial_backoff (params.backoff_rate ^ j) params.backoff_rate
          ∙ ap (λ n. params.initial_backoff * n) (sym (pow-suc params.backoff_rate j)))
