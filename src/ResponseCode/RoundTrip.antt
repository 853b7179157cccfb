-- ===== src/ResponseCode/RoundTrip.antt =====
-- Decoding and encoding of response codes: DecodeResponseCode and the ResponseCode methods.
use mathlib.Core.Path.{subst, sym}
use native.Mathlib.Decide.{dec_lt, ℕ_discrete}
use go_tpm.ResponseCode.Steps.{
  IsFormat1, IsVendor, code_parameter, code_session, code_handle, code_format1, code_format0,
  code_warning, code_vendor, decode_parameter, decode_session, decode_handle, decode_error1,
  decode_error0, decode_warning, decode_vendor, decode_parameter_zero, decode_session_zero,
  decode_tpm12,
}
use go_tpm.Base.{
  ℕ, zero, suc, ◌+◌, ◌-◌, ◌*◌, ◌/◌, ◌%◌, ◌≤◌, ◌<◌, ◌≡◌, ◌≢◌, refl, ◌⊎◌, inl, inr, some, arith,
  Outcome, ok, err, panic,
}
use go_tpm.Base.Int.{ℤ, pos, negsuc}
use go_tpm.ResponseCode.Errors.{
  TpmError, ResponseError, tpm_error_bad_tag, tpm_error, tpm_parameter_error, tpm_session_error,
  tpm_handle_error, tpm_vendor_error, tpm_warning, invalid_response_code, response_code,
}
use go_tpm.ResponseCode.Decode.{decode_response_code, warning_testing, command_self_test}

-- The decoder answers every code: no accessor of a field is called on the wrong format.
pub decode_response_code-ne-panic : (command resp : ℕ) → decode_response_code command resp ≢ panic
unfolding decode_response_code
decode_response_code-ne-panic command resp = ground arith

-- The command that an error carries; an InvalidResponseCodeError carries none.
abbrev pub command_of : ResponseError → ℕ
command_of (tpm_error_bad_tag command) = command
command_of (tpm_error e) = e.command
command_of (tpm_parameter_error e index) = e.command
command_of (tpm_session_error e index) = e.command
command_of (tpm_handle_error e index) = e.command
command_of (tpm_vendor_error command code) = command
command_of (tpm_warning command code) = command
command_of (invalid_response_code rc) = 0

abbrev pub IsIndex : ℤ → ℕ → Type 0
IsIndex (pos n) max = (1 ≤ n) × (n ≤ max)
IsIndex (negsuc n) max = ⊥

-- The errors that a TPM can report: error numbers and indexes in the ranges of the part 2 tables,
-- and not the warning that TPM2_SelfTest is still running, which the decoder takes for a success.
abbrev pub IsReportable : ResponseError → Type 0
IsReportable (tpm_error_bad_tag command) = Unit {0}
IsReportable (tpm_error e) = e.code < 192
IsReportable (tpm_parameter_error e index) = IsFormat1 e × IsIndex index 15
IsReportable (tpm_session_error e index) = IsFormat1 e × IsIndex index 7
IsReportable (tpm_handle_error e index) = IsFormat1 e × IsIndex index 7
IsReportable (tpm_vendor_error command code) = IsVendor code
IsReportable (tpm_warning command code) =
    (code < 128) × ¬ ((code ≡ warning_testing) × (command ≡ command_self_test))
IsReportable (invalid_response_code rc) = ⊥

-- A reportable error has a response code, and decoding that code gives the error back.
pub decode_response_code-response_code :
    (e : ResponseError)
    → IsReportable e
    → (rc : ℕ) × (response_code e ≡ some rc) × (decode_response_code (command_of e) rc ≡ err e)
decode_response_code-response_code (tpm_error_bad_tag command) h =
    unfold response_code decode_response_code in (30, refl, refl)
decode_response_code-response_code (tpm_error e) h = elim (dec_lt e.code 128) [
  | yes low ↦ (256 + e.code, code_format0 e low, decode_error0 e.command e.code low)
  | no high ↦
      (e.code, code_format1 e (omega arith), ground (arith, decode_error1 e.command (e.code - 128)))
]
decode_response_code-response_code (tpm_parameter_error e (pos i)) h = (
  i * 256 + 64 + e.code,
  code_parameter e i h.0 (omega arith),
  ground (arith, decode_parameter e.command i (e.code - 128)),
)
decode_response_code-response_code (tpm_session_error e (pos i)) h = (
  (8 + i) * 256 + e.code,
  code_session e i h.0 (omega arith),
  ground (arith, decode_session e.command i (e.code - 128)),
)
decode_response_code-response_code (tpm_handle_error e (pos i)) h = (
  i * 256 + e.code,
  code_handle e i h.0 (omega arith),
  ground (arith, decode_handle e.command i (e.code - 128)),
)
decode_response_code-response_code (tpm_parameter_error e (negsuc i)) h = absurd h.1
decode_response_code-response_code (tpm_session_error e (negsuc i)) h = absurd h.1
decode_response_code-response_code (tpm_handle_error e (negsuc i)) h = absurd h.1
decode_response_code-response_code (tpm_vendor_error command code) h =
    (code, code_vendor command code h, decode_vendor command code h)
decode_response_code-response_code (tpm_warning command code) h =
    (2304 + code, code_warning command code h.0, decode_warning command code h.0 h.1)
decode_response_code-response_code (invalid_response_code rc) h = absurd h

-- A code of twelve bits in which a format-zero code leaves the reserved bit 9 clear, unless it is a
-- vendor's.
abbrev pub IsWireCode : ℕ → Type 0
IsWireCode rc = (rc < 4096) × ((rc / 128 % 2 ≡ 1) ⊎ (rc / 1024 % 2 ≡ 1) ⊎ (rc / 512 % 2 ≡ 0))

reserved_clear : (rc : ℕ) → IsWireCode rc → rc / 128 % 2 ≡ 0 → rc / 1024 % 2 ≡ 0 → rc / 512 % 2 ≡ 0
reserved_clear rc w f t = ground arith

-- The codes that stand for no error: success, and the warning that TPM2_SelfTest is still running, in
-- reply to that command only.
abbrev pub IsNil : ℕ → ℕ → Type 0
IsNil command rc = (rc ≡ 0) ⊎ ((rc ≡ 0x90a) × (command ≡ command_self_test))

-- The codes that are no response of a TPM 2: codes of TPM 1.2 other than success and TPM_RC_BAD_TAG,
-- and codes of format one for a parameter or for a session with the number 0.
abbrev pub IsInvalid : ℕ → Type 0
IsInvalid rc =
    ((rc / 128 % 2 ≡ 0) × (rc / 256 % 2 ≡ 0) × (rc ≢ 0) × (rc ≢ 30))
    ⊎ ((rc / 128 % 2 ≡ 1) × (rc / 64 % 2 ≡ 1) × (rc / 256 ≡ 0))
    ⊎ ((rc / 128 % 2 ≡ 1) × (rc / 64 % 2 ≡ 0) × (rc / 256 ≡ 8))

-- What decoding a code gives: the nil error for a code that stands for none, the error that the code
-- is invalid for an invalid one, and else an error that reports the command and encodes to the same
-- code.
abbrev pub Explains : ℕ → ℕ → Outcome ResponseError (Unit {0}) → Type 0
Explains command rc (ok _) = IsNil command rc
Explains command rc (err e) =
    ((e ≡ invalid_response_code rc) × IsInvalid rc)
    ⊎ (IsReportable e × (command_of e ≡ command) × (response_code e ≡ some rc))
Explains command rc panic = ⊥

module _ (command : ℕ) where
  abbrev Explained : ℕ → Type 0
  Explained rc = Explains command rc (decode_response_code command rc)

  abbrev at_command : ℕ → TpmError
  at_command code = record { command = command; code = code }

  explain_parameter : (i c : ℕ) → 1 ≤ i → i < 16 → c < 64 → Explained (i * 256 + 192 + c)
  explain_parameter i c lo hi hc =
      rw (decode_parameter command i c lo hi hc)
        (inr ((omega arith), refl, ground (arith, code_parameter (at_command (128 + c)) i)))

  explain_session : (i c : ℕ) → 1 ≤ i → i < 8 → c < 64 → Explained ((8 + i) * 256 + 128 + c)
  explain_session i c lo hi hc =
      rw (decode_session command i c lo hi hc)
        (inr ((omega arith), refl, ground (arith, code_session (at_command (128 + c)) i)))

  explain_handle : (i c : ℕ) → 1 ≤ i → i < 8 → c < 64 → Explained (i * 256 + 128 + c)
  explain_handle i c lo hi hc =
      rw (decode_handle command i c lo hi hc)
        (inr ((omega arith), refl, ground (arith, code_handle (at_command (128 + c)) i)))

  explain_error1 : (c : ℕ) → c < 64 → Explained (128 + c)
  explain_error1 c hc =
      rw (decode_error1 command c hc)
        (inr ((omega arith), refl, ground (arith, code_format1 (at_command (128 + c)))))

  explain_error0 : (c : ℕ) → c < 128 → Explained (256 + c)
  explain_error0 c hc =
      rw (decode_error0 command c hc)
        (inr ((omega arith), refl, ground (arith, code_format0 (at_command c))))

  explain_warning : (c : ℕ) → c < 128 → Explained (2304 + c)
  explain_warning c hc = elim (ℕ_discrete c warning_testing) [
    | no other ↦
        rw (decode_warning command c hc (λ both. other both.0))
          (inr ((hc, λ both. other both.0), refl, code_warning command c hc))
    | yes testing ↦ elim (ℕ_discrete command command_self_test) [
      | no other ↦
          rw (decode_warning command c hc (λ both. other both.1))
            (inr ((hc, λ both. other both.1), refl, code_warning command c hc))
      | yes self ↦ rw (self, testing) (unfold decode_response_code in inr (refl, refl))
    ]
  ]

  at : {rc rc' : ℕ} → rc ≡ rc' → Explained rc' → Explained rc
  at e = subst Explained (sym e)

  explain_format1 : (n p c : ℕ) → n < 16 → p < 2 → c < 64 → Explained (n * 256 + 128 + p * 64 + c)
  explain_format1 zero zero c hn hp hc = at (omega arith) (explain_error1 c hc)
  explain_format1 zero (suc p) c hn hp hc =
      at {rc' = 192 + c} (omega arith)
        (rw (decode_parameter_zero command c hc) (inl (refl, inr (inl (omega arith)))))
  explain_format1 (suc n) zero c hn hp hc = elim (dec_lt n 7) [
    | yes low ↦ at (omega arith) (explain_handle (suc n) c (omega arith) (omega arith) hc)
    | no high ↦ elim (ℕ_discrete n 7) [
      | yes eight ↦
          at {rc' = 2176 + c} (omega arith)
            (rw (decode_session_zero command c hc) (inl (refl, inr (inr (omega arith)))))
      | no more ↦ at (omega arith) (explain_session (n - 7) c (omega arith) (omega arith) hc)
    ]
  ]
  explain_format1 (suc n) (suc p) c hn hp hc =
      at (omega arith) (explain_parameter (suc n) c (omega arith) hn hc)

  explain_format0 : (rc : ℕ) → IsWireCode rc → rc / 128 % 2 ≡ 0 → rc / 256 % 2 ≡ 1 → Explained rc
  explain_format0 rc w f v = elim (ℕ_discrete (rc / 1024 % 2) 1) [
    | yes t ↦
        rw (decode_vendor command rc (f, v, t))
          (inr ((f, v, t), refl, code_vendor command rc (f, v, t)))
    | no t ↦ elim (ℕ_discrete (rc / 2048 % 2) 1) [
      | yes s ↦
          at (omega (arith, reserved_clear rc w f (omega arith)))
            (explain_warning (rc % 128) (omega arith))
      | no s ↦
          at (omega (arith, reserved_clear rc w f (omega arith)))
            (explain_error0 (rc % 128) (omega arith))
    ]
  ]

-- Decoding a code of the wire format gives the nil error only for success and for the warning that
-- TPM2_SelfTest is still running, in reply to that command. It gives the error that the code is
-- invalid only for a code of TPM 1.2, other than success and TPM_RC_BAD_TAG, and for a code of format
-- one with the parameter or session number 0. Else it gives an error that reports the command and
-- that encodes to the very same code.
pub decode_response_code-Explains :
    (command rc : ℕ) → IsWireCode rc → Explains command rc (decode_response_code command rc)
decode_response_code-Explains command rc w = elim (ℕ_discrete (rc / 128 % 2) 1) [
  | yes f ↦ at command (omega arith) (
      explain_format1 command (rc / 256) (rc / 64 % 2) (rc % 64) (omega arith) (omega arith)
        (omega arith))
  | no f ↦ elim (ℕ_discrete (rc / 256 % 2) 1) [
    | yes v ↦ explain_format0 command rc w (omega arith) v
    | no v ↦ elim (ℕ_discrete rc 0) [
      | yes nil ↦ rw nil (unfold decode_response_code in inl refl)
      | no nonzero ↦ elim (ℕ_discrete rc 30) [
        | yes bad ↦ rw bad (unfold decode_response_code response_code in inr (tt, refl, refl))
        | no other ↦
            rw (decode_tpm12 command rc (omega arith) (omega arith) nonzero other)
              (inl (refl, inl (omega arith, omega arith, nonzero, other)))
      ]
    ]
  ]
]

-- A parameter or session error of format one with index 0 is given a response code, with no panic, although
-- decoding that code answers that it is invalid.
pub decode_response_code-zero_index :
    (e : TpmError)
    → IsFormat1 e
    → (rcs : ℕ × ℕ) × (response_code (tpm_parameter_error e (pos 0)) ≡ some rcs.0)
      × (decode_response_code e.command rcs.0 ≡ err (invalid_response_code rcs.0))
      × (response_code (tpm_session_error e (pos 0)) ≡ some rcs.1)
      × (decode_response_code e.command rcs.1 ≡ err (invalid_response_code rcs.1))
decode_response_code-zero_index e h = (
  (64 + e.code, 2048 + e.code),
  code_parameter e 0 h (omega arith),
  ground (arith, decode_parameter_zero e.command (e.code - 128)),
  code_session e 0 h (omega arith),
  ground (arith, decode_session_zero e.command (e.code - 128)),
)
