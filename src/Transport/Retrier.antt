-- ===== src/Transport/Retrier.antt =====
-- runCommand of internal/transportutil/retrier.go: a command is submitted again after some warnings.
use go_tpm.Base.{
  ℕ, zero, suc, ◌-◌, ◌*◌, ◌%◌, ◌^◌, Bool, false, ◌||◌, ◌++◌, if◌then◌else◌, Outcome, ok, err, panic,
  Option, none, some,
}
use go_tpm.Base.Actions.{Action, ◌>>=◌, done}
use go_tpm.Mu.Types.{MuError}
use go_tpm.Mu.Bytes.{Bytes}
use go_tpm.ResponseCode.Decode.{decode_response_code, warning_testing}
use go_tpm.ResponseCode.Match.{is_tpm_warning}
use go_tpm.Packet.Command.{Header, read_header, header_size}

pub data RetryError : Type 0 where
  closed : RetryError
  cannot_send : ℕ → RetryError
  cannot_unmarshal_header : MuError → RetryError
  cannot_read_header : ℕ → RetryError
  cannot_receive : ℕ → RetryError

pub record RetryParams : Type 0 where
  pub max_retries : ℕ
  pub initial_backoff : ℕ
  pub backoff_rate : ℕ

-- WarningYielded and WarningRetry
abbrev pub warning_yielded : ℕ
warning_yielded = 0x08

abbrev pub warning_retry : ℕ
warning_retry = 0x22

-- `time.Duration` is an int64: the bits of a product.
abbrev pub scale_delay : ℕ → ℕ → ℕ
scale_delay delay rate = delay * rate % 2 ^ 64

-- What the loop does with the transport below, whose state is T, and with the tomb. A read is of a
-- number of bytes in full.
pub record Transport (T : Type 0) : Type 0 where
  pub alive : T → Bool
  pub write : Bytes → T → Option ℕ × T
  pub read : ℕ → T → Outcome ℕ Bytes × T
  pub sleep : ℕ → T → T

-- Whether the command should be submitted again.
unfoldable pub should_retry : ℕ → ℕ → Outcome RetryError Bool
should_retry command code = elim (decode_response_code command code) [
  | ok x ↦ ok false
  | err e ↦ ok (
      is_tpm_warning e warning_yielded command
      || (is_tpm_warning e warning_testing command || is_tpm_warning e warning_retry command))
  | panic ↦ panic
]

module _ {T : Type 0} (transport : Transport T) where
  -- `if !l.tomb.Alive() { return nil, ErrClosed }`
  abbrev pub check_alive : Action RetryError T (Unit {0})
  check_alive t = (if transport.alive t then ok tt else err closed, t)

  abbrev pub send : Bytes → Action RetryError T (Unit {0})
  send command_bytes t =
      let (failed, t') = transport.write command_bytes t in
      (elim failed [ none ↦ ok tt | some e ↦ err (cannot_send e) ], t')

  abbrev pub receive : (ℕ → RetryError) → ℕ → Action RetryError T Bytes
  receive wrap n t =
      let (got, t') = transport.read n t in
      (elim got [ ok xs ↦ ok xs | err e ↦ err (wrap e) | panic ↦ panic ], t')

  abbrev pub decode : Bytes → Action RetryError T Header
  decode xs t = (
    elim (read_header xs) [
      | ok (h, rest) ↦ ok h
      | err e ↦ err (cannot_unmarshal_header e)
      | panic ↦ panic
    ],
    t,
  )

  -- One turn of the loop: the response code, and the response.
  unfoldable pub submit : Bytes → Action RetryError T (ℕ × Bytes)
  submit command_bytes = do
    ready ← check_alive
    sent ← send command_bytes
    still ← check_alive
    xs ← receive cannot_read_header header_size
    h ← decode xs
    ys ← receive cannot_receive (h.size - header_size)
    done (ok (h.code, xs ++ ys))

  -- The loop of runCommand, with the retries that are left and the next delay.
  unfoldable pub run_from : ℕ → ℕ → ℕ → ℕ → Bytes → Action RetryError T Bytes
  run_from rate zero delay command command_bytes = do
    (code, rsp) ← submit command_bytes
    done (ok rsp)
  run_from rate (suc retries) delay command command_bytes = do
    (code, rsp) ← submit command_bytes
    let more : Action RetryError T Bytes = λ t.
        run_from rate retries (scale_delay delay rate) command command_bytes
          (transport.sleep delay t)
    again ← done (should_retry command code)
    if again then more else done (ok rsp)

  -- runCommand
  unfoldable pub run_command : RetryParams → ℕ → Bytes → Action RetryError T Bytes
  unfolding run_from
  run_command params = run_from params.backoff_rate params.max_retries params.initial_backoff
