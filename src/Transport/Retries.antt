-- ===== src/Transport/Retries.antt =====
-- How often runCommand of internal/transportutil/retrier.go submits a command, after which delays, and
-- which response it gives.
use go_tpm.Base.{
  ℕ, zero, suc, ◌+◌, ◌*◌, ◌%◌, ◌^◌, ◌<◌, ◌≡◌, ◌⊎◌, ◌↔◌, refl, sym, ap, ◌∙◌, arith, Bool, true,
  false, inl, inr, Outcome, ok,
}
use native.Mathlib.Nat.{pow-zero, mul-one}
use go_tpm.Base.Actions.{Action, after_step}
use go_tpm.Mu.Bytes.{Bytes}
use go_tpm.Transport.Retrier.{
  RetryError, RetryParams, Transport, should_retry, submit, run_from, run_command,
}
use go_tpm.Transport.Busy.{
  IsBusy, should_retry-IsBusy, should_retry_else, delay_after, scale_delay-delay_after,
}
use go_tpm.Transport.Submits.{Gives, first_step, Submits, Submits-submit, submit-Submits}

module _ {T : Type 0} (transport : Transport T) (params : RetryParams) (command : ℕ)
    (command_bytes : Bytes) where
  -- k more submissions, after j of them: each one is answered by a warning that the TPM is busy, and is
  -- followed by the delay for it.
  pub data Retried : ℕ → ℕ → T → T → Type 0 where
    not_yet : {j : ℕ} {t : T} → Retried j zero t t
    once_more :
        {j k code : ℕ} {rsp : Bytes} {t t1 t' : T}
        → Submits transport command_bytes t code rsp t1
        → IsBusy command code
        → Retried (suc j) k (transport.sleep (delay_after params j) t1) t'
        → Retried j (suc k) t t'

  -- A submission that ends the loop with some retries left.
  abbrev pub Ends : ℕ → T → Bytes → T → Type 0
  Ends left t rsp t' =
      (code : ℕ) × Submits transport command_bytes t code rsp t'
      × ((left ≡ 0) ⊎ ¬ IsBusy command code)

  -- The loop after j retries.
  abbrev run_after : ℕ → ℕ → Action RetryError T Bytes
  run_after retries j =
      run_from transport params.backoff_rate retries (delay_after params j) command command_bytes

  not_again : (code : ℕ) → ¬ IsBusy command code → should_retry command code ≡ ok false
  not_again code h = elim (should_retry_else command code) [
    | inl e ↦ e
    | inr busy ↦ absurd (h busy)
  ]

  Ends-run :
      (retries j : ℕ) (t : T) (rsp : Bytes) (t' : T)
      → Ends retries t rsp t'
      → run_after retries j t ≡ (ok rsp, t')
  unfolding run_from
  Ends-run zero j t rsp t' (code, e, last) =
      rw (run_from, Submits-submit transport command_bytes t code rsp t' e, after_step) refl
  Ends-run (suc retries) j t rsp t' (code, e, inl h) = absurd (omega arith)
  Ends-run (suc retries) j t rsp t' (code, e, inr h) =
      rw
        (
          run_from,
          Submits-submit transport command_bytes t code rsp t' e,
          after_step,
          not_again code h,
        )
        refl

  Retried-run :
      {j k : ℕ} {t t' : T}
      → Retried j k t t'
      → (retries left : ℕ) (rsp : Bytes) (t'' : T) → k + left ≡ retries
      → Ends left t' rsp t''
      → run_after retries j t ≡ (ok rsp, t'')
  unfolding run_from
  Retried-run {j = j} {t = t} not_yet retries left rsp t'' h e =
      let same : left ≡ retries = omega arith in Ends-run retries j t rsp t'' (rw same at e)
  Retried-run (once_more s busy r) zero left rsp t'' h e = absurd (omega arith)
  Retried-run {j = j} (once_more {code = code} {rsp = rsp1} {t = t} {t1 = t1} s busy r)
        (suc retries) left rsp t'' h e =
      rw
        (
          run_from,
          Submits-submit transport command_bytes t code rsp1 t1 s,
          after_step,
          should_retry-IsBusy command code busy,
          scale_delay-delay_after params j,
        )
        (Retried-run r retries left rsp t'' (omega arith) e)

  -- What a run that gives a response has been: at most so many retries, and a last submission.
  abbrev pub RunsTo : ℕ → ℕ → T → Bytes → T → Type 0
  RunsTo retries j t rsp t'' =
      (k : ℕ) × (left : ℕ) × (t' : T) × (k + left ≡ retries)
      × Retried j k t t'
      × Ends left t' rsp t''

  run_retried :
      (retries j : ℕ) (t : T) (rsp : Bytes) (t'' : T)
      → run_after retries j t ≡ (ok rsp, t'')
      → RunsTo retries j t rsp t''
  unfolding run_from
  run_retried zero j t rsp t'' e =
      let ((code, xs), t1, s, e') =
        first_step transport command_bytes (submit transport command_bytes t) _ rsp t'' e in
      let last : submit transport command_bytes t ≡ (ok (code, rsp), t'') = cc in
      (
        0,
        0,
        t,
        omega arith,
        not_yet,
        (code, submit-Submits transport command_bytes t code rsp t'' last, inl refl),
      )
  run_retried (suc retries) j t rsp t'' e =
      let ((code, xs), t1, s, e') =
        first_step transport command_bytes (submit transport command_bytes t) _ rsp t'' e in
      elim (should_retry_else command code) [
        | inl enough ↦
            let done : Gives transport command_bytes Bytes (ok xs, t1) (ok rsp, t'') =
              rw enough at e' in
            let last : submit transport command_bytes t ≡ (ok (code, rsp), t'') = cc in
            let calm : ¬ IsBusy command code = λ busy.
              let both : ◌≡◌ {A = Outcome RetryError Bool} (ok false) (ok true) =
                sym enough ∙ should_retry-IsBusy command code busy in
              cc in
            (
              0,
              suc retries,
              t,
              omega arith,
              not_yet,
              (code, submit-Submits transport command_bytes t code rsp t'' last, inr calm),
            )
        | inr busy ↦
            let later : run_after retries (suc j) (transport.sleep (delay_after params j) t1)
                ≡ (ok rsp, t'') =
              rw (should_retry-IsBusy command code busy, scale_delay-delay_after params j) at e' in
            let (k, left, t', sum, retried, ends) =
              run_retried retries (suc j) (transport.sleep (delay_after params j) t1) rsp t''
                later in
            (
              suc k,
              left,
              t',
              omega arith,
              once_more (submit-Submits transport command_bytes t code xs t1 s) busy retried,
              ends,
            )
      ]

-- runCommand gives a response exactly if it is the response of the last of some submissions: each one
-- before is one of at most max_retries that was answered by the warning TPM_RC_YIELDED or TPM_RC_RETRY, or
-- by TPM_RC_TESTING if the command is not TPM2_SelfTest, and is followed by a delay, which after j
-- retries is the initial one times the j-th power of the rate, in 64 bits. The last one is the last
-- allowed or is answered by none of these warnings. In a submission the transport is alive, takes the
-- command, is still alive, and gives a header and as many bytes as the header says are left, which
-- together are the response. The initial delay is one of 64 bits.
pub run_command-RunsTo :
    {T : Type 0} (transport : Transport T) (params : RetryParams) (command : ℕ)
    (command_bytes : Bytes) (t : T) (rsp : Bytes) (t'' : T)
    → params.initial_backoff < 2 ^ 64
    → (run_command transport params command command_bytes t ≡ (ok rsp, t''))
      ↔ RunsTo transport params command command_bytes params.max_retries 0 t rsp t''
unfolding run_command
run_command-RunsTo transport params command command_bytes t rsp t'' small =
    let first : delay_after params 0 ≡ params.initial_backoff =
      ap (λ n. n % 2 ^ 64)
        (ap (λ n. params.initial_backoff * n) (pow-zero params.backoff_rate)
          ∙ mul-one params.initial_backoff)
      ∙ omega arith in
    let same : run_command transport params command command_bytes t
        ≡ run_from transport params.backoff_rate params.max_retries (delay_after params 0) command
            command_bytes t =
      ap (λ d. run_from transport params.backoff_rate params.max_retries d command command_bytes t)
        (sym first) in
    (
      λ e.
          run_retried transport params command command_bytes params.max_retries 0 t rsp t''
            (sym same ∙ e),
      λ (k, left, t', sum, retried, ends).
          same
          ∙ Retried-run transport params command command_bytes retried params.max_retries left rsp
              t'' sum ends,
    )
