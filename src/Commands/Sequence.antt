-- ===== src/Commands/Sequence.antt =====
-- SequenceExecute and EventSequenceExecute of cmds_hashhmac.go: data is added to a sequence object in
-- parts.
use go_tpm.Base.{
  ℕ, ◌+◌, Bool, Option, none, some, length, take, drop, leb, if◌then◌else◌, Outcome, ok, err, panic,
}
use go_tpm.Mu.Bytes.{Bytes}
use go_tpm.Commands.Multiple.{Sessions, Ran, ExecError, exec_multiple}

-- sequenceExecuteContext, and eventSequenceExecuteContext: the result is of the type R.
pub record SequenceContext (R S : Type 0) : Type 0 where
  pub buffer : Bytes
  pub total : ℕ
  pub result : Option R
  pub tpm : S

-- The property maxBufferSize, and the commands TPM2_SequenceUpdate and TPM2_SequenceComplete, or
-- TPM2_EventSequenceComplete. The former takes the sessions without those for a PCR.
module _ {R S E : Type 0} (max : ℕ) (for_update : Sessions → Sessions)
    (update : Sessions → Bytes → S → Ran E S)
    (complete : Sessions → Bytes → S → Outcome E R × S) where
  abbrev pub after_update : SequenceContext R S → ℕ → Ran E S → Ran E (SequenceContext R S)
  after_update c n (ok u, tpm) = (ok u, record c { total = c.total + n; tpm = tpm })
  after_update c n (err e, tpm) = (err e, record c { tpm = tpm })
  after_update c n (panic, tpm) = (panic, record c { tpm = tpm })

  abbrev pub after_complete : SequenceContext R S → Outcome E R × S → Ran E (SequenceContext R S)
  after_complete c (ok r, tpm) = (ok tt, record c { result = some r; tpm = tpm })
  after_complete c (err e, tpm) = (err e, record c { tpm = tpm })
  after_complete c (panic, tpm) = (panic, record c { tpm = tpm })

  abbrev pub sequence_last : SequenceContext R S → Bool
  sequence_last c = leb (length (drop c.total c.buffer)) max

  unfoldable pub sequence_run : Sessions → SequenceContext R S → Ran E (SequenceContext R S)
  sequence_run sessions c =
      let d = drop c.total c.buffer in
      if sequence_last c
      then after_complete c (complete sessions d c.tpm)
      else after_update c (length (take max d)) (update (for_update sessions) (take max d) c.tpm)

  unfoldable pub execute_sequence : Bytes → Sessions → S → Ran (ExecError E) (SequenceContext R S)
  unfolding sequence_run
  execute_sequence buffer sessions tpm =
      exec_multiple sequence_last sequence_run (length buffer) sessions
        (record { buffer = buffer; total = 0; result = none; tpm = tpm })

-- SequenceExecute. All the sessions are those of each command.
abbrev pub sequence_execute :
    {R S E : Type 0}
    → ℕ
    → (Sessions → Bytes → S → Ran E S)
    → (Sessions → Bytes → S → Outcome E R × S)
    → Bytes
    → Sessions
    → S
    → Ran (ExecError E) (SequenceContext R S)
sequence_execute max = execute_sequence max (λ sessions. sessions)

-- EventSequenceExecute. The first session is for the PCR.
abbrev pub event_sequence_execute :
    {R S E : Type 0}
    → ℕ
    → (Sessions → Bytes → S → Ran E S)
    → (Sessions → Bytes → S → Outcome E R × S)
    → Bytes
    → Sessions
    → S
    → Ran (ExecError E) (SequenceContext R S)
event_sequence_execute max = execute_sequence max (drop 1)
