-- ===== src/Commands/Hashed.antt =====
-- What SequenceExecute and EventSequenceExecute give to a sequence object.
use go_tpm.Base.{
  ℕ, ◌+◌, ◌≤◌, ◌<◌, ◌≡◌, ◌⊎◌, inl, inr, refl, sym, ap, ◌∙◌, arith, true, false, none, some, List,
  ◌++◌, length, take, drop, take_plus, take-length, take_then_drop, length-take, length-drop, All,
  Outcome, ok,
}
use mathlib.Core.List.{append_assoc, append-nil}
use go_tpm.Mu.Bytes.{Bytes}
use go_tpm.Commands.Multiple.{Sessions, Ran, has_policy_session, keep_sessions}
use go_tpm.Commands.Sequence.{SequenceContext, sequence_last, sequence_run, execute_sequence}
use go_tpm.Commands.Runs.{
  session_handles, IsKept, session_handles-keep_sessions, keep_sessions-IsKept, exec_multiple-After,
}

module _ {R S E : Type 0} (max : ℕ) (for_update : Sessions → Sessions)
    (update : Sessions → Bytes → S → Ran E S) (complete : Sessions → Bytes → S → Outcome E R × S)
    (absorbed : S → Bytes) (result_of : Bytes → R) (Live : List ℕ → S → Type 0) where
  -- TPM2_SequenceUpdate adds at most max bytes to what the sequence object has, if the sessions are
  -- there, and they stay there if each one is used with AttrContinueSession.
  abbrev pub Updates : Type 0
  Updates =
      (sessions : Sessions) (d : Bytes) (s : S)
      → Live (session_handles sessions) s
      → length d ≤ max
      → (s' : S) × (update (for_update sessions) d s ≡ (ok tt, s'))
        × (absorbed s' ≡ absorbed s ++ d)
        × (All IsKept sessions → Live (session_handles sessions) s')

  -- The last command adds at most max bytes, and gives the result for all that was added.
  abbrev pub Completes : Type 0
  Completes =
      (sessions : Sessions) (d : Bytes) (s : S)
      → Live (session_handles sessions) s
      → length d ≤ max
      → (s' : S) × (complete sessions d s ≡ (ok (result_of (absorbed s ++ d)), s'))

  abbrev updated : SequenceContext R S → S → SequenceContext R S
  updated c s' = record c { total = c.total + length (take max (drop c.total c.buffer)); tpm = s' }

  sequence_run-update :
      (c : SequenceContext R S) (used : Sessions) (s' : S)
      → sequence_last max for_update update complete c ≡ false
      → update (for_update used) (take max (drop c.total c.buffer)) c.tpm ≡ (ok tt, s')
      → sequence_run max for_update update complete used c ≡ (ok tt, updated c s')
  unfolding sequence_run
  sequence_run-update c used s' more e = rw (more, e) refl

  sequence_run-complete :
      (c : SequenceContext R S) (used : Sessions) (r : R) (s' : S)
      → sequence_last max for_update update complete c ≡ true
      → complete used (drop c.total c.buffer) c.tpm ≡ (ok r, s')
      → sequence_run max for_update update complete used c
        ≡ (ok tt, record c { result = some r; tpm = s' })
  unfolding sequence_run
  sequence_run-complete c used r s' last e = rw (last, e) refl

  module _ (updates : Updates) (completes : Completes) (buffer : Bytes) (sessions : Sessions)
      (before : Bytes) (some_bytes : 1 ≤ max) where
    abbrev Adding : ℕ → SequenceContext R S → Type 0
    Adding n c =
        (c.buffer ≡ buffer)
        × (n ≡ length (drop c.total buffer))
        × (absorbed c.tpm ≡ before ++ take c.total buffer)
        × Live (session_handles sessions) c.tpm

    abbrev HasResult : SequenceContext R S → Type 0
    HasResult c = c.result ≡ some (result_of (before ++ buffer))

    update_step :
        (n : ℕ) (c : SequenceContext R S)
        → Adding n c
        → sequence_last max for_update update complete c ≡ false
        → (m : ℕ) × (c' : SequenceContext R S) × (sequence_run max for_update update complete
              (keep_sessions sessions)
              c
            ≡ (ok tt, c'))
          × (m < n)
          × Adding m c'
    update_step n c (b, m, added, live) more =
        let rest : Bytes = drop c.total buffer in
        let d : Bytes = take max (drop c.total c.buffer) in
        let part : d ≡ take max rest = ap (λ xs. take max (drop c.total xs)) b in
        let same : length (drop c.total c.buffer) ≡ length rest =
          ap (λ xs. length (drop c.total xs)) b in
        let over : max < length rest = ground arith in
        let size : length d ≡ max = omega (arith, ap length part, length-take max rest) in
        let handles = session_handles-keep_sessions sessions in
        let (s', e, grown, stay) =
          updates (keep_sessions sessions) d c.tpm (rw handles live) (omega arith) in
        let joined : take (c.total + length d) buffer ≡ take c.total buffer ++ d =
          take_plus c.total (length d) buffer
          ∙ ap (λ xs. take c.total buffer ++ xs)
              (ap (λ xs. take (length xs) rest) part ∙ take-length max rest ∙ sym part) in
        let fewer : length (drop (c.total + length d) buffer) < n =
          omega (arith, length-drop (c.total + length d) buffer, length-drop c.total buffer) in
        let grown' : absorbed s' ≡ before ++ take (c.total + length d) buffer =
          grown
          ∙ ap (λ xs. xs ++ d) added
          ∙ append_assoc before (take c.total buffer) d
          ∙ ap (λ xs. before ++ xs) (sym joined) in
        (
          length (drop (c.total + length d) buffer),
          updated c s',
          sequence_run-update c (keep_sessions sessions) s' more e,
          fewer,
          (b, refl, grown', rw handles at (stay (keep_sessions-IsKept sessions))),
        )

    complete_finish :
        (n : ℕ) (c : SequenceContext R S)
        → Adding n c
        → sequence_last max for_update update complete c ≡ true
        → (c' : SequenceContext R S) × (sequence_run max for_update update complete sessions c
            ≡ (ok tt, c'))
          × HasResult c'
    complete_finish n c (b, m, added, live) last =
        let rest : Bytes = drop c.total c.buffer in
        let few : length rest ≤ max = ground arith in
        let (s', e) = completes sessions rest c.tpm live few in
        let r : R = result_of (absorbed c.tpm ++ rest) in
        let all_added : absorbed c.tpm ++ rest ≡ before ++ buffer =
          ap (λ xs. absorbed c.tpm ++ drop c.total xs) b
          ∙ ap (λ xs. xs ++ drop c.total buffer) added
          ∙ append_assoc before (take c.total buffer) (drop c.total buffer)
          ∙ ap (λ xs. before ++ xs) (take_then_drop c.total buffer) in
        (
          record c { result = some r; tpm = s' },
          sequence_run-complete c sessions r s' last e,
          ap (λ xs. some (result_of xs)) all_added,
        )

  -- The data is added to the sequence object whole and in order, however many commands it takes for
  -- the maximum, and the result is that for all that the object was given. If it takes more than one
  -- command, no session is a policy session. The sessions need not have AttrContinueSession.
  pub execute_sequence-result :
      Updates
      → Completes
      → (buffer : Bytes) (sessions : Sessions) (s : S) → 1 ≤ max
      → Live (session_handles sessions) s
      → (has_policy_session sessions ≡ false) ⊎ (length buffer ≤ max)
      → (c : SequenceContext R S) × (execute_sequence max for_update update complete buffer sessions
            s
          ≡ (ok tt, c))
        × (c.result ≡ some (result_of (absorbed s ++ buffer)))
  unfolding execute_sequence
  execute_sequence-result updates completes buffer sessions s some_bytes live allowed =
      exec_multiple-After (sequence_last max for_update update complete)
        (sequence_run max for_update update complete)
        (Adding updates completes buffer sessions (absorbed s) some_bytes)
        (HasResult updates completes buffer sessions (absorbed s) some_bytes) sessions
        (update_step updates completes buffer sessions (absorbed s) some_bytes)
        (complete_finish updates completes buffer sessions (absorbed s) some_bytes) (length buffer)
        (length buffer) (record { buffer = buffer; total = 0; result = none; tpm = s })
        (omega arith) (refl, refl, sym (append-nil (absorbed s)), live)
        (elim allowed [ inl e ↦ inl e | inr few ↦ inr (ground arith) ])
