-- ===== src/Commands/Written.antt =====
-- What NVWrite leaves in an NV index.
use go_tpm.Base.{
  ℕ, ◌+◌, ◌-◌, ◌%◌, ◌^◌, ◌≤◌, ◌<◌, ◌≡◌, ◌⊎◌, inl, inr, refl, sym, ap, ◌∙◌, arith, true, false,
  Option, none, some, List, ◌++◌, length, take, drop, take_plus, take_all, take-length, Bool-cases,
  length-take, length-drop, All, ltb, ok,
}
use go_tpm.Base.Digits.{bit_or_again}
use go_tpm.Mu.Bytes.{Bytes}
use go_tpm.Commands.Multiple.{Sessions, Ran, has_policy_session, keep_sessions}
use go_tpm.Commands.Nv.{
  WriteContext, set_attr, attr_nv_written, write_last, next_write, write_run, nv_write,
}
use go_tpm.Commands.Runs.{
  session_handles, IsKept, session_handles-keep_sessions, keep_sessions-IsKept, exec_multiple-After,
}
use go_tpm.Commands.Splice.{splice, length-splice, splice-nil, splice_twice}

set_again : (a : ℕ) (attrs : Option ℕ) → set_attr a (set_attr a attrs) ≡ set_attr a attrs
set_again a none = refl
set_again a (some x) = ap some (bit_or_again x a)

module _ {S E : Type 0} (max : ℕ) (write : Sessions → Bytes → ℕ → S → Ran E S)
    (contents : S → Bytes) (Live : List ℕ → S → Type 0) where
  -- TPM2_NV_Write of at most max bytes, inside of an index whose contents are these, is done if the
  -- sessions are there, and they stay there if each one is used with AttrContinueSession.
  abbrev pub Writes : Type 0
  Writes =
      (sessions : Sessions) (d : Bytes) (offset : ℕ) (s : S)
      → Live (session_handles sessions) s
      → length d ≤ max
      → offset + length d ≤ length (contents s)
      → (s' : S) × (write sessions d offset s ≡ (ok tt, s'))
        × (contents s' ≡ splice offset d (contents s))
        × (All IsKept sessions → Live (session_handles sessions) s')

  next_write-take : (c : WriteContext S) → next_write max write c ≡ take max (drop c.total c.buffer)
  next_write-take c = elim (Bool-cases (ltb max (length (drop c.total c.buffer)))) [
    | inl more ↦ rw more refl
    | inr fits ↦
        let few : length (drop c.total c.buffer) ≤ max = ground arith in
        rw fits (sym (take_all max (drop c.total c.buffer) few))
  ]

  -- The state after a write of the next bytes, without wrap-around.
  abbrev wrote : WriteContext S → S → WriteContext S
  wrote c s' = record c {
    total = c.total + length (next_write max write c);
    attrs = set_attr attr_nv_written c.attrs;
    tpm = s';
  }

  write_run-wrote :
      (c : WriteContext S) (used : Sessions) (place : ℕ) (s' : S)
      → (c.offset + c.total) % 2 ^ 16 ≡ place
      → (wrote c s').total < 2 ^ 16
      → write used (next_write max write c) place c.tpm ≡ (ok tt, s')
      → write_run max write used c ≡ (ok tt, wrote c s')
  unfolding write_run
  write_run-wrote c used place s' wrapped short e =
      let same : (wrote c s').total % 2 ^ 16 ≡ (wrote c s').total = omega arith in
      rw (wrapped, e, same) refl

  module _ (writes : Writes) (buffer : Bytes) (offset : ℕ) (attrs : Option ℕ) (sessions : Sessions)
      (old : Bytes) (some_bytes : 1 ≤ max) (inside : offset + length buffer ≤ length old)
      (small : length old < 2 ^ 16) where
    -- The first c.total bytes have been written, and n are left.
    abbrev Writing : ℕ → WriteContext S → Type 0
    Writing n c =
        (c.buffer ≡ buffer)
        × (c.offset ≡ offset)
        × (n + c.total ≡ length buffer)
        × (contents c.tpm ≡ splice offset (take c.total buffer) old)
        × (set_attr attr_nv_written c.attrs ≡ set_attr attr_nv_written attrs)
        × Live (session_handles sessions) c.tpm

    abbrev IsWritten : WriteContext S → Type 0
    IsWritten c =
        (contents c.tpm ≡ splice offset buffer old) × (c.attrs ≡ set_attr attr_nv_written attrs)

    -- A write of the next d bytes.
    written :
        (n : ℕ) (c : WriteContext S) (used : Sessions)
        → Writing n c
        → session_handles used ≡ session_handles sessions
        → (s' : S) × (write_run max write used c ≡ (ok tt, wrote c s'))
          × (contents s' ≡ splice offset (take (wrote c s').total buffer) old)
          × (All IsKept used → Live (session_handles sessions) s')
    written n c used (b, o, left, now, a, live) handles =
        let d : Bytes = next_write max write c in
        let rest : Bytes = drop c.total buffer in
        let part : d ≡ take max rest =
          next_write-take c ∙ ap (λ xs. take max (drop c.total xs)) b in
        let size : length d ≡ length (take max rest) = ap length part in
        let sizes = length-take max rest in
        let rests = length-drop c.total buffer in
        let wrapped : (c.offset + c.total) % 2 ^ 16 ≡ offset + c.total = omega arith in
        let first : length (take c.total buffer) ≡ c.total =
          omega (arith, length-take c.total buffer) in
        let joined : take (c.total + length d) buffer ≡ take c.total buffer ++ d =
          take_plus c.total (length d) buffer
          ∙ ap (λ xs. take c.total buffer ++ xs)
              (ap (λ k. take k rest) size ∙ take-length max rest ∙ sym part) in
        let before : offset + length (take c.total buffer) ≤ length old = omega arith in
        let room : length (contents c.tpm) ≡ length old =
          ap length now ∙ length-splice offset (take c.total buffer) old before in
        let after : splice (offset + c.total) d (contents c.tpm)
            ≡ splice offset (take (c.total + length d) buffer) old =
          ap (λ zs. splice (offset + c.total) d zs) now
          ∙ ap (λ k. splice (offset + k) d (splice offset (take c.total buffer) old)) (sym first)
          ∙ splice_twice offset (take c.total buffer) d old before
          ∙ ap (λ xs. splice offset xs old) (sym joined) in
        let (s', e, changed, stay) =
          writes used d (offset + c.total) c.tpm (rw handles live) (omega arith) (omega arith) in
        let short : c.total + length d < 2 ^ 16 = omega arith in
        (
          s',
          write_run-wrote c used (offset + c.total) s' wrapped short e,
          changed ∙ after,
          λ kept. rw handles at (stay kept),
        )

    step :
        (n : ℕ) (c : WriteContext S)
        → Writing n c
        → write_last max write c ≡ false
        → (m : ℕ) × (c' : WriteContext S) × (write_run max write (keep_sessions sessions) c
            ≡ (ok tt, c'))
          × (m < n)
          × Writing m c'
    step n c w more =
        let (s', e, changed, stay) =
          written n c (keep_sessions sessions) w (session_handles-keep_sessions sessions) in
        let (b, o, left, now, a, live) = w in
        let d : Bytes = next_write max write c in
        let rest : Bytes = drop c.total c.buffer in
        let rests = length-drop c.total c.buffer in
        let size = ap length (next_write-take c) in
        let same : length c.buffer ≡ length buffer = ap length b in
        let over : max < length rest = ground arith in
        (
          n - length d,
          wrote c s',
          e,
          omega (arith, length-take max rest),
          (
            b,
            o,
            omega (arith, length-take max rest),
            changed,
            set_again attr_nv_written c.attrs ∙ a,
            stay (keep_sessions-IsKept sessions),
          ),
        )

    finish :
        (n : ℕ) (c : WriteContext S)
        → Writing n c
        → write_last max write c ≡ true
        → (c' : WriteContext S) × (write_run max write sessions c ≡ (ok tt, c')) × IsWritten c'
    finish n c w last =
        let (s', e, changed, stay) = written n c sessions w refl in
        let (b, o, left, now, a, live) = w in
        let rest : Bytes = drop c.total c.buffer in
        let rests = length-drop c.total c.buffer in
        let size = ap length (next_write-take c) in
        let same : length c.buffer ≡ length buffer = ap length b in
        let under : length rest ≤ max = ground arith in
        let whole : length buffer ≤ (wrote c s').total = omega (arith, length-take max rest) in
        (
          wrote c s',
          e,
          (changed ∙ ap (λ xs. splice offset xs old) (take_all (wrote c s').total buffer whole), a),
        )

  -- NVWrite of data that lies inside of an index leaves the data at the offset, and the rest as it
  -- was, however many commands it takes for the maximum, and marks the index as written. If it takes
  -- more than one, no session is a policy session. The sessions need not have AttrContinueSession.
  pub nv_write-splice :
      Writes
      → (buffer : Bytes) (offset : ℕ) (attrs : Option ℕ) (sessions : Sessions) (s : S) → 1 ≤ max
      → offset + length buffer ≤ length (contents s)
      → length (contents s) < 2 ^ 16
      → Live (session_handles sessions) s
      → (has_policy_session sessions ≡ false) ⊎ (length buffer ≤ max)
      → (c : WriteContext S) × (nv_write max write buffer offset attrs sessions s ≡ (ok tt, c))
        × (contents c.tpm ≡ splice offset buffer (contents s))
        × (c.attrs ≡ set_attr attr_nv_written attrs)
  unfolding nv_write
  nv_write-splice writes buffer offset attrs sessions s some_bytes inside small live allowed =
      let (c, e, (now, a)) =
        exec_multiple-After (write_last max write) (write_run max write)
          (Writing writes buffer offset attrs sessions (contents s) some_bytes inside small)
          (IsWritten writes buffer offset attrs sessions (contents s) some_bytes inside small)
          sessions (step writes buffer offset attrs sessions (contents s) some_bytes inside small)
          (finish writes buffer offset attrs sessions (contents s) some_bytes inside small)
          (length buffer) (length buffer)
          (record { buffer = buffer; offset = offset; total = 0; attrs = attrs; tpm = s })
          (omega arith) (refl, refl, omega arith, sym (splice-nil offset (contents s)), refl, live)
          (elim allowed [ inl e ↦ inl e | inr few ↦ inr (ground arith) ]) in
      (c, e, now, a)
