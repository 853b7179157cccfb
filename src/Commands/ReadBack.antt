-- ===== src/Commands/ReadBack.antt =====
-- What NVRead returns of an NV index.
use go_tpm.Base.{
  ℕ, ◌+◌, ◌-◌, ◌%◌, ◌^◌, ◌≤◌, ◌<◌, ◌≡◌, ◌⊎◌, inl, inr, refl, sym, ap, ◌∙◌, arith, true, false, List,
  [], ◌++◌, length, take, drop, take_plus, drop_plus, All, Outcome, ok,
}
use mathlib.Core.List.{append_assoc, append-nil}
use go_tpm.Mu.Bytes.{Bytes}
use go_tpm.Commands.Multiple.{Sessions, has_policy_session, keep_sessions}
use go_tpm.Commands.Nv.{ReadContext, read_last, next_read, read_run, nv_read}
use go_tpm.Commands.Runs.{
  session_handles, IsKept, session_handles-keep_sessions, keep_sessions-IsKept, exec_multiple-After,
}

module _ {S E : Type 0} (max : ℕ) (read : Sessions → ℕ → ℕ → S → Outcome E Bytes × S)
    (contents : S → Bytes) (Live : List ℕ → S → Type 0) where
  -- TPM2_NV_Read of at most max bytes, inside of an index whose contents are these, gives them if the
  -- sessions are there, and they stay there if each one is used with AttrContinueSession.
  abbrev pub Reads : Type 0
  Reads =
      (sessions : Sessions) (size offset : ℕ) (s : S)
      → Live (session_handles sessions) s
      → size ≤ max
      → offset + size ≤ length (contents s)
      → (s' : S) × (read sessions size offset s ≡ (ok (take size (drop offset (contents s))), s'))
        × (contents s' ≡ contents s)
        × (All IsKept sessions → Live (session_handles sessions) s')

  -- The state after a read of the next bytes, without wrap-around.
  abbrev got_more : ReadContext S → Bytes → S → ReadContext S
  got_more c xs s' = record {
    size = c.size - next_read max read c;
    offset = c.offset + next_read max read c;
    got = c.got ++ xs;
    tpm = s';
  }

  read_run-got_more :
      (c : ReadContext S) (used : Sessions) (xs : Bytes) (s' : S)
      → (got_more c xs s').offset < 2 ^ 16
      → read used (next_read max read c) c.offset c.tpm ≡ (ok xs, s')
      → read_run max read used c ≡ (ok tt, got_more c xs s')
  unfolding read_run
  read_run-got_more c used xs s' short e =
      let same : (got_more c xs s').offset % 2 ^ 16 ≡ (got_more c xs s').offset = omega arith in
      rw (e, same) refl

  module _ (reads : Reads) (size offset : ℕ) (sessions : Sessions) (old : Bytes)
      (some_bytes : 1 ≤ max) (inside : offset + size ≤ length old)
      (small : length old < 2 ^ 16) where
    -- What has been read and what is left to be read are what is wanted.
    abbrev Reading : ℕ → ReadContext S → Type 0
    Reading n c =
        (n ≡ c.size)
        × (c.offset + c.size ≡ offset + size)
        × (c.got ++ take c.size (drop c.offset old) ≡ take size (drop offset old))
        × (contents c.tpm ≡ old)
        × Live (session_handles sessions) c.tpm

    abbrev IsRead : ReadContext S → Type 0
    IsRead c = (c.got ≡ take size (drop offset old)) × (contents c.tpm ≡ old)

    more_read :
        (n : ℕ) (c : ReadContext S) (used : Sessions)
        → Reading n c
        → session_handles used ≡ session_handles sessions
        → (c' : ReadContext S) × (read_run max read used c ≡ (ok tt, c'))
          × (c'.size ≡ c.size - next_read max read c)
          × (c'.offset + c'.size ≡ offset + size)
          × (c'.got ++ take c'.size (drop c'.offset old) ≡ take size (drop offset old))
          × (contents c'.tpm ≡ old)
          × (All IsKept used → Live (session_handles sessions) c'.tpm)
    more_read n c used (m, ends, parts, same, live) handles =
        let k : ℕ = next_read max read c in
        let few : k ≤ max = ground arith in
        let some_left : k ≤ c.size = ground arith in
        let long : length (contents c.tpm) ≡ length old = ap length same in
        let (s', e, kept, stay) = reads used k c.offset c.tpm (rw handles live) few (omega arith) in
        let xs : Bytes = take k (drop c.offset (contents c.tpm)) in
        let here : xs ≡ take k (drop c.offset old) = ap (λ zs. take k (drop c.offset zs)) same in
        let later : Bytes = take (c.size - k) (drop (c.offset + k) old) in
        let whole : k + (c.size - k) ≡ c.size = omega arith in
        let split : xs ++ later ≡ take c.size (drop c.offset old) =
          ap (λ ys. ys ++ later) here
          ∙ ap (λ ys. take k (drop c.offset old) ++ take (c.size - k) ys) (drop_plus c.offset k old)
          ∙ sym (take_plus k (c.size - k) (drop c.offset old))
          ∙ ap (λ j. take j (drop c.offset old)) whole in
        (
          got_more c xs s',
          read_run-got_more c used xs s' (omega arith) e,
          refl,
          omega arith,
          append_assoc c.got xs later ∙ ap (λ ys. c.got ++ ys) split ∙ parts,
          kept ∙ same,
          λ all_kept. rw handles at (stay all_kept),
        )

    read_step :
        (n : ℕ) (c : ReadContext S)
        → Reading n c
        → read_last max read c ≡ false
        → (m : ℕ) × (c' : ReadContext S) × (read_run max read (keep_sessions sessions) c
            ≡ (ok tt, c'))
          × (m < n)
          × Reading m c'
    read_step n c r more =
        let (c', e, left, ends, parts, same, stay) =
          more_read n c (keep_sessions sessions) r (session_handles-keep_sessions sessions) in
        let counted : n ≡ c.size = r.0 in
        let less : c.size - next_read max read c < c.size = ground arith in
        (
          c'.size,
          c',
          e,
          omega arith,
          (refl, ends, parts, same, stay (keep_sessions-IsKept sessions)),
        )

    read_finish :
        (n : ℕ) (c : ReadContext S)
        → Reading n c
        → read_last max read c ≡ true
        → (c' : ReadContext S) × (read_run max read sessions c ≡ (ok tt, c')) × IsRead c'
    read_finish n c r last =
        let (c', e, left, ends, parts, same, stay) = more_read n c sessions r refl in
        let all_read : c.size - next_read max read c ≡ 0 = ground arith in
        let none_left : c'.size ≡ 0 = left ∙ all_read in
        (
          c',
          e,
          (
            sym (append-nil c'.got)
                ∙ ap (λ j. c'.got ++ take j (drop c'.offset old)) (sym none_left)
                ∙ parts,
            same,
          ),
        )

  -- NVRead of data that lies inside of an index gives that data, however many commands it takes for
  -- the maximum, and leaves the contents. If it takes more than one, no session is a policy session.
  -- The sessions need not have AttrContinueSession.
  pub nv_read-take :
      Reads
      → (size offset : ℕ) (sessions : Sessions) (s : S) → 1 ≤ max
      → offset + size ≤ length (contents s)
      → length (contents s) < 2 ^ 16
      → Live (session_handles sessions) s
      → (has_policy_session sessions ≡ false) ⊎ (size ≤ max)
      → (s' : S) × (nv_read max read size offset sessions s
          ≡ (ok (take size (drop offset (contents s))), s'))
        × (contents s' ≡ contents s)
  unfolding nv_read
  nv_read-take reads size offset sessions s some_bytes inside small live allowed =
      let (c, e, (all_got, same)) =
        exec_multiple-After (read_last max read) (read_run max read)
          (Reading reads size offset sessions (contents s) some_bytes inside small)
          (IsRead reads size offset sessions (contents s) some_bytes inside small) sessions
          (read_step reads size offset sessions (contents s) some_bytes inside small)
          (read_finish reads size offset sessions (contents s) some_bytes inside small) size size
          (record { size = size; offset = offset; got = []; tpm = s }) (omega arith)
          (refl, refl, refl, refl, live)
          (elim allowed [ inl e ↦ inl e | inr few ↦ inr (ground arith) ]) in
      (c.tpm, rw (e, all_got) refl, same)
