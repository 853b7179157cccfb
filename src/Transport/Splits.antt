-- ===== src/Transport/Splits.antt =====
-- What commandBuffer sends, however a command is split into writes.
use go_tpm.Base.{
  ℕ, Bool, false, zero, suc, ◌≤◌, ◌<◌, ◌≡◌, refl, sym, ap, ◌∙◌, arith, none, List, [], ◌∷◌, ◌++◌,
  map, length, length-append, take_all, drop_all, ltb, Bool-cases, inl, inr, Outcome, ok, err,
  panic, ◌>>=◌, ok-injective,
}
use mathlib.Core.List.{append_assoc, append-nil}
use go_tpm.Mu.Types.{MuError, unexpected_eof}
use go_tpm.Mu.Bytes.{Bytes, read_full, read_number}
use go_tpm.Packet.Command.{Header, read_header}
use go_tpm.Transport.CommandBuffer.{
  CommandBuffer, WriteResult, send_command, queue_or_send, by_header, write_command, write_commands,
}
use go_tpm.Transport.Pending.{after_sending}

-- A read of some bytes, and the same read with more bytes behind them: what is read stays, and only
-- the end of the input is an error.
abbrev pub Extends :
    {A : Type 0} → Bytes → Outcome MuError (A × Bytes) → Outcome MuError (A × Bytes) → Type 0
Extends ys (ok (a, rest)) m' = m' ≡ ok (a, rest ++ ys)
Extends ys (err e) m' = e ≡ unexpected_eof
Extends ys panic m' = ⊥

bind-Extends :
    {A B : Type 0} (ys : Bytes) (m m' : Outcome MuError (A × Bytes))
    (f : A × Bytes → Outcome MuError (B × Bytes))
    → Extends ys m m'
    → ((a : A) (rest : Bytes) → Extends ys (f (a, rest)) (f (a, rest ++ ys)))
    → Extends ys (m >>= f) (m' >>= f)
bind-Extends ys (ok (a, rest)) m' f e h = rw e (h a rest)
bind-Extends ys (err x) m' f e h = e
bind-Extends ys panic m' f e h = e

read_full-Extends : (n : ℕ) (xs ys : Bytes) → Extends ys (read_full n xs) (read_full n (xs ++ ys))
unfolding read_full
read_full-Extends zero xs ys = refl
read_full-Extends (suc n) [] ys = refl
read_full-Extends (suc n) (x ∷ xs) ys =
    bind-Extends ys (read_full n xs) (read_full n (xs ++ ys)) _ (read_full-Extends n xs ys)
      (λ a rest. refl)

read_number-Extends :
    (n : ℕ) (xs ys : Bytes) → Extends ys (read_number n xs) (read_number n (xs ++ ys))
unfolding read_number
read_number-Extends n xs ys =
    bind-Extends ys (read_full n xs) (read_full n (xs ++ ys)) _ (read_full-Extends n xs ys)
      (λ a rest. refl)

read_header-Extends : (xs ys : Bytes) → Extends ys (read_header xs) (read_header (xs ++ ys))
unfolding read_header
read_header-Extends xs ys =
    bind-Extends ys (read_number 2 xs) (read_number 2 (xs ++ ys)) _ (read_number-Extends 2 xs ys)
      (λ tag r1.
        bind-Extends ys (read_number 4 r1) (read_number 4 (r1 ++ ys)) _
          (read_number-Extends 4 r1 ys)
          (λ size r2.
            bind-Extends ys (read_number 4 r2) (read_number 4 (r2 ++ ys)) _
              (read_number-Extends 4 r2 ys) (λ code r3. refl)))

abbrev pub joined : List Bytes → Bytes
joined [] = []
joined (chunk ∷ chunks) = chunk ++ joined chunks

-- A write that is taken.
abbrev pub taken : Bytes → WriteResult
taken chunk = (length chunk, none)

none_joined :
    (chunk : Bytes) (chunks : List Bytes)
    → length (chunk ++ joined chunks) ≡ 0
    → (chunk ≡ []) × (length (joined chunks) ≡ 0)
none_joined [] chunks h = (refl, h)
none_joined (x ∷ chunk) chunks h = absurd (omega arith)

empty_of_length : (xs : Bytes) → length xs ≡ 0 → xs ≡ []
empty_of_length [] h = refl
empty_of_length (x ∷ xs) h = absurd (omega arith)

module _ (fails : List Bytes → Bytes → Bool) where
  -- A buffer in which no bytes wait.
  abbrev emptied : CommandBuffer → CommandBuffer
  emptied b = record b { buf = [] }

  empty_write : (b : CommandBuffer) → write_command fails (emptied b) [] ≡ (emptied b, (0, none))
  unfolding write_command read_header read_number read_full
  empty_write b = refl

  empty_writes :
      (b : CommandBuffer) (chunks : List Bytes)
      → length (joined chunks) ≡ 0
      → write_commands fails (emptied b) chunks ≡ (emptied b, map taken chunks)
  unfolding write_commands
  empty_writes b [] h = refl
  empty_writes b (chunk ∷ chunks) h =
      let (none_here, none_later) = none_joined chunk chunks h in
      rw (none_here, empty_write b, empty_writes b chunks none_later)

  module _ (packet rest : Bytes) (h : Header) (is_header : read_header packet ≡ ok (h, rest))
      (is_complete : h.size ≡ length packet) where
    -- More bytes of the packet, that are not all of it, are queued.
    queued :
        (b : CommandBuffer) (chunk later : Bytes)
        → h.size ≤ b.max_command_size
        → (b.buf ++ chunk) ++ later ≡ packet
        → length (b.buf ++ chunk) < length packet
        → write_command fails b chunk ≡ (record b { buf = b.buf ++ chunk }, taken chunk)
    unfolding write_command queue_or_send
    queued b chunk later fits e short =
        by_cases (read_header (b.buf ++ chunk)) refl (read_header-Extends (b.buf ++ chunk) later)
      where
        by_cases :
            (m : Outcome MuError (Header × Bytes))
            → read_header (b.buf ++ chunk) ≡ m
            → Extends later m (read_header ((b.buf ++ chunk) ++ later))
            → by_header fails b (length chunk) (b.buf ++ chunk) m
              ≡ (record b { buf = b.buf ++ chunk }, taken chunk)
        by_cases (ok (h', r)) e' x =
            let same : h' ≡ h =
              ap (λ (p : Header × Bytes). p.0)
                (ok-injective (sym x ∙ ap read_header e ∙ is_header)) in
            rw same (ground arith)
        by_cases (err y) e' x = rw x refl
        by_cases panic e' x = absurd x

    -- The last bytes of the packet make it complete, and it is sent.
    completed :
        (b : CommandBuffer) (chunk : Bytes)
        → h.size ≤ b.max_command_size
        → b.buf ++ chunk ≡ packet
        → fails b.sent packet ≡ false
        → write_command fails b chunk ≡ (after_sending b packet, taken chunk)
    unfolding write_command queue_or_send send_command
    completed b chunk fits e works =
        let not_large : ltb b.max_command_size h.size ≡ false = ground arith in
        let not_early : ltb (length packet) h.size ≡ false = ground arith in
        rw (
          e,
          is_header,
          not_large,
          not_early,
          is_complete,
          take_all (length packet) packet (omega arith),
          drop_all (length packet) packet (omega arith),
          works,
        )

    -- A command that is split into writes at any places, with a header that gives its size and that
    -- the maximum allows, is sent in one write, and each write is taken whole. Nothing waits then.
    pub write_commands-joined :
        (b : CommandBuffer) (chunks : List Bytes)
        → h.size ≤ b.max_command_size
        → b.buf ++ joined chunks ≡ packet
        → length b.buf < length packet
        → fails b.sent packet ≡ false
        → write_commands fails b chunks ≡ (after_sending b packet, map taken chunks)
    unfolding write_commands
    write_commands-joined b [] fits e short works =
        absurd (omega (arith, ap length e, length-append b.buf []))
    write_commands-joined b (chunk ∷ chunks) fits e short works =
        let whole : Bytes = b.buf ++ chunk in
        let e' : whole ++ joined chunks ≡ packet = append_assoc b.buf chunk (joined chunks) ∙ e in
        let total = length-append whole (joined chunks) in
        elim (Bool-cases (ltb (length whole) (length packet))) [
          | inl early ↦
              let short' : length whole < length packet = ground arith in
              rw (
                queued b chunk (joined chunks) fits e' short',
                write_commands-joined (record b { buf = whole }) chunks fits e' short' works,
              )
          | inr complete ↦
              let over : length (joined chunks) ≡ 0 = ground (arith, ap length e') in
              let last : whole ≡ packet =
                sym (append-nil whole)
                ∙ ap (λ ys. whole ++ ys) (sym (empty_of_length (joined chunks) over))
                ∙ e' in
              rw (
                completed b chunk fits last works,
                empty_writes (after_sending b packet) chunks over,
              )
        ]
