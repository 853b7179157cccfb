-- ===== src/Transport/Pending.antt =====
-- What waits in a commandBuffer, and what it has sent.
use go_tpm.Base.{
  ℕ, Bool, ◌≤◌, ◌<◌, ◌≡◌, refl, arith, List, [], ◌∷◌, ◌++◌, length, length-take, take, drop, All,
  All-append, ltb, Bool-cases, inl, inr, Outcome, ok, err, panic,
}
use go_tpm.Mu.Types.{MuError, unexpected_eof}
use go_tpm.Mu.Bytes.{Bytes, read_full, read_number}
use go_tpm.Packet.Command.{Header, read_header}
use go_tpm.Transport.CommandBuffer.{
  CommandBuffer, send_command, queue_or_send, by_header, write_command, write_commands,
}

-- Bytes with this header, if any, are no complete command.
abbrev pub Waits : ℕ → ℕ → Outcome MuError (Header × Bytes) → Type 0
Waits max n (ok (h, rest)) = (h.size ≤ max) × (n < h.size)
Waits max n (err e) = Unit
Waits max n panic = Unit

abbrev pub IsPending : ℕ → Bytes → Type 0
IsPending max buf = Waits max (length buf) (read_header buf)

abbrev pub IsBuffer : CommandBuffer → Type 0
IsBuffer b = IsPending b.max_command_size b.buf × All (λ c. length c ≤ b.max_command_size) b.sent

-- A buffer after a command has been sent.
abbrev pub after_sending : CommandBuffer → Bytes → CommandBuffer
after_sending b command = record b { buf = []; sent = b.sent ++ command ∷ [] }

module _ (fails : List Bytes → Bytes → Bool) where
  pub send_command_state :
      (b : CommandBuffer) (n : ℕ) (command remaining : Bytes)
      → (send_command fails b n command remaining).0 ≡ after_sending b command
  unfolding send_command
  send_command_state b n command remaining = ground arith

  pub nothing-IsPending : (max : ℕ) → IsPending max []
  unfolding read_header read_number read_full
  nothing-IsPending max = tt

  after_sending-IsBuffer :
      (b : CommandBuffer) (command : Bytes)
      → IsBuffer b
      → length command ≤ b.max_command_size
      → IsBuffer (after_sending b command)
  after_sending-IsBuffer b command v small = (
    nothing-IsPending b.max_command_size,
    All-append (λ c. length c ≤ b.max_command_size) b.sent (command ∷ []) v.1 (small, tt),
  )

  queue-IsBuffer :
      (b : CommandBuffer) (n : ℕ) (whole : Bytes) (h : Header) (rest : Bytes)
      → IsBuffer b
      → read_header whole ≡ ok (h, rest)
      → IsBuffer (queue_or_send fails b n whole h).0
  unfolding queue_or_send
  queue-IsBuffer b n whole h rest v e = elim (Bool-cases (ltb b.max_command_size h.size)) [
    | inl large ↦ rw large v
    | inr small ↦ elim (Bool-cases (ltb (length whole) h.size)) [
      | inl early ↦ rw (small, early, e) ((ground arith, ground arith), v.1)
      | inr complete ↦
          rw (small, complete, send_command_state b n (take h.size whole) (drop h.size whole))
            (after_sending-IsBuffer b (take h.size whole) v
              (ground (arith, length-take h.size whole)))
    ]
  ]

  queue_chunk-IsBuffer :
      (b : CommandBuffer) (n : ℕ) (whole : Bytes) (m : Outcome MuError (Header × Bytes))
      → IsBuffer b
      → read_header whole ≡ m
      → IsBuffer (by_header fails b n whole m).0
  queue_chunk-IsBuffer b n whole (ok (h, rest)) v e = queue-IsBuffer b n whole h rest v e
  queue_chunk-IsBuffer b n whole (err unexpected_eof) v e = (rw e tt, v.1)
  queue_chunk-IsBuffer b n whole (err x) v e = v
  queue_chunk-IsBuffer b n whole panic v e = v

  write_command-IsBuffer :
      (b : CommandBuffer) (chunk : Bytes) → IsBuffer b → IsBuffer (write_command fails b chunk).0
  unfolding write_command
  write_command-IsBuffer b chunk v =
      queue_chunk-IsBuffer b (length chunk) (b.buf ++ chunk) (read_header (b.buf ++ chunk)) v refl

  -- Writes to a buffer keep that the bytes that wait are no complete command, and that no command that
  -- was sent is longer than the maximum. They keep it where they fail, too.
  pub write_commands-IsBuffer :
      (b : CommandBuffer) (chunks : List Bytes)
      → IsBuffer b
      → IsBuffer (write_commands fails b chunks).0
  unfolding write_commands
  write_commands-IsBuffer b [] v = v
  write_commands-IsBuffer b (chunk ∷ chunks) v =
      write_commands-IsBuffer (write_command fails b chunk).0 chunks
        (write_command-IsBuffer b chunk v)
