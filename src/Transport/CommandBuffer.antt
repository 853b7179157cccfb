-- ===== src/Transport/CommandBuffer.antt =====
-- commandBuffer of internal/transportutil/buffer.go: writes are queued until a command is complete.
use go_tpm.Base.{
  ℕ, Bool, Option, none, some, List, [], ◌∷◌, ◌++◌, length, take, drop, ltb, if◌then◌else◌, Outcome,
  ok, err, panic,
}
use go_tpm.Mu.Types.{MuError, unexpected_eof}
use go_tpm.Mu.Bytes.{Bytes}
use go_tpm.Packet.Command.{Header, read_header}

-- `sent` is what the writer below has been called with.
pub record CommandBuffer : Type 0 where
  pub max_command_size : ℕ
  pub buf : Bytes
  pub sent : List Bytes

pub data WriteError : Type 0 where
  cannot_decode_header : MuError → WriteError
  invalid_command_size : ℕ → WriteError
  write_failed short_write : WriteError
  -- Not an error of the code: decoding the header panicked.
  panicked : WriteError

-- The number of bytes that Write returns, and its error.
abbrev pub WriteResult : Type 0
WriteResult = ℕ × Option WriteError

-- BufferCommands
abbrev pub buffer_commands : ℕ → CommandBuffer
buffer_commands max = record { max_command_size = max; buf = []; sent = [] }

-- Whether the writer below fails, by what it has been called with before and the command.
module _ (fails : List Bytes → Bytes → Bool) where
  -- A complete command is sent, and what follows it is discarded.
  unfoldable pub send_command : CommandBuffer → ℕ → Bytes → Bytes → CommandBuffer × WriteResult
  send_command b n command remaining =
      let b' = record b { buf = []; sent = b.sent ++ command ∷ [] } in
      if fails b.sent command
      then (b', (n, some write_failed))
      else if ltb 0 (length remaining)
      then (b', (n, some short_write))
      else (b', (n, none))

  -- What is done with the bytes that are there, by their header.
  unfoldable pub queue_or_send : CommandBuffer → ℕ → Bytes → Header → CommandBuffer × WriteResult
  unfolding send_command
  queue_or_send b n whole h =
      if ltb b.max_command_size h.size
      then (b, (0, some (invalid_command_size h.size)))
      else if ltb (length whole) h.size
      then (record b { buf = whole }, (n, none))
      else send_command b n (take h.size whole) (drop h.size whole)

  -- What is done with them, by what decoding a header of them has come to.
  abbrev pub by_header :
      CommandBuffer → ℕ → Bytes → Outcome MuError (Header × Bytes) → CommandBuffer × WriteResult
  by_header b n whole (ok (h, rest)) = queue_or_send b n whole h
  by_header b n whole (err unexpected_eof) = (record b { buf = whole }, (n, none))
  by_header b n whole (err e) = (b, (0, some (cannot_decode_header e)))
  by_header b n whole panic = (b, (0, some panicked))

  -- Write
  unfoldable pub write_command : CommandBuffer → Bytes → CommandBuffer × WriteResult
  unfolding queue_or_send
  write_command b chunk = by_header b (length chunk) (b.buf ++ chunk) (read_header (b.buf ++ chunk))

  -- Writes one after the other.
  unfoldable pub write_commands : CommandBuffer → List Bytes → CommandBuffer × List WriteResult
  write_commands b [] = (b, [])
  write_commands b (chunk ∷ chunks) =
      let (b', w) = write_command b chunk in
      let (b'', ws) = write_commands b' chunks in (b'', w ∷ ws)
