-- ===== src/Transport/Examples.antt =====
-- The theorems on transports, at a command of fourteen bytes, at two responses, and at a transport that
-- answers a command once with a warning.
use go_tpm.Base.{
  ◌≡◌, refl, arith, Bool, true, false, none, List, [], ◌∷◌, ◌++◌, take, drop, ok, map,
}
use go_tpm.Mu.Bytes.{Bytes, read_number}
use go_tpm.Packet.Command.{Header, read_header}
use go_tpm.Transport.CommandBuffer.{CommandBuffer, buffer_commands, write_commands}
use go_tpm.Transport.ResponseBuffer.{
  ResponseBuffer, buffer_responses, read_responses, response, failure,
}
use go_tpm.Transport.Retrier.{Transport, RetryParams, run_command, run_from, submit, should_retry}
use go_tpm.ResponseCode.Decode.{decode_response_code}
use go_tpm.ResponseCode.Match.{is_tpm_warning}
use go_tpm.Transport.Pending.{IsBuffer, after_sending, nothing-IsPending, write_commands-IsBuffer}
use go_tpm.Transport.Splits.{taken, write_commands-joined}
use go_tpm.Transport.Stream.{stream, all_bytes, ServesEach, read_responses-stream}
use go_tpm.Transport.Retries.{RunsTo, run_command-RunsTo}

abbrev works : List Bytes → Bytes → Bool
works sent command = false

-- TPM2_GetRandom of sixteen bytes, in three writes.
abbrev start : Bytes
start = 0x80 ∷ 1 ∷ 0 ∷ 0 ∷ 0 ∷ 12 ∷ []

abbrev end : Bytes
end = 0 ∷ 0 ∷ 1 ∷ []

abbrev last : Bytes
last = 0x7b ∷ 0 ∷ 16 ∷ []

abbrev packet : Bytes
packet = start ++ (end ++ last)

abbrev new_buffer : CommandBuffer
new_buffer = buffer_commands 4096

new_buffer-IsBuffer : IsBuffer new_buffer
new_buffer-IsBuffer = (nothing-IsPending works 4096, tt)

-- A packet and the start of another one.
write_commands-IsBuffer_example : IsBuffer (write_commands works new_buffer (packet ∷ start ∷ [])).0
write_commands-IsBuffer_example =
    write_commands-IsBuffer works new_buffer (packet ∷ start ∷ []) new_buffer-IsBuffer

abbrev packet_header : Header
packet_header = record { tag = 0x8001; size = 12; code = 0x17b }

packet_read : read_header packet ≡ ok (packet_header, 0 ∷ 16 ∷ [])
unfolding read_header read_number
packet_read = refl

write_commands-joined_example :
    write_commands works new_buffer (start ∷ end ∷ last ∷ [])
    ≡ (after_sending new_buffer packet, map taken (start ∷ end ∷ last ∷ []))
write_commands-joined_example =
    write_commands-joined works packet (0 ∷ 16 ∷ []) packet_header packet_read refl new_buffer
      (start ∷ end ∷ last ∷ []) (omega arith) refl (omega arith) refl

abbrev two_responses : ResponseBuffer
two_responses = buffer_responses (response start ∷ failure 3 ∷ response end ∷ [])

read_responses-stream_example :
    (all_bytes (read_responses two_responses (4 ∷ 4 ∷ 4 ∷ 4 ∷ [])).1
        ++ stream (read_responses two_responses (4 ∷ 4 ∷ 4 ∷ 4 ∷ [])).0
      ≡ start ++ (end ++ []))
    × ServesEach (4 ∷ 4 ∷ 4 ∷ 4 ∷ []) (read_responses two_responses (4 ∷ 4 ∷ 4 ∷ 4 ∷ [])).1
read_responses-stream_example = read_responses-stream two_responses (4 ∷ 4 ∷ 4 ∷ 4 ∷ [])

-- The bytes that are still to be read.
abbrev answers : Transport Bytes
answers = record {
  alive = λ t. true;
  write = λ xs t. (none, t);
  read = λ n t. (ok (take n t), drop n t);
  sleep = λ delay t. t;
}

abbrev params : RetryParams
params = record { max_retries = 4; initial_backoff = 20; backoff_rate = 2 }

-- TPM_RC_RETRY.
abbrev busy : Bytes
busy = 0x80 ∷ 1 ∷ 0 ∷ 0 ∷ 0 ∷ 10 ∷ 0 ∷ 0 ∷ 9 ∷ 0x22 ∷ []

-- TPM_RC_SUCCESS.
abbrev success : Bytes
success = 0x80 ∷ 1 ∷ 0 ∷ 0 ∷ 0 ∷ 10 ∷ 0 ∷ 0 ∷ 0 ∷ 0 ∷ []

ran : run_command answers params 0x17b packet (busy ++ success) ≡ (ok success, [])
unfolding run_command run_from submit read_header read_number should_retry decode_response_code
    is_tpm_warning
ran = refl

run_command-RunsTo_example : RunsTo answers params 0x17b packet 4 0 (busy ++ success) success []
run_command-RunsTo_example =
    (run_command-RunsTo answers params 0x17b packet (busy ++ success) success [] (omega arith)).0
      ran
