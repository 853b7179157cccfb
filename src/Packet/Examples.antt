-- ===== src/Packet/Examples.antt =====
-- The theorems on packets, at a command with a password and at the answer to it.
use go_tpm.Base.{◌≡◌, ◌≢◌, refl, arith, true, some, [], ◌∷◌, ◌++◌, ok, panic}
use go_tpm.Mu.Bytes.{Bytes, big_endian}
use go_tpm.Packet.Areas.{AuthCommand, write_auth_command, write_auth_response, write_area}
use go_tpm.Packet.Command.{
  Command, write_command_packet, read_command_packet, command_payload, write_header, write_handles,
}
use go_tpm.Packet.Response.{read_response_packet}
use go_tpm.Packet.RoundTrip.{IsCommand, read_command_packet-write_command_packet}
use go_tpm.Packet.Replies.{
  Reply, with_sessions, response_of, reply_bytes, read_response_packet-reply_bytes,
}
use go_tpm.Packet.Truncated.{read_command_packet-truncated}
use go_tpm.Packet.Total.{read_response_packet-ne-panic}

-- A session of the handle TPM_RS_PW.
abbrev password : AuthCommand
password = record {
  session_handle = 0x40000009;
  nonce = [];
  session_attributes = 1;
  hmac = 7 ∷ 8 ∷ [];
}

abbrev command : Command
command = record {
  code = 0x131;
  handles = 0x81000001 ∷ [];
  auth_area = password ∷ [];
  parameters = 1 ∷ 2 ∷ 3 ∷ [];
}

-- The bytes of the authorization area.
abbrev area : Bytes
area = 0x40 ∷ 0 ∷ 0 ∷ 9 ∷ 0 ∷ 0 ∷ 1 ∷ 0 ∷ 2 ∷ 7 ∷ 8 ∷ []

abbrev packet : Bytes
packet =
    0x80
    ∷ 2
    ∷ 0
    ∷ 0
    ∷ 0
    ∷ 32
    ∷ 0
    ∷ 0
    ∷ 1
    ∷ 0x31
    ∷ 0x81
    ∷ 0
    ∷ 0
    ∷ 1
    ∷ 0
    ∷ 0
    ∷ 0
    ∷ 11
    ∷ (area ++ 1 ∷ 2 ∷ 3 ∷ [])

written : write_command_packet command ≡ ok packet
unfolding write_command_packet command_payload write_area write_auth_command write_header
    write_handles big_endian
written = refl

command-IsCommand : IsCommand command
command-IsCommand = (omega arith, (omega arith, tt), ((omega arith, omega arith), tt))

read_command_packet-write_command_packet_example :
    read_command_packet 1 (packet ++ 9 ∷ []) ≡ ok (command, 9 ∷ [])
read_command_packet-write_command_packet_example =
    read_command_packet-write_command_packet command packet (9 ∷ []) command-IsCommand written

-- The last two bytes of the parameters are missing.
read_command_packet-truncated_example :
    (front : Bytes) × (front ++ 2 ∷ 3 ∷ [] ≡ packet)
    × (read_command_packet 1 front ≡ ok (record command { parameters = 1 ∷ [] }, []))
read_command_packet-truncated_example =
    read_command_packet-truncated command (1 ∷ []) (2 ∷ 3 ∷ []) packet command-IsCommand refl
      written

-- An answer with a handle, a parameter and an authorization.
abbrev answer : Reply
answer =
    with_sessions (some 0x80000000) (5 ∷ [])
      (record { nonce = 6 ∷ []; session_attributes = 1; hmac = [] } ∷ [])

abbrev answer_packet : Bytes
answer_packet =
    0x80 ∷ 2 ∷ 0 ∷ 0 ∷ 0 ∷ 25 ∷ 0 ∷ 0 ∷ 0 ∷ 0 ∷ 0x80 ∷ 0 ∷ 0 ∷ 0 ∷ 0 ∷ 0 ∷ 0 ∷ 1 ∷ 5 ∷ 0 ∷ 1 ∷ 6 ∷ 1
    ∷ 0 ∷ 0 ∷ []

answered : reply_bytes answer ≡ ok answer_packet
unfolding write_area write_auth_response write_header big_endian
answered = refl

read_response_packet-reply_bytes_example :
    read_response_packet true (answer_packet ++ []) ≡ ok (response_of answer, [])
read_response_packet-reply_bytes_example =
    read_response_packet-reply_bytes true answer answer_packet []
      (omega arith, (omega arith, tt), refl) answered (omega arith)

read_response_packet-ne-panic_example : read_response_packet true answer_packet ≢ panic
read_response_packet-ne-panic_example = read_response_packet-ne-panic true answer_packet
