-- ===== src/Packet/Command.antt =====
-- Command packets of command.go. A reader is the list of the bytes that it has left, and a writer
-- takes every byte.
use go_tpm.Base.{
  ℕ, zero, suc, ◌+◌, ◌-◌, ◌^◌, List, [], ◌∷◌, ◌++◌, length, take, drop, ltb, ◌==◌, if◌then◌else◌,
  Outcome, ok, err, panic, ◌>>=◌,
}
use go_tpm.Mu.Types.{MuError}
use go_tpm.Mu.Bytes.{Bytes, big_endian, read_number}
use go_tpm.Packet.Areas.{
  PacketError, header, handles, auth_size, cannot_marshal_auth_area, auth_area_too_large,
  payload_too_large, trailing_bytes, invalid_tag, reading, AuthCommand, write_auth_command,
  read_auth_command, write_area, read_area,
}

abbrev pub tag_no_sessions : ℕ
tag_no_sessions = 0x8001

abbrev pub tag_sessions : ℕ
tag_sessions = 0x8002

-- binary.Size of a CommandHeader, and of a ResponseHeader.
abbrev pub header_size : ℕ
header_size = 10

-- CommandHeader, and ResponseHeader with the response code as its code.
pub record Header : Type 0 where
  pub tag : ℕ
  pub size : ℕ
  pub code : ℕ

unfoldable pub write_header : Header → Bytes
write_header h = big_endian 2 h.tag ++ (big_endian 4 h.size ++ big_endian 4 h.code)

unfoldable pub read_header : Bytes → Outcome MuError (Header × Bytes)
read_header input = do
  (tag, r1) ← read_number 2 input
  (size, r2) ← read_number 4 r1
  (code, r3) ← read_number 4 r2
  ok (record { tag = tag; size = size; code = code }, r3)

-- mu.Raw of a HandleList.
unfoldable pub write_handles : List ℕ → Bytes
write_handles [] = []
write_handles (h ∷ l) = big_endian 4 h ++ write_handles l

unfoldable pub read_handles : ℕ → Bytes → Outcome MuError (List ℕ × Bytes)
read_handles zero input = ok ([], input)
read_handles (suc n) input = do
  (h, rest) ← read_number 4 input
  (l, rest') ← read_handles n rest
  ok (h ∷ l, rest')

pub record Command : Type 0 where
  pub code : ℕ
  pub handles : List ℕ
  pub auth_area : List AuthCommand
  pub parameters : Bytes

-- The tag and the payload of a command.
unfoldable pub command_payload : List ℕ → List AuthCommand → Bytes → Outcome PacketError (ℕ × Bytes)
command_payload hs [] parameters = ok (tag_no_sessions, write_handles hs ++ parameters)
command_payload hs (a ∷ auths) parameters = elim (write_area write_auth_command (a ∷ auths)) [
  | ok area ↦
      if ltb (2 ^ 32 - 1) (length area)
      then err auth_area_too_large
      else ok
          (tag_sessions, write_handles hs ++ (big_endian 4 (length area) ++ (area ++ parameters)))
  | err e ↦ err (cannot_marshal_auth_area e)
  | panic ↦ panic
]

-- WriteCommandPacket, and MarshalCommandPacket.
unfoldable pub write_command_packet : Command → Outcome PacketError Bytes
write_command_packet c = do
  (tag, payload) ← command_payload c.handles c.auth_area c.parameters
  if ltb (2 ^ 32 - 1 - header_size) (length payload)
      then err payload_too_large
      else ok (
          write_header (record { tag = tag; size = header_size + length payload; code = c.code })
          ++ payload)

-- The authorization area of a command, by its tag. The reader is that of the whole payload.
unfoldable pub read_auth_area : ℕ → Bytes → Outcome PacketError (List AuthCommand × Bytes)
read_auth_area tag input =
    let area = (do
      (size, rest) ← reading auth_size (read_number 4 input)
      read_area read_auth_command size 0 size rest) in
    if tag == tag_sessions
    then area
    else if tag == tag_no_sessions
    then ok ([], input)
    else err (invalid_tag tag)

-- ReadCommandPacket. The payload is read through a reader that is limited to the size in the header
-- and that is read to its end.
unfoldable pub read_command_packet : ℕ → Bytes → Outcome PacketError (Command × Bytes)
read_command_packet num_handles input = do
  (h, rest) ← reading header (read_header input)
  let limit = h.size - header_size
  (hs, r1) ← reading handles (read_handles num_handles (take limit rest))
  (auths, r2) ← read_auth_area h.tag r1
  ok (record { code = h.code; handles = hs; auth_area = auths; parameters = r2 }, drop limit rest)

-- (CommandPacket).GetCommandCode
unfoldable pub get_command_code : Bytes → Outcome PacketError ℕ
get_command_code p = do (h, rest) ← reading header (read_header p); ok h.code

-- (CommandPacket).Unmarshal
unfoldable pub unmarshal_command_packet : ℕ → Bytes → Outcome PacketError Command
unmarshal_command_packet num_handles p = do
  (c, rest) ← read_command_packet num_handles p
  if ltb 0 (length rest) then err trailing_bytes else ok c
