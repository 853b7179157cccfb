-- ===== src/Packet/Response.antt =====
-- Response packets of command.go.
use go_tpm.Base.{
  ℕ, ◌-◌, ◌&&◌, not, Bool, Option, none, some, List, [], ◌++◌, length, take, drop, ltb, ◌==◌,
  if◌then◌else◌, Outcome, ok, err, ◌>>=◌,
}
use go_tpm.Mu.Types.{unexpected_eof}
use go_tpm.Mu.Bytes.{Bytes, read_full, read_number}
use go_tpm.ResponseCode.Errors.{response_success, response_bad_tag}
use go_tpm.Packet.Areas.{
  PacketError, header, response_handle, parameters, parameter_size, cannot_read, trailing_bytes,
  invalid_tag, invalid_response_code, invalid_response_size, reading, AuthResponse,
  read_auth_response, read_area,
}
use go_tpm.Packet.Command.{Header, read_header, header_size, tag_sessions, tag_no_sessions}

abbrev pub tag_rsp_command : ℕ
tag_rsp_command = 0xc4

pub record Response : Type 0 where
  pub code : ℕ
  pub handle : Option ℕ
  pub parameters : Bytes
  pub auth_area : List AuthResponse

-- What the header alone says against a response.
unfoldable pub check_response_header : Header → Outcome PacketError (Unit {0})
check_response_header h =
    if h.tag == tag_rsp_command
    then (if not (h.code == response_bad_tag) then err (invalid_response_code h.code) else ok tt)
    else if h.tag == tag_sessions
    then (if not (h.code == response_success) then err (invalid_response_code h.code) else ok tt)
    else if h.tag == tag_no_sessions
    then (if not (h.code == response_success) && not (h.size == header_size)
        then err (invalid_response_size h.size)
        else ok tt)
    else err (invalid_tag h.tag)

-- The handle, if the caller has given a pointer for it.
unfoldable pub read_response_handle : Header → Bool → Bytes → Outcome PacketError (Option ℕ × Bytes)
read_response_handle h wants_handle input =
    let there = (do (x, rest) ← reading response_handle (read_number 4 input); ok (some x, rest)) in
    if not (h.tag == tag_rsp_command) && ((h.code == response_success) && wants_handle)
    then there
    else ok (none, input)

-- The parameters and the authorization area. The reader has n bytes to go until its limit, and
-- `input` is what there is of them.
unfoldable pub read_response_payload :
    ℕ → ℕ → Bytes → Outcome PacketError (Bytes × List AuthResponse × Bytes)
read_response_payload tag n input =
    let sessions = (do
      (size, r1) ← reading parameter_size (read_number 4 input)
      (xs, r2) ← reading parameters (read_full size r1)
      let left = n - (length input - length r2)
      (auths, r3) ← read_area read_auth_response left 0 left r2
      ok (xs, auths, r3)) in
    if tag == tag_rsp_command
    then ok ([], [], input)
    else if tag == tag_sessions
    then sessions
    else if ltb (length input) n
    then err (cannot_read parameters unexpected_eof)
    else ok (input, [], [])

-- ReadResponsePacket, with what is left in the reader.
unfoldable pub read_response_packet : Bool → Bytes → Outcome PacketError (Response × Bytes)
read_response_packet wants_handle input = do
  (h, rest) ← reading header (read_header input)
  accepted ← check_response_header h
  let limit = h.size - header_size
  (handle, r1) ← read_response_handle h wants_handle (take limit rest)
  (xs, auths, r2) ← read_response_payload h.tag (limit - (length (take limit rest) - length r1)) r1
  ok (
    record { code = h.code; handle = handle; parameters = xs; auth_area = auths },
    r2 ++ drop limit rest,
  )

-- (ResponsePacket).Unmarshal
unfoldable pub unmarshal_response_packet : Bool → Bytes → Outcome PacketError Response
unmarshal_response_packet wants_handle p = do
  (r, rest) ← read_response_packet wants_handle p
  if ltb 0 (length rest) then err trailing_bytes else ok r
