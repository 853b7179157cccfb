-- ===== src/Packet/Replies.antt =====
-- The packets that a TPM answers with, and what ReadResponsePacket reads of them.
use go_tpm.Base.{
  ℕ, Bool, true, false, ◌+◌, ◌-◌, ◌^◌, ◌≤◌, ◌<◌, ◌≡◌, ◌≢◌, ◌⊎◌, refl, ap, arith, Option, none, some,
  List, [], ◌++◌, length, length-append, take-append, drop-append, All, inl, inr, Outcome, ok,
  ◌>>=◌, >>=-eq-ok, ok-injective,
}
use mathlib.Core.List.{append_assoc, append-nil}
use go_tpm.Mu.Types.{MuError}
use go_tpm.Mu.Bytes.{Bytes, big_endian, read_full-append, read_number-big_endian}
use go_tpm.ResponseCode.Errors.{response_success, response_bad_tag}
use go_tpm.Packet.Areas.{AuthResponse, write_auth_response, read_auth_response, write_area}
use go_tpm.Packet.Command.{Header, write_header, header_size, tag_sessions, tag_no_sessions}
use go_tpm.Packet.Response.{
  Response, tag_rsp_command, check_response_header, read_response_handle, read_response_payload,
  read_response_packet,
}
use go_tpm.Packet.Parts.{
  IsAuthResponse, read_auth_response-write_auth_response, write_auth_response_some,
  read_area-write_area, read_header-write_header, length-write_header,
}

abbrev pub handle_bytes : Option ℕ → Bytes
handle_bytes none = []
handle_bytes (some h) = big_endian 4 h

abbrev pub is_some : Option ℕ → Bool
is_some none = false
is_some (some h) = true

abbrev pub IsHandle : Option ℕ → Type 0
IsHandle none = Unit
IsHandle (some h) = h < 2 ^ 32

abbrev with_header : ℕ → ℕ → Bytes → Bytes
with_header tag code payload =
    write_header (record { tag = tag; size = header_size + length payload; code = code }) ++ payload

-- A successful answer with sessions, a successful answer without, an answer that is an error, and
-- the answer of a TPM 1.2 format to a command whose tag it does not know: TPM_RC_BAD_TAG.
pub data Reply : Type 0 where
  with_sessions : Option ℕ → Bytes → List AuthResponse → Reply
  without_sessions : Option ℕ → Bytes → Reply
  failed : ℕ → Reply
  bad_tag : Reply

abbrev pub reply_bytes : Reply → Outcome MuError Bytes
reply_bytes (with_sessions handle parameters auths) = do
  area ← write_area write_auth_response auths
  ok (
      with_header tag_sessions response_success
        (handle_bytes handle ++ (big_endian 4 (length parameters) ++ (parameters ++ area))))
reply_bytes (without_sessions handle parameters) =
    ok (with_header tag_no_sessions response_success (handle_bytes handle ++ parameters))
reply_bytes (failed code) = ok (with_header tag_no_sessions code [])
reply_bytes bad_tag = ok (with_header tag_rsp_command response_bad_tag [])

abbrev pub response_of : Reply → Response
response_of (with_sessions handle parameters auths) = record {
  code = response_success;
  handle = handle;
  parameters = parameters;
  auth_area = auths;
}
response_of (without_sessions handle parameters) = record {
  code = response_success;
  handle = handle;
  parameters = parameters;
  auth_area = [];
}
response_of (failed code) = record { code = code; handle = none; parameters = []; auth_area = [] }
response_of bad_tag = record {
  code = response_bad_tag;
  handle = none;
  parameters = [];
  auth_area = [];
}

-- The numbers fit, and the caller wants a handle if a successful answer has one.
abbrev pub IsReply : Bool → Reply → Type 0
IsReply wants_handle (with_sessions handle parameters auths) =
    IsHandle handle × All IsAuthResponse auths × (wants_handle ≡ is_some handle)
IsReply wants_handle (without_sessions handle parameters) =
    IsHandle handle × (wants_handle ≡ is_some handle)
IsReply wants_handle (failed code) = (code ≢ response_success) × (code < 2 ^ 32)
IsReply wants_handle bad_tag = Unit

handle_reads :
    (h : Header) (handle : Option ℕ) (rest : Bytes)
    → (h.tag ≡ tag_sessions) ⊎ (h.tag ≡ tag_no_sessions)
    → h.code ≡ response_success
    → IsHandle handle
    → read_response_handle h (is_some handle) (handle_bytes handle ++ rest) ≡ ok (handle, rest)
unfolding read_response_handle
handle_reads h none rest t c v = ground arith
handle_reads h (some x) rest t c v =
    ground (arith, read_number-big_endian 4 x rest (omega (arith, v)))

-- The header of a packet is read, and what the limited reader then has is the payload.
opened :
    (wants_handle : Bool) (tag code : ℕ) (payload rest r1 : Bytes) (r : Response)
    (handle : Option ℕ)
    → tag < 2 ^ 16
    → code < 2 ^ 32
    → header_size + length payload < 2 ^ 32
    → let h : Header = record { tag = tag; size = header_size + length payload; code = code } in
      check_response_header h ≡ ok tt
      → read_response_handle h wants_handle payload ≡ ok (handle, r1)
      → read_response_payload tag (length payload - (length payload - length r1)) r1
        ≡ ok (r.parameters, r.auth_area, [])
      → r ≡ record r { code = code; handle = handle }
      → read_response_packet wants_handle (with_header tag code payload ++ rest) ≡ ok (r, rest)
unfolding read_response_packet
opened wants_handle tag code payload rest r1 r handle small_tag small_code small checked e1 e2
      same =
    let h : Header = record { tag = tag; size = header_size + length payload; code = code } in
    let limit : header_size + length payload - header_size ≡ length payload = omega arith in
    rw (
      append_assoc,
      read_header-write_header h (payload ++ rest) (small_tag, small, small_code),
      checked,
      limit,
      take-append payload rest,
      e1,
      e2,
      drop-append payload rest,
      same,
    )

sessions_payload :
    (parameters area : Bytes) (auths : List AuthResponse)
    → All IsAuthResponse auths
    → write_area write_auth_response auths ≡ ok area
    → length parameters < 2 ^ 32
    → let input = big_endian 4 (length parameters) ++ (parameters ++ area) in
      read_response_payload tag_sessions (length input) input ≡ ok (parameters, auths, [])
unfolding read_response_payload
sessions_payload parameters area auths v e small =
    let input : Bytes = big_endian 4 (length parameters) ++ (parameters ++ area) in
    let longer : length area ≤ length input = omega (
      arith,
      length-append (big_endian 4 (length parameters)) (parameters ++ area),
      length-append parameters area,
    ) in
    let left : length input - (length input - length area) ≡ length area = omega arith in
    let reads =
      read_area-write_area read_auth_response write_auth_response IsAuthResponse
        read_auth_response-write_auth_response write_auth_response_some auths (length area) 0 area
        [] v e (omega arith) in
    rw (
      read_number-big_endian 4 (length parameters) (parameters ++ area) (omega (arith, small)),
      read_full-append parameters area,
      left,
      rw append-nil at reads,
    )

plain_payload :
    (parameters : Bytes)
    → read_response_payload tag_no_sessions (length parameters) parameters ≡ ok (parameters, [], [])
unfolding read_response_payload
plain_payload parameters = ground arith

-- What is left of a reader, counted from its limit.
counted : (xs ys : Bytes) → length (xs ++ ys) - (length (xs ++ ys) - length ys) ≡ length ys
counted xs ys = omega (arith, length-append xs ys)

length-with_header :
    (tag code : ℕ) (payload : Bytes)
    → length (with_header tag code payload) ≡ header_size + length payload
length-with_header tag code payload =
    let h : Header = record { tag = tag; size = header_size + length payload; code = code } in
    omega (arith, length-append (write_header h) payload, length-write_header h)

-- A reply of a TPM, which is a success with or without sessions, an error without sessions, or
-- TPM_RC_BAD_TAG with the tag of TPM 1.2, is read as the response that it stands for, if the caller
-- gives a pointer for a handle exactly where a successful reply has one, and the bytes that follow
-- are left.
pub read_response_packet-reply_bytes :
    (wants_handle : Bool) (reply : Reply) (bs rest : Bytes)
    → IsReply wants_handle reply
    → reply_bytes reply ≡ ok bs
    → length bs < 2 ^ 32
    → read_response_packet wants_handle (bs ++ rest) ≡ ok (response_of reply, rest)
read_response_packet-reply_bytes w (with_sessions handle parameters auths) bs rest v e small =
    let (area, e1, e2) = >>=-eq-ok (write_area write_auth_response auths) _ e in
    let tail : Bytes = big_endian 4 (length parameters) ++ (parameters ++ area) in
    let payload : Bytes = handle_bytes handle ++ tail in
    let whole : with_header tag_sessions response_success payload ≡ bs = ok-injective e2 in
    let size = length-with_header tag_sessions response_success payload in
    let short : length parameters < 2 ^ 32 = omega (
      arith,
      ap length whole,
      size,
      length-append (handle_bytes handle) tail,
      length-append (big_endian 4 (length parameters)) (parameters ++ area),
      length-append parameters area,
    ) in
    rw (← whole) (
      opened w tag_sessions response_success payload rest tail
        (response_of (with_sessions handle parameters auths)) handle (omega arith) (omega arith)
        (omega (arith, ap length whole, size)) (unfold check_response_header in refl)
        (rw v.2 (handle_reads _ handle tail (inl refl) refl v.0))
        (rw (counted (handle_bytes handle) tail)
          (sessions_payload parameters area auths v.1 e1 short))
        refl)
read_response_packet-reply_bytes w (without_sessions handle parameters) bs rest v e small =
    let payload : Bytes = handle_bytes handle ++ parameters in
    let whole : with_header tag_no_sessions response_success payload ≡ bs = ok-injective e in
    let size = length-with_header tag_no_sessions response_success payload in
    rw (← whole) (
      opened w tag_no_sessions response_success payload rest parameters
        (response_of (without_sessions handle parameters)) handle (omega arith) (omega arith)
        (omega (arith, ap length whole, size)) (unfold check_response_header in refl)
        (rw v.1 (handle_reads _ handle parameters (inr refl) refl v.0))
        (rw (counted (handle_bytes handle) parameters) (plain_payload parameters)) refl)
read_response_packet-reply_bytes w (failed code) bs rest v e small =
    let whole : with_header tag_no_sessions code [] ≡ bs = ok-injective e in
    rw (← whole) (
      opened w tag_no_sessions code [] rest [] (response_of (failed code)) none (omega arith) v.1
        (omega arith) (unfold check_response_header in ground arith)
        (unfold read_response_handle in ground arith) (plain_payload []) refl)
read_response_packet-reply_bytes w bad_tag bs rest v e small =
    let whole : with_header tag_rsp_command response_bad_tag [] ≡ bs = ok-injective e in
    rw (← whole) (
      opened w tag_rsp_command response_bad_tag [] rest [] (response_of bad_tag) none (omega arith)
        (omega arith) (omega arith) (unfold check_response_header in refl)
        (unfold read_response_handle in refl) (unfold read_response_payload in refl) refl)
