-- ===== src/Packet/RoundTrip.antt =====
-- The round trip of command and response packets.
use go_tpm.Base.{
  ℕ, ◌+◌, ◌-◌, ◌^◌, ◌≤◌, ◌<◌, ◌≡◌, refl, arith, List, [], ◌∷◌, ◌++◌, length, take-append,
  drop-append, All, ltb, Bool-cases, Outcome-cases, inl, inr, ok, >>=-eq-ok, ok-injective,
}
use mathlib.Core.List.{append_assoc}
use mathlib.Core.Path.{subst}
use go_tpm.Mu.Bytes.{Bytes, big_endian, read_number-big_endian}
use go_tpm.Packet.Areas.{AuthCommand, write_auth_command, read_auth_command, write_area}
use go_tpm.Packet.Command.{
  Header, Command, write_header, write_handles, read_handles, header_size, tag_sessions,
  tag_no_sessions, command_payload, write_command_packet, read_auth_area, read_command_packet,
}
use go_tpm.Packet.Parts.{
  IsAuthCommand, read_auth_command-write_auth_command, write_auth_command_some,
  read_area-write_area, read_header-write_header, read_handles-write_handles,
}

abbrev pub IsCommand : Command → Type 0
IsCommand c = (c.code < 2 ^ 32) × All (λ h. h < 2 ^ 32) c.handles × All IsAuthCommand c.auth_area

-- What the payload is read back as, by its tag.
abbrev pub PayloadReads : List ℕ → List AuthCommand → Bytes → ℕ → Bytes → Type 0
PayloadReads hs auths parameters tag payload =
    (tag < 2 ^ 16)
    × (tail : Bytes) × (read_handles (length hs) payload ≡ ok (hs, tail))
    × (read_auth_area tag tail ≡ ok (auths, parameters))

sessions_read :
    (hs : List ℕ) (auths : List AuthCommand) (area parameters : Bytes)
    → All (λ h. h < 2 ^ 32) hs
    → All IsAuthCommand auths
    → write_area write_auth_command auths ≡ ok area
    → length area < 2 ^ 32
    → PayloadReads hs auths parameters tag_sessions
        (write_handles hs ++ (big_endian 4 (length area) ++ (area ++ parameters)))
unfolding read_auth_area
sessions_read hs auths area parameters vh va e small =
    let reads =
      read_area-write_area read_auth_command write_auth_command IsAuthCommand
        read_auth_command-write_auth_command write_auth_command_some auths (length area) 0 area
        parameters va e (omega arith) in
    (
      omega arith,
      big_endian 4 (length area) ++ (area ++ parameters),
      read_handles-write_handles hs _ vh,
      rw (
        read_number-big_endian 4 (length area) (area ++ parameters) (omega (arith, small)),
        reads,
      ),
    )

pub payload_reads :
    (hs : List ℕ) (auths : List AuthCommand) (parameters : Bytes) (tag : ℕ) (payload : Bytes)
    → All (λ h. h < 2 ^ 32) hs
    → All IsAuthCommand auths
    → command_payload hs auths parameters ≡ ok (tag, payload)
    → PayloadReads hs auths parameters tag payload
unfolding command_payload
payload_reads hs [] parameters tag payload vh va e =
    let same = ok-injective e in
    let first : PayloadReads hs [] parameters tag_no_sessions (write_handles hs ++ parameters) = (
      omega arith,
      parameters,
      read_handles-write_handles hs parameters vh,
      unfold read_auth_area in refl,
    ) in
    subst (λ (p : ℕ × Bytes). PayloadReads hs [] parameters p.0 p.1) same first
payload_reads hs (a ∷ auths) parameters tag payload vh va e =
    elim (Outcome-cases (write_area write_auth_command (a ∷ auths))) [
      | inl (area, written) ↦ elim (Bool-cases (ltb (2 ^ 32 - 1) (length area))) [
        | inl large ↦ ground arith
        | inr small ↦
            let whole : ◌≡◌ {A = ℕ × Bytes}
                (
                  tag_sessions,
                  write_handles hs ++ (big_endian 4 (length area) ++ (area ++ parameters)),
                )
                (tag, payload) =
              ground arith in
            subst (λ (p : ℕ × Bytes). PayloadReads hs (a ∷ auths) parameters p.0 p.1) whole
              (sessions_read hs (a ∷ auths) area parameters vh va written (ground arith))
      ]
      | inr (inl (x, failed)) ↦ ground arith
      | inr (inr panicked) ↦ ground arith
    ]

-- A packet that was written for a command of 32-bit handles and code and 8-bit attributes is read
-- back as that command, with the number of its handles, and the bytes that follow are left.
pub read_command_packet-write_command_packet :
    (c : Command) (bs rest : Bytes)
    → IsCommand c
    → write_command_packet c ≡ ok bs
    → read_command_packet (length c.handles) (bs ++ rest) ≡ ok (c, rest)
unfolding read_command_packet write_command_packet
read_command_packet-write_command_packet c bs rest (code, vh, va) e =
    let ((tag, payload), e1, e') =
      >>=-eq-ok (command_payload c.handles c.auth_area c.parameters) _ e in
    let (small_tag, tail, handles_read, auths_read) =
      payload_reads c.handles c.auth_area c.parameters tag payload vh va e1 in
    let h : Header = record { tag = tag; size = header_size + length payload; code = c.code } in
    let fits : length payload ≤ 2 ^ 32 - 1 - header_size = ground arith in
    let whole : write_header h ++ payload ≡ bs = ground arith in
    let limit : header_size + length payload - header_size ≡ length payload = omega arith in
    rw (
      ← whole,
      append_assoc,
      read_header-write_header h (payload ++ rest) (small_tag, omega arith, code),
      limit,
      take-append payload rest,
      handles_read,
      auths_read,
      drop-append payload rest,
    )
