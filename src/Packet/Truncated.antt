-- ===== src/Packet/Truncated.antt =====
-- ReadCommandPacket of a packet whose last bytes are missing.
use go_tpm.Base.{
  ℕ, ◌+◌, ◌-◌, ◌^◌, ◌≤◌, ◌≡◌, refl, sym, ap, ◌∙◌, arith, List, [], ◌∷◌, ◌++◌, length, length-append,
  take_all, drop_all, ltb, Bool-cases, Outcome-cases, inl, inr, ok, >>=-eq-ok, ok-injective,
}
use mathlib.Core.List.{append_assoc}
use go_tpm.Mu.Bytes.{Bytes, big_endian}
use go_tpm.Packet.Areas.{AuthCommand, write_auth_command, write_area}
use go_tpm.Packet.Command.{
  Header, Command, write_header, write_handles, header_size, tag_sessions, tag_no_sessions,
  command_payload, write_command_packet, read_command_packet,
}
use go_tpm.Packet.Parts.{read_header-write_header}
use go_tpm.Packet.RoundTrip.{IsCommand, payload_reads}

-- The payload ends with the parameters.
payload_ends :
    (hs : List ℕ) (auths : List AuthCommand) (xs ys : Bytes) (tag : ℕ) (payload : Bytes)
    → command_payload hs auths (xs ++ ys) ≡ ok (tag, payload)
    → (front : Bytes) × (command_payload hs auths xs ≡ ok (tag, front)) × (front ++ ys ≡ payload)
unfolding command_payload
payload_ends hs [] xs ys tag payload e =
    let same = ok-injective e in
    let tags : tag_no_sessions ≡ tag = ap (λ (p : ℕ × Bytes). p.0) same in
    (
      write_handles hs ++ xs,
      rw tags refl,
      append_assoc (write_handles hs) xs ys ∙ ap (λ (p : ℕ × Bytes). p.1) same,
    )
payload_ends hs (a ∷ auths) xs ys tag payload e =
    elim (Outcome-cases (write_area write_auth_command (a ∷ auths))) [
      | inl (area, written) ↦ elim (Bool-cases (ltb (2 ^ 32 - 1) (length area))) [
        | inl large ↦ ground arith
        | inr small ↦
            let size : Bytes = big_endian 4 (length area) in
            let tags : tag_sessions ≡ tag = ground arith in
            let whole : write_handles hs ++ (size ++ (area ++ (xs ++ ys))) ≡ payload =
              ground arith in
            (write_handles hs ++ (size ++ (area ++ xs)), ground arith, simp append_assoc whole)
      ]
      | inr (inl (x, failed)) ↦ ground arith
      | inr (inr panicked) ↦ ground arith
    ]

-- A packet from which the last bytes of the parameters are missing is read without an error, as the
-- command with the parameters that are left, although its header gives the size of the whole packet.
pub read_command_packet-truncated :
    (c : Command) (xs ys bs : Bytes)
    → IsCommand c
    → c.parameters ≡ xs ++ ys
    → write_command_packet c ≡ ok bs
    → (front : Bytes) × (front ++ ys ≡ bs)
      × (read_command_packet (length c.handles) front ≡ ok (record c { parameters = xs }, []))
unfolding read_command_packet write_command_packet
read_command_packet-truncated c xs ys bs (code, vh, va) split e =
    let ((tag, payload), e1, e') =
      >>=-eq-ok (command_payload c.handles c.auth_area c.parameters) _ e in
    let (front, e2, ends) =
      payload_ends c.handles c.auth_area xs ys tag payload
        (ap (λ zs. command_payload c.handles c.auth_area zs) (sym split) ∙ e1) in
    let (small_tag, tail, handles_read, auths_read) =
      payload_reads c.handles c.auth_area xs tag front vh va e2 in
    let h : Header = record { tag = tag; size = header_size + length payload; code = c.code } in
    let fits : length payload ≤ 2 ^ 32 - 1 - header_size = ground arith in
    let whole : write_header h ++ payload ≡ bs = ground arith in
    let limit : header_size + length payload - header_size ≡ length payload = omega arith in
    let shorter : length front ≤ length payload =
      omega (arith, ap length ends, length-append front ys) in
    (
      write_header h ++ front,
      append_assoc (write_header h) front ys ∙ ap (λ zs. write_header h ++ zs) ends ∙ whole,
      rw (
        read_header-write_header h front (small_tag, omega arith, code),
        limit,
        take_all (length payload) front shorter,
        handles_read,
        auths_read,
        drop_all (length payload) front shorter,
      ),
    )
