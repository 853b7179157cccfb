-- ===== src/Packet/Parts.antt =====
-- What the parts of a packet are read back as.
use go_tpm.Base.{
  ℕ, false, zero, suc, ◌+◌, ◌-◌, ◌^◌, ◌≤◌, ◌<◌, ◌≡◌, refl, sym, ap, ◌∙◌, arith, List, [], ◌∷◌, ◌++◌,
  length, length-append, take, drop, take-append, drop-append, All, ◌==◌, Outcome, ok, >>=-eq-ok,
  ok-injective,
}
use mathlib.Core.List.{append_assoc}
use go_tpm.Mu.Types.{MuError}
use go_tpm.Mu.Bytes.{Bytes, big_endian, length-big_endian, read_full-append, read_number-big_endian}
use go_tpm.Mu.Marshal.{sized_buffer}
use go_tpm.Packet.Areas.{
  AuthCommand, AuthResponse, read_sized, write_auth_command, read_auth_command, write_auth_response,
  read_auth_response, write_area, read_area,
}
use go_tpm.Packet.Command.{Header, write_header, read_header, write_handles, read_handles}

pub read_sized-sized_buffer :
    (xs bs rest : Bytes) → sized_buffer xs ≡ ok bs → read_sized (bs ++ rest) ≡ ok (xs, rest)
unfolding read_sized
read_sized-sized_buffer xs bs rest e =
    let small : length xs < 256 ^ 2 = ground arith in
    let written : bs ≡ big_endian 2 (length xs) ++ xs = ground arith in
    rw (
      written,
      append_assoc,
      read_number-big_endian 2 (length xs) (xs ++ rest) small,
      read_full-append xs rest,
    )

pub sized_buffer_some : (xs bs : Bytes) → sized_buffer xs ≡ ok bs → 2 ≤ length bs
sized_buffer_some xs bs e =
    ground (arith, length-append (big_endian 2 (length xs)) xs, length-big_endian 2 (length xs))

abbrev pub IsAuthCommand : AuthCommand → Type 0
IsAuthCommand a = (a.session_handle < 2 ^ 32) × (a.session_attributes < 2 ^ 8)

abbrev pub IsAuthResponse : AuthResponse → Type 0
IsAuthResponse a = a.session_attributes < 2 ^ 8

pub read_auth_command-write_auth_command :
    (a : AuthCommand) (bs rest : Bytes)
    → IsAuthCommand a
    → write_auth_command a ≡ ok bs
    → read_auth_command (bs ++ rest) ≡ ok (a, rest)
unfolding read_auth_command write_auth_command
read_auth_command-write_auth_command a bs rest h e =
    let (n, e1, e') = >>=-eq-ok (sized_buffer a.nonce) _ e in
    let (k, e2, e3) = >>=-eq-ok (sized_buffer a.hmac) _ e' in
    rw (
      ← ok-injective e3,
      append_assoc,
      read_number-big_endian 4 a.session_handle _ (omega (arith, h.0)),
      append_assoc,
      read_sized-sized_buffer a.nonce n _ e1,
      append_assoc,
      read_number-big_endian 1 a.session_attributes _ (omega (arith, h.1)),
      read_sized-sized_buffer a.hmac k rest e2,
    )

pub write_auth_command_some :
    (a : AuthCommand) (bs : Bytes) → write_auth_command a ≡ ok bs → 1 ≤ length bs
unfolding write_auth_command
write_auth_command_some a bs e =
    let (n, e1, e') = >>=-eq-ok (sized_buffer a.nonce) _ e in
    let (k, e2, e3) = >>=-eq-ok (sized_buffer a.hmac) _ e' in
    let tail = n ++ (big_endian 1 a.session_attributes ++ k) in
    omega (
      arith,
      ap length (ok-injective e3),
      length-append (big_endian 4 a.session_handle) tail,
      length-big_endian 4 a.session_handle,
    )

pub read_auth_response-write_auth_response :
    (a : AuthResponse) (bs rest : Bytes)
    → IsAuthResponse a
    → write_auth_response a ≡ ok bs
    → read_auth_response (bs ++ rest) ≡ ok (a, rest)
unfolding read_auth_response write_auth_response
read_auth_response-write_auth_response a bs rest h e =
    let (n, e1, e') = >>=-eq-ok (sized_buffer a.nonce) _ e in
    let (k, e2, e3) = >>=-eq-ok (sized_buffer a.hmac) _ e' in
    rw (
      ← ok-injective e3,
      append_assoc,
      read_sized-sized_buffer a.nonce n _ e1,
      append_assoc,
      read_number-big_endian 1 a.session_attributes _ (omega (arith, h)),
      read_sized-sized_buffer a.hmac k rest e2,
    )

pub write_auth_response_some :
    (a : AuthResponse) (bs : Bytes) → write_auth_response a ≡ ok bs → 1 ≤ length bs
unfolding write_auth_response
write_auth_response_some a bs e =
    let (n, e1, e') = >>=-eq-ok (sized_buffer a.nonce) _ e in
    let (k, e2, e3) = >>=-eq-ok (sized_buffer a.hmac) _ e' in
    omega (
      arith,
      ap length (ok-injective e3),
      length-append n (big_endian 1 a.session_attributes ++ k),
      sized_buffer_some a.nonce n e1,
    )

-- Elements that are written and read back, and that take at least a byte, make areas that are.
module _ {A : Type 0} (read : Bytes → Outcome MuError (A × Bytes))
    (write : A → Outcome MuError Bytes) (IsElem : A → Type 0)
    (back : (a : A) (bs rest : Bytes)
      → IsElem a
      → write a ≡ ok bs
      → read (bs ++ rest) ≡ ok (a, rest))
    (some_bytes : (a : A) (bs : Bytes) → write a ≡ ok bs → 1 ≤ length bs) where
  pub read_area-write_area :
      (l : List A) (fuel i : ℕ) (bs rest : Bytes)
      → All IsElem l
      → write_area write l ≡ ok bs
      → length bs ≤ fuel
      → read_area read fuel i (length bs) (bs ++ rest) ≡ ok (l, rest)
  unfolding read_area write_area
  read_area-write_area [] zero i bs rest v e h = rw (← ok-injective e)
  read_area-write_area [] (suc fuel) i bs rest v e h = rw (← ok-injective e)
  read_area-write_area (a ∷ l) zero i bs rest v e h =
      let (xs, e1, e') = >>=-eq-ok (write a) _ e in
      let (ys, e2, e3) = >>=-eq-ok (write_area write l) _ e' in
      absurd (omega (arith, ap length (ok-injective e3), length-append xs ys, some_bytes a xs e1))
  read_area-write_area (a ∷ l) (suc fuel) i bs rest v e h =
      let (xs, e1, e') = >>=-eq-ok (write a) _ e in
      let (ys, e2, e3) = >>=-eq-ok (write_area write l) _ e' in
      let whole : xs ++ ys ≡ bs = ok-injective e3 in
      let lengths : length xs + length ys ≡ length bs =
        omega (arith, ap length whole, length-append xs ys) in
      let more : 1 ≤ length xs = some_bytes a xs e1 in
      let not_read : (length bs == 0) ≡ false = ground arith in
      let shown : take (length bs) (bs ++ rest) ≡ xs ++ ys = take-append bs rest ∙ sym whole in
      let hidden : drop (length bs) (bs ++ rest) ≡ rest = drop-append bs rest in
      let left : length bs - (length (xs ++ ys) - length ys) ≡ length ys =
        omega (arith, length-append xs ys) in
      let first : read (xs ++ ys) ≡ ok (a, ys) = back a xs ys v.0 e1 in
      let later : read_area read fuel (suc i) (length ys) (ys ++ rest) ≡ ok (l, rest) =
        read_area-write_area l fuel (suc i) ys rest v.1 e2 (omega arith) in
      rw (not_read, shown, first, hidden, left, later)

abbrev pub IsHeader : Header → Type 0
IsHeader h = (h.tag < 2 ^ 16) × (h.size < 2 ^ 32) × (h.code < 2 ^ 32)

pub read_header-write_header :
    (h : Header) (rest : Bytes) → IsHeader h → read_header (write_header h ++ rest) ≡ ok (h, rest)
unfolding read_header write_header
read_header-write_header h rest (tag, size, code) = rw (
  append_assoc,
  read_number-big_endian 2 h.tag _ (omega (arith, tag)),
  append_assoc,
  read_number-big_endian 4 h.size _ (omega (arith, size)),
  read_number-big_endian 4 h.code rest (omega (arith, code)),
)

pub length-write_header : (h : Header) → length (write_header h) ≡ 10
unfolding write_header
length-write_header h = omega (
  arith,
  length-append (big_endian 2 h.tag) (big_endian 4 h.size ++ big_endian 4 h.code),
  length-append (big_endian 4 h.size) (big_endian 4 h.code),
  length-big_endian 2 h.tag,
  length-big_endian 4 h.size,
  length-big_endian 4 h.code,
)

pub read_handles-write_handles :
    (l : List ℕ) (rest : Bytes)
    → All (λ h. h < 2 ^ 32) l
    → read_handles (length l) (write_handles l ++ rest) ≡ ok (l, rest)
unfolding read_handles write_handles
read_handles-write_handles [] rest v = refl
read_handles-write_handles (h ∷ l) rest v = rw (
  append_assoc,
  read_number-big_endian 4 h _ (omega (arith, v.0)),
  read_handles-write_handles l rest v.1,
)
