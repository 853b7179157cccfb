-- ===== src/Packet/Areas.antt =====
-- AuthCommand and AuthResponse of types_structures.go, and the authorization areas that they make in
-- the packets of command.go.
use go_tpm.Base.{
  ℕ, zero, suc, ◌-◌, List, [], ◌∷◌, ◌++◌, length, take, drop, ◌==◌, if◌then◌else◌, Outcome, ok, err,
  panic, ◌>>=◌,
}
use go_tpm.Mu.Types.{MuError}
use go_tpm.Mu.Bytes.{Bytes, big_endian, read_full, read_number}
use go_tpm.Mu.Marshal.{sized_buffer}

-- What a packet is read for when reading fails.
pub data Part : Type 0 where
  header handles auth_size parameters response_handle parameter_size : Part
  auth : ℕ → Part

pub data PacketError : Type 0 where
  cannot_read : Part → MuError → PacketError
  cannot_marshal_auth_area : MuError → PacketError
  auth_area_too_large payload_too_large trailing_bytes : PacketError
  invalid_tag invalid_response_code invalid_response_size : ℕ → PacketError

-- An error of the package mu, with what it was about.
abbrev pub reading : {A : Type 0} → Part → Outcome MuError A → Outcome PacketError A
reading part (ok a) = ok a
reading part (err e) = err (cannot_read part e)
reading part panic = panic

pub record AuthCommand : Type 0 where
  pub session_handle : ℕ
  pub nonce : Bytes
  pub session_attributes : ℕ
  pub hmac : Bytes

pub record AuthResponse : Type 0 where
  pub nonce : Bytes
  pub session_attributes : ℕ
  pub hmac : Bytes

-- A sized buffer of bytes, such as Nonce and Auth.
unfoldable pub read_sized : Bytes → Outcome MuError (Bytes × Bytes)
read_sized input = do (size, rest) ← read_number 2 input; read_full size rest

unfoldable pub write_auth_command : AuthCommand → Outcome MuError Bytes
write_auth_command a = do
  nonce ← sized_buffer a.nonce
  hmac ← sized_buffer a.hmac
  ok (big_endian 4 a.session_handle ++ (nonce ++ (big_endian 1 a.session_attributes ++ hmac)))

unfoldable pub read_auth_command : Bytes → Outcome MuError (AuthCommand × Bytes)
read_auth_command input = do
  (handle, r1) ← read_number 4 input
  (nonce, r2) ← read_sized r1
  (attributes, r3) ← read_number 1 r2
  (hmac, r4) ← read_sized r3
  ok (
    record { session_handle = handle; nonce = nonce; session_attributes = attributes; hmac = hmac },
    r4,
  )

unfoldable pub read_auth_response : Bytes → Outcome MuError (AuthResponse × Bytes)
read_auth_response input = do
  (nonce, r1) ← read_sized input
  (attributes, r2) ← read_number 1 r1
  (hmac, r3) ← read_sized r2
  ok (record { nonce = nonce; session_attributes = attributes; hmac = hmac }, r3)

-- What a library or a TPM writes for a response.
unfoldable pub write_auth_response : AuthResponse → Outcome MuError Bytes
write_auth_response a = do
  nonce ← sized_buffer a.nonce
  hmac ← sized_buffer a.hmac
  ok (nonce ++ (big_endian 1 a.session_attributes ++ hmac))

module _ {A : Type 0} where
  -- mu.Raw of a list: the elements, one after the other.
  unfoldable pub write_area : (A → Outcome MuError Bytes) → List A → Outcome MuError Bytes
  write_area write [] = ok []
  write_area write (a ∷ l) = do xs ← write a; ys ← write_area write l; ok (xs ++ ys)

  -- `for alr.N > 0`: elements are read from a reader that is limited to n bytes. Each one takes at
  -- least a byte, so that n is enough as the fuel.
  unfoldable pub read_area :
      (Bytes → Outcome MuError (A × Bytes))
      → ℕ
      → ℕ
      → ℕ
      → Bytes
      → Outcome PacketError (List A × Bytes)
  read_area read zero i n input = if n == 0 then ok ([], input) else panic
  read_area read (suc fuel) i n input =
      let more = reading (auth i) (read (take n input)) >>= λ (a, left).
      read_area read fuel (suc i) (n - (length (take n input) - length left)) (left ++ drop n input)
      >>= λ (l, rest). ok (a ∷ l, rest) in
      if n == 0 then ok ([], input) else more
