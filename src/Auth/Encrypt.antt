-- ===== src/Auth/Encrypt.antt =====
-- Parameter encryption: paramcrypt.go and XORObfuscation of internal/crypt/xor.go.
use go_tpm.Base.{
  ℕ, ◌+◌, ◌-◌, ◌*◌, ◌/◌, ◌%◌, ◌^◌, Bool, false, not, ◌&&◌, ◌||◌, Option, none, some, List, [], ◌∷◌,
  ◌++◌, length, take, drop, get_elem?, ltb, ◌==◌, if◌then◌else◌, Outcome, ok, err, panic, ◌>>=◌,
}
use go_tpm.Mu.Bytes.{Bytes}
use go_tpm.Auth.Contexts.{
  Symmetric, aes, xor, other_symmetric, SessionData, AuthSession, SessionParam, AuthError,
  unsupported_mode, cipher_failed, unknown_symmetric, trim_auth_value, xor_bytes, is_none,
}
use go_tpm.Auth.Params.{SessionParams}
use go_tpm.Auth.Hmac.{auth_value_of, nonce_tpm_of}

abbrev pub sym_mode_cfb : ℕ
sym_mode_cfb = 0x0043

-- CFBKey, and "XOR".
abbrev pub cfb_key : Bytes
cfb_key = 67 ∷ 70 ∷ 66 ∷ []

abbrev pub xor_key : Bytes
xor_key = 88 ∷ 79 ∷ 82 ∷ []

-- ComputeSessionValue, of a session with data.
abbrev pub compute_session_value : SessionParam → SessionData → Bytes
compute_session_value s d = d.session_key ++ trim_auth_value (auth_value_of s.resource)

-- The size of the first parameter, its bytes, and the bytes after it. A slice out of bounds panics,
-- where the capacity is taken to be the length.
abbrev pub sized_data : {E : Type 0} → Bytes → Outcome E (Bytes × Bytes × Bytes)
sized_data (a ∷ (b ∷ xs)) =
    let end = (a * 256 + b + 2) % 2 ^ 16 in
    if ltb end 2 || ltb (length xs + 2) end
    then panic
    else ok (a ∷ b ∷ [], take (end - 2) xs, drop (end - 2) xs)
sized_data _ = panic

-- The session with an index, and the index.
abbrev pub session_at : SessionParams → Option ℕ → Option (SessionParam × ℕ)
session_at p none = none
session_at p (some i) = elim (get_elem? p.sessions i) [ none ↦ none | some s ↦ some (s, i) ]

abbrev pub encrypt_session : SessionParams → Option (SessionParam × ℕ)
encrypt_session p = session_at p p.encrypt_index

abbrev pub decrypt_session : SessionParams → Option (SessionParam × ℕ)
decrypt_session p = session_at p p.decrypt_index

abbrev pub is_auth : List SessionParam → Bool
is_auth [] = false
is_auth (s ∷ sessions) = not (is_none s.resource)

-- A change of the first session.
abbrev pub with_first : (SessionParam → SessionParam) → SessionParams → SessionParams
with_first f p = elim p.sessions [ [] ↦ p | s ∷ sessions ↦ record p { sessions = f s ∷ sessions } ]

-- ComputeEncryptNonce
unfoldable pub compute_encrypt_nonce : SessionParams → SessionParams
compute_encrypt_nonce p = elim (encrypt_session p) [
  | none ↦ p
  | some (s, i) ↦
      let both : Bool = elim (decrypt_session p) [ none ↦ false | some (ds, di) ↦ di == i ] in
      if (i == 0) || (not (is_auth p.sessions) || both)
      then p
      else with_first (λ first. record first { encrypt_nonce = nonce_tpm_of s.session }) p
]

-- KDFa of a digest algorithm, with a number of bits, and a cipher in CFB mode with a key and an IV.
module _ (kdfa : ℕ → Bytes → Bytes → Bytes → Bytes → ℕ → Bytes)
    (cipher : Bytes → Bytes → Bytes → Option Bytes) where
  -- XORObfuscation
  abbrev pub xor_obfuscation : ℕ → Bytes → Bytes → Bytes → Bytes → Bytes
  xor_obfuscation alg key u v xs = xor_bytes xs (kdfa alg key xor_key u v (length xs * 8))

  -- The cases of EncryptCommandParameter over the symmetric algorithm, on the bytes of the parameter.
  -- The nonces are the caller's and the TPM's.
  unfoldable pub encrypt_data :
      SessionParam → SessionData → Symmetric → Bytes → Outcome AuthError Bytes
  encrypt_data s d (aes bits mode) xs =
      let k =
        kdfa d.hash_alg (compute_session_value s d) cfb_key s.nonce_caller d.state.nonce_tpm
          (bits + 128) in
      let offset = (bits + 7) % 2 ^ 16 / 8 in
      if not (mode == sym_mode_cfb)
      then err unsupported_mode
      else elim (cipher (take offset k) (drop offset k) xs) [
        | none ↦ err cipher_failed
        | some ys ↦ ok ys
      ]
  encrypt_data s d xor xs =
      ok
        (xor_obfuscation d.hash_alg (compute_session_value s d) s.nonce_caller d.state.nonce_tpm xs)
  encrypt_data s d (other_symmetric alg) xs = err unknown_symmetric

  -- The cases of DecryptResponseParameter: the nonces are the TPM's and the caller's, and the cipher
  -- is the one that decrypts.
  unfoldable pub decrypt_data :
      SessionParam → SessionData → Symmetric → Bytes → Outcome AuthError Bytes
  decrypt_data s d (aes bits mode) xs =
      let k =
        kdfa d.hash_alg (compute_session_value s d) cfb_key d.state.nonce_tpm s.nonce_caller
          (bits + 128) in
      let offset = (bits + 7) % 2 ^ 16 / 8 in
      if not (mode == sym_mode_cfb)
      then err unsupported_mode
      else elim (cipher (take offset k) (drop offset k) xs) [
        | none ↦ err cipher_failed
        | some ys ↦ ok ys
      ]
  decrypt_data s d xor xs =
      ok
        (xor_obfuscation d.hash_alg (compute_session_value s d) d.state.nonce_tpm s.nonce_caller xs)
  decrypt_data s d (other_symmetric alg) xs = err unknown_symmetric

  -- The first parameter, which is changed in place.
  abbrev pub encrypt_first : SessionParam → SessionData → Bytes → Outcome AuthError Bytes
  encrypt_first s d cp_bytes = do
    (size, xs, rest) ← sized_data cp_bytes
    ys ← encrypt_data s d d.symmetric xs
    ok (size ++ (ys ++ rest))

  abbrev pub decrypt_first : SessionParam → SessionData → Bytes → Outcome AuthError Bytes
  decrypt_first s d rp_bytes = do
    (size, xs, rest) ← sized_data rp_bytes
    ys ← decrypt_data s d d.symmetric xs
    ok (size ++ (ys ++ rest))

  abbrev pub with_data :
      {A : Type 0} → AuthSession → (SessionData → Outcome AuthError A) → Outcome AuthError A
  with_data session f = elim session.data_of [ none ↦ panic | some d ↦ f d ]

  -- EncryptCommandParameter
  unfoldable pub encrypt_command_parameter :
      SessionParams → Bytes → Outcome AuthError (SessionParams × Bytes)
  encrypt_command_parameter p cp_bytes = elim (decrypt_session p) [
    | none ↦ ok (p, cp_bytes)
    | some (s, i) ↦ with_data s.session (λ d. encrypt_first s d cp_bytes) >>= λ ys. ok (
      (if ltb 0 i && is_auth p.sessions
          then with_first (λ first. record first { decrypt_nonce = nonce_tpm_of s.session }) p
          else p),
      ys,
    )
  ]

  -- DecryptResponseParameter
  unfoldable pub decrypt_response_parameter : SessionParams → Bytes → Outcome AuthError Bytes
  decrypt_response_parameter p rp_bytes = elim (encrypt_session p) [
    | none ↦ ok rp_bytes
    | some (s, i) ↦ with_data s.session (λ d. decrypt_first s d rp_bytes)
  ]
