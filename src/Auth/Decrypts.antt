-- ===== src/Auth/Decrypts.antt =====
-- What EncryptCommandParameter and DecryptResponseParameter of paramcrypt.go do with a parameter, beside
-- how a TPM hides one.
use go_tpm.Base.{
  ℕ, suc, ◌+◌, ◌-◌, ◌*◌, ◌/◌, ◌%◌, ◌^◌, ◌<◌, ◌≡◌, refl, sym, ap, ◌∙◌, arith, false, ◌||◌,
  Bool-cases, ==_iff, true, Option-cases, ◌⊎◌, inl, inr, Option, some, [], ◌∷◌, ◌++◌, length,
  length-append, take, drop, take-append, drop-append, ltb, ◌==◌, Outcome, ok, err, >>=-eq-ok,
  ok-injective,
}
use go_tpm.Base.Digits.{bit_xor_again}
use go_tpm.Mu.Bytes.{Bytes, big_endian}
use go_tpm.Auth.Contexts.{
  Symmetric, aes, xor, other_symmetric, AuthSession, SessionData, SessionParam, AuthError,
  unsupported_mode, cipher_failed, trim_auth_value, xor_bytes,
}
use go_tpm.Auth.Params.{SessionParams}
use go_tpm.Auth.Hmac.{auth_value_of}
use go_tpm.Auth.Encrypt.{
  sym_mode_cfb, sized_data, encrypt_session, decrypt_session, encrypt_data, decrypt_data, with_data,
  encrypt_first, decrypt_first, encrypt_command_parameter, decrypt_response_parameter,
}

xor_bytes_again : (xs ms : Bytes) → xor_bytes (xor_bytes xs ms) ms ≡ xs
unfolding xor_bytes
xor_bytes_again [] ms = refl
xor_bytes_again (x ∷ xs) [] = refl
xor_bytes_again (x ∷ xs) (m ∷ ms) =
    ap (λ z. z ∷ xor_bytes (xor_bytes xs ms) ms) (bit_xor_again x m)
    ∙ ap (λ zs. x ∷ zs) (xor_bytes_again xs ms)

length-xor_bytes : (xs ms : Bytes) → length (xor_bytes xs ms) ≡ length xs
unfolding xor_bytes
length-xor_bytes [] ms = refl
length-xor_bytes (x ∷ xs) [] = refl
length-xor_bytes (x ∷ xs) (m ∷ ms) = ap suc (length-xor_bytes xs ms)

-- A parameter with a size field is split into the field, its bytes, and what follows.
sized_data-big_endian :
    (n : ℕ) (xs rest : Bytes)
    → length xs ≡ n
    → n + 2 < 2 ^ 16
    → ◌≡◌ {A = Outcome AuthError (Bytes × Bytes × Bytes)}
        (sized_data (big_endian 2 n ++ (xs ++ rest)))
        (ok (big_endian 2 n, xs, rest))
unfolding big_endian
sized_data-big_endian n xs rest size small =
    let whole : (n / 256 % 256 * 256 + n % 256 + 2) % 2 ^ 16 ≡ n + 2 = omega arith in
    let back : n + 2 - 2 ≡ length xs = omega (arith, size) in
    let inside : (ltb (n + 2) 2 || ltb (length (xs ++ rest) + 2) (n + 2)) ≡ false =
      ground (arith, length-append xs rest, size) in
    rw (whole, inside, back, take-append xs rest, drop-append xs rest) refl

-- AES with one of its key sizes.
abbrev pub IsKnown : Symmetric → Type 0
IsKnown (aes bits mode) = (bits ≡ 128) ⊎ (bits ≡ 192) ⊎ (bits ≡ 256)
IsKnown xor = Unit
IsKnown (other_symmetric alg) = ⊥

-- The secret that the key of a parameter is derived from.
abbrev pub secret : SessionParam → SessionData → Bytes
secret s d = d.session_key ++ trim_auth_value (auth_value_of s.resource)

module _ (kdfa : ℕ → Bytes → Bytes → Bytes → Bytes → ℕ → Bytes)
    (cipher decipher : Bytes → Bytes → Bytes → Option Bytes) where
  -- How the bytes of a parameter are hidden, with a digest algorithm, a secret, and the nonces of the
  -- sender and of the receiver: by the mask that KDFa gives for the label "XOR", or by AES in CFB mode,
  -- with the key and then the IV that it gives for the label "CFB".
  pub data Hides : ℕ → Bytes → Bytes → Bytes → Symmetric → Bytes → Bytes → Type 0 where
    by_mask :
        {alg : ℕ} {value newer older xs ys : Bytes}
        → ys ≡ xor_bytes xs (kdfa alg value (88 ∷ 79 ∷ 82 ∷ []) newer older (length xs * 8))
        → Hides alg value newer older xor xs ys
    by_cipher :
        {alg bits mode : ℕ} {value newer older k xs ys : Bytes}
        → mode ≡ 0x43
        → k ≡ kdfa alg value (67 ∷ 70 ∷ 66 ∷ []) newer older (bits + 128)
        → cipher (take (bits / 8) k) (drop (bits / 8) k) xs ≡ some ys
        → Hides alg value newer older (aes bits mode) xs ys

  -- A cipher that keeps the length, and its inverse.
  abbrev pub IsInverse : Type 0
  IsInverse =
      (key iv xs ys : Bytes)
      → cipher key iv xs ≡ some ys
      → (decipher key iv ys ≡ some xs) × (length ys ≡ length xs)

  key_size : (bits : ℕ) (mode : ℕ) → IsKnown (aes bits mode) → (bits + 7) % 2 ^ 16 / 8 ≡ bits / 8
  key_size bits mode (inl e) = rw e refl
  key_size bits mode (inr (inl e)) = rw e refl
  key_size bits mode (inr (inr e)) = rw e refl

  encrypt_data-Hides :
      (s : SessionParam) (d : SessionData) (symmetric : Symmetric) (xs ys : Bytes)
      → IsKnown symmetric
      → encrypt_data kdfa cipher s d symmetric xs ≡ ok ys
      → Hides d.hash_alg (secret s d) s.nonce_caller d.state.nonce_tpm symmetric xs ys
  unfolding encrypt_data
  encrypt_data-Hides s d (aes bits mode) xs ys known e =
      let offset : ℕ = (bits + 7) % 2 ^ 16 / 8 in
      let size : offset ≡ bits / 8 = key_size bits mode known in
      let k : Bytes =
        kdfa d.hash_alg (secret s d) (67 ∷ 70 ∷ 66 ∷ []) s.nonce_caller d.state.nonce_tpm
          (bits + 128) in
      elim (Bool-cases (mode == sym_mode_cfb)) [
        | inr other ↦
            let bad : ◌≡◌ {A = Outcome AuthError Bytes} (err unsupported_mode) (ok ys) =
              rw other at e in
            cc
        | inl cfb ↦ elim (Option-cases (cipher (take offset k) (drop offset k) xs)) [
          | inl failed ↦
              let bad : ◌≡◌ {A = Outcome AuthError Bytes} (err cipher_failed) (ok ys) =
                rw (cfb, failed) at e in
              cc
          | inr (zs, made) ↦
              let same : ◌≡◌ {A = Outcome AuthError Bytes} (ok zs) (ok ys) = rw (cfb, made) at e in
              by_cipher ((==_iff mode sym_mode_cfb).0 cfb) refl (
                ap (λ n. cipher (take n k) (drop n k) xs) (sym size)
                ∙ made
                ∙ ap some (ok-injective same))
        ]
      ]
  encrypt_data-Hides s d xor xs ys known e = by_mask (sym (ok-injective e))
  encrypt_data-Hides s d (other_symmetric alg) xs ys known e = absurd known

  decrypt_data-Hides :
      IsInverse
      → (s : SessionParam) (d : SessionData) (symmetric : Symmetric) (xs ys : Bytes)
      → IsKnown symmetric
      → Hides d.hash_alg (secret s d) d.state.nonce_tpm s.nonce_caller symmetric xs ys
      → (decrypt_data kdfa decipher s d symmetric ys ≡ ok xs) × (length ys ≡ length xs)
  unfolding decrypt_data
  decrypt_data-Hides inverse s d (aes bits mode) xs ys known (by_cipher cfb ke made) =
      let k : Bytes =
        kdfa d.hash_alg (secret s d) (67 ∷ 70 ∷ 66 ∷ []) d.state.nonce_tpm s.nonce_caller
          (bits + 128) in
      let (back, size) = inverse _ _ xs ys (rw ke at made) in
      let test : (mode == sym_mode_cfb) ≡ true = (==_iff mode sym_mode_cfb).1 cfb in
      (rw (test, key_size bits mode known, back) refl, size)
  decrypt_data-Hides inverse s d xor xs ys known (by_mask made) =
      let mask : Bytes =
        kdfa d.hash_alg (secret s d) (88 ∷ 79 ∷ 82 ∷ []) d.state.nonce_tpm s.nonce_caller
          (length xs * 8) in
      let same : length ys ≡ length xs = ap length made ∙ length-xor_bytes xs mask in
      (
        ap
              (λ k. ok (
                xor_bytes ys (
                  kdfa d.hash_alg (secret s d) (88 ∷ 79 ∷ 82 ∷ []) d.state.nonce_tpm s.nonce_caller
                    (k * 8))))
              same
            ∙ ap (λ l. ok (xor_bytes l mask)) made
            ∙ ap ok (xor_bytes_again xs mask),
        same,
      )
  decrypt_data-Hides inverse s d (other_symmetric alg) xs ys known h = absurd known

  with_data_of :
      {A : Type 0} (f : Bytes → Bytes → Bytes → Option Bytes) (session : AuthSession)
      (d : SessionData) (next : SessionData → Outcome AuthError A)
      → session.data_of ≡ some d
      → with_data kdfa f session next ≡ next d
  with_data_of f session d next there = rw there refl

  -- Where EncryptCommandParameter succeeds on a command whose first parameter has a size field, the
  -- field and what follows the parameter are left, and the parameter's bytes are hidden under the
  -- secret of the session for decryption, from the nonce of the caller to the nonce of the TPM.
  pub encrypt_command_parameter-Hides :
      (p p' : SessionParams) (s : SessionParam) (i : ℕ) (d : SessionData)
      (xs rest encrypted : Bytes)
      → decrypt_session p ≡ some (s, i)
      → s.session.data_of ≡ some d
      → IsKnown d.symmetric
      → length xs + 2 < 2 ^ 16
      → encrypt_command_parameter kdfa cipher p (big_endian 2 (length xs) ++ (xs ++ rest))
        ≡ ok (p', encrypted)
      → (ys : Bytes) × (encrypted ≡ big_endian 2 (length xs) ++ (ys ++ rest))
        × Hides d.hash_alg (secret s d) s.nonce_caller d.state.nonce_tpm d.symmetric xs ys
  unfolding encrypt_command_parameter
  encrypt_command_parameter-Hides p p' s i d xs rest encrypted found there known small e =
      let split = sized_data-big_endian (length xs) xs rest refl small in
      let packet : Bytes = big_endian 2 (length xs) ++ (xs ++ rest) in
      let (out, e1, e2) =
        >>=-eq-ok (with_data kdfa cipher s.session (λ x. encrypt_first kdfa cipher s x packet)) _
          (rw (encrypt_command_parameter, found) at e) in
      let first : encrypt_first kdfa cipher s d packet ≡ ok out =
        sym (with_data_of cipher s.session d (λ x. encrypt_first kdfa cipher s x packet) there)
        ∙ e1 in
      let (ys, e3, e4) =
        >>=-eq-ok (encrypt_data kdfa cipher s d d.symmetric xs) _ (rw split at first) in
      let same : out ≡ encrypted = ap (λ (r : SessionParams × Bytes). r.1) (ok-injective e2) in
      (ys, sym (ok-injective e4 ∙ same), encrypt_data-Hides s d d.symmetric xs ys known e3)

  -- Where a TPM has hidden the bytes of a response's first parameter under the secret of the session
  -- for encryption, from its own new nonce to the nonce of the caller, DecryptResponseParameter gives
  -- the response with the bytes as they were, if its cipher is the inverse of the TPM's and that one
  -- keeps the length. For XOR obfuscation the ciphers are not used.
  pub decrypt_response_parameter-Hides :
      IsInverse
      → (p : SessionParams) (s : SessionParam) (i : ℕ) (d : SessionData) (xs ys rest : Bytes)
      → encrypt_session p ≡ some (s, i)
      → s.session.data_of ≡ some d
      → IsKnown d.symmetric
      → length xs + 2 < 2 ^ 16
      → Hides d.hash_alg (secret s d) d.state.nonce_tpm s.nonce_caller d.symmetric xs ys
      → decrypt_response_parameter kdfa decipher p (big_endian 2 (length xs) ++ (ys ++ rest))
        ≡ ok (big_endian 2 (length xs) ++ (xs ++ rest))
  unfolding decrypt_response_parameter
  decrypt_response_parameter-Hides inverse p s i d xs ys rest found there known small hidden =
      let (back, same) = decrypt_data-Hides inverse s d d.symmetric xs ys known hidden in
      let split = sized_data-big_endian (length xs) ys rest same small in
      let packet : Bytes = big_endian 2 (length xs) ++ (ys ++ rest) in
      let first : decrypt_first kdfa decipher s d packet
          ≡ ok (big_endian 2 (length xs) ++ (xs ++ rest)) =
        rw (split, back) refl in
      rw (decrypt_response_parameter, found)
        (with_data_of decipher s.session d (λ x. decrypt_first kdfa decipher s x packet) there
          ∙ first)
