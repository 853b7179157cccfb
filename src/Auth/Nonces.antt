-- ===== src/Auth/Nonces.antt =====
-- Which nonces the first authorization of a command covers: ComputeEncryptNonce, EncryptCommandParameter
-- and BuildCommandAuthArea of auth.go and paramcrypt.go.
use go_tpm.Base.{
  ℕ, zero, suc, ◌≡◌, refl, sym, ap, ◌∙◌, arith, Bool, true, false, not, ◌&&◌, Option, none, some,
  Option-cases, Bool-cases, ==_iff, inl, inr, List, [], ◌∷◌, ◌++◌, get_elem?, ltb, ◌==◌,
  if◌then◌else◌, ok, >>=-eq-ok, ok-injective,
}
use mathlib.Core.Path.{subst}
use go_tpm.Mu.Bytes.{Bytes, big_endian}
use go_tpm.Packet.Areas.{AuthCommand}
use go_tpm.Auth.Contexts.{SessionData, SessionParam, is_none, session_attrs, session_hash_alg}
use go_tpm.Auth.Params.{SessionParams}
use go_tpm.Auth.Hmac.{
  nonce_tpm_of, session_key_of, all_names, build_command_auth, compute_command_hmac,
  compute_session_hmac_key,
}
use go_tpm.Auth.Responses.{hmac_key}
use go_tpm.Auth.Encrypt.{
  decrypt_session, with_data, encrypt_first, compute_encrypt_nonce, encrypt_command_parameter,
}
use go_tpm.Auth.Area.{compute_caller_nonces, auths_of, build_command_auth_area}

-- The TPM's nonce of a session that is not the first, by its index.
abbrev pub further_nonce : List SessionParam → Option ℕ → Bytes
further_nonce sessions none = []
further_nonce sessions (some zero) = []
further_nonce sessions (some (suc i)) = elim (get_elem? sessions i) [
  | none ↦ []
  | some s ↦ nonce_tpm_of s.session
]

abbrev pub same_session : Option ℕ → Option ℕ → Bool
same_session (some i) (some j) = i == j
same_session _ _ = false

abbrev pub with_nonces : SessionParam → Bytes → Bytes → SessionParam
with_nonces s decrypt encrypt = record s { decrypt_nonce = decrypt; encrypt_nonce = encrypt }

abbrev pub params_of : ℕ → Option ℕ → Option ℕ → List SessionParam → SessionParams
params_of command encrypt decrypt sessions = record {
  command_code = command;
  sessions = sessions;
  encrypt_index = encrypt;
  decrypt_index = decrypt;
}

module _ (kdfa : ℕ → Bytes → Bytes → Bytes → Bytes → ℕ → Bytes)
    (cipher : Bytes → Bytes → Bytes → Option Bytes) where
  -- EncryptCommandParameter sets the nonce for decryption.
  decrypt_nonce_set :
      (command : ℕ) (encrypt decrypt : Option ℕ) (s : SessionParam) (sessions : List SessionParam)
      (cp_bytes out : Bytes) (p' : SessionParams)
      → not (is_none s.resource) ≡ true
      → s.decrypt_nonce ≡ []
      → encrypt_command_parameter kdfa cipher
          (params_of command encrypt decrypt (s ∷ sessions))
          cp_bytes
        ≡ ok (p', out)
      → p'
        ≡ params_of command encrypt decrypt
            (record s { decrypt_nonce = further_nonce sessions decrypt } ∷ sessions)
  unfolding encrypt_command_parameter
  decrypt_nonce_set command encrypt none s sessions cp_bytes out p' auth fresh e =
      let same : ◌≡◌ {A = SessionParams × Bytes}
          (params_of command encrypt none (s ∷ sessions), cp_bytes) (p', out) =
        ok-injective e in
      sym (ap (λ (x : SessionParams × Bytes). x.0) same)
      ∙ ap (λ n. params_of command encrypt none (record s { decrypt_nonce = n } ∷ sessions)) fresh
  decrypt_nonce_set command encrypt (some zero) s sessions cp_bytes out p' auth fresh e =
      let (ys, e1, e2) =
        >>=-eq-ok (with_data kdfa cipher s.session (λ d. encrypt_first kdfa cipher s d cp_bytes)) _
          e in
      sym (ap (λ (x : SessionParams × Bytes). x.0) (ok-injective e2))
      ∙ ap (λ n. params_of command encrypt (some 0) (record s { decrypt_nonce = n } ∷ sessions))
          fresh
  decrypt_nonce_set command encrypt (some (suc i)) s sessions cp_bytes out p' auth fresh e =
      elim (Option-cases (get_elem? sessions i)) [
        | inl missing ↦
            let same : ◌≡◌ {A = SessionParams × Bytes}
                (params_of command encrypt (some (suc i)) (s ∷ sessions), cp_bytes) (p', out) =
              ok-injective (rw (encrypt_command_parameter, missing) at e) in
            rw (further_nonce, missing)
              (sym (ap (λ (x : SessionParams × Bytes). x.0) same)
                ∙ ap
                    (λ n.
                      params_of command encrypt (some (suc i))
                        (record s { decrypt_nonce = n } ∷ sessions))
                    fresh)
        | inr (ds, found) ↦
            let (ys, e1, e2) =
              >>=-eq-ok
                (with_data kdfa cipher ds.session (λ d. encrypt_first kdfa cipher ds d cp_bytes)) _
                (rw (encrypt_command_parameter, found) at e) in
            let tested : (ltb 0 (suc i) && not (is_none s.resource)) ≡ true = ground arith in
            let set : (if ltb 0 (suc i) && not (is_none s.resource)
                  then params_of command encrypt (some (suc i))
                      (record s { decrypt_nonce = nonce_tpm_of ds.session } ∷ sessions)
                  else params_of command encrypt (some (suc i)) (s ∷ sessions))
                ≡ p' =
              ap (λ (x : SessionParams × Bytes). x.0) (ok-injective e2) in
            rw (further_nonce, found) (sym (rw tested at set))
      ]

unset :
    (command : ℕ) (encrypt decrypt : Option ℕ) (s : SessionParam) (sessions : List SessionParam)
    → s.encrypt_nonce ≡ []
    → params_of command encrypt decrypt (s ∷ sessions)
      ≡ params_of command encrypt decrypt (record s { encrypt_nonce = [] } ∷ sessions)
unset command encrypt decrypt s sessions fresh =
    ap (λ n. params_of command encrypt decrypt (record s { encrypt_nonce = n } ∷ sessions)) fresh

-- ComputeEncryptNonce sets the nonce for encryption.
encrypt_nonce_set :
    (command : ℕ) (encrypt decrypt : Option ℕ) (s : SessionParam) (sessions : List SessionParam)
    → not (is_none s.resource) ≡ true
    → s.encrypt_nonce ≡ []
    → compute_encrypt_nonce (params_of command encrypt decrypt (s ∷ sessions))
      ≡ params_of command encrypt decrypt (
          record s {
            encrypt_nonce =
                if same_session encrypt decrypt then [] else further_nonce sessions encrypt;
          }
          ∷ sessions)
unfolding compute_encrypt_nonce
encrypt_nonce_set command none decrypt s sessions auth fresh =
    unset command none decrypt s sessions fresh
encrypt_nonce_set command (some zero) none s sessions auth fresh =
    unset command (some 0) none s sessions fresh
encrypt_nonce_set command (some zero) (some j) s sessions auth fresh = elim (Bool-cases (0 == j)) [
  | inl same ↦ rw same (unset command (some 0) (some j) s sessions fresh)
  | inr other ↦ rw other (unset command (some 0) (some j) s sessions fresh)
]
encrypt_nonce_set command (some (suc i)) none s sessions auth fresh =
    elim (Option-cases (get_elem? sessions i)) [
      | inl missing ↦
          rw (compute_encrypt_nonce, further_nonce, missing)
            (unset command (some (suc i)) none s sessions fresh)
      | inr (es, found) ↦
          let later : (suc i == 0) ≡ false = ground arith in
          rw (compute_encrypt_nonce, further_nonce, found, later, auth) refl
    ]
encrypt_nonce_set command (some (suc i)) (some j) s sessions auth fresh =
    let later : (suc i == 0) ≡ false = ground arith in
    elim (Option-cases (get_elem? sessions i)) [
      | inl missing ↦ elim (Bool-cases (suc i == j)) [
        | inl same ↦
            rw (compute_encrypt_nonce, further_nonce, missing, same)
              (unset command (some (suc i)) (some j) s sessions fresh)
        | inr other ↦
            rw (compute_encrypt_nonce, further_nonce, missing, other)
              (unset command (some (suc i)) (some j) s sessions fresh)
      ]
      | inr (es, found) ↦ elim (Bool-cases (suc i == j)) [
        | inl same ↦
            let e : suc i ≡ j = (==_iff (suc i) j).0 same in
            let again : (suc i == suc i) ≡ true = ground arith in
            let found_too : decrypt_session
                  (params_of command (some (suc i)) (some (suc i)) (s ∷ sessions))
                ≡ some (es, suc i) =
              rw found refl in
            let both : compute_encrypt_nonce
                  (params_of command (some (suc i)) (some (suc i)) (s ∷ sessions))
                ≡ params_of command (some (suc i)) (some (suc i))
                    (record s { encrypt_nonce = [] } ∷ sessions) =
              rw (compute_encrypt_nonce, found, later, auth, found_too, again)
                (unset command (some (suc i)) (some (suc i)) s sessions fresh) in
            rw same (
              subst
                (λ k.
                  compute_encrypt_nonce (params_of command (some (suc i)) (some k) (s ∷ sessions))
                  ≡ params_of command (some (suc i)) (some k)
                      (record s { encrypt_nonce = [] } ∷ sessions))
                e both)
        | inr other ↦
            let other' : (j == suc i) ≡ false = ground arith in
            elim (Option-cases (get_elem? (s ∷ sessions) j)) [
              | inl missing ↦
                  rw (compute_encrypt_nonce, further_nonce, other, found, later, auth, missing) refl
              | inr (ds, there) ↦
                  rw
                    (compute_encrypt_nonce, further_nonce, other, found, later, auth, there, other')
                    refl
            ]
      ]
    ]

module _ (hash : ℕ → Bytes → Bytes) (hmac : ℕ → Bytes → Bytes → Bytes)
    (kdfa : ℕ → Bytes → Bytes → Bytes → Bytes → ℕ → Bytes)
    (cipher decipher : Bytes → Bytes → Bytes → Option Bytes) where
  -- The authorization that Part 1 of the TPM library defines for the first session of a command: its
  -- HMAC covers the digest of the command's parameters as they are sent, the nonces of the caller and of
  -- the TPM, then the TPM's nonces of the sessions for decryption and for encryption.
  abbrev pub first_auth :
      SessionParam → SessionData → ℕ → List Bytes → Bytes → Bytes → Bytes → AuthCommand
  first_auth s d command names cp_bytes decrypt encrypt = record {
    session_handle = s.session.handle;
    nonce = s.nonce_caller;
    session_attributes = session_attrs s.session;
    hmac = hmac d.hash_alg (hmac_key s d) (
        hash d.hash_alg (big_endian 4 command ++ (all_names names ++ cp_bytes))
        ++ (s.nonce_caller
            ++ (d.state.nonce_tpm ++ (decrypt ++ (encrypt ++ session_attrs s.session ∷ [])))));
  }

  first_of :
      (s : SessionParam) (d : SessionData) (sessions : List SessionParam) (command : ℕ)
      (names : List Bytes) (cp_bytes decrypt encrypt : Bytes)
      → s.session.data_of ≡ some d
      → s.is_password ≡ false
      → build_command_auth hash hmac (with_nonces s decrypt encrypt) command names cp_bytes
        ≡ first_auth s d command names cp_bytes decrypt encrypt
  unfolding build_command_auth compute_command_hmac compute_session_hmac_key
  first_of s d sessions command names cp_bytes decrypt encrypt there no_password =
      let alg : session_hash_alg s.session ≡ d.hash_alg = rw (session_hash_alg, there) refl in
      let nonce : nonce_tpm_of s.session ≡ d.state.nonce_tpm = rw (nonce_tpm_of, there) refl in
      let key : session_key_of s.session ≡ d.session_key = rw (session_key_of, there) refl in
      rw (build_command_auth, no_password, alg, nonce, key) refl

  -- Where BuildCommandAuthArea succeeds, and the first session is one for an HMAC that authorizes a
  -- resource and has no nonces for encryption yet, the first authorization is the one for the command
  -- and the parameters as they are sent, with the TPM's nonce of the session for decryption if that is
  -- not the first one, and with that of the session for encryption if that is neither the first one nor
  -- the one for decryption.
  pub build_command_auth_area-first_auth :
      (random : ℕ → ℕ → Option Bytes) (p p' : SessionParams) (command : ℕ) (names : List Bytes)
      (cp_bytes sent : Bytes) (auths : List AuthCommand) (s : SessionParam) (d : SessionData)
      (sessions : List SessionParam)
      → compute_caller_nonces random 0 p.sessions ≡ ok (s ∷ sessions)
      → s.session.data_of ≡ some d
      → s.is_password ≡ false
      → not (is_none s.resource) ≡ true
      → s.decrypt_nonce ≡ []
      → s.encrypt_nonce ≡ []
      → build_command_auth_area hash hmac kdfa cipher decipher random p command names cp_bytes
        ≡ ok (auths, p', sent)
      → (rest : List AuthCommand) × (auths
          ≡ first_auth s d command names sent (further_nonce sessions p.decrypt_index) (
              if same_session p.encrypt_index p.decrypt_index
              then []
              else further_nonce sessions p.encrypt_index)
            ∷ rest)
  unfolding build_command_auth_area
  build_command_auth_area-first_auth random p p' command names cp_bytes sent auths s d sessions
        nonces there no_password auth no_decrypt no_encrypt e =
      let start = params_of command p.encrypt_index p.decrypt_index (s ∷ sessions) in
      let decrypt = further_nonce sessions p.decrypt_index in
      let encrypt =
        if same_session p.encrypt_index p.decrypt_index
        then []
        else further_nonce sessions p.encrypt_index in
      let ((p1, sent'), e3, e4) =
        >>=-eq-ok (encrypt_command_parameter kdfa cipher start cp_bytes) _
          (rw (build_command_auth_area, nonces) at e) in
      let set_first =
        decrypt_nonce_set kdfa cipher command p.encrypt_index p.decrypt_index s sessions cp_bytes
          sent' p1 auth no_decrypt e3 in
      let set_second =
        encrypt_nonce_set command p.encrypt_index p.decrypt_index
          (record s { decrypt_nonce = decrypt }) sessions auth no_encrypt in
      let whole : compute_encrypt_nonce p1
          ≡ params_of command p.encrypt_index p.decrypt_index
              (with_nonces s decrypt encrypt ∷ sessions) =
        ap compute_encrypt_nonce set_first ∙ set_second in
      let parts = ok-injective e4 in
      let same : sent' ≡ sent = ap (λ (x : List AuthCommand × SessionParams × Bytes). x.2) parts in
      let rest : List AuthCommand =
        auths_of hash hmac kdfa cipher decipher sessions command names sent in
      (
        rest,
        sym (ap (λ (x : List AuthCommand × SessionParams × Bytes). x.0) parts)
            ∙ ap
                (λ (x : SessionParams).
                  auths_of hash hmac kdfa cipher decipher x.sessions command names sent')
                whole
            ∙ ap
                (λ xs.
                  auths_of hash hmac kdfa cipher decipher (with_nonces s decrypt encrypt ∷ sessions)
                    command names xs)
                same
            ∙ ap (λ a. a ∷ rest)
                (first_of s d sessions command names sent decrypt encrypt there no_password),
      )
