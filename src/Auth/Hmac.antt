-- ===== src/Auth/Hmac.antt =====
-- The HMACs of sessionParam, with the digest functions as parameters: `hash alg xs` is the digest of
-- the bytes, and `hmac alg key xs` the HMAC.
use go_tpm.Base.{
  ℕ, false, not, ◌&&◌, ◌||◌, Option, none, some, List, [], ◌∷◌, ◌++◌, length, ltb, ◌==◌,
  if◌then◌else◌, Outcome, ok, err, panic,
}
use go_tpm.Mu.Api.{bytes_equal}
use go_tpm.Mu.Bytes.{Bytes, big_endian}
use go_tpm.ResponseCode.Errors.{response_success}
use go_tpm.Packet.Areas.{AuthCommand, AuthResponse}
use go_tpm.Auth.Contexts.{
  SessionState, SessionData, AuthSession, Resource, SessionParam, AuthError, unexpected_hmac,
  incorrect_hmac, has_attr, session_attrs, session_hash_alg, attr_audit, attr_audit_exclusive,
  trim_auth_value,
}

abbrev pub all_names : List Bytes → Bytes
all_names [] = []
all_names (n ∷ names) = n ++ all_names names

abbrev pub session_key_of : AuthSession → Bytes
session_key_of s = elim s.data_of [ none ↦ [] | some d ↦ d.session_key ]

abbrev pub nonce_tpm_of : AuthSession → Bytes
nonce_tpm_of s = elim s.data_of [ none ↦ [] | some d ↦ d.state.nonce_tpm ]

abbrev pub auth_value_of : Option Resource → Bytes
auth_value_of none = []
auth_value_of (some r) = r.auth_value

-- ComputeSessionHMACKey
unfoldable pub compute_session_hmac_key : SessionParam → Bytes
compute_session_hmac_key s =
    session_key_of s.session
    ++ (if s.include_auth_value then trim_auth_value (auth_value_of s.resource) else [])

-- The state of a session after a response.
abbrev pub answered_state : AuthResponse → SessionState → SessionState
answered_state resp state = record {
  nonce_tpm = resp.nonce;
  is_audit = has_attr resp.session_attributes attr_audit;
  is_exclusive = has_attr resp.session_attributes attr_audit_exclusive;
  needs_password = false;
  needs_auth_value = false;
}

abbrev pub answered : AuthResponse → SessionParam → SessionData → SessionParam
answered resp s d = record s {
  session = record s.session { data_of = some (record d { state = answered_state resp d.state }) };
}

module _ (hash : ℕ → Bytes → Bytes) (hmac : ℕ → Bytes → Bytes → Bytes) where
  -- cryptComputeCpHash and cryptComputeRpHash
  abbrev pub compute_cp_hash : ℕ → ℕ → List Bytes → Bytes → Bytes
  compute_cp_hash alg command names parameters =
      hash alg (big_endian 4 command ++ (all_names names ++ parameters))

  abbrev pub compute_rp_hash : ℕ → ℕ → ℕ → Bytes → Bytes
  compute_rp_hash alg code command rp_bytes =
      hash alg (big_endian 4 code ++ (big_endian 4 command ++ rp_bytes))

  -- computeHMAC, without whether there is a key.
  abbrev pub compute_hmac : SessionParam → Bytes → Bytes → Bytes → Bytes → Bytes → ℕ → Bytes
  compute_hmac s p_hash newer older decrypt encrypt attrs =
      hmac (session_hash_alg s.session) (compute_session_hmac_key s)
        (p_hash ++ (newer ++ (older ++ (decrypt ++ (encrypt ++ attrs ∷ [])))))

  unfoldable pub compute_command_hmac : SessionParam → ℕ → List Bytes → Bytes → Bytes
  compute_command_hmac s command names cp_bytes =
      compute_hmac s (compute_cp_hash (session_hash_alg s.session) command names cp_bytes)
        s.nonce_caller (nonce_tpm_of s.session) s.decrypt_nonce s.encrypt_nonce
        (session_attrs s.session)

  unfoldable pub compute_response_hmac : SessionParam → AuthResponse → ℕ → Bytes → Bytes
  compute_response_hmac s resp command rp_bytes =
      compute_hmac s
        (compute_rp_hash (session_hash_alg s.session) response_success command rp_bytes)
        (nonce_tpm_of s.session) s.nonce_caller [] [] resp.session_attributes

  -- BuildCommandAuth
  unfoldable pub build_command_auth : SessionParam → ℕ → List Bytes → Bytes → AuthCommand
  build_command_auth s command names cp_bytes = record {
    session_handle = s.session.handle;
    nonce = s.nonce_caller;
    session_attributes = session_attrs s.session;
    hmac =
        if s.is_password
        then auth_value_of s.resource
        else compute_command_hmac s command names cp_bytes;
  }

  -- What ProcessResponseAuth says to a response after the state of the session has changed.
  unfoldable pub check_response_auth :
      SessionParam → AuthResponse → ℕ → Bytes → Outcome AuthError (Unit {0})
  check_response_auth s resp command rp_bytes =
      if s.is_password
      then (if not (length resp.hmac == 0) then err unexpected_hmac else ok tt)
      else if (ltb 0 (length (compute_session_hmac_key s)) || ltb 0 (length resp.hmac))
          && not (bytes_equal (compute_response_hmac s resp command rp_bytes) resp.hmac)
      then err incorrect_hmac
      else ok tt

  -- ProcessResponseAuth. A context without a state is a nil pointer.
  unfoldable pub process_response_auth :
      SessionParam → AuthResponse → ℕ → Bytes → Outcome AuthError (Unit {0}) × SessionParam
  process_response_auth s resp command rp_bytes = elim s.session.data_of [
    | none ↦ (panic, s)
    | some d ↦ (check_response_auth (answered resp s d) resp command rp_bytes, answered resp s d)
  ]
