-- ===== src/Auth/Area.antt =====
-- The authorization areas of a command and of its response, by sessionParams of auth.go.
use go_tpm.Base.{
  ℕ, suc, ◌+◌, not, Option, none, some, List, [], ◌∷◌, length, ◌==◌, if◌then◌else◌, Outcome, ok,
  err, panic, ◌>>=◌,
}
use go_tpm.Mu.Bytes.{Bytes}
use go_tpm.Names.Algorithm.{algorithm_null}
use go_tpm.Packet.Areas.{AuthCommand, AuthResponse}
use go_tpm.Auth.Contexts.{
  SessionParam, AuthError, wrong_number_of_auths, invalid_auth_response, cannot_compute_nonce,
  has_attr, session_hash_alg,
}
use go_tpm.Auth.Params.{SessionParams}
use go_tpm.Auth.Hmac.{build_command_auth, process_response_auth}
use go_tpm.Auth.Encrypt.{
  compute_encrypt_nonce, encrypt_command_parameter, decrypt_response_parameter,
}

abbrev pub handle_unassigned : ℕ
handle_unassigned = 0x40000008

abbrev pub attr_continue : ℕ
attr_continue = 1

-- (handleContext).dispose
abbrev pub dispose : SessionParam → SessionParam
dispose s = record s { session = record s.session { handle = handle_unassigned; data_of = none } }

-- InvalidateSessionContexts. An index out of range panics.
unfoldable pub invalidate_sessions :
    List AuthResponse → List SessionParam → Outcome AuthError (List SessionParam)
invalidate_sessions [] sessions = ok sessions
invalidate_sessions (resp ∷ responses) [] = panic
invalidate_sessions (resp ∷ responses) (s ∷ sessions) = do
  rest ← invalidate_sessions responses sessions
  ok ((if has_attr resp.session_attributes attr_continue then s else dispose s) ∷ rest)

-- ComputeCallerNonces, with the nonce that is there for each session and size.
unfoldable pub compute_caller_nonces :
    (ℕ → ℕ → Option Bytes) → ℕ → List SessionParam → Outcome AuthError (List SessionParam)
compute_caller_nonces random i [] = ok []
compute_caller_nonces random i (s ∷ sessions) = do
  s' ←
      (if session_hash_alg s.session == algorithm_null
        then ok s
        else elim (random i (session_hash_alg s.session)) [
          | none ↦ err cannot_compute_nonce
          | some nonce ↦ ok (record s { nonce_caller = nonce })
        ])
  rest ← compute_caller_nonces random (suc i) sessions
  ok (s' ∷ rest)

module _ (hash : ℕ → Bytes → Bytes) (hmac : ℕ → Bytes → Bytes → Bytes)
    (kdfa : ℕ → Bytes → Bytes → Bytes → Bytes → ℕ → Bytes)
    (cipher decipher : Bytes → Bytes → Bytes → Option Bytes) where
  abbrev pub auths_of : List SessionParam → ℕ → List Bytes → Bytes → List AuthCommand
  auths_of [] command names cp_bytes = []
  auths_of (s ∷ sessions) command names cp_bytes =
      build_command_auth hash hmac s command names cp_bytes
      ∷ auths_of sessions command names cp_bytes

  -- BuildCommandAuthArea: the area, and the parameters, of which the first may be encrypted.
  unfoldable pub build_command_auth_area :
      (ℕ → ℕ → Option Bytes)
      → SessionParams
      → ℕ
      → List Bytes
      → Bytes
      → Outcome AuthError (List AuthCommand × SessionParams × Bytes)
  build_command_auth_area random p command names cp_bytes = do
    sessions ← compute_caller_nonces random 0 p.sessions
    (p', cp_bytes') ←
        encrypt_command_parameter kdfa cipher
          (record p { command_code = command; sessions = sessions }) cp_bytes
    let p'' = compute_encrypt_nonce p'
    ok (auths_of p''.sessions command names cp_bytes', p'', cp_bytes')

  -- The loop over the responses, from the one with index i on. The sessions up to the first error
  -- have changed.
  unfoldable pub process_responses :
      ℕ
      → ℕ
      → Bytes
      → List SessionParam
      → List AuthResponse
      → Outcome AuthError (Unit {0}) × List SessionParam
  process_responses i command rp_bytes (s ∷ sessions) (resp ∷ responses) =
      let (r, s') = process_response_auth hash hmac s resp command rp_bytes in
      let (r', sessions') = process_responses (suc i) command rp_bytes sessions responses in
      elim r [
        | ok u ↦ (r', s' ∷ sessions')
        | err e ↦ (err (invalid_auth_response (i + 1) e), s' ∷ sessions)
        | panic ↦ (panic, s' ∷ sessions)
      ]
  process_responses i command rp_bytes sessions _ = (ok tt, sessions)

  -- What is returned, unless the deferred call panics.
  abbrev pub after_invalidation :
      {A : Type 0}
      → SessionParams
      → Outcome AuthError A
      → Outcome AuthError (List SessionParam)
      → Outcome AuthError A × SessionParams
  after_invalidation p r (ok sessions) = (r, record p { sessions = sessions })
  after_invalidation p r _ = (panic, p)

  -- ProcessResponseAuthArea: the parameters, of which the first may be decrypted. The contexts of
  -- sessions are invalidated at the end, whatever is returned.
  unfoldable pub process_response_auth_area :
      SessionParams → List AuthResponse → Bytes → Outcome AuthError Bytes × SessionParams
  process_response_auth_area p responses rp_bytes =
      let (r, sessions) = process_responses 0 p.command_code rp_bytes p.sessions responses in
      let p' : SessionParams = record p { sessions = sessions } in
      let result = (r >>= λ u. decrypt_response_parameter kdfa decipher p' rp_bytes) in
      if not (length responses == length p.sessions)
      then after_invalidation p (err (wrong_number_of_auths (length responses) (length p.sessions)))
          (invalidate_sessions responses p.sessions)
      else after_invalidation p' result (invalidate_sessions responses sessions)
