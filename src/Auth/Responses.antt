-- ===== src/Auth/Responses.antt =====
-- Which responses sessionParams accepts.
use go_tpm.Base.{
  ℕ, ◌<◌, ◌^◌, ◌≡◌, ◌⊎◌, ◌↔◌, inl, inr, refl, sym, ap, ◌∙◌, arith, true, false, not, ◌&&◌, ◌||◌,
  Bool-cases, Option, some, List, [], ◌∷◌, ◌++◌, length, ltb, ◌==◌, if◌then◌else◌, Outcome, ok, err,
  panic,
}
use go_tpm.Mu.Api.{bytes_equal, bytes_equal-≡, bytes_equal_refl}
use go_tpm.Base.Digits.{bit, bit-test}
use go_tpm.Mu.Bytes.{Bytes, big_endian}
use go_tpm.Packet.Areas.{AuthResponse}
use go_tpm.Auth.Contexts.{
  SessionData, SessionParam, AuthError, incorrect_hmac, trim_auth_value, has_attr,
}
use go_tpm.Auth.Params.{SessionParams}
use go_tpm.Auth.Hmac.{
  auth_value_of, answered_state, answered, compute_session_hmac_key, compute_response_hmac,
  check_response_auth, process_response_auth,
}
use go_tpm.Auth.Area.{invalidate_sessions, process_response_auth_area}

abbrev verdict : Bytes → Bytes → Bytes → Outcome AuthError (Unit {0})
verdict key expected given =
    if (ltb 0 (length key) || ltb 0 (length given)) && not (bytes_equal expected given)
    then err incorrect_hmac
    else ok tt

compared :
    (key expected given : Bytes)
    → (ltb 0 (length key) || ltb 0 (length given)) ≡ true
    → (verdict key expected given ≡ ok tt) ↔ ((given ≡ expected) ⊎ ((key ≡ []) × (given ≡ [])))
compared key expected given needed = elim (Bool-cases (bytes_equal expected given)) [
  | inl same ↦ (λ e. inl (sym (bytes_equal-≡ expected given same)), λ h. rw (needed, same) refl)
  | inr other ↦ (
    λ e.
        let failed : ◌≡◌ {A = Outcome AuthError (Unit {0})} (err incorrect_hmac) (ok tt) =
          rw (needed, other) at e in
        cc,
    λ h. elim h [
      | inl e ↦
          let same : bytes_equal expected given ≡ true =
            ap (bytes_equal expected) e ∙ bytes_equal_refl expected in
          cc
      | inr (no_key, none_given) ↦
          let not_needed : (ltb 0 (length key) || ltb 0 (length given)) ≡ false =
            rw (no_key, none_given) refl in
          cc
    ],
  )
]

verdict_iff :
    (key expected given : Bytes)
    → (verdict key expected given ≡ ok tt) ↔ ((given ≡ expected) ⊎ ((key ≡ []) × (given ≡ [])))
verdict_iff [] expected [] = (λ e. inr (refl, refl), λ h. refl)
verdict_iff [] expected (y ∷ ys) = compared [] expected (y ∷ ys) (ground arith)
verdict_iff (x ∷ xs) expected given = compared (x ∷ xs) expected given (ground arith)

has_attr-bit : (c a : ℕ) → has_attr a (2 ^ c) ≡ bit c a
has_attr-bit c a = ground (arith, bit-test c a)

-- The key of a session's HMACs: the session key, and the resource's authorization value without its
-- last zeros where it is to be included.
abbrev pub hmac_key : SessionParam → SessionData → Bytes
hmac_key s d =
    d.session_key
    ++ (if s.include_auth_value then trim_auth_value (auth_value_of s.resource) else [])

-- What a session is after a response: it has the response's nonce and flags, and is else as before.
abbrev pub HasAnswer : AuthResponse → SessionParam → SessionData → SessionParam → Type 0
HasAnswer resp s d s' =
    (d' : SessionData) × (s'.session.data_of ≡ some d')
    × (d'.state.nonce_tpm ≡ resp.nonce)
    × (d'.state.is_audit ≡ bit 7 resp.session_attributes)
    × (d'.state.is_exclusive ≡ bit 1 resp.session_attributes)
    × (d'.state.needs_password ≡ false)
    × (d'.state.needs_auth_value ≡ false)
    × (record d' { state = d.state } ≡ d)
    × (record s' { session = s.session } ≡ s)
    × (record s'.session { data_of = s.session.data_of } ≡ s.session)

module _ (hash : ℕ → Bytes → Bytes) (hmac : ℕ → Bytes → Bytes → Bytes) where
  -- The HMAC that Part 1 of the TPM library defines for a response: over the digest of the response
  -- code, the command code and the parameters, then the TPM's new nonce, the caller's nonce and the
  -- attributes.
  abbrev pub response_hmac : SessionParam → SessionData → AuthResponse → ℕ → Bytes → Bytes
  response_hmac s d resp command rp_bytes = hmac d.hash_alg (hmac_key s d) (
      hash d.hash_alg (big_endian 4 0 ++ (big_endian 4 command ++ rp_bytes))
      ++ (resp.nonce ++ (s.nonce_caller ++ resp.session_attributes ∷ [])))

  -- Whether the HMAC of a response is the one that the session's key gives for it.
  abbrev pub IsAuthentic : SessionParam → SessionData → AuthResponse → ℕ → Bytes → Type 0
  IsAuthentic s d resp command rp_bytes =
      (resp.hmac ≡ response_hmac s d resp command rp_bytes)
      ⊎ ((hmac_key s d ≡ []) × (resp.hmac ≡ []))

  -- A response to a session that is not for a password is accepted if and only if its HMAC is the one
  -- of the session's key over the digest of the response's parameters, the response's nonce, the
  -- caller's nonce and the response's attributes, or is missing where the key is empty. In any case
  -- the session then has the response's nonce and flags, and is else as before.
  pub process_response_auth-IsAuthentic :
      (s : SessionParam) (d : SessionData) (resp : AuthResponse) (command : ℕ) (rp_bytes : Bytes)
      → s.session.data_of ≡ some d
      → s.is_password ≡ false
      → (((process_response_auth hash hmac s resp command rp_bytes).0 ≡ ok tt)
          ↔ IsAuthentic s d resp command rp_bytes)
        × HasAnswer resp s d (process_response_auth hash hmac s resp command rp_bytes).1
  unfolding process_response_auth check_response_auth compute_session_hmac_key compute_response_hmac
  process_response_auth-IsAuthentic s d resp command rp_bytes e no_password =
      let after : SessionParam = answered resp s d in
      let same : process_response_auth hash hmac s resp command rp_bytes
          ≡ (check_response_auth hash hmac after resp command rp_bytes, after) =
        rw (process_response_auth, e) refl in
      let checked : check_response_auth hash hmac after resp command rp_bytes
          ≡ verdict (hmac_key s d) (response_hmac s d resp command rp_bytes) resp.hmac =
        rw (check_response_auth, no_password) refl in
      rw (same, checked)
        (
          verdict_iff (hmac_key s d) (response_hmac s d resp command rp_bytes) resp.hmac,
          (
            record d { state = answered_state resp d.state },
            refl,
            refl,
            has_attr-bit 7 resp.session_attributes,
            has_attr-bit 1 resp.session_attributes,
            refl,
            refl,
            refl,
            refl,
            refl,
          ),
        )

module _ (hash : ℕ → Bytes → Bytes) (hmac : ℕ → Bytes → Bytes → Bytes)
    (kdfa : ℕ → Bytes → Bytes → Bytes → Bytes → ℕ → Bytes)
    (cipher decipher : Bytes → Bytes → Bytes → Option Bytes) where
  invalidate-panic :
      (responses : List AuthResponse) (sessions : List SessionParam)
      → length sessions < length responses
      → invalidate_sessions responses sessions ≡ panic
  unfolding invalidate_sessions
  invalidate-panic [] sessions h = absurd (omega arith)
  invalidate-panic (resp ∷ responses) [] h = refl
  invalidate-panic (resp ∷ responses) (s ∷ sessions) h =
      rw (invalidate-panic responses sessions (omega arith)) refl

  -- A response with more authorizations than the command had sessions makes the code panic, where it
  -- is about to return an error.
  pub process_response_auth_area-panic :
      (p : SessionParams) (responses : List AuthResponse) (rp_bytes : Bytes)
      → length p.sessions < length responses
      → (process_response_auth_area hash hmac kdfa cipher decipher p responses rp_bytes).0 ≡ panic
  unfolding process_response_auth_area
  process_response_auth_area-panic p responses rp_bytes h =
      let other : (length responses == length p.sessions) ≡ false = ground arith in
      rw (other, invalidate-panic responses p.sessions h) refl
