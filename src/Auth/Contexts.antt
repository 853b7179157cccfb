-- ===== src/Auth/Contexts.antt =====
-- Sessions and resources as auth.go uses them, and sessionParam with its constructors.
use go_tpm.Base.{
  ℕ, ◌-◌, Bool, true, false, not, ◌&&◌, ◌||◌, Option, none, some, [], ◌∷◌, ◌++◌, length, take, drop,
  bit_and, bit_or, bit_xor, ltb, ◌==◌, if◌then◌else◌, Outcome, ok, err,
}
use go_tpm.Mu.Bytes.{Bytes}
use go_tpm.Mu.Api.{bytes_equal}
use go_tpm.Names.Algorithm.{
  handle_type, handle_type_hmac_session, handle_type_policy_session, algorithm_null,
}

-- The symmetric algorithm of a session: SymDef.
pub data Symmetric : Type 0 where
  aes : ℕ → ℕ → Symmetric
  xor : Symmetric
  other_symmetric : ℕ → Symmetric

-- SessionContextState
pub record SessionState : Type 0 where
  pub nonce_tpm : Bytes
  pub is_audit : Bool
  pub is_exclusive : Bool
  pub needs_password : Bool
  pub needs_auth_value : Bool

-- sessionContextData: the parameters of a session, and its state.
pub record SessionData : Type 0 where
  pub hash_alg : ℕ
  pub is_bound : Bool
  pub bound_entity : Bytes
  pub symmetric : Symmetric
  pub session_key : Bytes
  pub state : SessionState

-- sessionContext. There is no data if the session is flushed or the context is limited.
pub record AuthSession : Type 0 where
  pub handle : ℕ
  pub attrs : ℕ
  pub data_of : Option SessionData

-- What is used of a ResourceContext.
pub record Resource : Type 0 where
  pub name : Bytes
  pub auth_value : Bytes

abbrev pub handle_pw : ℕ
handle_pw = 0x40000009

abbrev pub attr_audit_exclusive : ℕ
attr_audit_exclusive = 2

abbrev pub attr_audit_reset : ℕ
attr_audit_reset = 4

abbrev pub attr_command_encrypt : ℕ
attr_command_encrypt = 32

abbrev pub attr_response_encrypt : ℕ
attr_response_encrypt = 64

abbrev pub attr_audit : ℕ
attr_audit = 128

-- `attrs&a > 0`
abbrev pub has_attr : ℕ → ℕ → Bool
has_attr attrs a = ltb 0 (bit_and attrs a)

-- (sessionContext).Attrs
abbrev pub session_attrs : AuthSession → ℕ
session_attrs s =
    let once =
      if has_attr s.attrs attr_audit_exclusive then bit_or s.attrs attr_audit else s.attrs in
    if has_attr once attr_audit_reset then bit_or once attr_audit else once

-- Params().HashAlg
abbrev pub session_hash_alg : AuthSession → ℕ
session_hash_alg s = elim s.data_of [ none ↦ algorithm_null | some d ↦ d.hash_alg ]

abbrev pub is_none : {A : Type 0} → Option A → Bool
is_none none = true
is_none (some a) = false

-- A flushed session or a limited context.
abbrev pub is_limited : AuthSession → Bool
is_limited s = (session_hash_alg s == algorithm_null) || is_none s.data_of

-- `bytes.TrimRight(value, "\x00")`
unfoldable pub trim_auth_value : Bytes → Bytes
trim_auth_value [] = []
trim_auth_value (x ∷ xs) =
    let rest = trim_auth_value xs in
    elim rest [ [] ↦ (if x == 0 then [] else x ∷ []) | y ∷ ys ↦ x ∷ (y ∷ ys) ]

-- The bytes of a list with those of another.
unfoldable pub xor_bytes : Bytes → Bytes → Bytes
xor_bytes [] ys = []
xor_bytes (x ∷ xs) [] = x ∷ xs
xor_bytes (x ∷ xs) (y ∷ ys) = bit_xor x y ∷ xor_bytes xs ys

-- computeBindName
unfoldable pub compute_bind_name : Bytes → Bytes → Bytes
compute_bind_name name auth =
    let auth' = if ltb (length name) (length auth) then take (length name) auth else auth in
    let start = length name - length auth' in take start name ++ xor_bytes (drop start name) auth'

-- sessionParam
pub record SessionParam : Type 0 where
  pub session : AuthSession
  pub resource : Option Resource
  pub is_password : Bool
  pub include_auth_value : Bool
  pub nonce_caller : Bytes
  pub decrypt_nonce : Bytes
  pub encrypt_nonce : Bytes

pub data AuthError : Type 0 where
  limited_context invalid_session_type invalid_session_state too_many_sessions : AuthError
  cannot_handle_session : ℕ → AuthError → AuthError
  unexpected_hmac incorrect_hmac : AuthError
  invalid_auth_response : ℕ → AuthError → AuthError
  wrong_number_of_auths : ℕ → ℕ → AuthError
  unsupported_mode cipher_failed unknown_symmetric : AuthError
  cannot_compute_nonce : AuthError

abbrev pub new_param : AuthSession → Option Resource → Bool → Bool → SessionParam
new_param session resource is_password include_auth_value = record {
  session = session;
  resource = resource;
  is_password = is_password;
  include_auth_value = include_auth_value;
  nonce_caller = [];
  decrypt_nonce = [];
  encrypt_nonce = [];
}

-- newExtraSessionParam
unfoldable pub new_extra_session_param : AuthSession → Outcome AuthError SessionParam
new_extra_session_param session =
    if is_limited session
    then err limited_context
    else if not (handle_type session.handle == handle_type_hmac_session)
    then err invalid_session_type
    else ok (new_param session none false false)

-- What newSessionParamForAuth takes from a session that is not for a password.
abbrev pub param_for_data : AuthSession → Resource → SessionData → Outcome AuthError SessionParam
param_for_data session resource d =
    let bound = not (
      bytes_equal (compute_bind_name resource.name (trim_auth_value resource.auth_value))
        d.bound_entity) in
    if handle_type session.handle == handle_type_policy_session
    then (if d.state.needs_password && d.state.needs_auth_value
        then err invalid_session_state
        else ok (new_param session (some resource) d.state.needs_password d.state.needs_auth_value))
    else if d.is_bound
    then ok (new_param session (some resource) false bound)
    else ok (new_param session (some resource) false true)

abbrev pub param_for : AuthSession → Resource → Option SessionData → Outcome AuthError SessionParam
param_for session resource none = err limited_context
param_for session resource (some d) = param_for_data session resource d

-- newSessionParamForAuth
unfoldable pub new_session_param_for_auth : AuthSession → Resource → Outcome AuthError SessionParam
new_session_param_for_auth session resource =
    if not (session.handle == handle_pw) && is_limited session
    then err limited_context
    else if session.handle == handle_pw
    then ok (new_param session (some resource) true false)
    else param_for session resource session.data_of
