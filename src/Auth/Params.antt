-- ===== src/Auth/Params.antt =====
-- sessionParams of auth.go: the sessions of a command.
use go_tpm.Base.{
  ℕ, suc, ◌&&◌, Option, none, some, List, [], ◌∷◌, ◌++◌, length, leb, if◌then◌else◌, Outcome, ok,
  err, panic, ◌>>=◌,
}
use go_tpm.Auth.Contexts.{
  AuthSession, Resource, SessionParam, AuthError, too_many_sessions, cannot_handle_session,
  has_attr, session_attrs, is_none, attr_command_encrypt, attr_response_encrypt,
  new_extra_session_param, new_session_param_for_auth,
}

-- An index is none where the code has -1.
pub record SessionParams : Type 0 where
  pub command_code : ℕ
  pub sessions : List SessionParam
  pub encrypt_index : Option ℕ
  pub decrypt_index : Option ℕ

abbrev pub new_session_params : SessionParams
new_session_params = record {
  command_code = 0;
  sessions = [];
  encrypt_index = none;
  decrypt_index = none;
}

-- An index, or that of the next session if there is none and the session has the attribute.
abbrev pub index_with : Option ℕ → ℕ → ℕ → ℕ → Option ℕ
index_with index attrs attr next = if is_none index && has_attr attrs attr then some next else index

-- (sessionParams).append
unfoldable pub append_session : SessionParams → SessionParam → Outcome AuthError SessionParams
append_session p s =
    if leb 3 (length p.sessions)
    then err too_many_sessions
    else ok (record p {
      sessions = p.sessions ++ s ∷ [];
      encrypt_index =
          index_with p.encrypt_index (session_attrs s.session) attr_response_encrypt
            (length p.sessions);
      decrypt_index =
          index_with p.decrypt_index (session_attrs s.session) attr_command_encrypt
            (length p.sessions);
    })

-- AppendSessionForResource
unfoldable pub append_session_for_resource :
    SessionParams → AuthSession → Resource → Outcome AuthError SessionParams
append_session_for_resource p session resource = do
  s ← new_session_param_for_auth session resource
  append_session p s

abbrev pub extra_param : ℕ → AuthSession → Outcome AuthError SessionParam
extra_param i session = elim (new_extra_session_param session) [
  | ok s ↦ ok s
  | err e ↦ err (cannot_handle_session i e)
  | panic ↦ panic
]

-- AppendExtraSessions, from the session with index i on.
unfoldable pub append_extra_sessions :
    ℕ → SessionParams → List (Option AuthSession) → Outcome AuthError SessionParams
append_extra_sessions i p [] = ok p
append_extra_sessions i p (none ∷ sessions) = append_extra_sessions (suc i) p sessions
append_extra_sessions i p (some session ∷ sessions) = do
  s ← extra_param i session
  p' ← append_session p s
  append_extra_sessions (suc i) p' sessions

-- The sessions for the handles of a command that need authorization.
unfoldable pub append_auths :
    SessionParams → List (AuthSession × Resource) → Outcome AuthError SessionParams
append_auths p [] = ok p
append_auths p ((session, resource) ∷ auths) = do
  p' ← append_session_for_resource p session resource
  append_auths p' auths
