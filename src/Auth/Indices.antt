-- ===== src/Auth/Indices.antt =====
-- The sessions that sessionParams takes, and those that it encrypts with.
use go_tpm.Base.{
  ℕ, suc, ◌≤◌, ◌≡◌, refl, sym, ap, ◌∙◌, arith, Bool-cases, inl, inr, Option, none, some, List, [],
  ◌∷◌, ◌++◌, length, length-append, leb, if◌then◌else◌, Outcome, ok, err, >>=-eq-ok, ok-injective,
}
use mathlib.Core.Path.{subst}
use go_tpm.Auth.Contexts.{
  AuthSession, Resource, SessionParam, AuthError, too_many_sessions, has_attr, session_attrs,
  attr_command_encrypt, attr_response_encrypt, new_session_param_for_auth,
}
use go_tpm.Auth.Params.{
  SessionParams, new_session_params, index_with, append_session, append_session_for_resource,
  append_auths, extra_param, append_extra_sessions,
}

abbrev pub next : Option ℕ → Option ℕ
next none = none
next (some i) = some (suc i)

-- The index of the first session with an attribute.
abbrev pub first_with : ℕ → List SessionParam → Option ℕ
first_with attr [] = none
first_with attr (s ∷ sessions) =
    if has_attr (session_attrs s.session) attr then some 0 else next (first_with attr sessions)

-- At most three sessions, of which the first one with each attribute is the one that is used for it.
abbrev pub IsParams : SessionParams → Type 0
IsParams p =
    (length p.sessions ≤ 3)
    × (p.encrypt_index ≡ first_with attr_response_encrypt p.sessions)
    × (p.decrypt_index ≡ first_with attr_command_encrypt p.sessions)

next-index_with :
    (index : Option ℕ) (attrs attr n : ℕ)
    → next (index_with index attrs attr n) ≡ index_with (next index) attrs attr (suc n)
next-index_with none attrs attr n = elim (Bool-cases (has_attr attrs attr)) [
  | inl there ↦ rw there refl
  | inr missing ↦ rw missing refl
]
next-index_with (some i) attrs attr n = refl

first_with-append :
    (attr : ℕ) (sessions : List SessionParam) (s : SessionParam)
    → first_with attr (sessions ++ s ∷ [])
      ≡ index_with (first_with attr sessions) (session_attrs s.session) attr (length sessions)
first_with-append attr [] s = elim (Bool-cases (has_attr (session_attrs s.session) attr)) [
  | inl there ↦ rw there refl
  | inr missing ↦ rw missing refl
]
first_with-append attr (s' ∷ sessions) s =
    elim (Bool-cases (has_attr (session_attrs s'.session) attr)) [
      | inl there ↦ rw there refl
      | inr missing ↦ rw missing (
          ap next (first_with-append attr sessions s)
          ∙ next-index_with (first_with attr sessions) (session_attrs s.session) attr
              (length sessions))
    ]

append_session-IsParams :
    (p p' : SessionParams) (s : SessionParam)
    → IsParams p
    → append_session p s ≡ ok p'
    → IsParams p'
unfolding append_session
append_session-IsParams p p' s (few, e, d) h = elim (Bool-cases (leb 3 (length p.sessions))) [
  | inl full ↦
      let e' : ◌≡◌ {A = Outcome AuthError SessionParams} (err too_many_sessions) (ok p') =
        rw full at h in
      cc
  | inr room ↦
      let next_params : SessionParams = record p {
        sessions = p.sessions ++ s ∷ [];
        encrypt_index =
            index_with p.encrypt_index (session_attrs s.session) attr_response_encrypt
              (length p.sessions);
        decrypt_index =
            index_with p.decrypt_index (session_attrs s.session) attr_command_encrypt
              (length p.sessions);
      } in
      let e' : ◌≡◌ {A = Outcome AuthError SessionParams} (ok next_params) (ok p') = rw room at h in
      let at_most : length (p.sessions ++ s ∷ []) ≤ 3 =
        ground (arith, length-append p.sessions (s ∷ [])) in
      subst IsParams (ok-injective e') (
        at_most,
        ap (λ i. index_with i (session_attrs s.session) attr_response_encrypt (length p.sessions)) e
            ∙ sym (first_with-append attr_response_encrypt p.sessions s),
        ap (λ i. index_with i (session_attrs s.session) attr_command_encrypt (length p.sessions)) d
            ∙ sym (first_with-append attr_command_encrypt p.sessions s),
      )
]

append_session_for_resource-IsParams :
    (p p' : SessionParams) (session : AuthSession) (resource : Resource)
    → IsParams p
    → append_session_for_resource p session resource ≡ ok p'
    → IsParams p'
unfolding append_session_for_resource
append_session_for_resource-IsParams p p' session resource v h =
    let (s, e, e') = >>=-eq-ok (new_session_param_for_auth session resource) _ h in
    append_session-IsParams p p' s v e'

append_extra_sessions-IsParams :
    (i : ℕ) (p p' : SessionParams) (sessions : List (Option AuthSession))
    → IsParams p
    → append_extra_sessions i p sessions ≡ ok p'
    → IsParams p'
unfolding append_extra_sessions
append_extra_sessions-IsParams i p p' [] v h = subst IsParams (ok-injective h) v
append_extra_sessions-IsParams i p p' (none ∷ sessions) v h =
    append_extra_sessions-IsParams (suc i) p p' sessions v h
append_extra_sessions-IsParams i p p' (some session ∷ sessions) v h =
    let (s, e, h') = >>=-eq-ok (extra_param i session) _ h in
    let (q, e', h'') = >>=-eq-ok (append_session p s) _ h' in
    append_extra_sessions-IsParams (suc i) q p' sessions (append_session-IsParams p q s v e') h''

append_auths-IsParams :
    (p p' : SessionParams) (auths : List (AuthSession × Resource))
    → IsParams p
    → append_auths p auths ≡ ok p'
    → IsParams p'
unfolding append_auths
append_auths-IsParams p p' [] v h = subst IsParams (ok-injective h) v
append_auths-IsParams p p' ((session, resource) ∷ auths) v h =
    let (q, e, h') = >>=-eq-ok (append_session_for_resource p session resource) _ h in
    append_auths-IsParams q p' auths (append_session_for_resource-IsParams p q session resource v e)
      h'

-- Whatever sessions are given for the handles and in addition, if they are taken, there are at most
-- three, and the session for the encryption of a parameter is the first one with the attribute for it.
pub append_extra_sessions-append_auths :
    (auths : List (AuthSession × Resource)) (extra : List (Option AuthSession))
    (p p' : SessionParams)
    → append_auths new_session_params auths ≡ ok p
    → append_extra_sessions 0 p extra ≡ ok p'
    → IsParams p'
append_extra_sessions-append_auths auths extra p p' h h' =
    append_extra_sessions-IsParams 0 p p' extra
      (append_auths-IsParams new_session_params p auths (omega arith, refl, refl) h) h'
