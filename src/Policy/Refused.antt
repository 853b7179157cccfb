-- ===== src/Policy/Refused.antt =====
-- What computePolicySession (policyutil/session.go) keeps of a session when it refuses an assertion.
use go_tpm.Base.{ℕ, ◌≡◌, ◌⊎◌, inl, inr, refl, some, List, arith, Option-cases}
use go_tpm.Mu.Bytes.{Bytes}
use go_tpm.Policy.Session.{Session, PolicyError, reset, wrong_length, policy_or}
use go_tpm.Policy.Assertions.{Assertion, or_digests, assert_policy}

module _ (hash : ℕ → Bytes → Bytes) (size : ℕ → ℕ) where
  policy_or-refused :
      (s s' : Session) (ds : List Bytes) (e : PolicyError)
      → policy_or hash size s ds ≡ (s', some e)
      → (s' ≡ s) ⊎ (s' ≡ reset hash size s)
  unfolding policy_or
  policy_or-refused s s' ds e h = elim (Option-cases (wrong_length hash size (size s.alg) 0 ds)) [
    | inl right ↦ ground arith
    | inr (i, wrong) ↦ ground arith
  ]

  -- An assertion that is refused leaves the session as it is, but for PolicyOR, which may also leave
  -- it with its digest reset.
  pub assert_policy-refused :
      (s s' : Session) (a : Assertion) (e : PolicyError)
      → assert_policy hash size s a ≡ (s', some e)
      → (s' ≡ s) ⊎ ((ds : List Bytes) × (a ≡ or_digests ds) × (s' ≡ reset hash size s))
  unfolding assert_policy
  assert_policy-refused s s' (or_digests ds) e h = elim (policy_or-refused s s' ds e h) [
    | inl same ↦ inl same
    | inr cleared ↦ inr (ds, refl, cleared)
  ]
  assert_policy-refused s s' a e h = inl (ground arith)
