-- ===== src/Policy/Agreement.antt =====
-- The two computations of a policy digest, computePolicySession (policyutil/session.go) and
-- TrialAuthPolicy (util/policy.go), side by side.
use go_tpm.Base.{
  ℕ, suc, Bool, true, false, ◌&&◌, ◌||◌, ◌≡◌, refl, Option, none, some, List, [], ◌∷◌, arith,
  length, ◌==◌, Bool-cases, Option-cases, inl, inr,
}
use go_tpm.Mu.Bytes.{Bytes}
use go_tpm.Policy.Session.{Session, wrong_length, concat, policy_or}
use go_tpm.Policy.Assertions.{Assertion, or_digests, cp_hash, name_hash, assert_policy}
use go_tpm.Policy.Trial.{Trial, trial_or_bytes, trial_policy_or, trial_assert}

-- The older computation at the digest of a session.
abbrev pub trial_of : Session → Bool → Trial
trial_of s occupied = record { alg = s.alg; digest = s.digest; hash_occupied = occupied }

-- An assertion of which a policy has at most one.
abbrev pub occupies : Assertion → Bool
occupies (cp_hash d) = true
occupies (name_hash d) = true
occupies _ = false

module _ (hash : ℕ → Bytes → Bytes) (size : ℕ → ℕ) where
  or_bytes-concat :
      (n i : ℕ) (ds : List Bytes)
      → wrong_length hash size n i ds ≡ none
      → trial_or_bytes hash size n ds ≡ some (concat hash size ds)
  or_bytes-concat n i [] e = refl
  or_bytes-concat n i (d ∷ ds) e = elim (Bool-cases (length d == n)) [
    | inl same ↦
        let rest : wrong_length hash size n (suc i) ds ≡ none = ground arith in
        ground (arith, or_bytes-concat n (suc i) ds rest)
    | inr differs ↦ ground arith
  ]

  policy_or-agrees :
      (s s' : Session) (ds : List Bytes)
      → length s.digest ≡ size s.alg
      → policy_or hash size s ds ≡ (s', none)
      → (occupied : Bool)
      → trial_policy_or hash size (trial_of s occupied) ds ≡ some (trial_of s' occupied)
  unfolding policy_or
  policy_or-agrees s s' ds h e occupied =
      elim (Option-cases (wrong_length hash size (size s.alg) 0 ds)) [
        | inl none_wrong ↦ ground (arith, or_bytes-concat (size s.alg) 0 ds none_wrong)
        | inr (i, wrong) ↦ ground arith
      ]

  -- When a session whose digest has the size of its algorithm takes an assertion that is not a
  -- second cpHash or nameHash, so does the older computation, and its digest stays that of the
  -- session.
  pub trial_assert-assert_policy :
      (s s' : Session) (a : Assertion)
      → length s.digest ≡ size s.alg
      → assert_policy hash size s a ≡ (s', none)
      → (occupied : Bool) → (occupied && occupies a) ≡ false
      → trial_assert hash size (trial_of s occupied) a ≡ some (trial_of s' (occupied || occupies a))
  unfolding assert_policy trial_assert
  trial_assert-assert_policy s s' (or_digests ds) h e occupied o =
      ground (arith, policy_or-agrees s s' ds h e occupied)
  trial_assert-assert_policy s s' a h e occupied o = ground arith

  -- What is left of a policy clashes: it has a second cpHash or nameHash.
  abbrev pub clashes : Bool → List Assertion → Bool
  clashes occupied [] = false
  clashes occupied (a ∷ policy) =
      (occupied && occupies a) || clashes (occupied || occupies a) policy

  -- The session takes each assertion of a policy.
  abbrev pub Takes : Session → List Assertion → Session → Type 0
  Takes s [] t = s ≡ t
  Takes s (a ∷ policy) t =
      (s' : Session) × (assert_policy hash size s a ≡ (s', none)) × Takes s' policy t

  abbrev pub trial_assert_each : Trial → List Assertion → Option Trial
  trial_assert_each p [] = some p
  trial_assert_each p (a ∷ policy) = elim (trial_assert hash size p a) [
    | none ↦ none
    | some p' ↦ trial_assert_each p' policy
  ]

  -- A hash of the algorithm's size is what a digest function computes.
  module _ (length-hash : (alg : ℕ) (xs : Bytes) → length (hash alg xs) ≡ size alg) where
    assert_policy-alg :
        (s s' : Session) (a : Assertion)
        → assert_policy hash size s a ≡ (s', none)
        → (s'.alg ≡ s.alg) × (length s'.digest ≡ size s.alg)
    unfolding assert_policy policy_or
    assert_policy-alg s s' a e = grind (arith, length-hash)

    -- If the digest function gives digests of the algorithm's size, and the session starts with one:
    -- of a policy that the session takes, with at most one cpHash or nameHash, the older computation
    -- gives the digest that the session ends with.
    pub trial_assert_each-Takes :
        (policy : List Assertion) (s t : Session) (occupied : Bool)
        → length s.digest ≡ size s.alg
        → Takes s policy t
        → clashes occupied policy ≡ false
        → (occupied' : Bool) × (trial_assert_each (trial_of s occupied) policy
            ≡ some (trial_of t occupied'))
    trial_assert_each-Takes [] s t occupied h e o = (occupied, rw e refl)
    trial_assert_each-Takes (a ∷ policy) s t occupied h e o =
        let (s', taken, rest) = e in
        let first : (occupied && occupies a) ≡ false = ground arith in
        let later : clashes (occupied || occupies a) policy ≡ false = ground arith in
        let sized = assert_policy-alg s s' a taken in
        let (occupied', agrees) =
          trial_assert_each-Takes policy s' t (occupied || occupies a) (rw (sized.0) sized.1) rest
            later in
        (
          occupied',
          rw (trial_assert_each, trial_assert-assert_policy s s' a h taken occupied first) agrees,
        )
