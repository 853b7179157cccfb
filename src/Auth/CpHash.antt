-- ===== src/Auth/CpHash.antt =====
-- ComputeCpHash of policyutil/cphash.go beside cryptComputeCpHash of crypto.go.
use go_tpm.Base.{ℕ, suc, ◌≡◌, refl, Bool, true, List, [], ◌∷◌, All, ok}
use go_tpm.Mu.Bytes.{Bytes}
use go_tpm.Names.Name.{is_valid_name}
use go_tpm.Names.Qualified.{valid_names, compute_policy_cp_hash}
use go_tpm.Auth.Hmac.{all_names, compute_cp_hash}

abbrev pub AreValid : List Bytes → Type 0
AreValid names = All (λ n. is_valid_name n ≡ true) names

valid_names_ok :
    (i : ℕ) (names : List Bytes) → AreValid names → valid_names i names ≡ ok (all_names names)
unfolding valid_names
valid_names_ok i [] h = refl
valid_names_ok i (n ∷ names) (valid, h) = rw (valid, valid_names_ok (suc i) names h) refl

-- For names that are all valid, and an algorithm that is linked in, the digest that ComputeCpHash
-- computes for a policy is the one that the authorization of the command with these names and
-- parameters is computed from.
pub compute_policy_cp_hash-compute_cp_hash :
    (available : ℕ → Bool) (hash : ℕ → Bytes → Bytes) (hmac : ℕ → Bytes → Bytes → Bytes)
    (alg command : ℕ) (names : List Bytes) (cp_bytes : Bytes)
    → available alg ≡ true
    → AreValid names
    → compute_policy_cp_hash available hash alg command names cp_bytes
      ≡ ok (compute_cp_hash hash hmac alg command names cp_bytes)
unfolding compute_policy_cp_hash
compute_policy_cp_hash-compute_cp_hash available hash hmac alg command names cp_bytes linked h =
    rw (valid_names_ok 0 names h, linked) refl
