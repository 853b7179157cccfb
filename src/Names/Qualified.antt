-- ===== src/Names/Qualified.antt =====
-- Qualified names of objectutil/qn.go, and the digests of names of policyutil/cphash.go and
-- policyutil/namehash.go.
use go_tpm.Base.{
  ℕ, suc, Bool, true, false, not, ◌&&◌, ◌||◌, List, [], ◌∷◌, ◌++◌, ◌==◌, if◌then◌else◌, Outcome, ok,
  err, panic, ◌>>=◌,
}
use go_tpm.Mu.Bytes.{Bytes, big_endian}
use go_tpm.Names.Algorithm.{algorithm_null}
use go_tpm.Names.Name.{NameType, name_type, is_valid_name, name_algorithm}

pub data NameError : Type 0 where
  invalid_name name_algorithm_not_available invalid_parent algorithm_mismatch : NameError
  invalid_hierarchy algorithm_not_available : NameError
  at_ancestor at_handle : ℕ → NameError → NameError

abbrev pub is_empty_type : NameType → Bool
is_empty_type NameType.empty = true
is_empty_type _ = false

abbrev pub is_digest_type : NameType → Bool
is_digest_type NameType.digest = true
is_digest_type _ = false

abbrev pub at_index : {A : Type 0} → ℕ → Outcome NameError A → Outcome NameError A
at_index i (ok a) = ok a
at_index i (err e) = err (at_ancestor i e)
at_index i panic = panic

-- The names of handles, one after the other, if all are valid.
unfoldable pub valid_names : ℕ → List Bytes → Outcome NameError Bytes
valid_names i [] = ok []
valid_names i (n ∷ names) =
    let rest = (do xs ← valid_names (suc i) names; ok (n ++ xs)) in
    if is_valid_name n then rest else err (at_handle i invalid_name)

-- Whether a digest algorithm is linked in, and the digest of bytes.
module _ (available : ℕ → Bool) (hash : ℕ → Bytes → Bytes) where
  -- computeOneQualifiedName
  unfoldable pub compute_one_qualified_name : Bytes → Bytes → Outcome NameError Bytes
  compute_one_qualified_name name parent =
      let alg = name_algorithm name in
      if is_empty_type (name_type name)
      then ok []
      else if not (is_digest_type (name_type name))
      then err invalid_name
      else if not (available alg)
      then err name_algorithm_not_available
      else if not (is_valid_name parent) || is_empty_type (name_type parent)
      then err invalid_parent
      else if not (name_algorithm parent == algorithm_null) && not (name_algorithm parent == alg)
      then err algorithm_mismatch
      else ok (big_endian 2 alg ++ hash alg (parent ++ name))

  -- ComputeQualifiedName, from the ancestor with index i on.
  unfoldable pub compute_qualified_name_from :
      ℕ → Bytes → Bytes → List Bytes → Outcome NameError Bytes
  compute_qualified_name_from i name root [] = compute_one_qualified_name name root
  compute_qualified_name_from i name root (a ∷ ancestors) = do
    qn ← at_index i (compute_one_qualified_name a root)
    compute_qualified_name_from (suc i) name qn ancestors

  unfoldable pub compute_qualified_name : Bytes → Bytes → List Bytes → Outcome NameError Bytes
  unfolding compute_qualified_name_from
  compute_qualified_name = compute_qualified_name_from 0

  -- ComputeQualifiedNameInHierarchy: of the owner, null, endorsement or platform hierarchy.
  unfoldable pub compute_qualified_name_in_hierarchy :
      Bytes → ℕ → List Bytes → Outcome NameError Bytes
  unfolding compute_qualified_name
  compute_qualified_name_in_hierarchy name hierarchy ancestors =
      if (hierarchy == 0x40000001)
        || ((hierarchy == 0x40000007) || ((hierarchy == 0x4000000b) || (hierarchy == 0x4000000c)))
      then compute_qualified_name name (big_endian 4 hierarchy) ancestors
      else err invalid_hierarchy

  -- ComputeNameHash
  unfoldable pub compute_name_hash : ℕ → List Bytes → Outcome NameError Bytes
  compute_name_hash alg names = do
    xs ← valid_names 0 names
    if available alg then ok (hash alg xs) else err algorithm_not_available

  -- ComputeCpHash, of the parameters in the wire format.
  unfoldable pub compute_policy_cp_hash : ℕ → ℕ → List Bytes → Bytes → Outcome NameError Bytes
  compute_policy_cp_hash alg command names cp_bytes = do
    xs ← valid_names 0 names
    if available alg
        then ok (hash alg (big_endian 4 command ++ (xs ++ cp_bytes)))
        else err algorithm_not_available
