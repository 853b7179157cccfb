-- ===== src/Names/Succeeds.antt =====
-- When ComputeQualifiedName of objectutil/qn.go gives a qualified name.
use go_tpm.Base.{
  ℕ, suc, not, ◌&&◌, ◌==◌, ◌≡◌, ◌≢◌, inr, refl, ◌∙◌, arith, Bool, true, false, List, [], ◌∷◌, ◌++◌,
  ok,
}
use go_tpm.Mu.Bytes.{Bytes, big_endian}
use go_tpm.Names.Algorithm.{algorithm_null}
use go_tpm.Names.Name.{NameType, name_type, is_valid_name, name_algorithm}
use go_tpm.Names.Qualified.{
  is_empty_type, compute_one_qualified_name, compute_qualified_name_from, compute_qualified_name,
}
use go_tpm.Names.Chains.{IsDigestName, HasSizes, InChain, IsParent, digest_name}

some_type : (t : NameType) → t ≢ NameType.empty → is_empty_type t ≡ false
some_type NameType.empty h = elim (h refl) [ ]
some_type NameType.invalid h = refl
some_type NameType.handle h = refl
some_type NameType.digest h = refl

valid_digest : (n : Bytes) → IsDigestName n → is_valid_name n ≡ true
unfolding is_valid_name
valid_digest n h = rw (is_valid_name, h) refl

module _ (available : ℕ → Bool) (hash : ℕ → Bytes → Bytes) where
  -- A step succeeds below a valid parent.
  step_succeeds :
      (name parent : Bytes)
      → IsDigestName name
      → available (name_algorithm name) ≡ true
      → is_valid_name parent ≡ true
      → IsParent available hash (name_algorithm name) parent
      → compute_one_qualified_name available hash name parent
        ≡ ok (big_endian 2 (name_algorithm name) ++ hash (name_algorithm name) (parent ++ name))
  unfolding compute_one_qualified_name
  step_succeeds name parent h linked valid (not_empty, algs) =
      let present : is_empty_type (name_type parent) ≡ false =
        some_type (name_type parent) not_empty in
      let same_test : not (name_algorithm parent == algorithm_null)
            && not (name_algorithm parent == name_algorithm name)
          ≡ false =
        ground arith in
      rw (h, linked, valid, present, same_test) refl

  qualified :
      (i : ℕ) (name root : Bytes) (ancestors : List Bytes)
      → HasSizes available hash
      → IsDigestName name
      → available (name_algorithm name) ≡ true
      → InChain available hash (name_algorithm name) ancestors
      → is_valid_name root ≡ true
      → IsParent available hash (name_algorithm name) root
      → (qn : Bytes) × (compute_qualified_name_from available hash i name root ancestors ≡ ok qn)
  unfolding compute_qualified_name_from
  qualified i name root [] sizes h linked in_chain valid is_parent =
      (_, step_succeeds name root h linked valid is_parent)
  qualified i name root (a ∷ ancestors) sizes h linked ((is_digest, same), in_chain) valid
        is_parent =
      let alg = name_algorithm name in
      let one = step_succeeds a root is_digest (rw same linked) valid (rw same is_parent) in
      let (next_digest, next_same) = digest_name available hash a (root ++ a) sizes is_digest in
      let next : Bytes = big_endian 2 (name_algorithm a) ++ hash (name_algorithm a) (root ++ a) in
      let not_empty : name_type next ≢ NameType.empty = λ bad. cc in
      let (qn, e) =
        qualified (suc i) name next ancestors sizes h linked in_chain
          (valid_digest next next_digest) (not_empty, inr (next_same ∙ same)) in
      (qn, rw one e)

  -- ComputeQualifiedName gives a qualified name to an object with a digest name whose algorithm is
  -- linked in, when every digest has the size of its algorithm, all ancestors have digest names of
  -- the object's algorithm, and the root's name is valid, not empty, and has that algorithm or
  -- none.
  pub compute_qualified_name-ok :
      (name root : Bytes) (ancestors : List Bytes)
      → HasSizes available hash
      → IsDigestName name
      → available (name_algorithm name) ≡ true
      → InChain available hash (name_algorithm name) ancestors
      → is_valid_name root ≡ true
      → IsParent available hash (name_algorithm name) root
      → (qn : Bytes) × (compute_qualified_name available hash name root ancestors ≡ ok qn)
  unfolding compute_qualified_name
  compute_qualified_name-ok = qualified 0
