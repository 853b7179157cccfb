-- ===== src/Names/Examples.antt =====
-- The theorems on qualified names, at a SHA-256 object in a primary object of the owner hierarchy.
use go_tpm.Base.{
  ℕ, ap, ◌∙◌, ◌≡◌, inl, refl, Bool, true, none, some, [], ◌∷◌, replicate, length, length-replicate,
  ok,
}
use go_tpm.Mu.Bytes.{Bytes, big_endian, from_big_endian}
use go_tpm.Names.Algorithm.{algorithm_size}
use go_tpm.Names.Name.{name_type, is_valid_name, name_algorithm}
use go_tpm.Names.Qualified.{
  compute_one_qualified_name, compute_qualified_name_from, compute_qualified_name,
}
use go_tpm.Names.Chains.{IsDigestName, HasSizes, InChain, IsParent, compute_qualified_name-InChain}
use go_tpm.Names.Succeeds.{compute_qualified_name-ok}

abbrev owner_name : Bytes
owner_name = 0x40 ∷ 0 ∷ 0 ∷ 1 ∷ []

-- Every algorithm is linked in, and a digest has zeros only.
abbrev all_linked : ℕ → Bool
all_linked a = true

abbrev zeros : ℕ → Bytes → Bytes
zeros a xs = elim (algorithm_size a) [ none ↦ [] | some k ↦ replicate k 0 ]

zeros-HasSizes : HasSizes all_linked zeros
zeros-HasSizes a k xs e =
    let same : zeros a xs ≡ replicate k 0 = rw (zeros, e) refl in
    ap length same ∙ length-replicate k 0

abbrev sha256_name : Bytes
sha256_name = 0 ∷ 0xb ∷ replicate 32 7

abbrev primary_name : Bytes
primary_name = 0 ∷ 0xb ∷ replicate 32 9

abbrev qualified_name : Bytes
qualified_name = 0 ∷ 0xb ∷ replicate 32 0

sha256_name-IsDigestName : IsDigestName sha256_name
unfolding name_type from_big_endian
sha256_name-IsDigestName = refl

primary : IsDigestName primary_name × (name_algorithm primary_name ≡ name_algorithm sha256_name)
unfolding name_algorithm name_type from_big_endian
primary = (refl, refl)

owner-IsParent : IsParent all_linked zeros (name_algorithm sha256_name) owner_name
unfolding name_algorithm name_type from_big_endian
owner-IsParent = (λ e. cc, inl refl)

computed :
    compute_qualified_name all_linked zeros sha256_name owner_name (primary_name ∷ [])
    ≡ ok qualified_name
unfolding compute_one_qualified_name compute_qualified_name_from compute_qualified_name
    name_algorithm name_type is_valid_name big_endian from_big_endian
computed = refl

compute_qualified_name-InChain_example :
    InChain all_linked zeros (name_algorithm sha256_name) (primary_name ∷ [])
    × IsParent all_linked zeros (name_algorithm sha256_name) owner_name
    × IsDigestName qualified_name
    × (name_algorithm qualified_name ≡ name_algorithm sha256_name)
compute_qualified_name-InChain_example =
    compute_qualified_name-InChain all_linked zeros sha256_name owner_name qualified_name
      (primary_name ∷ []) zeros-HasSizes sha256_name-IsDigestName computed

owner_name-valid : is_valid_name owner_name ≡ true
unfolding is_valid_name name_type
owner_name-valid = refl

compute_qualified_name-ok_example :
    (qn : Bytes) × (compute_qualified_name all_linked zeros sha256_name owner_name
        (primary_name ∷ [])
      ≡ ok qn)
compute_qualified_name-ok_example =
    compute_qualified_name-ok all_linked zeros sha256_name owner_name (primary_name ∷ [])
      zeros-HasSizes sha256_name-IsDigestName refl (primary, tt) owner_name-valid owner-IsParent
