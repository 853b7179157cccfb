-- ===== src/Names/Chains.antt =====
-- What the names of a chain of objects have in common that has a qualified name.
use go_tpm.Base.{
  ℕ, suc, ◌-◌, ◌≡◌, ◌≢◌, ◌⊎◌, inl, inr, refl, sym, ap, ◌∙◌, arith, Bool, true, false, not, ◌&&◌,
  ◌||◌, Bool-cases, List, [], ◌∷◌, ◌++◌, length, none, some, All, ◌==◌, if◌then◌else◌, Outcome, ok,
  err, panic, >>=-eq-ok, ok-injective,
}
use go_tpm.Mu.Bytes.{Bytes, big_endian}
use go_tpm.Names.Algorithm.{algorithm_null, algorithm_size}
use go_tpm.Names.Name.{NameType, name_type, is_valid_name, name_algorithm, uint16}
use go_tpm.Names.Parts.{name_digest-append}
use go_tpm.Names.Qualified.{
  NameError, is_empty_type, is_digest_type, at_index, compute_one_qualified_name,
  compute_qualified_name_from, compute_qualified_name,
}

abbrev pub IsDigestName : Bytes → Type 0
IsDigestName n = name_type n ≡ NameType.digest

pub digest_size :
    (n : Bytes) → IsDigestName n → (k : ℕ) × (algorithm_size (name_algorithm n) ≡ some k)
unfolding name_algorithm
digest_size n h =
    let size : algorithm_size (uint16 n) ≡ some (length n - 2) = unfold name_type in ground arith in
    (length n - 2, rw (name_algorithm, h) size)

empty_type : (t : NameType) → is_empty_type t ≡ true → t ≡ NameType.empty
empty_type NameType.empty h = refl
empty_type NameType.invalid h = cc
empty_type NameType.handle h = cc
empty_type NameType.digest h = cc

digest_type : (t : NameType) → is_digest_type t ≡ true → t ≡ NameType.digest
digest_type NameType.digest h = refl
digest_type NameType.invalid h = cc
digest_type NameType.handle h = cc
digest_type NameType.empty h = cc

not_empty_type : (t : NameType) → is_empty_type t ≡ false → t ≢ NameType.empty
not_empty_type NameType.empty h e = cc
not_empty_type NameType.invalid h e = cc
not_empty_type NameType.handle h e = cc
not_empty_type NameType.digest h e = cc

at_index-ok :
    {A : Type 0} (i : ℕ) (x : Outcome NameError A) (a : A) → at_index i x ≡ ok a → x ≡ ok a
at_index-ok i (ok x) a e = e
at_index-ok i (err x) a e = cc
at_index-ok i panic a e = cc

empty_name : name_type [] ≡ NameType.empty
unfolding name_type
empty_name = refl

-- A chain of tests gives a value only past them.
passed :
    {A : Type 0} (test : Bool) (x : NameError) (rest : Outcome NameError A) (a : A)
    → (if test then err x else rest) ≡ ok a
    → (test ≡ false) × (rest ≡ ok a)
passed true x rest a e = cc
passed false x rest a e = (refl, e)

module _ (available : ℕ → Bool) (hash : ℕ → Bytes → Bytes) where
  -- A digest has the size of its algorithm.
  abbrev pub HasSizes : Type 0
  HasSizes = (a k : ℕ) (xs : Bytes) → algorithm_size a ≡ some k → length (hash a xs) ≡ k

  -- A name that can be the parent's of an object with this algorithm.
  abbrev pub IsParent : ℕ → Bytes → Type 0
  IsParent alg parent =
      (name_type parent ≢ NameType.empty)
      × ((name_algorithm parent ≡ algorithm_null) ⊎ (name_algorithm parent ≡ alg))

  -- What a single step says of the object and of its parent.
  one_step :
      (name parent qn : Bytes)
      → compute_one_qualified_name available hash name parent ≡ ok qn
      → ((name_type name ≡ NameType.empty) × (qn ≡ []))
        ⊎ (IsDigestName name
            × IsParent (name_algorithm name) parent
            × (qn
                ≡ big_endian 2 (name_algorithm name)
                  ++ hash (name_algorithm name) (parent ++ name)))
  unfolding compute_one_qualified_name
  one_step name parent qn e = elim (Bool-cases (is_empty_type (name_type name))) [
    | inl is_none ↦ inl (empty_type (name_type name) is_none, sym (ok-injective (rw is_none at e)))
    | inr some_type ↦
        let alg : ℕ = name_algorithm name in
        let (a, e1) = passed (not (is_digest_type (name_type name))) _ _ qn (rw some_type at e) in
        let (b, e2) = passed (not (available alg)) _ _ qn e1 in
        let (c, e3) =
          passed (not (is_valid_name parent) || is_empty_type (name_type parent)) _ _ qn e2 in
        let (d, e4) =
          passed
            (not (name_algorithm parent == algorithm_null) && not (name_algorithm parent == alg)) _
            _ qn e3 in
        let is_digest : is_digest_type (name_type name) ≡ true = ground arith in
        let not_empty : is_empty_type (name_type parent) ≡ false = ground arith in
        let algs : (name_algorithm parent ≡ algorithm_null) ⊎ (name_algorithm parent ≡ alg) =
          ground arith in
        inr (
          digest_type (name_type name) is_digest,
          (not_empty_type (name_type parent) not_empty, algs),
          sym (ok-injective e4),
        )
  ]

  -- All names of a chain are those of objects with this algorithm.
  abbrev pub InChain : ℕ → List Bytes → Type 0
  InChain alg ancestors = All (λ a. IsDigestName a × (name_algorithm a ≡ alg)) ancestors

  -- The qualified name of an object with this algorithm, below a name.
  abbrev pub IsQualified : ℕ → Bytes → Bytes → Type 0
  IsQualified alg name qn = (parent : Bytes) × (qn ≡ big_endian 2 alg ++ hash alg (parent ++ name))

  step_of_digest :
      (name parent qn : Bytes)
      → IsDigestName name
      → compute_one_qualified_name available hash name parent ≡ ok qn
      → IsParent (name_algorithm name) parent
        × (qn ≡ big_endian 2 (name_algorithm name) ++ hash (name_algorithm name) (parent ++ name))
  step_of_digest name parent qn h e = elim (one_step name parent qn e) [
    | inl (no_type, _) ↦ cc
    | inr (_, is_parent, q) ↦ (is_parent, q)
  ]

  -- An object whose qualified name is a parent's has the algorithm of the child.
  step_of_IsParent :
      (a root qn : Bytes) (alg : ℕ)
      → HasSizes
      → IsParent alg qn
      → compute_one_qualified_name available hash a root ≡ ok qn
      → IsDigestName a × (name_algorithm a ≡ alg) × IsParent alg root
  step_of_IsParent a root qn alg sizes (some_type, algs) e = elim (one_step a root qn e) [
    | inl (_, q) ↦
        let no_type : name_type qn ≡ NameType.empty = rw q empty_name in
        elim (some_type no_type) [ ]
    | inr (is_digest, (root_type, root_algs), q) ↦
        let (k, size) = digest_size a is_digest in
        let digest = hash (name_algorithm a) (root ++ a) in
        let (_, same, _) =
          name_digest-append (name_algorithm a) k digest size (sizes (name_algorithm a) k _ size) in
        let found : name_algorithm qn ≡ name_algorithm a = rw q same in
        let not_null : algorithm_size algorithm_null ≡ none = refl in
        let own : name_algorithm a ≡ alg = elim algs [
          | inl null ↦
              (let bad : algorithm_size (name_algorithm a) ≡ algorithm_size algorithm_null =
                  ap algorithm_size (sym found ∙ null) in
                cc)
          | inr right ↦ sym found ∙ right
        ] in
        (is_digest, own, (root_type, rw (sym own) root_algs))
  ]

  chain :
      (i : ℕ) (name root qn : Bytes) (ancestors : List Bytes)
      → HasSizes
      → IsDigestName name
      → compute_qualified_name_from available hash i name root ancestors ≡ ok qn
      → InChain (name_algorithm name) ancestors
        × IsParent (name_algorithm name) root
        × IsQualified (name_algorithm name) name qn
  unfolding compute_qualified_name_from
  chain i name root qn [] sizes h e =
      let (is_parent, q) = step_of_digest name root qn h e in (tt, is_parent, (root, q))
  chain i name root qn (a ∷ ancestors) sizes h e =
      let (q1, e1, e2) =
        >>=-eq-ok (at_index i (compute_one_qualified_name available hash a root)) _ e in
      let (in_chain, is_parent, qualified) = chain (suc i) name q1 qn ancestors sizes h e2 in
      let (is_digest, same, root_parent) =
        step_of_IsParent a root q1 (name_algorithm name) sizes is_parent (at_index-ok i _ q1 e1) in
      (((is_digest, same), in_chain), root_parent, qualified)

  -- The qualified name that a step gives below a parent is a digest name of the object's algorithm.
  pub digest_name :
      (a : Bytes) (xs : Bytes)
      → HasSizes
      → IsDigestName a
      → IsDigestName (big_endian 2 (name_algorithm a) ++ hash (name_algorithm a) xs)
        × (name_algorithm (big_endian 2 (name_algorithm a) ++ hash (name_algorithm a) xs)
            ≡ name_algorithm a)
  digest_name a xs sizes h =
      let (k, size) = digest_size a h in
      let (is_digest, same, _) =
        name_digest-append (name_algorithm a) k (hash (name_algorithm a) xs) size
          (sizes (name_algorithm a) k xs size) in
      (is_digest, same)

  -- When ComputeQualifiedName gives a qualified name for an object with a digest name, and every
  -- digest has the size of its algorithm, then all ancestors have digest names of the object's own
  -- algorithm, the root's name is not empty and has that algorithm or none, and the qualified name
  -- is again a digest name of that algorithm.
  pub compute_qualified_name-InChain :
      (name root qn : Bytes) (ancestors : List Bytes)
      → HasSizes
      → IsDigestName name
      → compute_qualified_name available hash name root ancestors ≡ ok qn
      → InChain (name_algorithm name) ancestors
        × IsParent (name_algorithm name) root
        × IsDigestName qn
        × (name_algorithm qn ≡ name_algorithm name)
  unfolding compute_qualified_name
  compute_qualified_name-InChain name root qn ancestors sizes h e =
      let (in_chain, is_parent, (parent, q)) = chain 0 name root qn ancestors sizes h e in
      let (is_digest, same) = digest_name name (parent ++ name) sizes h in
      (in_chain, is_parent, rw q is_digest, rw q same)
