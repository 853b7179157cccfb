-- ===== src/Policy/Session.antt =====
-- computePolicySession of policyutil/session.go: the digest of a policy, and what PolicyOR does to it.
-- The digest functions are a parameter: `hash alg` is what alg.NewHash() computes of the bytes that
-- are written to it, and `size alg` is alg.Size().
use go_tpm.Base.{
  ℕ, Bool, suc, not, ◌||◌, Option, none, some, List, [], ◌∷◌, ◌++◌, length, replicate, ltb, ◌==◌,
  if◌then◌else◌,
}
use go_tpm.Mu.Bytes.{Bytes, big_endian}
use go_tpm.Pcr.Bitmap.{PcrError}

pub record Session : Type 0 where
  pub alg : ℕ
  pub digest : Bytes
  pub no_cp_name_hash : Bool

pub data PolicyError : Type 0 where
  invalid_number_of_branches : PolicyError
  invalid_digest_length : ℕ → PolicyError
  no_digests too_many_digests invalid_name invalid_digest_size cp_name_hash_refused : PolicyError
  -- Not an error of the code: marshalling the parameters panicked.
  panicked : PolicyError
  pcr_error : PcrError → PolicyError

-- tpm2.CommandPolicyOR
abbrev pub command_policy_or : ℕ
command_policy_or = 369

module _ (hash : ℕ → Bytes → Bytes) (size : ℕ → ℕ) where
  -- newComputePolicySession, without a digest to start from.
  abbrev pub new_session : ℕ → Bool → Session
  new_session alg no_cp_name_hash = record {
    alg = alg;
    digest = replicate (size alg) 0;
    no_cp_name_hash = no_cp_name_hash;
  }

  abbrev pub reset : Session → Session
  reset s = record s { digest = replicate (size s.alg) 0 }

  -- updateForCommand, with what the parameters are marshalled to.
  abbrev pub update_for_command : Session → ℕ → Bytes → Session
  update_for_command s command params = record s {
    digest = hash s.alg (s.digest ++ (big_endian 4 command ++ params));
  }

  -- The first digest, from branch i on, whose length is wrong.
  abbrev pub wrong_length : ℕ → ℕ → List Bytes → Option ℕ
  wrong_length n i [] = none
  wrong_length n i (d ∷ ds) = if not (length d == n) then some i else wrong_length n (suc i) ds

  abbrev pub concat : List Bytes → Bytes
  concat [] = []
  concat (d ∷ ds) = d ++ concat ds

  -- PolicyOR: the session afterwards, and the error. On a wrong length the digest has been reset.
  unfoldable pub policy_or : Session → List Bytes → Session × Option PolicyError
  policy_or s ds =
      let cleared = reset s in
      if ltb (length ds) 2 || ltb 8 (length ds)
      then (s, some invalid_number_of_branches)
      else elim (wrong_length (size s.alg) 0 ds) [
        | some i ↦ (cleared, some (invalid_digest_length i))
        | none ↦ (update_for_command cleared command_policy_or (concat ds), none)
      ]
