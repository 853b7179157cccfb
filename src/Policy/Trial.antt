-- ===== src/Policy/Trial.antt =====
-- TrialAuthPolicy of util/policy.go, the older computation of a policy digest. `none` is a panic.
use go_tpm.Base.{
  ℕ, Bool, true, false, not, ◌||◌, Option, none, some, List, [], ◌∷◌, ◌++◌, length, replicate, ltb,
  ◌==◌, if◌then◌else◌, ok, err, panic,
}
use go_tpm.Mu.Bytes.{Bytes, big_endian}
use go_tpm.Names.Name.{is_valid_name}
use go_tpm.Pcr.Selection.{Selection, marshal_selections}
use go_tpm.Policy.Session.{command_policy_or}
use go_tpm.Policy.Assertions.{
  Assertion, signed, secret, or_digests, pcr, nv, counter_timer, command_code, cp_hash, name_hash,
  duplication_select, authorize, auth_value, password, nv_written, bool_byte, command_policy_nv,
  command_policy_secret, command_policy_signed, command_policy_authorize, command_policy_auth_value,
  command_policy_command_code, command_policy_counter_timer, command_policy_cp_hash,
  command_policy_name_hash, command_policy_pcr, command_policy_duplication_select,
  command_policy_nv_written,
}

pub record Trial : Type 0 where
  pub alg : ℕ
  pub digest : Bytes
  pub hash_occupied : Bool

module _ (hash : ℕ → Bytes → Bytes) (size : ℕ → ℕ) where
  -- beginUpdateForCommand, what is written before the end, and the end.
  abbrev pub trial_extend : Trial → ℕ → Bytes → Trial
  trial_extend p command written = record p {
    digest = hash p.alg (p.digest ++ (big_endian 4 command ++ written));
  }

  -- update
  abbrev pub trial_update : Trial → ℕ → Bytes → Bytes → Option Trial
  trial_update p command name ref =
      let named = trial_extend p command name in
      if not (is_valid_name name)
      then none
      else some (record named { digest = hash p.alg (named.digest ++ ref) })

  -- reset
  abbrev pub trial_reset : Trial → Trial
  trial_reset p = record p { digest = replicate (length p.digest) 0 }

  -- The loop of PolicyOR: what is written, after the lengths have been looked at.
  abbrev pub trial_or_bytes : ℕ → List Bytes → Option Bytes
  trial_or_bytes n [] = some []
  trial_or_bytes n (d ∷ ds) =
      let rest = trial_or_bytes n ds in
      if not (length d == n) then none else elim rest [ none ↦ none | some xs ↦ some (d ++ xs) ]

  -- PolicyOR
  abbrev pub trial_policy_or : Trial → List Bytes → Option Trial
  trial_policy_or p ds =
      if ltb (length ds) 2 || ltb 8 (length ds)
      then none
      else elim (trial_or_bytes (size p.alg) ds) [
        | none ↦ none
        | some xs ↦ some (trial_extend (trial_reset p) command_policy_or xs)
      ]

  -- PolicyPCR
  abbrev pub trial_policy_pcr : Trial → Bytes → List Selection → Option Trial
  trial_policy_pcr p pcr_digest pcrs =
      if not (length pcr_digest == size p.alg) then none else elim (marshal_selections pcrs) [
        | ok xs ↦ some (trial_extend p command_policy_pcr (xs ++ pcr_digest))
        | err e ↦ none
        | panic ↦ none
      ]

  abbrev pub trial_operand : ℕ → Bytes → ℕ → ℕ → Bytes
  trial_operand alg operand offset operation =
      hash alg (operand ++ (big_endian 2 offset ++ big_endian 2 operation))

  -- PolicyNV
  abbrev pub trial_policy_nv : Trial → Bytes → Bytes → ℕ → ℕ → Option Trial
  trial_policy_nv p name operand offset operation =
      if not (is_valid_name name)
      then none
      else some
          (trial_extend p command_policy_nv (trial_operand p.alg operand offset operation ++ name))

  -- PolicyCpHash and PolicyNameHash
  abbrev pub trial_policy_hash : Trial → ℕ → Bytes → Option Trial
  trial_policy_hash p command d =
      let occupied = record p { hash_occupied = true } in
      if not (length d == size p.alg)
      then none
      else if p.hash_occupied
      then none
      else some (trial_extend occupied command d)

  -- PolicyDuplicationSelect
  abbrev pub trial_duplication_select : Trial → Bytes → Bytes → Bool → Option Trial
  trial_duplication_select p object new_parent include_object =
      if include_object
      then (if not (is_valid_name object)
          then none
          else if not (is_valid_name new_parent)
          then none
          else some (
              trial_extend p command_policy_duplication_select
                (object ++ (new_parent ++ bool_byte true))))
      else if not (is_valid_name new_parent)
      then none
      else some (trial_extend p command_policy_duplication_select (new_parent ++ bool_byte false))

  -- The methods PolicySigned to PolicyNvWritten.
  unfoldable pub trial_assert : Trial → Assertion → Option Trial
  trial_assert p (signed name ref) = trial_update p command_policy_signed name ref
  trial_assert p (secret name ref) = trial_update p command_policy_secret name ref
  trial_assert p (or_digests ds) = trial_policy_or p ds
  trial_assert p (pcr pcr_digest pcrs) = trial_policy_pcr p pcr_digest pcrs
  trial_assert p (nv name operand offset operation) =
      trial_policy_nv p name operand offset operation
  trial_assert p (counter_timer operand offset operation) =
      some
        (trial_extend p command_policy_counter_timer (trial_operand p.alg operand offset operation))
  trial_assert p (command_code code) =
      some (trial_extend p command_policy_command_code (big_endian 4 code))
  trial_assert p (cp_hash d) = trial_policy_hash p command_policy_cp_hash d
  trial_assert p (name_hash d) = trial_policy_hash p command_policy_name_hash d
  trial_assert p (duplication_select object new_parent include_object) =
      trial_duplication_select p object new_parent include_object
  trial_assert p (authorize key ref) = trial_update p command_policy_authorize key ref
  trial_assert p auth_value = some (trial_extend p command_policy_auth_value [])
  trial_assert p password = some (trial_extend p command_policy_auth_value [])
  trial_assert p (nv_written written_set) =
      some (trial_extend p command_policy_nv_written (bool_byte written_set))
