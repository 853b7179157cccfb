-- ===== src/Policy/Assertions.antt =====
-- The policy assertions of computePolicySession (policyutil/session.go). An error leaves the session
-- as it is, but for PolicyOR.
use go_tpm.Base.{
  ℕ, Bool, true, false, not, ◌||◌, Option, none, some, List, [], ◌∷◌, ◌++◌, length, ◌==◌,
  if◌then◌else◌, Outcome, ok, err, panic,
}
use go_tpm.Mu.Bytes.{Bytes, big_endian}
use go_tpm.Names.Name.{is_valid_name}
use go_tpm.Pcr.Bitmap.{PcrError}
use go_tpm.Pcr.Selection.{Selection, marshal_selections}
use go_tpm.Policy.Session.{
  Session, PolicyError, invalid_name, invalid_digest_size, cp_name_hash_refused, panicked,
  pcr_error, update_for_command, policy_or,
}

-- An assertion with what enters the digest: names, policyRefs, digests and operands are bytes.
pub data Assertion : Type 0 where
  signed secret : Bytes → Bytes → Assertion
  or_digests : List Bytes → Assertion
  pcr : Bytes → List Selection → Assertion
  nv : Bytes → Bytes → ℕ → ℕ → Assertion
  counter_timer : Bytes → ℕ → ℕ → Assertion
  command_code : ℕ → Assertion
  cp_hash name_hash : Bytes → Assertion
  duplication_select : Bytes → Bytes → Bool → Assertion
  authorize : Bytes → Bytes → Assertion
  auth_value password : Assertion
  nv_written : Bool → Assertion

abbrev pub command_policy_nv : ℕ
command_policy_nv = 0x149

abbrev pub command_policy_secret : ℕ
command_policy_secret = 0x151

abbrev pub command_policy_signed : ℕ
command_policy_signed = 0x160

abbrev pub command_policy_authorize : ℕ
command_policy_authorize = 0x16a

abbrev pub command_policy_auth_value : ℕ
command_policy_auth_value = 0x16b

abbrev pub command_policy_command_code : ℕ
command_policy_command_code = 0x16c

abbrev pub command_policy_counter_timer : ℕ
command_policy_counter_timer = 0x16d

abbrev pub command_policy_cp_hash : ℕ
command_policy_cp_hash = 0x16e

abbrev pub command_policy_name_hash : ℕ
command_policy_name_hash = 0x170

abbrev pub command_policy_pcr : ℕ
command_policy_pcr = 0x17f

abbrev pub command_policy_duplication_select : ℕ
command_policy_duplication_select = 0x188

abbrev pub command_policy_nv_written : ℕ
command_policy_nv_written = 0x18f

-- A bool on the wire.
abbrev pub bool_byte : Bool → Bytes
bool_byte b = (if b then 1 else 0) ∷ []

-- `len(name) == 0 || !name.IsValid()`
abbrev pub is_bad_name : Bytes → Bool
is_bad_name n = length n == 0 || not (is_valid_name n)

module _ (hash : ℕ → Bytes → Bytes) (size : ℕ → ℕ) where
  abbrev pub update : Session → ℕ → Bytes → Session
  update s command params = update_for_command hash size s command params

  -- policyUpdate
  abbrev pub policy_update : Session → ℕ → Bytes → Bytes → Session
  policy_update s command name policy_ref =
      let named = update s command name in
      record named { digest = hash s.alg (named.digest ++ policy_ref) }

  abbrev refuse_if : Session → Bool → PolicyError → Session → Session × Option PolicyError
  refuse_if s true e s' = (s, some e)
  refuse_if s false e s' = (s', none)

  -- PolicyPCR, with the marshalled selection.
  abbrev with_selection : Session → Bytes → Outcome PcrError Bytes → Session × Option PolicyError
  with_selection s pcr_digest (ok pcrs) = (update s command_policy_pcr (pcrs ++ pcr_digest), none)
  with_selection s pcr_digest (err e) = (s, some (pcr_error e))
  with_selection s pcr_digest panic = (s, some panicked)

  -- The digest of an operand and what it is compared with, in PolicyNV and PolicyCounterTimer.
  abbrev pub operand_digest : ℕ → Bytes → ℕ → ℕ → Bytes
  operand_digest alg operand offset operation =
      hash alg (operand ++ (big_endian 2 offset ++ big_endian 2 operation))

  -- The methods PolicySigned to PolicyNvWritten: the session afterwards, and the error.
  unfoldable pub assert_policy : Session → Assertion → Session × Option PolicyError
  assert_policy s (signed name policy_ref) =
      refuse_if s (is_bad_name name) invalid_name
        (policy_update s command_policy_signed name policy_ref)
  assert_policy s (secret name policy_ref) =
      refuse_if s (is_bad_name name) invalid_name
        (policy_update s command_policy_secret name policy_ref)
  assert_policy s (or_digests ds) = policy_or hash size s ds
  assert_policy s (pcr pcr_digest pcrs) =
      if not (length pcr_digest == size s.alg)
      then (s, some invalid_digest_size)
      else with_selection s pcr_digest (marshal_selections pcrs)
  assert_policy s (nv name operand offset operation) =
      refuse_if s (is_bad_name name) invalid_name
        (update s command_policy_nv (operand_digest s.alg operand offset operation ++ name))
  assert_policy s (counter_timer operand offset operation) =
      (update s command_policy_counter_timer (operand_digest s.alg operand offset operation), none)
  assert_policy s (command_code code) =
      (update s command_policy_command_code (big_endian 4 code), none)
  assert_policy s (cp_hash d) =
      if s.no_cp_name_hash
      then (s, some cp_name_hash_refused)
      else refuse_if s (not (length d == size s.alg)) invalid_digest_size
          (update s command_policy_cp_hash d)
  assert_policy s (name_hash d) =
      if s.no_cp_name_hash
      then (s, some cp_name_hash_refused)
      else refuse_if s (not (length d == size s.alg)) invalid_digest_size
          (update s command_policy_name_hash d)
  assert_policy s (duplication_select object new_parent include_object) =
      if is_bad_name new_parent
      then (s, some invalid_name)
      else if include_object
      then refuse_if s (is_bad_name object) invalid_name
          (update s command_policy_duplication_select (object ++ (new_parent ++ bool_byte true)))
      else (update s command_policy_duplication_select (new_parent ++ bool_byte false), none)
  assert_policy s (authorize key_sign policy_ref) =
      refuse_if s (is_bad_name key_sign) invalid_name
        (policy_update s command_policy_authorize key_sign policy_ref)
  assert_policy s auth_value = (update s command_policy_auth_value [], none)
  assert_policy s password = (update s command_policy_auth_value [], none)
  assert_policy s (nv_written written_set) =
      (update s command_policy_nv_written (bool_byte written_set), none)
