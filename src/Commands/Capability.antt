-- ===== src/Commands/Capability.antt =====
-- GetCapability of cmds_cap.go: properties of the TPM are asked for until all have come.
use go_tpm.Base.{
  ℕ, zero, suc, ◌+◌, ◌-◌, ◌%◌, ◌^◌, Bool, not, ◌||◌, List, [], ◌∷◌, ◌++◌, length, bit_and, ◌==◌,
  if◌then◌else◌, Outcome, ok, err, panic,
}
use go_tpm.Mu.Bytes.{Bytes}

-- An element of one of the lists of CapabilitiesU.
pub data Item : Type 0 where
  algorithm_property : ℕ → ℕ → Item
  handle_item : ℕ → Item
  command_attributes : ℕ → Item
  command_code : ℕ → Item
  tpm_property : ℕ → ℕ → Item
  pcr_property : ℕ → Bytes → Item
  ecc_curve : ℕ → Item
  auth_policy : ℕ → ℕ → Bytes → Item

-- (CommandAttributes).CommandCode: the bits AttrV and 0xffff.
abbrev pub attributes_code : ℕ → ℕ
attributes_code a = bit_and a (2 ^ 29 + 0xffff)

-- What the switch makes of the last element of a list.
abbrev pub item_property : Item → ℕ
item_property (algorithm_property alg attrs) = alg
item_property (handle_item handle) = handle
item_property (command_attributes a) = attributes_code a
item_property (command_code code) = code
item_property (tpm_property property value) = property
item_property (pcr_property tag select) = tag
item_property (ecc_curve curve) = curve
item_property (auth_policy handle alg digest) = handle

-- CapabilityData, with the list of its capability. AssignedPCR is the last field.
pub record CapabilityData : Type 0 where
  pub capability : ℕ
  pub items : List Item
  pub pcrs : List (ℕ × List ℕ)

abbrev pub capability_pcrs : ℕ
capability_pcrs = 5

pub data CapabilityError (E : Type 0) : Type 0 where
  command_failed : E → CapabilityError E
  wrong_capability : ℕ → CapabilityError E
  missing_pcrs : CapabilityError E

-- p
unfoldable pub last_property : List Item → ℕ
last_property [] = 0
last_property (i ∷ []) = item_property i
last_property (i ∷ (j ∷ items)) = last_property (j ∷ items)

-- `remaining - uint32(l)`
abbrev pub less_remaining : ℕ → ℕ → ℕ
less_remaining remaining l = (remaining + 2 ^ 32 - l % 2 ^ 32) % 2 ^ 32

-- TPM2_GetCapability, of a capability, a property and a count, by the state of the TPM.
abbrev pub Asked : Type 0 → Type 0 → Type 0
Asked S E = ℕ → ℕ → ℕ → S → Outcome E (Bool × CapabilityData) × S

abbrev pub Result : Type 0 → Type 0 → Type 0
Result S E = Outcome (CapabilityError E) CapabilityData × S

abbrev pub with_answer :
    {S E : Type 0}
    → (Bool → CapabilityData → S → Result S E)
    → Outcome E (Bool × CapabilityData) × S
    → Result S E
with_answer next (ok (more_data, d), s) = next more_data d s
with_answer next (err e, s) = (err (command_failed e), s)
with_answer next (panic, s) = (panic, s)

-- A turn of the loop after an answer: `next` is what the turns after it come to.
unfoldable pub take_answer :
    {S E : Type 0}
    → ℕ
    → ℕ
    → List Item
    → (ℕ → ℕ → List Item → S → Result S E)
    → ℕ
    → Bool
    → CapabilityData
    → S
    → Result S E
take_answer capability remaining items next property more_data d s =
    let all = items ++ d.items in
    let left = less_remaining remaining (length d.items) in
    let rest = next ((property + (last_property d.items + 1)) % 2 ^ 32) left all s in
    if not (d.capability == capability)
    then (err (wrong_capability d.capability), s)
    else if capability == capability_pcrs
    then ((if more_data then err missing_pcrs else ok d), s)
    else if not more_data || (left == 0)
    then (ok (record { capability = capability; items = all; pcrs = [] }), s)
    else rest

module _ {S E : Type 0} (raw : Asked S E) (capability : ℕ) where
  -- The loop. The fuel counts the commands.
  unfoldable pub get_capability_from : ℕ → ℕ → ℕ → List Item → S → Result S E
  unfolding take_answer
  get_capability_from zero property remaining items s = (panic, s)
  get_capability_from (suc fuel) property remaining items s =
      with_answer (take_answer capability remaining items (get_capability_from fuel) property)
        (raw capability property remaining s)

  -- GetCapability. A turn gets a property at least, or there are no more.
  unfoldable pub get_capability : ℕ → ℕ → S → Result S E
  unfolding get_capability_from
  get_capability property count = get_capability_from (suc count) property count []
