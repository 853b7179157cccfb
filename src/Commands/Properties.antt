-- ===== src/Commands/Properties.antt =====
-- The queries of cmds_cap.go for single properties.
use go_tpm.Base.{
  ℕ, ◌+◌, ◌*◌, ◌-◌, ◌%◌, ◌^◌, Bool, true, false, ◌||◌, List, [], ◌∷◌, ltb, ◌==◌, if◌then◌else◌,
  Outcome, ok, err, panic,
}
use go_tpm.Base.Actions.{Action, ◌>>=◌, done}
use go_tpm.Names.Algorithm.{handle_type, handle_type_hmac_session, handle_type_policy_session}
use go_tpm.Commands.Capability.{
  Item, algorithm_property, command_attributes, tpm_property, item_property, CapabilityError, Asked,
  get_capability,
}

pub data QueryError (E : Type 0) : Type 0 where
  query_failed : CapabilityError E → QueryError E
  does_not_exist : ℕ → QueryError E
  value_out_of_range : QueryError E

-- HandleTypeLoadedSession and HandleTypeSavedSession
abbrev pub handle_type_loaded_session : ℕ
handle_type_loaded_session = 0x02

abbrev pub handle_type_saved_session : ℕ
handle_type_saved_session = 0x03

-- `handle &= 0x00ffffff; handle |= Handle(t) << 24`
abbrev pub with_type : ℕ → ℕ → ℕ
with_type t handle = t * 2 ^ 24 + handle % 2 ^ 24

-- The first element, if it is there and is the one that was asked for.
abbrev pub first_is : {E : Type 0} → ℕ → List Item → Outcome (QueryError E) Item
first_is property [] = err (does_not_exist property)
first_is property (i ∷ items) =
    if item_property i == property then ok i else err (does_not_exist property)

abbrev pub value_of : Item → ℕ
value_of (algorithm_property alg attrs) = attrs
value_of (command_attributes a) = a
value_of (tpm_property property value) = value
value_of i = item_property i

abbrev pub any_is : ℕ → List Item → Bool
any_is x [] = false
any_is x (i ∷ items) = (item_property i == x) || any_is x items

-- Whether a call returns no error.
abbrev pub succeeds : {E A S : Type 0} → Outcome E A × S → Bool × S
succeeds (ok a, s) = (true, s)
succeeds (_, s) = (false, s)

module _ {S E : Type 0} (raw : Asked S E) where
  -- GetCapabilityAlgs, GetCapabilityCommands, GetCapabilityHandles and so on, by the capability.
  abbrev pub get_items : ℕ → ℕ → ℕ → Action (QueryError E) S (List Item)
  get_items capability first count s =
      let (r, s') = get_capability raw capability first count s in
      (elim r [ ok d ↦ ok d.items | err e ↦ err (query_failed e) | panic ↦ panic ], s')

  -- GetCapabilityAlg, GetCapabilityCommand, GetCapabilityTPMProperty and GetCapabilityAuthPolicy, by
  -- the capability.
  unfoldable pub get_item : ℕ → ℕ → Action (QueryError E) S Item
  get_item capability property = do
    items ← get_items capability property 1
    done (first_is property items)

  -- GetCapabilityTPMProperty
  abbrev pub get_tpm_property : ℕ → Action (QueryError E) S ℕ
  get_tpm_property property = do i ← get_item 6 property; done (ok (value_of i))

  -- A property whose values above a limit are refused: GetMaxBufferSize, GetMaxDigestSize,
  -- GetNVMaxBufferSize and GetMinPCRSelectSize.
  abbrev pub get_size : ℕ → ℕ → Action (QueryError E) S ℕ
  get_size property limit = do
    n ← get_tpm_property property
    done (if ltb limit n then err value_out_of_range else ok n)

  abbrev pub get_max_buffer_size : Action (QueryError E) S ℕ
  get_max_buffer_size = get_size 0x10d 0xffff

  abbrev pub get_max_digest_size : Action (QueryError E) S ℕ
  get_max_digest_size = get_size 0x120 64

  abbrev pub get_max_data_size : Action (QueryError E) S ℕ
  get_max_data_size = do n ← get_max_digest_size; done (ok ((n + 2) % 2 ^ 16))

  abbrev pub get_nv_max_buffer_size : Action (QueryError E) S ℕ
  get_nv_max_buffer_size = get_size 0x12c 0xffff

  abbrev pub get_min_pcr_select_size : Action (QueryError E) S ℕ
  get_min_pcr_select_size = get_size 0x113 0xff

  -- IsAlgorithmSupported and IsCommandSupported
  abbrev pub is_algorithm_supported : ℕ → S → Bool × S
  is_algorithm_supported alg s = succeeds (get_item 0 alg s)

  abbrev pub is_command_supported : ℕ → S → Bool × S
  is_command_supported code s = succeeds (get_item 2 code s)

  -- Whether the first handle from `asked` is `wanted`.
  abbrev pub first_handle_is : ℕ → ℕ → S → Bool × S
  first_handle_is asked wanted s =
      let found : Action (QueryError E) S Item = (do
        items ← get_items 1 asked 1
        done (first_is wanted items)) in
      succeeds (found s)

  -- DoesHandleExist
  unfoldable pub does_handle_exist : ℕ → S → Bool × S
  does_handle_exist handle =
      let asked =
        if handle_type handle == handle_type_saved_session
        then with_type handle_type_loaded_session handle
        else handle in
      first_handle_is asked handle

  -- DoesSavedSessionExist
  unfoldable pub does_saved_session_exist : ℕ → S → Bool × S
  does_saved_session_exist handle s =
      let found =
        first_handle_is (with_type handle_type_saved_session handle)
          (with_type handle_type_hmac_session handle) s in
      if (handle_type handle == handle_type_hmac_session)
        || (handle_type handle == handle_type_policy_session)
      then found
      else (false, s)

  -- IsECCCurveSupported. All curves from the first one on are asked for.
  unfoldable pub is_ecc_curve_supported : ℕ → S → Bool × S
  is_ecc_curve_supported curve s =
      let (r, s') = get_items 8 1 (2 ^ 32 - 1) s in
      (elim r [ ok items ↦ any_is curve items | _ ↦ false ], s')

-- InitProperties: the properties that TPMContext keeps.
pub record Properties : Type 0 where
  pub max_buffer_size : ℕ
  pub max_nv_buffer_size : ℕ
  pub min_pcr_select_size : ℕ

unfoldable pub init_properties : {S E : Type 0} → Asked S E → Action (QueryError E) S Properties
init_properties raw = do
  buffer ← get_max_buffer_size raw
  nv_buffer ← get_nv_max_buffer_size raw
  pcr_select ← get_min_pcr_select_size raw
  done (
      ok (record {
        max_buffer_size = buffer;
        max_nv_buffer_size = nv_buffer;
        min_pcr_select_size = pcr_select;
      }))
