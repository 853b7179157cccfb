-- ===== src/Mu/Unmarshal.antt =====
-- The unmarshaller of mu.go. It reads into a value that is already there, and returns the new value
-- with the input that is left; on an error what has been stored is not modelled.
use go_tpm.Base.{
  ℕ, zero, suc, Bool, Option, none, some, ◌++◌, length, take, drop, ltb, ◌==◌, if◌then◌else◌,
  Outcome, ok, err, panic, ◌>>=◌,
}
use go_tpm.Mu.Types.{
  Options, no_options, Value, Values, num, nil, ref, bytes, list, fields, no_values, value, count,
  append, MuError, list_length_out_of_range, invalid_selector, GoType, Fields, Selected, invalid,
  nil_union_value, member, bool_type, number, ptr, slice, struct, union, array, custom, other, end,
  field, zero_of,
}
use go_tpm.Mu.Kind.{TpmKind, tpm_kind, is_uint8}
use go_tpm.Mu.Bytes.{Bytes, read_full, read_number}
use go_tpm.Mu.Select.{Top, no_struct, inside, selector_value}
use go_tpm.Mu.Marshal.{enter_sized_type, max_list_length}

abbrev pub Parsed : Type 0 → Type 0
Parsed A = Outcome MuError (A × Bytes)

-- The start of unmarshalValue: an ignored field keeps its value.
abbrev pub with_kind : Option TpmKind → Value → Bytes → (TpmKind → Parsed Value) → Parsed Value
with_kind none dst input read = panic
with_kind (some TpmKind.ignore) dst input read = ok (dst, input)
with_kind (some k) dst input read = read k

-- unmarshalPrimitive
abbrev pub unmarshal_primitive : ℕ → Bytes → Parsed Value
unmarshal_primitive w input = do (x, rest) ← read_number w input; ok (num x, rest)

-- A bool is true if its byte is not 0.
abbrev pub unmarshal_bool : Bytes → Parsed Value
unmarshal_bool input = do (x, rest) ← read_number 1 input; ok (num (if x == 0 then 0 else 1), rest)

abbrev pub unmarshal_fixed_bytes : ℕ → Bytes → Parsed Value
unmarshal_fixed_bytes n input = do (xs, rest) ← read_full n input; ok (bytes xs, rest)

-- unmarshalSized of a byte slice (w = 2) and unmarshalSized1Bytes (w = 1). A slice of size 0 is nil.
abbrev pub unmarshal_sized_bytes : ℕ → Bytes → Parsed Value
unmarshal_sized_bytes w input = do
  (size, rest) ← read_number w input
  if size == 0 then ok (nil, rest) else unmarshal_fixed_bytes size rest

-- unmarshalRaw into a byte slice: as many bytes as the slice holds.
abbrev pub unmarshal_raw_bytes : Value → Bytes → Parsed Value
unmarshal_raw_bytes nil input = ok (nil, input)
unmarshal_raw_bytes (bytes xs) input = unmarshal_fixed_bytes (length xs) input
unmarshal_raw_bytes _ input = panic

-- unmarshalRawList: n elements, each read into a zero value.
unfoldable pub unmarshal_elems : (Bytes → Parsed Value) → ℕ → Bytes → Parsed Values
unmarshal_elems read zero input = ok (no_values, input)
unmarshal_elems read (suc n) input = do
  (v, rest) ← read input
  (vs, rest') ← unmarshal_elems read n rest
  ok (value v vs, rest')

-- unmarshalRaw into any other slice: as many elements as the slice holds.
abbrev pub unmarshal_raw_list : (Bytes → Parsed Value) → Value → Bytes → Parsed Value
unmarshal_raw_list read nil input = ok (nil, input)
unmarshal_raw_list read (list vs) input = do
  (ws, rest) ← unmarshal_elems read (count vs) input
  ok (list ws, rest)
unmarshal_raw_list read _ input = panic

-- unmarshalList. A list of length 0 is nil.
abbrev pub unmarshal_list : (Bytes → Parsed Value) → Bytes → Parsed Value
unmarshal_list read input = do
  (n, rest) ← read_number 4 input
  if ltb max_list_length n
      then err (list_length_out_of_range n)
      else if n == 0
      then ok (nil, rest)
      else (do (vs, rest') ← unmarshal_elems read n rest; ok (list vs, rest'))

-- unmarshalSized1Bytes of a slice whose elements are no bytes.
abbrev pub unmarshal_sized1_list : (Bytes → Parsed Value) → Bytes → Parsed Value
unmarshal_sized1_list read input = do
  (n, rest) ← read_number 1 input
  if n == 0
      then ok (nil, rest)
      else (do (vs, rest') ← unmarshal_elems read n rest; ok (list vs, rest'))

abbrev pub unmarshal_slice : TpmKind → Bool → (Bytes → Parsed Value) → Value → Bytes → Parsed Value
unmarshal_slice TpmKind.sized1_bytes is_bytes read dst input =
    if is_bytes then unmarshal_sized_bytes 1 input else unmarshal_sized1_list read input
unmarshal_slice TpmKind.raw is_bytes read dst input =
    if is_bytes then unmarshal_raw_bytes dst input else unmarshal_raw_list read dst input
unmarshal_slice TpmKind.sized is_bytes read dst input = unmarshal_sized_bytes 2 input
unmarshal_slice TpmKind.list is_bytes read dst input = unmarshal_list read input
unmarshal_slice _ is_bytes read dst input = panic

-- What a pointer points to, made if the pointer is nil.
abbrev pub pointee : Value → Value → Value
pointee zero_value (ref v) = v
pointee zero_value _ = zero_value

-- unmarshalPtr
abbrev pub unmarshal_pointee : (Value → Bytes → Parsed Value) → Value → Bytes → Parsed Value
unmarshal_pointee read dst input = do (v, rest) ← read dst input; ok (ref v, rest)

-- A reader that is limited to `size` bytes. What it leaves is still before what it does not reach.
abbrev pub limited : {A : Type 0} → ℕ → (Bytes → Parsed A) → Bytes → Parsed A
limited size read input = do (v, rest) ← read (take size input); ok (v, rest ++ drop size input)

abbrev pub unmarshal_pointer :
    TpmKind
    → Value
    → (Options → Value → Bytes → Parsed Value)
    → Options
    → Value
    → Bytes
    → Parsed Value
unmarshal_pointer TpmKind.sized zero_value read o dst input = do
  (size, rest) ← read_number 2 input
  if size == 0
      then ok (nil, rest)
      else limited size (unmarshal_pointee (read (enter_sized_type o)) (pointee zero_value dst))
          rest
unmarshal_pointer TpmKind.unsupported zero_value read o dst input =
    unmarshal_pointee (read o) (pointee zero_value dst) input
unmarshal_pointer _ zero_value read o dst input = panic

-- unmarshalUnion, from what Select returned for the selector n.
abbrev pub unmarshal_selected : Selected → ℕ → Values → (ℕ → Parsed Values) → Bytes → Parsed Value
unmarshal_selected invalid n dst read input = err (invalid_selector n)
unmarshal_selected nil_union_value n dst read input = ok (fields dst, input)
unmarshal_selected (member i) n dst read input = do (vs, rest) ← read i; ok (fields vs, rest)

abbrev pub at_selector : Option ℕ → (ℕ → Parsed Value) → Parsed Value
at_selector none read = panic
at_selector (some n) read = read n

abbrev pub with_fields : Value → (Values → Parsed Value) → Parsed Value
with_fields (fields vs) read = read vs
with_fields _ read = panic

-- `done`, with `v` behind it.
abbrev pub snoc : Values → Value → Values
snoc done v = append done (value v no_values)

unfoldable mutual
  -- unmarshalValue
  pub unmarshal_value : GoType → Options → Top → Value → Bytes → Parsed Value
  unmarshal_value bool_type o top dst input =
      with_kind (tpm_kind bool_type o) dst input (λ k. unmarshal_bool input)
  unmarshal_value (number signed w) o top dst input =
      with_kind (tpm_kind (number signed w) o) dst input (λ k. unmarshal_primitive w input)
  unmarshal_value (ptr t) o top dst input =
      with_kind (tpm_kind (ptr t) o) dst input (λ k.
        unmarshal_pointer k (zero_of t) (λ o' w bs. unmarshal_value t o' top w bs) o dst input)
  unmarshal_value (slice name t) o top dst input =
      with_kind (tpm_kind (slice name t) o) dst input (λ k.
        unmarshal_slice k (is_uint8 t) (λ bs. unmarshal_value t no_options no_struct (zero_of t) bs)
          dst input)
  unmarshal_value (struct fs) o top dst input = with_kind (tpm_kind (struct fs) o) dst input (λ k.
      with_fields dst
        (λ vs. do (ws, rest) ← unmarshal_fields fs fs no_values vs input; ok (fields ws, rest)))
  unmarshal_value (union select fs) o top dst input =
      with_kind (tpm_kind (union select fs) o) dst input (λ k. with_fields dst (λ vs.
        at_selector (selector_value o top)
          (λ n. unmarshal_selected (select n) n vs (λ i. unmarshal_member fs i vs input) input)))
  unmarshal_value (array n t) o top dst input =
      with_kind (tpm_kind (array n t) o) dst input (λ k. unmarshal_fixed_bytes n input)
  unmarshal_value (custom c) o top dst input =
      with_kind (tpm_kind (custom c) o) dst input (λ k. c.unmarshal dst input)
  unmarshal_value other o top dst input = with_kind (tpm_kind other o) dst input (λ k. panic)

  -- The loop of unmarshalStruct. `whole` are all the fields, and `done` the values that have been
  -- read: the struct on the top of the stack holds these, and its old values from there on.
  pub unmarshal_fields : Fields → Fields → Values → Values → Bytes → Parsed Values
  unmarshal_fields end whole done no_values input = ok (done, input)
  unmarshal_fields end whole done (value v vs) input = panic
  unmarshal_fields (field name o t fs) whole done no_values input = panic
  unmarshal_fields (field name o t fs) whole done (value v vs) input = do
    (w, rest) ← unmarshal_value t o (inside whole (append done (value v vs))) v input
    unmarshal_fields fs whole (snoc done w) vs rest

  pub unmarshal_member : Fields → ℕ → Values → Bytes → Parsed Values
  unmarshal_member end i vs input = panic
  unmarshal_member (field name o t fs) i no_values input = panic
  unmarshal_member (field name o t fs) zero (value v vs) input = do
    (w, rest) ← unmarshal_value t no_options no_struct v input
    ok (value w vs, rest)
  unmarshal_member (field name o t fs) (suc i) (value v vs) input = do
    (ws, rest) ← unmarshal_member fs i vs input
    ok (value v ws, rest)
