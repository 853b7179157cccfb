-- ===== src/Mu/Marshal.antt =====
-- The marshaller of mu.go. The writer is a buffer that takes every byte.
use go_tpm.Base.{
  ℕ, zero, suc, ◌-◌, ◌^◌, Bool, false, Option, none, some, [], ◌++◌, length, ltb, if◌then◌else◌,
  Outcome, ok, err, panic, ◌>>=◌,
}
use go_tpm.Mu.Types.{
  Options, no_options, Value, Values, num, nil, ref, bytes, list, fields, no_values, value, count,
  MuError, sized_value_too_large, sized1_value_too_large, slice_length_out_of_range, GoType, Fields,
  Selected, invalid, nil_union_value, member, bool_type, number, ptr, slice, struct, union, array,
  custom, other, end, field, zero_of,
}
use go_tpm.Mu.Kind.{TpmKind, tpm_kind, is_uint8}
use go_tpm.Mu.Bytes.{Bytes, big_endian}
use go_tpm.Mu.Select.{Top, no_struct, inside, selector_value}

abbrev pub Written : Type 0
Written = Outcome MuError Bytes

-- The start of marshalValue: an unsupported type panics, and an ignored field writes nothing.
abbrev pub with_kind : Option TpmKind → (TpmKind → Written) → Written
with_kind none write = panic
with_kind (some TpmKind.ignore) write = ok []
with_kind (some k) write = write k

-- marshalPrimitive
abbrev pub marshal_primitive : ℕ → Value → Written
marshal_primitive w (num x) = ok (big_endian w x)
marshal_primitive w _ = panic

-- The bytes of a slice; a nil slice has none.
abbrev pub marshal_raw_bytes : Value → Written
marshal_raw_bytes nil = ok []
marshal_raw_bytes (bytes xs) = ok xs
marshal_raw_bytes _ = panic

-- marshalFixedBytes
abbrev pub marshal_fixed_bytes : Value → Written
marshal_fixed_bytes (bytes xs) = ok xs
marshal_fixed_bytes _ = panic

-- The end of marshalSized: the size, and what stands in the temporary buffer.
abbrev pub sized_buffer : Bytes → Written
sized_buffer xs =
    if ltb (2 ^ 16 - 1) (length xs)
    then err (sized_value_too_large (length xs))
    else ok (big_endian 2 (length xs) ++ xs)

-- marshalSized1Bytes
abbrev pub sized1_buffer : Bytes → Written
sized1_buffer xs =
    if ltb (2 ^ 8 - 1) (length xs)
    then err (sized1_value_too_large (length xs))
    else ok (big_endian 1 (length xs) ++ xs)

-- The loop of marshalRawList.
unfoldable pub marshal_elems : (Value → Written) → Values → Written
marshal_elems write no_values = ok []
marshal_elems write (value v vs) = do xs ← write v; rest ← marshal_elems write vs; ok (xs ++ rest)

-- marshalRaw of a slice whose elements are no bytes.
abbrev pub marshal_raw_list : (Value → Written) → Value → Written
marshal_raw_list write nil = ok []
marshal_raw_list write (list vs) = marshal_elems write vs
marshal_raw_list write _ = panic

abbrev pub max_list_length : ℕ
max_list_length = 2 ^ 31 - 1

-- marshalList
abbrev pub marshal_list : (Value → Written) → Value → Written
marshal_list write nil = ok (big_endian 4 0)
marshal_list write (list vs) =
    if ltb max_list_length (count vs)
    then err (slice_length_out_of_range (count vs))
    else (do rest ← marshal_elems write vs; ok (big_endian 4 (count vs) ++ rest))
marshal_list write _ = panic

-- marshalSized1Bytes of a slice whose elements are no bytes: the size is the number of elements.
abbrev pub sized1_list : (Value → Written) → Value → Written
sized1_list write nil = ok (big_endian 1 0)
sized1_list write (list vs) =
    if ltb (2 ^ 8 - 1) (count vs)
    then err (sized1_value_too_large (count vs))
    else (do rest ← marshal_elems write vs; ok (big_endian 1 (count vs) ++ rest))
sized1_list write _ = panic

-- A slice, by its kind. A byte slice that is marked as sized is written as raw into the buffer.
abbrev pub marshal_slice : TpmKind → Bool → (Value → Written) → Value → Written
marshal_slice TpmKind.sized1_bytes is_bytes write v =
    if is_bytes then (do xs ← marshal_raw_bytes v; sized1_buffer xs) else sized1_list write v
marshal_slice TpmKind.raw is_bytes write v =
    if is_bytes then marshal_raw_bytes v else marshal_raw_list write v
marshal_slice TpmKind.sized is_bytes write nil = ok (big_endian 2 0)
marshal_slice TpmKind.sized is_bytes write v = do xs ← marshal_raw_bytes v; sized_buffer xs
marshal_slice TpmKind.list is_bytes write v = marshal_list write v
marshal_slice _ is_bytes write v = panic

-- enterSizedType for a pointer.
abbrev pub enter_sized_type : Options → Options
enter_sized_type o = record o { sized = false }

-- A pointer: marshalSized of a sized struct, or marshalPtr, which takes the zero value for nil.
-- marshalSized calls marshalValue on the pointer once more, and there it is not sized any longer.
abbrev pub marshal_pointer :
    TpmKind → Value → (Options → Value → Written) → Options → Value → Written
marshal_pointer TpmKind.sized zero_value write o nil = ok (big_endian 2 0)
marshal_pointer TpmKind.sized zero_value write o (ref v) = do
  xs ← write (enter_sized_type o) v
  sized_buffer xs
marshal_pointer TpmKind.unsupported zero_value write o nil = write o zero_value
marshal_pointer TpmKind.unsupported zero_value write o (ref v) = write o v
marshal_pointer _ zero_value write o v = panic

-- marshalUnion, from what Select returned. An invalid selector writes nothing.
abbrev pub marshal_selected : Selected → (ℕ → Written) → Written
marshal_selected invalid write = ok []
marshal_selected nil_union_value write = ok []
marshal_selected (member i) write = write i

abbrev pub at_selector : Option ℕ → (ℕ → Written) → Written
at_selector none write = panic
at_selector (some n) write = write n

-- The fields of a struct or union value.
abbrev pub with_fields : Value → (Values → Written) → Written
with_fields (fields vs) write = write vs
with_fields _ write = panic

unfoldable mutual
  -- marshalValue, at the options of the field that the value stands in and the top of the stack.
  pub marshal_value : GoType → Options → Top → Value → Written
  marshal_value bool_type o top v = with_kind (tpm_kind bool_type o) (λ k. marshal_primitive 1 v)
  marshal_value (number signed w) o top v =
      with_kind (tpm_kind (number signed w) o) (λ k. marshal_primitive w v)
  marshal_value (ptr t) o top v =
      with_kind (tpm_kind (ptr t) o)
        (λ k. marshal_pointer k (zero_of t) (λ o' w. marshal_value t o' top w) o v)
  marshal_value (slice name t) o top v =
      with_kind (tpm_kind (slice name t) o)
        (λ k. marshal_slice k (is_uint8 t) (λ w. marshal_value t no_options no_struct w) v)
  marshal_value (struct fs) o top v =
      with_kind (tpm_kind (struct fs) o)
        (λ k. with_fields v (λ vs. marshal_fields fs (inside fs vs) vs))
  marshal_value (union select fs) o top v = with_kind (tpm_kind (union select fs) o) (λ k.
      with_fields v (λ vs.
        at_selector (selector_value o top)
          (λ n. marshal_selected (select n) (λ i. marshal_member fs i vs))))
  marshal_value (array n t) o top v =
      with_kind (tpm_kind (array n t) o) (λ k. marshal_fixed_bytes v)
  marshal_value (custom c) o top v = with_kind (tpm_kind (custom c) o) (λ k. c.marshal v)
  marshal_value other o top v = with_kind (tpm_kind other o) (λ k. panic)

  -- The loop of marshalStruct, at the whole struct.
  pub marshal_fields : Fields → Top → Values → Written
  marshal_fields end top no_values = ok []
  marshal_fields end top (value v vs) = panic
  marshal_fields (field name o t fs) top no_values = panic
  marshal_fields (field name o t fs) top (value v vs) = do
    xs ← marshal_value t o top v
    rest ← marshal_fields fs top vs
    ok (xs ++ rest)

  -- The member of a union that was selected. A member that is not there panics.
  pub marshal_member : Fields → ℕ → Values → Written
  marshal_member end i vs = panic
  marshal_member (field name o t fs) i no_values = panic
  marshal_member (field name o t fs) zero (value v vs) = marshal_value t no_options no_struct v
  marshal_member (field name o t fs) (suc i) (value v vs) = marshal_member fs i vs
