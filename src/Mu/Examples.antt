-- ===== src/Mu/Examples.antt =====
-- The theorems on the wire format, at small structures of the TPM's.
use go_tpm.Base.{
  ℕ, zero, suc, ◌≡◌, ◌↔◌, refl, true, false, arith, replicate, [], ◌∷◌, ◌++◌, ok, err,
}
use go_tpm.Mu.Types.{
  Options, no_options, Value, num, nil, ref, bytes, fields, no_values, value,
  sized1_value_too_large, Selected, invalid, nil_union_value, member, other_slice,
  sized1_bytes_type, zero_of, GoType, number, ptr, slice, struct, union, end, field,
}
use go_tpm.Mu.Bytes.{Bytes, read_full, read_number, big_endian, from_big_endian}
use go_tpm.Mu.Kind.{tpm_kind}
use go_tpm.Mu.Select.{no_struct, selector_value, field_at, field_by_name, unsigned_value}
use go_tpm.Mu.Marshal.{marshal_value}
use go_tpm.Mu.Unmarshal.{unmarshal_value}
use go_tpm.Mu.Fits.{Fits}
use go_tpm.Mu.RoundTrip.{unmarshal_value-marshal_value}
use go_tpm.Mu.Api.{Arg, marshal_to_bytes, unmarshal_from_bytes, deep_equal}
use go_tpm.Mu.Copy.{unmarshal_from_bytes-marshal_to_bytes, deep_equal_iff}
use go_tpm.Mu.Errors.{EveryCodec, IsSizeError, marshal_to_bytes-IsSizeError}

abbrev byte_type : GoType
byte_type = number false 1

abbrev word : GoType
word = number false 2

abbrev selected_by : ℕ → Selected
selected_by zero = invalid
selected_by (suc zero) = member 0
selected_by (suc (suc n)) = nil_union_value

-- A union of a sized buffer, for the selector 1, and of nothing, for any larger one.
abbrev buffer_or_none : GoType
buffer_or_none = union selected_by (field "Buffer" no_options (slice other_slice byte_type) end)

-- A structure of a selector and the union, as in a TPMT type.
abbrev tagged : GoType
tagged = struct (field "Type" no_options word (field "Data" no_options buffer_or_none end))

abbrev tagged_value : ℕ → Value → Value
tagged_value n v = fields (value (num n) (value (fields (value v no_values)) no_values))

-- A pointer to it, in a field with the tag "sized".
abbrev sized_options : Options
sized_options = record no_options { sized = true }

abbrev buffer_value : Value
buffer_value = tagged_value 1 (bytes (7 ∷ 8 ∷ []))

abbrev buffer_bytes : Bytes
buffer_bytes = 0 ∷ 6 ∷ 0 ∷ 1 ∷ 0 ∷ 2 ∷ 7 ∷ 8 ∷ []

abbrev sized_arg : Arg
sized_arg = record { go_type = ptr tagged; options = sized_options; value = ref buffer_value }

sized-Fits : Fits (ptr tagged) sized_options no_struct no_struct nil (ref buffer_value)
unfolding Fits tpm_kind marshal_value big_endian selector_value field_at field_by_name
    unsigned_value zero_of
sized-Fits = ((omega arith, ((refl, (omega arith, refl)), tt)), λ e. cc)

sized-written :
    marshal_value (ptr tagged) sized_options no_struct (ref buffer_value) ≡ ok buffer_bytes
unfolding marshal_value tpm_kind big_endian selector_value field_at field_by_name unsigned_value
    zero_of
sized-written = refl

unmarshal_value-marshal_value_example :
    unmarshal_value (ptr tagged) sized_options no_struct nil (buffer_bytes ++ 99 ∷ [])
    ≡ ok (ref buffer_value, 99 ∷ [])
unmarshal_value-marshal_value_example =
    unmarshal_value-marshal_value (ptr tagged) sized_options no_struct no_struct nil
      (ref buffer_value) buffer_bytes (99 ∷ []) sized-Fits sized-written

-- A number before it.
abbrev number_arg : Arg
number_arg = record { go_type = word; options = no_options; value = num 258 }

args-written : marshal_to_bytes (number_arg ∷ sized_arg ∷ []) ≡ ok (1 ∷ 2 ∷ buffer_bytes)
unfolding marshal_to_bytes marshal_value tpm_kind big_endian selector_value field_at field_by_name
    unsigned_value zero_of
args-written = refl

number-Fits : Fits word no_options no_struct no_struct (num 0) (num 258)
unfolding Fits tpm_kind
number-Fits = omega arith

unmarshal_from_bytes-marshal_to_bytes_example :
    unmarshal_from_bytes
      (record { go_type = ptr word; options = no_options; value = ref (num 0) }
        ∷ record { go_type = ptr (ptr tagged); options = sized_options; value = ref nil }
        ∷ [])
      ((1 ∷ 2 ∷ buffer_bytes) ++ 99 ∷ [])
    ≡ ok (num 258 ∷ ref buffer_value ∷ [], 99 ∷ [])
unmarshal_from_bytes-marshal_to_bytes_example =
    unmarshal_from_bytes-marshal_to_bytes (number_arg ∷ sized_arg ∷ []) (num 0 ∷ nil ∷ [])
      (1 ∷ 2 ∷ buffer_bytes) (99 ∷ []) (number-Fits, (sized-Fits, tt)) args-written

sized_arg-written : marshal_to_bytes (sized_arg ∷ []) ≡ ok buffer_bytes
unfolding marshal_to_bytes marshal_value tpm_kind big_endian selector_value field_at field_by_name
    unsigned_value zero_of
sized_arg-written = refl

number-written : (n : ℕ) → marshal_value word no_options no_struct (num n) ≡ ok (big_endian 2 n)
unfolding marshal_value tpm_kind
number-written n = refl

two-Fits : Fits word no_options no_struct no_struct (num 0) (num 2)
unfolding Fits tpm_kind
two-Fits = omega arith

deep_equal_iff_example :
    (deep_equal true number_arg (record { go_type = word; options = no_options; value = num 2 })
      ≡ true)
    ↔ (num 258 ≡ num 2)
deep_equal_iff_example =
    deep_equal_iff word no_options (num 0) (num 258) (num 2) (big_endian 2 258) (big_endian 2 2)
      number-Fits two-Fits (number-written 258) (number-written 2)

-- 256 bytes in a Sized1Bytes.
abbrev long_arg : Arg
long_arg = record {
  go_type = slice sized1_bytes_type byte_type;
  options = no_options;
  value = bytes (replicate 256 0);
}

long-refused : marshal_to_bytes (long_arg ∷ []) ≡ err (sized1_value_too_large 256)
unfolding marshal_to_bytes marshal_value tpm_kind
long-refused = refl

marshal_to_bytes-IsSizeError_example : IsSizeError (sized1_value_too_large 256)
unfolding EveryCodec
marshal_to_bytes-IsSizeError_example =
    marshal_to_bytes-IsSizeError (long_arg ∷ []) (sized1_value_too_large 256) (tt, tt) long-refused

word-read :
    unmarshal_from_bytes
      (record { go_type = ptr word; options = no_options; value = ref (num 0) } ∷ [])
      (1 ∷ 2 ∷ 3 ∷ [])
    ≡ ok (num 258 ∷ [], 3 ∷ [])
unfolding unmarshal_from_bytes unmarshal_value tpm_kind read_number read_full from_big_endian
word-read = refl
