-- ===== src/Mu/Api.antt =====
-- The functions that the package exports: marshal, unmarshal, MarshalToBytes, UnmarshalFromBytes,
-- CopyValue, IsValid and DeepEqual of mu.go, over lists of arguments.
use go_tpm.Base.{
  Bool, true, false, ◌&&◌, ◌==◌, List, [], ◌∷◌, ◌++◌, ◌≡◌, refl, if◌then◌else◌, Outcome, ok, err,
  panic, ◌>>=◌, ==_iff, arith,
}
use go_tpm.Mu.Types.{Options, no_options, Value, ref, MuError, GoType, ptr, zero_of}
use go_tpm.Mu.Bytes.{Bytes}
use go_tpm.Mu.Select.{no_struct}
use go_tpm.Mu.Marshal.{Written, marshal_value}
use go_tpm.Mu.Unmarshal.{Parsed, unmarshal_value}

-- An argument: its type, the options of its wrapper, and its value.
pub record Arg : Type 0 where
  pub go_type : GoType
  pub options : Options
  pub value : Value

-- Raw
abbrev pub raw : Arg → Arg
raw a = record a { options = record no_options { raw = true } }

-- Sized
abbrev pub sized : Arg → Arg
sized a = record a { options = record no_options { sized = true } }

-- The loop of marshaller.marshal, and MarshalToBytes.
unfoldable pub marshal_to_bytes : List Arg → Written
marshal_to_bytes [] = ok []
marshal_to_bytes (a ∷ rest) = do
  xs ← marshal_value a.go_type a.options no_struct a.value
  ys ← marshal_to_bytes rest
  ok (xs ++ ys)

-- MustMarshalToBytes
unfoldable pub must_marshal_to_bytes : List Arg → Written
must_marshal_to_bytes args = elim (marshal_to_bytes args) [
  | ok xs ↦ ok xs
  | err e ↦ panic
  | panic ↦ panic
]

-- One destination, which has to be a pointer that is not nil.
abbrev pub unmarshal_arg : GoType → Options → Value → Bytes → Parsed Value
unmarshal_arg (ptr t) o (ref dst) input = unmarshal_value t o no_struct dst input
unmarshal_arg _ o _ input = panic

-- The loop of unmarshaller.unmarshal, and UnmarshalFromBytes: what the destinations point to
-- afterwards, and the bytes that are left.
unfoldable pub unmarshal_from_bytes : List Arg → Bytes → Parsed (List Value)
unmarshal_from_bytes [] input = ok ([], input)
unmarshal_from_bytes (a ∷ args) input = do
  (v, rest) ← unmarshal_arg a.go_type a.options a.value input
  (vs, rest') ← unmarshal_from_bytes args rest
  ok (v ∷ vs, rest')

abbrev pub first_of : List Value × Bytes → Outcome MuError Value
first_of (v ∷ vs, rest) = ok v
first_of ([], rest) = panic

-- copyValue, into a destination of type `ptr t`: what the destination points to afterwards.
unfoldable pub copy_value : GoType → Value → Arg → Outcome MuError Value
copy_value t dst src = do
  bs ← marshal_to_bytes (src ∷ [])
  out ← unmarshal_from_bytes (record { go_type = t; options = src.options; value = dst } ∷ []) bs
  first_of out

-- copyValue into an empty interface: the source is copied to a new value of its own type.
unfoldable pub copy_to_interface : Arg → Outcome MuError Value
copy_to_interface src = copy_value (ptr src.go_type) (ref (zero_of src.go_type)) src

-- IsValid
unfoldable pub is_valid : Arg → Bool
is_valid a = elim (copy_to_interface a) [ ok v ↦ true | err e ↦ false | panic ↦ false ]

-- bytes.Equal
abbrev pub bytes_equal : Bytes → Bytes → Bool
bytes_equal [] [] = true
bytes_equal (x ∷ xs) (y ∷ ys) = x == y && bytes_equal xs ys
bytes_equal _ _ = false

-- DeepEqual. `same_type` is what comparing the types by reflection tells.
unfoldable pub deep_equal : Bool → Arg → Arg → Bool
deep_equal same_type x y =
    if same_type
    then elim (must_marshal_to_bytes (x ∷ [])) [
      | ok xs ↦ elim (must_marshal_to_bytes (y ∷ [])) [
        | ok ys ↦ bytes_equal xs ys
        | err e ↦ false
        | panic ↦ false
      ]
      | err e ↦ false
      | panic ↦ false
    ]
    else false

pub bytes_equal-≡ : (xs ys : Bytes) → bytes_equal xs ys ≡ true → xs ≡ ys
bytes_equal-≡ [] [] h = refl
bytes_equal-≡ (x ∷ xs) (y ∷ ys) h = ground (arith, ==_iff x y, bytes_equal-≡ xs ys)
bytes_equal-≡ [] (y ∷ ys) h = cc
bytes_equal-≡ (x ∷ xs) [] h = cc

pub bytes_equal_refl : (xs : Bytes) → bytes_equal xs xs ≡ true
bytes_equal_refl [] = refl
bytes_equal_refl (x ∷ xs) = ground (arith, ==_iff x x, bytes_equal_refl xs)
