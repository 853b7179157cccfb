-- ===== src/Mu/Errors.antt =====
-- Which errors marshalling can end with.
use go_tpm.Base.{
  ℕ, zero, suc, ◌^◌, ◌-◌, ◌<◌, ◌≡◌, Bool, true, false, Option, none, some, List, [], ◌∷◌, ltb,
  arith, ok, err, panic, ◌>>=◌, Bool-cases, inl, inr,
}
use mathlib.Core.Path.{subst}
use go_tpm.Mu.Types.{
  Options, no_options, Value, Values, num, nil, ref, bytes, list, fields, no_values, value, count,
  MuError, sized_value_too_large, sized1_value_too_large, slice_length_out_of_range, Codec, GoType,
  Fields, Selected, invalid, nil_union_value, member, bool_type, number, ptr, slice, struct, union,
  array, custom, other, end, field, zero_of,
}
use go_tpm.Mu.Kind.{TpmKind, tpm_kind, is_uint8}
use go_tpm.Mu.Bytes.{Bytes}
use go_tpm.Mu.Select.{Top, no_struct, inside, selector_value}
use go_tpm.Mu.Marshal.{
  Written, with_kind, marshal_primitive, marshal_raw_bytes, marshal_fixed_bytes, sized_buffer,
  sized1_buffer, sized1_list, marshal_elems, marshal_raw_list, marshal_list, marshal_slice,
  marshal_pointer, marshal_selected, at_selector, with_fields, max_list_length, marshal_value,
  marshal_fields, marshal_member, enter_sized_type,
}
use go_tpm.Mu.Api.{Arg, marshal_to_bytes}

-- A promise of every custom type that a type is made of.
unfoldable mutual
  pub EveryCodec : (Codec → Type 0) → GoType → Type 0
  EveryCodec P (ptr t) = EveryCodec P t
  EveryCodec P (slice name t) = EveryCodec P t
  EveryCodec P (struct fs) = EveryFieldCodec P fs
  EveryCodec P (union select fs) = EveryFieldCodec P fs
  EveryCodec P (custom c) = P c
  EveryCodec P _ = Unit

  pub EveryFieldCodec : (Codec → Type 0) → Fields → Type 0
  EveryFieldCodec P end = Unit
  EveryFieldCodec P (field name o t fs) = EveryCodec P t × EveryFieldCodec P fs

-- A sized value that is longer than its size field can tell, or a list that is too long.
abbrev pub IsSizeError : MuError → Type 0
IsSizeError (sized_value_too_large n) = 2 ^ 16 - 1 < n
IsSizeError (sized1_value_too_large n) = 2 ^ 8 - 1 < n
IsSizeError (slice_length_out_of_range n) = 2 ^ 31 - 1 < n
IsSizeError _ = ⊥

-- If there is an error, it is about a size.
abbrev pub OnlySize : Written → Type 0
OnlySize (ok xs) = Unit
OnlySize (err e) = IsSizeError e
OnlySize panic = Unit

abbrev pub CodecOnlySize : Codec → Type 0
CodecOnlySize c = (v : Value) → OnlySize (c.marshal v)

bind_only :
    (m : Written) (f : Bytes → Written)
    → OnlySize m
    → ((xs : Bytes) → OnlySize (f xs))
    → OnlySize (m >>= f)
bind_only (ok xs) f hm hf = hf xs
bind_only (err e) f hm hf = hm
bind_only panic f hm hf = tt

kind_only :
    (k : Option TpmKind) (write : TpmKind → Written)
    → ((k' : TpmKind) → OnlySize (write k'))
    → OnlySize (with_kind k write)
kind_only none write h = tt
kind_only (some TpmKind.ignore) write h = tt
kind_only (some k) write h = h k

number_only : (w : ℕ) (v : Value) → OnlySize (marshal_primitive w v)
number_only w (num x) = tt
number_only w _ = tt

raw_bytes_only : (v : Value) → OnlySize (marshal_raw_bytes v)
raw_bytes_only nil = tt
raw_bytes_only (bytes xs) = tt
raw_bytes_only _ = tt

fixed_only : (v : Value) → OnlySize (marshal_fixed_bytes v)
fixed_only (bytes xs) = tt
fixed_only _ = tt

sized_buffer_only : (xs : Bytes) → OnlySize (sized_buffer xs)
sized_buffer_only xs = ground arith

sized1_buffer_only : (xs : Bytes) → OnlySize (sized1_buffer xs)
sized1_buffer_only xs = ground arith

module _ (write : Value → Written) (h : (v : Value) → OnlySize (write v)) where
  elems_only : (vs : Values) → OnlySize (marshal_elems write vs)
  unfolding marshal_elems
  elems_only no_values = tt
  elems_only (value v vs) =
      bind_only (write v) _ (h v)
        (λ xs. bind_only (marshal_elems write vs) _ (elems_only vs) (λ ys. tt))

  raw_list_only : (v : Value) → OnlySize (marshal_raw_list write v)
  raw_list_only nil = tt
  raw_list_only (list vs) = elems_only vs
  raw_list_only _ = tt

  list_only : (v : Value) → OnlySize (marshal_list write v)
  list_only nil = tt
  list_only (list vs) = elim (Bool-cases (ltb max_list_length (count vs))) [
    | inl long ↦ rw long (ground arith)
    | inr short ↦ rw short (bind_only (marshal_elems write vs) _ (elems_only vs) (λ ys. tt))
  ]
  list_only _ = tt

  sized1_list_only : (v : Value) → OnlySize (sized1_list write v)
  sized1_list_only nil = tt
  sized1_list_only (list vs) = elim (Bool-cases (ltb (2 ^ 8 - 1) (count vs))) [
    | inl long ↦ rw long (ground arith)
    | inr short ↦ rw short (bind_only (marshal_elems write vs) _ (elems_only vs) (λ ys. tt))
  ]
  sized1_list_only _ = tt

  slice_only :
      (k : TpmKind) (is_bytes : Bool) (v : Value) → OnlySize (marshal_slice k is_bytes write v)
  slice_only TpmKind.sized1_bytes false v = sized1_list_only v
  slice_only TpmKind.sized1_bytes true v =
      bind_only (marshal_raw_bytes v) sized1_buffer (raw_bytes_only v) sized1_buffer_only
  slice_only TpmKind.raw true v = raw_bytes_only v
  slice_only TpmKind.raw false v = raw_list_only v
  slice_only TpmKind.sized is_bytes nil = tt
  slice_only TpmKind.sized is_bytes v =
      bind_only (marshal_raw_bytes v) sized_buffer (raw_bytes_only v) sized_buffer_only
  slice_only TpmKind.list is_bytes v = list_only v
  slice_only _ is_bytes v = tt

pointer_only :
    (k : TpmKind) (zero_value : Value) (write : Options → Value → Written) (o : Options) (v : Value)
    → ((o' : Options) (w : Value) → OnlySize (write o' w))
    → OnlySize (marshal_pointer k zero_value write o v)
pointer_only TpmKind.sized zero_value write o nil h = tt
pointer_only TpmKind.sized zero_value write o (ref v) h =
    bind_only (write (enter_sized_type o) v) sized_buffer (h (enter_sized_type o) v)
      sized_buffer_only
pointer_only TpmKind.unsupported zero_value write o nil h = h o zero_value
pointer_only TpmKind.unsupported zero_value write o (ref v) h = h o v
pointer_only _ zero_value write o v h = tt

selected_only :
    (s : Selected) (write : ℕ → Written)
    → ((i : ℕ) → OnlySize (write i))
    → OnlySize (marshal_selected s write)
selected_only invalid write h = tt
selected_only nil_union_value write h = tt
selected_only (member i) write h = h i

selector_only :
    (s : Option ℕ) (write : ℕ → Written)
    → ((n : ℕ) → OnlySize (write n))
    → OnlySize (at_selector s write)
selector_only none write h = tt
selector_only (some n) write h = h n

fields_only :
    (v : Value) (write : Values → Written)
    → ((vs : Values) → OnlySize (write vs))
    → OnlySize (with_fields v write)
fields_only (fields vs) write h = h vs
fields_only _ write h = tt

mutual
  unfolding marshal_value EveryCodec

  value_only :
      (t : GoType) (o : Options) (top : Top) (v : Value)
      → EveryCodec CodecOnlySize t
      → OnlySize (marshal_value t o top v)
  value_only bool_type o top v c = kind_only (tpm_kind bool_type o) _ (λ k. number_only 1 v)
  value_only (number signed w) o top v c =
      kind_only (tpm_kind (number signed w) o) _ (λ k. number_only w v)
  value_only (ptr t) o top v c = kind_only (tpm_kind (ptr t) o) _ (λ k.
      pointer_only k (zero_of t) (λ o' w. marshal_value t o' top w) o v
        (λ o' w. value_only t o' top w c))
  value_only (slice name t) o top v c = kind_only (tpm_kind (slice name t) o) _ (λ k.
      slice_only (λ w. marshal_value t no_options no_struct w)
        (λ w. value_only t no_options no_struct w c) k (is_uint8 t) v)
  value_only (struct fs) o top v c = kind_only (tpm_kind (struct fs) o) _ (λ k.
      fields_only v (λ vs. marshal_fields fs (inside fs vs) vs)
        (λ vs. struct_only fs (inside fs vs) vs c))
  value_only (union select fs) o top v c = kind_only (tpm_kind (union select fs) o) _ (λ k.
      fields_only v _ (λ vs.
        selector_only (selector_value o top) _ (λ n.
          selected_only (select n) (λ i. marshal_member fs i vs) (λ i. member_only fs i vs c))))
  value_only (array n t) o top v c = kind_only (tpm_kind (array n t) o) _ (λ k. fixed_only v)
  value_only (custom codec) o top v c = kind_only (tpm_kind (custom codec) o) _ (λ k. c v)
  value_only other o top v c = kind_only (tpm_kind other o) _ (λ k. tt)

  struct_only :
      (fs : Fields) (top : Top) (vs : Values)
      → EveryFieldCodec CodecOnlySize fs
      → OnlySize (marshal_fields fs top vs)
  struct_only end top no_values c = tt
  struct_only end top (value v vs) c = tt
  struct_only (field name o t fs) top no_values c = tt
  struct_only (field name o t fs) top (value v vs) c =
      bind_only (marshal_value t o top v) _ (value_only t o top v c.0)
        (λ xs. bind_only (marshal_fields fs top vs) _ (struct_only fs top vs c.1) (λ ys. tt))

  member_only :
      (fs : Fields) (i : ℕ) (vs : Values)
      → EveryFieldCodec CodecOnlySize fs
      → OnlySize (marshal_member fs i vs)
  member_only end i vs c = tt
  member_only (field name o t fs) i no_values c = tt
  member_only (field name o t fs) zero (value v vs) c = value_only t no_options no_struct v c.0
  member_only (field name o t fs) (suc i) (value v vs) c = member_only fs i vs c.1

abbrev pub ArgsOnlySize : List Arg → Type 0
ArgsOnlySize [] = Unit
ArgsOnlySize (a ∷ args) = EveryCodec CodecOnlySize a.go_type × ArgsOnlySize args

args_only : (args : List Arg) → ArgsOnlySize args → OnlySize (marshal_to_bytes args)
unfolding marshal_to_bytes
args_only [] h = tt
args_only (a ∷ args) h =
    bind_only (marshal_value a.go_type a.options no_struct a.value) _
      (value_only a.go_type a.options no_struct a.value h.0)
      (λ xs. bind_only (marshal_to_bytes args) _ (args_only args h.1) (λ ys. tt))

-- If the custom types among the arguments only return errors about sizes, then an error of
-- MarshalToBytes is about a size: a sized value of more than 65535 bytes, a value or list with a
-- size field of one byte and more than 255 bytes or elements, or a list of more than 2^31 - 1
-- elements.
pub marshal_to_bytes-IsSizeError :
    (args : List Arg) (e : MuError)
    → ArgsOnlySize args
    → marshal_to_bytes args ≡ err e
    → IsSizeError e
marshal_to_bytes-IsSizeError args e h eq = subst OnlySize eq (args_only args h)
