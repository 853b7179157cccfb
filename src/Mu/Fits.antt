-- ===== src/Mu/Fits.antt =====
-- The values that survive the wire: `Fits t o out inn dst v` says that a value v of type t, written
-- at the options o and the stack top `out`, can be read back into dst at the stack top `inn`.
use go_tpm.Base.{
  ℕ, zero, suc, ◌^◌, ◌≤◌, ◌<◌, ◌≡◌, ◌≢◌, Bool, Option, none, some, [], ◌++◌, length, if◌then◌else◌,
  ok,
}
use go_tpm.Mu.Types.{
  Options, no_options, Value, Values, num, nil, ref, bytes, list, fields, no_values, value, count,
  append, GoType, Fields, Selected, invalid, nil_union_value, member, bool_type, number, ptr, slice,
  struct, union, array, custom, other, end, field, zero_of, Codec,
}
use go_tpm.Mu.Kind.{TpmKind, tpm_kind, is_uint8}
use go_tpm.Mu.Bytes.{Bytes}
use go_tpm.Mu.Select.{Top, no_struct, inside, selector_value}
use go_tpm.Mu.Marshal.{Written, enter_sized_type, marshal_value}
use go_tpm.Mu.Unmarshal.{Parsed, pointee, snoc}

-- What is written is read back, whatever follows it.
abbrev pub Reads : {A : Type 0} → (Bytes → Parsed A) → Bytes → A → Type 0
Reads read bs v = (rest : Bytes) → read (bs ++ rest) ≡ ok (v, rest)

abbrev pub AllValues : (Value → Type 0) → Values → Type 0
AllValues P no_values = Unit
AllValues P (value v vs) = P v × AllValues P vs

-- An ignored field keeps its value.
abbrev pub KindFits : Option TpmKind → Value → Value → (TpmKind → Type 0) → Type 0
KindFits none dst v fits = ⊥
KindFits (some TpmKind.ignore) dst v fits = v ≡ dst
KindFits (some k) dst v fits = fits k

-- A number within its width.
abbrev pub NumberFits : ℕ → Value → Type 0
NumberFits bound (num x) = x < bound
NumberFits bound _ = ⊥

-- An empty slice would come back nil.
abbrev pub SizedFits : Value → Type 0
SizedFits nil = Unit
SizedFits (bytes xs) = 1 ≤ length xs
SizedFits _ = ⊥

-- The destination of raw bytes has their length.
abbrev pub RawFits : Value → Value → Type 0
RawFits nil nil = Unit
RawFits (bytes ys) (bytes xs) = length ys ≡ length xs
RawFits _ _ = ⊥

abbrev pub RawListFits : (Value → Type 0) → Value → Value → Type 0
RawListFits fits nil nil = Unit
RawListFits fits (list ws) (list vs) = (count ws ≡ count vs) × AllValues fits vs
RawListFits fits _ _ = ⊥

abbrev pub ListFits : (Value → Type 0) → Value → Type 0
ListFits fits nil = Unit
ListFits fits (list vs) = (1 ≤ count vs) × AllValues fits vs
ListFits fits _ = ⊥

abbrev pub SliceFits : TpmKind → Bool → (Value → Type 0) → Value → Value → Type 0
SliceFits TpmKind.sized1_bytes is_bytes fits dst v =
    if is_bytes then SizedFits v else ListFits fits v
SliceFits TpmKind.raw is_bytes fits dst v =
    if is_bytes then RawFits dst v else RawListFits fits dst v
SliceFits TpmKind.sized is_bytes fits dst v = SizedFits v
SliceFits TpmKind.list is_bytes fits dst v = ListFits fits v
SliceFits _ is_bytes fits dst v = ⊥

-- A pointer to a sized struct may be nil, and a struct that is written as no bytes would come back
-- nil. Any other pointer is not nil, since nil comes back as a pointer to the zero value.
abbrev pub PointerFits :
    TpmKind
    → Value
    → (Options → Value → Value → Type 0)
    → (Options → Value → Written)
    → Options
    → Value
    → Value
    → Type 0
PointerFits TpmKind.sized zero_value fits write o dst nil = Unit
PointerFits TpmKind.sized zero_value fits write o dst (ref v) =
    fits (enter_sized_type o) (pointee zero_value dst) v × (write (enter_sized_type o) v ≢ ok [])
PointerFits TpmKind.unsupported zero_value fits write o dst (ref v) =
    fits o (pointee zero_value dst) v
PointerFits _ zero_value fits write o dst v = ⊥

abbrev pub ArrayFits : ℕ → Value → Type 0
ArrayFits n (bytes xs) = length xs ≡ n
ArrayFits n _ = ⊥

-- The promise of a custom type: its Unmarshal reads back what its Marshal wrote.
abbrev pub CodecFits : Codec → Value → Value → Type 0
CodecFits c dst v = (bs : Bytes) → c.marshal v ≡ ok bs → Reads (c.unmarshal dst) bs v

abbrev pub FieldsFit : Value → Value → (Values → Values → Type 0) → Type 0
FieldsFit (fields ds) (fields vs) fits = fits ds vs
FieldsFit _ _ fits = ⊥

-- The selector has to select something, and the members that it does not select keep their values.
abbrev pub SelectedFits : Selected → Values → Values → (ℕ → Type 0) → Type 0
SelectedFits invalid ds vs fits = ⊥
SelectedFits nil_union_value ds vs fits = vs ≡ ds
SelectedFits (member i) ds vs fits = fits i

abbrev pub SelectorFits : Option ℕ → (ℕ → Type 0) → Type 0
SelectorFits none fits = ⊥
SelectorFits (some n) fits = fits n

unfoldable mutual
  pub Fits : GoType → Options → Top → Top → Value → Value → Type 0
  Fits bool_type o out inn dst v = KindFits (tpm_kind bool_type o) dst v (λ k. NumberFits 2 v)
  Fits (number signed w) o out inn dst v =
      KindFits (tpm_kind (number signed w) o) dst v (λ k. NumberFits (256 ^ w) v)
  Fits (ptr t) o out inn dst v = KindFits (tpm_kind (ptr t) o) dst v (λ k.
      PointerFits k (zero_of t) (λ o' d w. Fits t o' out inn d w) (λ o' w. marshal_value t o' out w)
        o dst v)
  Fits (slice name t) o out inn dst v = KindFits (tpm_kind (slice name t) o) dst v (λ k.
      SliceFits k (is_uint8 t) (λ w. Fits t no_options no_struct no_struct (zero_of t) w) dst v)
  Fits (struct fs) o out inn dst v =
      KindFits (tpm_kind (struct fs) o) dst v
        (λ k. FieldsFit dst v (λ ds vs. StructFits fs (inside fs vs) fs no_values ds vs))
  Fits (union select fs) o out inn dst v = KindFits (tpm_kind (union select fs) o) dst v (λ k.
      FieldsFit dst v (λ ds vs.
        (selector_value o inn ≡ selector_value o out)
        × SelectorFits (selector_value o out)
            (λ n. SelectedFits (select n) ds vs (λ i. MemberFits fs i ds vs))))
  Fits (array n t) o out inn dst v = KindFits (tpm_kind (array n t) o) dst v (λ k. ArrayFits n v)
  Fits (custom c) o out inn dst v = KindFits (tpm_kind (custom c) o) dst v (λ k. CodecFits c dst v)
  Fits other o out inn dst v = KindFits (tpm_kind other o) dst v (λ k. ⊥)

  pub StructFits : Fields → Top → Fields → Values → Values → Values → Type 0
  StructFits end out whole done no_values no_values = Unit
  StructFits (field name o t fs) out whole done (value d ds) (value v vs) =
      Fits t o out (inside whole (append done (value d ds))) d v
      × StructFits fs out whole (snoc done v) ds vs
  StructFits _ out whole done _ _ = ⊥

  pub MemberFits : Fields → ℕ → Values → Values → Type 0
  MemberFits (field name o t fs) zero (value d ds) (value v vs) =
      Fits t no_options no_struct no_struct d v × (vs ≡ ds)
  MemberFits (field name o t fs) (suc i) (value d ds) (value v vs) = (v ≡ d) × MemberFits fs i ds vs
  MemberFits _ i _ _ = ⊥
