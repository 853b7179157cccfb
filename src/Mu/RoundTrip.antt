-- ===== src/Mu/RoundTrip.antt =====
-- The round trip of values: marshalValue and unmarshalValue.
mod Scalars
mod Containers
use go_tpm.Base.{
  ℕ, zero, suc, ◌^◌, ◌≡◌, refl, sym, ap, ◌∙◌, Option, none, some, List, [], ◌∷◌, ◌++◌, arith,
  Outcome, ok, err, panic, ◌>>=◌, >>=-eq-ok, ok-injective,
}
use mathlib.Core.List.{append_assoc}
use mathlib.Core.Path.{subst}
use go_tpm.Mu.Types.{
  Options, no_options, Value, Values, fields, no_values, value, append, Selected, invalid,
  nil_union_value, member, GoType, Fields, bool_type, number, ptr, slice, struct, union, array,
  custom, other, end, field, zero_of,
}
use go_tpm.Mu.Kind.{TpmKind, tpm_kind, is_uint8}
use go_tpm.Mu.Bytes.{Bytes}
use go_tpm.Mu.Select.{Top, no_struct, inside, selector_value}
use go_tpm.Mu.Marshal
use go_tpm.Mu.Marshal.{Written, marshal_value, marshal_fields, marshal_member, marshal_selected}
use go_tpm.Mu.Unmarshal
use go_tpm.Mu.Unmarshal.{
  Parsed, snoc, unmarshal_primitive, unmarshal_bool, unmarshal_fixed_bytes, unmarshal_slice,
  unmarshal_pointer, unmarshal_value, unmarshal_fields, unmarshal_member, unmarshal_selected,
}
use go_tpm.Mu.Fits.{
  Reads, KindFits, FieldsFit, SelectedFits, SelectorFits, Fits, StructFits, MemberFits,
}
use Scalars.{kind-Reads, number-Reads, bool-Reads, array-Reads}
use Containers.{slice-Reads, pointer-Reads}

-- A union whose member reads back, and which was selected the same way on both sides.
selected-Reads :
    (s : Selected) (n : ℕ) (ds vs : Values) (bs : Bytes) (fits : ℕ → Type 0) (write : ℕ → Written)
    (read : ℕ → Bytes → Parsed Values)
    → ((i : ℕ) → fits i → write i ≡ ok bs → Reads (read i) bs vs)
    → SelectedFits s ds vs fits
    → marshal_selected s write ≡ ok bs
    → Reads (λ input. unmarshal_selected s n ds (λ i. read i input) input) bs (fields vs)
selected-Reads invalid n ds vs bs fits write read step f e rest = absurd f
selected-Reads nil_union_value n ds vs bs fits write read step f e rest = rw (← ok-injective e, f)
selected-Reads (member i) n ds vs bs fits write read step f e rest = rw (step i f e rest)

selector-Reads :
    (out inn : Option ℕ) (v : Value) (bs : Bytes) (fits : ℕ → Type 0) (write : ℕ → Written)
    (read : ℕ → Bytes → Parsed Value)
    → ((n : ℕ) → fits n → write n ≡ ok bs → Reads (read n) bs v)
    → inn ≡ out
    → SelectorFits out fits
    → Marshal.at_selector out write ≡ ok bs
    → Reads (λ input. Unmarshal.at_selector inn (λ n. read n input)) bs v
selector-Reads none inn v bs fits write read step same f e rest = absurd f
selector-Reads (some n) inn v bs fits write read step same f e rest = rw same (step n f e rest)

fields_read :
    (dst v : Value) (bs : Bytes) (fits : Values → Values → Type 0) (write : Values → Written)
    (read : Values → Bytes → Parsed Value)
    → ((ds vs : Values) → fits ds vs → write vs ≡ ok bs → Reads (read ds) bs (fields vs))
    → FieldsFit dst v fits
    → Marshal.with_fields v write ≡ ok bs
    → Reads (λ input. Unmarshal.with_fields dst (λ ds. read ds input)) bs v
fields_read (fields ds) (fields vs) bs fits write read step f e rest = step ds vs f e rest
fields_read _ _ bs fits write read step f e rest = absurd f

as_fields :
    (read : Bytes → Parsed Values) (vs : Values) (bs : Bytes)
    → Reads read bs vs
    → Reads (λ input. do (ws, rest) ← read input; ok (fields ws, rest)) bs (fields vs)
as_fields read vs bs r rest = rw (r rest)

append-snoc :
    (done : Values) (v : Value) (vs : Values) → append (snoc done v) vs ≡ append done (value v vs)
append-snoc no_values v vs = refl
append-snoc (value w done) v vs = ap (value w) (append-snoc done v vs)

append_none : (vs : Values) → append vs no_values ≡ vs
append_none no_values = refl
append_none (value v vs) = ap (value v) (append_none vs)

mutual
  unfolding marshal_value unmarshal_value Fits

  value-Reads :
      (t : GoType) (o : Options) (out inn : Top) (dst v : Value) (bs : Bytes)
      → Fits t o out inn dst v
      → marshal_value t o out v ≡ ok bs
      → Reads (unmarshal_value t o inn dst) bs v
  value-Reads bool_type o out inn dst v bs f e =
      kind-Reads (tpm_kind bool_type o) dst v bs _ _ (λ k. unmarshal_bool) (λ k. bool-Reads v bs) f
        e
  value-Reads (number signed w) o out inn dst v bs f e =
      kind-Reads (tpm_kind (number signed w) o) dst v bs _ _ (λ k. unmarshal_primitive w)
        (λ k. number-Reads w v bs) f e
  value-Reads (ptr t) o out inn dst v bs f e =
      let read : Options → Value → Bytes → Parsed Value =
        λ o' d input. unmarshal_value t o' inn d input in
      kind-Reads (tpm_kind (ptr t) o) dst v bs _ _
        (λ k input. unmarshal_pointer k (zero_of t) read o dst input)
        (λ k.
          pointer-Reads (zero_of t) (λ o' w. marshal_value t o' out w) read
            (λ o' d w. Fits t o' out inn d w) (λ o' d w bs'. value-Reads t o' out inn d w bs') k o
            dst v bs)
        f e
  value-Reads (slice name t) o out inn dst v bs f e =
      let read : Bytes → Parsed Value =
        λ input. unmarshal_value t no_options no_struct (zero_of t) input in
      kind-Reads (tpm_kind (slice name t) o) dst v bs _ _
        (λ k input. unmarshal_slice k (is_uint8 t) read dst input)
        (λ k.
          slice-Reads (λ w. marshal_value t no_options no_struct w) read
            (λ w. Fits t no_options no_struct no_struct (zero_of t) w)
            (λ w bs'. value-Reads t no_options no_struct no_struct (zero_of t) w bs') k (is_uint8 t)
            dst v bs)
        f e
  value-Reads (struct fs) o out inn dst v bs f e =
      let read : Values → Bytes → Parsed Value = λ ds input. (do
        (ws, rest) ← unmarshal_fields fs fs no_values ds input
        ok (fields ws, rest)) in
      kind-Reads (tpm_kind (struct fs) o) dst v bs _ _
        (λ k input. Unmarshal.with_fields dst (λ ds. read ds input))
        (λ k. fields_read dst v bs _ _ read (λ ds vs f' e'.
          as_fields (unmarshal_fields fs fs no_values ds) vs bs
            (struct-Reads fs (inside fs vs) fs no_values ds vs bs f' e')))
        f e
  value-Reads (union select fs) o out inn dst v bs f e =
      let member_at : Values → ℕ → Bytes → Parsed Values =
        λ ds i input. unmarshal_member fs i ds input in
      let read_at : Values → ℕ → Bytes → Parsed Value =
        λ ds n input. unmarshal_selected (select n) n ds (λ i. member_at ds i input) input in
      let read : Values → Bytes → Parsed Value =
        λ ds input. Unmarshal.at_selector (selector_value o inn) (λ n. read_at ds n input) in
      kind-Reads (tpm_kind (union select fs) o) dst v bs _ _
        (λ k input. Unmarshal.with_fields dst (λ ds. read ds input))
        (λ k. fields_read dst v bs _ _ read (λ ds vs f'.
          selector-Reads (selector_value o out) (selector_value o inn) (fields vs) bs _ _
            (read_at ds)
            (λ n.
              selected-Reads (select n) n ds vs bs _ _ (member_at ds)
                (λ i. member-Reads fs i ds vs bs))
            f'.0 f'.1))
        f e
  value-Reads (array n t) o out inn dst v bs f e =
      kind-Reads (tpm_kind (array n t) o) dst v bs _ _ (λ k. unmarshal_fixed_bytes n)
        (λ k. array-Reads n v bs) f e
  value-Reads (custom c) o out inn dst v bs f e =
      kind-Reads (tpm_kind (custom c) o) dst v bs _ _ (λ k. c.unmarshal dst) (λ k g. g bs) f e
  value-Reads other o out inn dst v bs f e =
      kind-Reads (tpm_kind other o) dst v bs _ _ (λ k input. panic) (λ k g. absurd g) f e

  struct-Reads :
      (fs : Fields) (out : Top) (whole : Fields) (done ds vs : Values) (bs : Bytes)
      → StructFits fs out whole done ds vs
      → marshal_fields fs out vs ≡ ok bs
      → Reads (unmarshal_fields fs whole done ds) bs (append done vs)
  struct-Reads end out whole done no_values no_values bs f e rest =
      rw (← ok-injective e, append_none done)
  struct-Reads (field name o t fs) out whole done (value d ds) (value v vs) bs f e rest =
      let (xs, e1, e') = >>=-eq-ok (marshal_value t o out v) _ e in
      let (ys, e2, e3) = >>=-eq-ok (marshal_fields fs out vs) _ e' in
      let now =
        value-Reads t o out (inside whole (append done (value d ds))) d v xs f.0 e1 (ys ++ rest) in
      let later = struct-Reads fs out whole (snoc done v) ds vs ys f.1 e2 rest in
      rw (← ok-injective e3, append_assoc, now, later, append-snoc done v vs)
  struct-Reads end out whole done (value d ds) vs bs f e rest = absurd f
  struct-Reads end out whole done no_values (value v vs) bs f e rest = absurd f
  struct-Reads (field name o t fs) out whole done no_values vs bs f e rest = absurd f
  struct-Reads (field name o t fs) out whole done (value d ds) no_values bs f e rest = absurd f

  member-Reads :
      (fs : Fields) (i : ℕ) (ds vs : Values) (bs : Bytes)
      → MemberFits fs i ds vs
      → marshal_member fs i vs ≡ ok bs
      → Reads (unmarshal_member fs i ds) bs vs
  member-Reads (field name o t fs) zero (value d ds) (value v vs) bs f e rest =
      rw (value-Reads t no_options no_struct no_struct d v bs f.0 e rest, f.1)
  member-Reads (field name o t fs) (suc i) (value d ds) (value v vs) bs f e rest =
      rw (member-Reads fs i ds vs bs f.1 e rest, f.0)
  member-Reads end i ds vs bs f e rest = absurd f
  member-Reads (field name o t fs) zero no_values vs bs f e rest = absurd f
  member-Reads (field name o t fs) (suc i) no_values vs bs f e rest = absurd f
  member-Reads (field name o t fs) zero (value d ds) no_values bs f e rest = absurd f
  member-Reads (field name o t fs) (suc i) (value d ds) no_values bs f e rest = absurd f

-- What marshalling writes of a value that fits its destination is read back into that destination,
-- and the bytes that follow are left.
pub unmarshal_value-marshal_value :
    (t : GoType) (o : Options) (out inn : Top) (dst v : Value) (bs rest : Bytes)
    → Fits t o out inn dst v
    → marshal_value t o out v ≡ ok bs
    → unmarshal_value t o inn dst (bs ++ rest) ≡ ok (v, rest)
unmarshal_value-marshal_value t o out inn dst v bs rest f e =
    value-Reads t o out inn dst v bs f e rest
