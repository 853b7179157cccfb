-- ===== src/Mu/RoundTrip/Containers.antt =====
-- The round trip of slices and of pointers, for any way to write and to read their elements.
use go_tpm.Base.{
  ◌-◌, ◌^◌, ◌≡◌, ◌≢◌, refl, ap, ◌∙◌, Bool, true, false, [], ◌∷◌, ◌++◌, length, take-append,
  drop-append, arith, ltb, ◌==◌, ok, ◌>>=◌, >>=-eq-ok, ok-injective, Bool-cases, inl, inr,
}
use mathlib.Core.List.{append_assoc, append-nil}
use go_tpm.Mu.Types.{Options, Value, Values, nil, ref, list, no_values, value, count}
use go_tpm.Mu.Kind.{TpmKind}
use go_tpm.Mu.Bytes.{Bytes, big_endian, read_number-big_endian}
use go_tpm.Mu.Marshal.{
  Written, sized_buffer, sized1_list, marshal_elems, marshal_raw_list, marshal_list, marshal_slice,
  marshal_pointer, enter_sized_type, max_list_length,
}
use go_tpm.Mu.Unmarshal.{
  Parsed, unmarshal_elems, unmarshal_raw_list, unmarshal_list, unmarshal_sized1_list,
  unmarshal_slice, unmarshal_pointer, unmarshal_pointee, pointee, limited,
}
use go_tpm.Mu.Fits.{Reads, AllValues, RawListFits, ListFits, SliceFits, PointerFits}
use go_tpm.Mu.RoundTrip.Scalars.{
  sized_buffer_ok, sized1_bytes-Reads, sized_bytes-Reads, raw_bytes-Reads,
}

module _ (write : Value → Written) (read : Bytes → Parsed Value) (fits : Value → Type 0)
    (step : (v : Value) (bs : Bytes) → fits v → write v ≡ ok bs → Reads read bs v) where
  elems_read :
      (vs : Values) (bs : Bytes)
      → AllValues fits vs
      → marshal_elems write vs ≡ ok bs
      → Reads (unmarshal_elems read (count vs)) bs vs
  unfolding marshal_elems unmarshal_elems
  elems_read no_values bs f e rest = rw (← ok-injective e)
  elems_read (value v vs) bs (fv, fvs) e rest =
      let (xs, e1, e') = >>=-eq-ok (write v) _ e in
      let (ys, e2, e3) = >>=-eq-ok (marshal_elems write vs) _ e' in
      rw (
        ← ok-injective e3,
        append_assoc,
        step v xs fv e1 (ys ++ rest),
        elems_read vs ys fvs e2 rest,
      )

  pub raw_list-Reads :
      (dst v : Value) (bs : Bytes)
      → RawListFits fits dst v
      → marshal_raw_list write v ≡ ok bs
      → Reads (unmarshal_raw_list read dst) bs v
  raw_list-Reads nil nil bs f e rest = rw (← ok-injective e)
  raw_list-Reads (list ws) (list vs) bs f e rest = rw (f.0, elems_read vs bs f.1 e rest)
  raw_list-Reads _ _ bs f e rest = absurd f

  pub list-Reads :
      (v : Value) (bs : Bytes)
      → ListFits fits v
      → marshal_list write v ≡ ok bs
      → Reads (unmarshal_list read) bs v
  list-Reads nil bs f e rest = rw (← ok-injective e, read_number-big_endian 4 0 rest (omega arith))
  list-Reads (list vs) bs f e rest = elim (Bool-cases (ltb max_list_length (count vs))) [
    | inl long ↦ absurd (ground arith)
    | inr short ↦
        let e' : (marshal_elems write vs >>= λ ys. ok (big_endian 4 (count vs) ++ ys)) ≡ ok bs =
          rw short at e in
        let (xs, e1, e2) = >>=-eq-ok (marshal_elems write vs) _ e' in
        let nonempty : (count vs == 0) ≡ false = ground arith in
        rw (
          ← ok-injective e2,
          append_assoc,
          read_number-big_endian 4 (count vs) (xs ++ rest) (ground arith),
          short,
          nonempty,
          elems_read vs xs f.1 e1 rest,
        )
  ]
  list-Reads _ bs f e rest = absurd f

  sized1_list-Reads :
      (v : Value) (bs : Bytes)
      → ListFits fits v
      → sized1_list write v ≡ ok bs
      → Reads (unmarshal_sized1_list read) bs v
  sized1_list-Reads nil bs f e rest =
      rw (← ok-injective e, read_number-big_endian 1 0 rest (omega arith))
  sized1_list-Reads (list vs) bs f e rest = elim (Bool-cases (ltb (2 ^ 8 - 1) (count vs))) [
    | inl long ↦ absurd (ground arith)
    | inr short ↦
        let e' : (marshal_elems write vs >>= λ ys. ok (big_endian 1 (count vs) ++ ys)) ≡ ok bs =
          rw short at e in
        let (xs, e1, e2) = >>=-eq-ok (marshal_elems write vs) _ e' in
        let nonempty : (count vs == 0) ≡ false = ground arith in
        rw (
          ← ok-injective e2,
          append_assoc,
          read_number-big_endian 1 (count vs) (xs ++ rest) (ground arith),
          nonempty,
          elems_read vs xs f.1 e1 rest,
        )
  ]
  sized1_list-Reads _ bs f e rest = absurd f

  pub slice-Reads :
      (k : TpmKind) (is_bytes : Bool) (dst v : Value) (bs : Bytes)
      → SliceFits k is_bytes fits dst v
      → marshal_slice k is_bytes write v ≡ ok bs
      → Reads (unmarshal_slice k is_bytes read dst) bs v
  slice-Reads TpmKind.sized1_bytes true dst v bs f e = sized1_bytes-Reads v bs f e
  slice-Reads TpmKind.sized1_bytes false dst v bs f e = sized1_list-Reads v bs f e
  slice-Reads TpmKind.raw true dst v bs f e = raw_bytes-Reads dst v bs f e
  slice-Reads TpmKind.raw false dst v bs f e = raw_list-Reads dst v bs f e
  slice-Reads TpmKind.sized is_bytes dst v bs f e = sized_bytes-Reads is_bytes write v bs f e
  slice-Reads TpmKind.list is_bytes dst v bs f e = list-Reads v bs f e
  slice-Reads _ is_bytes dst v bs f e = absurd f

not_empty : (xs : Bytes) → xs ≢ [] → (length xs == 0) ≡ false
not_empty [] h = absurd (h refl)
not_empty (x ∷ xs) h = ground arith

-- A limited reader whose bytes are all taken leaves what it does not reach.
limited-Reads :
    {A : Type 0} (read : Bytes → Parsed A) (xs : Bytes) (a : A)
    → Reads read xs a
    → Reads (limited (length xs) read) xs a
limited-Reads read xs a r rest =
    let whole : read xs ≡ ok (a, []) = rw append-nil at (r []) in
    rw (take-append xs rest, whole, drop-append xs rest)

module _ (zero_value : Value) (write : Options → Value → Written)
    (read : Options → Value → Bytes → Parsed Value) (fits : Options → Value → Value → Type 0)
    (step : (o : Options) (dst v : Value) (bs : Bytes)
      → fits o dst v
      → write o v ≡ ok bs
      → Reads (read o dst) bs v) where
  pointee-Reads :
      (o : Options) (dst v : Value) (bs : Bytes)
      → fits o dst v
      → write o v ≡ ok bs
      → Reads (unmarshal_pointee (read o) dst) bs (ref v)
  pointee-Reads o dst v bs f e rest = rw (step o dst v bs f e rest)

  pub pointer-Reads :
      (k : TpmKind) (o : Options) (dst v : Value) (bs : Bytes)
      → PointerFits k zero_value fits write o dst v
      → marshal_pointer k zero_value write o v ≡ ok bs
      → Reads (unmarshal_pointer k zero_value read o dst) bs v
  pointer-Reads TpmKind.sized o dst nil bs f e rest =
      rw (← ok-injective e, read_number-big_endian 2 0 rest (omega arith))
  pointer-Reads TpmKind.sized o dst (ref v) bs f e rest =
      let o' = enter_sized_type o in
      let (xs, e1, e2) = >>=-eq-ok (write o' v) sized_buffer e in
      let (small, whole) = sized_buffer_ok xs bs e2 in
      let nonempty : (length xs == 0) ≡ false = not_empty xs (λ empty. f.1 (e1 ∙ ap ok empty)) in
      rw (← whole, append_assoc, read_number-big_endian 2 (length xs) (xs ++ rest) small, nonempty)
        (limited-Reads (unmarshal_pointee (read o') (pointee zero_value dst)) xs (ref v)
          (pointee-Reads o' (pointee zero_value dst) v xs f.0 e1) rest)
  pointer-Reads TpmKind.unsupported o dst (ref v) bs f e rest =
      pointee-Reads o (pointee zero_value dst) v bs f e rest
  pointer-Reads _ o dst v bs f e rest = absurd f
