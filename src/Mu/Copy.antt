-- ===== src/Mu/Copy.antt =====
-- What the exported functions promise of values that fit: lists of arguments, copies, and equality.
use go_tpm.Base.{
  true, List, [], ◌∷◌, ◌++◌, map, ◌≡◌, ◌↔◌, sym, ap, ◌∙◌, ok, >>=-eq-ok, ok-injective,
}
use mathlib.Core.List.{append_assoc, append-nil}
use go_tpm.Mu.Types.{Options, Value, ref, GoType, ptr, zero_of}
use go_tpm.Mu.Bytes.{Bytes}
use go_tpm.Mu.Select.{no_struct}
use go_tpm.Mu.Marshal.{marshal_value}
use go_tpm.Mu.Fits.{Fits}
use go_tpm.Mu.RoundTrip.{unmarshal_value-marshal_value}
use go_tpm.Mu.Api.{
  Arg, marshal_to_bytes, must_marshal_to_bytes, unmarshal_from_bytes, copy_value, copy_to_interface,
  is_valid, deep_equal, bytes_equal, bytes_equal-≡, bytes_equal_refl,
}

-- An argument that can be read back over the value `dst`.
abbrev pub ArgFits : Value → Arg → Type 0
ArgFits dst a = Fits a.go_type a.options no_struct no_struct dst a.value

-- Each argument, over the destination of its own.
abbrev pub ArgsFit : List Value → List Arg → Type 0
ArgsFit [] [] = Unit
ArgsFit (d ∷ ds) (a ∷ args) = ArgFits d a × ArgsFit ds args
ArgsFit _ _ = ⊥

-- Pointers to the destinations, for values of the types of the arguments.
abbrev pub pointers : List Value → List Arg → List Arg
pointers (d ∷ ds) (a ∷ args) =
    record { go_type = ptr a.go_type; options = a.options; value = ref d } ∷ pointers ds args
pointers _ _ = []

-- What MarshalToBytes writes of arguments that fit is read back by UnmarshalFromBytes into pointers
-- to the destinations, argument by argument, and the bytes that follow are left.
pub unmarshal_from_bytes-marshal_to_bytes :
    (args : List Arg) (ds : List Value) (bs rest : Bytes)
    → ArgsFit ds args
    → marshal_to_bytes args ≡ ok bs
    → unmarshal_from_bytes (pointers ds args) (bs ++ rest) ≡ ok (map (λ a. a.value) args, rest)
unfolding marshal_to_bytes unmarshal_from_bytes
unmarshal_from_bytes-marshal_to_bytes [] [] bs rest f e = rw (← ok-injective e)
unmarshal_from_bytes-marshal_to_bytes (a ∷ args) (d ∷ ds) bs rest f e =
    let (xs, e1, e') = >>=-eq-ok (marshal_value a.go_type a.options no_struct a.value) _ e in
    let (ys, e2, e3) = >>=-eq-ok (marshal_to_bytes args) _ e' in
    rw (
      ← ok-injective e3,
      append_assoc,
      unmarshal_value-marshal_value a.go_type a.options no_struct no_struct d a.value xs
          (ys ++ rest) f.0 e1,
      unmarshal_from_bytes-marshal_to_bytes args ds ys rest f.1 e2,
    )
unmarshal_from_bytes-marshal_to_bytes [] (d ∷ ds) bs rest f e = absurd f
unmarshal_from_bytes-marshal_to_bytes (a ∷ args) [] bs rest f e = absurd f

-- CopyValue of a value that fits the destination and can be marshalled stores the value itself.
pub copy_value-ok :
    (a : Arg) (dst : Value) (bs : Bytes)
    → ArgFits dst a
    → marshal_to_bytes (a ∷ []) ≡ ok bs
    → copy_value (ptr a.go_type) (ref dst) a ≡ ok a.value
unfolding copy_value
copy_value-ok a dst bs f e =
    let back : unmarshal_from_bytes (pointers (dst ∷ []) (a ∷ [])) bs ≡ ok (a.value ∷ [], []) =
      rw append-nil at
        (unmarshal_from_bytes-marshal_to_bytes (a ∷ []) (dst ∷ []) bs [] (f, tt) e) in
    rw (e, back)

-- IsValid is true of a value that fits the zero value of its type and that can be marshalled.
pub is_valid_of_fits :
    (a : Arg) (bs : Bytes)
    → ArgFits (zero_of a.go_type) a
    → marshal_to_bytes (a ∷ []) ≡ ok bs
    → is_valid a ≡ true
unfolding is_valid copy_to_interface
is_valid_of_fits a bs f e =
    rw (is_valid, copy_to_interface, copy_value-ok a (zero_of a.go_type) bs f e)

module _ (t : GoType) (o : Options) where
  abbrev arg : Value → Arg
  arg v = record { go_type = t; options = o; value = v }

  one :
      (v : Value) (bs : Bytes)
      → marshal_value t o no_struct v ≡ ok bs
      → marshal_to_bytes (arg v ∷ []) ≡ ok bs
  unfolding marshal_to_bytes
  one v bs e = rw (e, append-nil)

  -- DeepEqual compares the bytes.
  deep_equal_bytes :
      (v w : Value) (xs ys : Bytes)
      → marshal_value t o no_struct v ≡ ok xs
      → marshal_value t o no_struct w ≡ ok ys
      → deep_equal true (arg v) (arg w) ≡ bytes_equal xs ys
  unfolding deep_equal must_marshal_to_bytes
  deep_equal_bytes v w xs ys ev ew = rw (one v xs ev, one w ys ew)

  bytes_determine :
      (dst v w : Value) (xs : Bytes)
      → Fits t o no_struct no_struct dst v
      → Fits t o no_struct no_struct dst w
      → marshal_value t o no_struct v ≡ ok xs
      → marshal_value t o no_struct w ≡ ok xs
      → v ≡ w
  bytes_determine dst v w xs fv fw ev ew =
      let back_v = unmarshal_value-marshal_value t o no_struct no_struct dst v xs [] fv ev in
      let back_w = unmarshal_value-marshal_value t o no_struct no_struct dst w xs [] fw ew in cc

  -- DeepEqual of two values of one type that fit a common destination and that can be marshalled is
  -- true exactly when the values are equal.
  pub deep_equal_iff :
      (dst v w : Value) (xs ys : Bytes)
      → Fits t o no_struct no_struct dst v
      → Fits t o no_struct no_struct dst w
      → marshal_value t o no_struct v ≡ ok xs
      → marshal_value t o no_struct w ≡ ok ys
      → (deep_equal true (arg v) (arg w) ≡ true) ↔ (v ≡ w)
  deep_equal_iff dst v w xs ys fv fw ev ew = (
    λ h.
        let same : xs ≡ ys = bytes_equal-≡ xs ys (sym (deep_equal_bytes v w xs ys ev ew) ∙ h) in
        bytes_determine dst v w xs fv fw ev (ew ∙ ap ok (sym same)),
    λ h.
        let same : xs ≡ ys =
          ok-injective (sym ev ∙ ap (λ u. marshal_value t o no_struct u) h ∙ ew) in
        rw (deep_equal_bytes v w xs ys ev ew, same, bytes_equal_refl),
  )
