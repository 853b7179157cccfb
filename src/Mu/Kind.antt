-- ===== src/Mu/Kind.antt =====
-- tpmKind and DetermineTPMKind of mu.go: how a Go type is treated.
use go_tpm.Base.{
  ℕ, ◌+◌, Bool, true, false, not, ◌&&◌, ◌||◌, Option, none, some, ◌==◌, ltb, if◌then◌else◌,
}
use text.Mathlib.Text.{◌==◌ as str_eq}
use go_tpm.Mu.Types.{
  Options, GoType, Fields, SliceName, bool_type, number, ptr, slice, array, other, end, field,
  sized1_bytes_type, raw_bytes_type,
}

pub data TpmKind : Type 0 where
  unsupported primitive sized list struct tagged_union union custom raw sized1_bytes fixed_bytes
        ignore :
      TpmKind

-- `t.Kind() == reflect.Struct`
abbrev pub is_struct_kind : GoType → Bool
is_struct_kind (GoType.struct fs) = true
is_struct_kind (GoType.union select fs) = true
is_struct_kind (GoType.custom c) = c.is_struct
is_struct_kind _ = false

-- `t.Kind() == reflect.Uint8`
abbrev pub is_uint8 : GoType → Bool
is_uint8 (number false w) = w == 1
is_uint8 _ = false

-- isUnion: the type, or the one that a pointer points to, implements Union.
abbrev pub is_union : GoType → Bool
is_union (GoType.union select fs) = true
is_union (ptr (GoType.union select fs)) = true
is_union _ = false

-- `for i := 0; i < t.NumField(); i++ { if isUnion(t.Field(i).Type) ... }`
abbrev pub has_union : Fields → Bool
has_union end = false
has_union (field name o t fs) = is_union t || has_union fs

abbrev one_if : Bool → ℕ
one_if b = if b then 1 else 0

abbrev pub size_specifiers : Options → ℕ
size_specifiers o = one_if o.sized + one_if o.raw + one_if o.sized1

abbrev pub has_selector : Options → Bool
has_selector o = not (str_eq o.selector "")

-- The options that a type without a size or a selector refuses.
abbrev pub is_plain : Options → Bool
is_plain o = size_specifiers o == 0 && not (has_selector o)

abbrev is_sized1_type : SliceName → Bool
is_sized1_type sized1_bytes_type = true
is_sized1_type _ = false

abbrev is_raw_type : SliceName → Bool
is_raw_type raw_bytes_type = true
is_raw_type _ = false

-- The switch on t.Kind(), after the custom types. `none` is an error.
abbrev pub kind_of_type : GoType → Options → Option TpmKind
kind_of_type bool_type o = if is_plain o then some primitive else none
kind_of_type (number signed w) o = if is_plain o then some primitive else none
kind_of_type (ptr t) o =
    if not (is_struct_kind t)
    then some unsupported
    else if o.sized
    then some sized
    else some unsupported
kind_of_type (slice name t) o =
    if o.sized || has_selector o
    then none
    else if o.raw && is_sized1_type name
    then none
    else if is_sized1_type name || o.sized1
    then some sized1_bytes
    else if is_raw_type name || o.raw
    then some raw
    else if is_uint8 t
    then some sized
    else some list
kind_of_type (GoType.struct fs) o =
    if ltb 0 (size_specifiers o)
    then none
    else if has_selector o
    then none
    else if has_union fs
    then some tagged_union
    else some struct
kind_of_type (GoType.union select fs) o =
    if ltb 0 (size_specifiers o) then none else if has_union fs then none else some union
kind_of_type (array n t) o =
    if not (is_plain o) then none else if not (is_uint8 t) then none else some fixed_bytes
kind_of_type (GoType.custom c) o = if is_plain o then some custom else none
kind_of_type other o = none

unfoldable pub tpm_kind : GoType → Options → Option TpmKind
tpm_kind t o =
    if o.ignore then some ignore else if ltb 1 (size_specifiers o) then none else kind_of_type t o

-- DetermineTPMKind: pointers are dereferenced while the kind is unsupported. A pointer alone has that
-- kind without an error.
unfoldable pub determine_tpm_kind : GoType → Options → TpmKind
unfolding tpm_kind
determine_tpm_kind (ptr t) o = elim (tpm_kind (ptr t) o) [
  | none ↦ unsupported
  | some unsupported ↦ determine_tpm_kind t o
  | some k ↦ k
]
determine_tpm_kind t o = elim (tpm_kind t o) [ none ↦ unsupported | some k ↦ k ]
