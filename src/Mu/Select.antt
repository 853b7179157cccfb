-- ===== src/Mu/Select.antt =====
-- enterUnionElem of mu.go: the field of a union that a selector stands for.
use go_tpm.Base.{ℕ, zero, suc, false, Option, none, some, String, if◌then◌else◌}
use text.Mathlib.Text.{◌==◌ as str_eq}
use go_tpm.Mu.Types.{
  Options, Value, Values, num, no_values, value, GoType, Fields, number, end, field,
}
use go_tpm.Mu.Kind.{has_selector, has_union}

-- The top of the stack, where it is a struct: its fields and their values. Lists, unions and custom
-- types on the top leave `no_struct`.
pub data Top : Type 0 where
  no_struct : Top
  inside : Fields → Values → Top

-- The field at an index, with its value.
unfoldable pub field_at : ℕ → Fields → Values → Option (GoType × Value)
field_at i end vs = none
field_at i (field name o t fs) no_values = none
field_at zero (field name o t fs) (value v vs) = some (t, v)
field_at (suc i) (field name o t fs) (value v vs) = field_at i fs vs

-- FieldByName
unfoldable pub field_by_name : String → Fields → Values → Option (GoType × Value)
field_by_name s end vs = none
field_by_name s (field name o t fs) no_values = none
field_by_name s (field name o t fs) (value v vs) =
    if str_eq name s then some (t, v) else field_by_name s fs vs

-- The selector has to be of an unsigned type.
unfoldable pub unsigned_value : Option (GoType × Value) → Option ℕ
unsigned_value (some (number false w, num n)) = some n
unsigned_value _ = none

-- The value of the selector; `none` is a panic.
unfoldable pub selector_value : Options → Top → Option ℕ
unfolding field_at field_by_name unsigned_value
selector_value o no_struct = none
selector_value o (inside fs vs) =
    if has_union fs
    then unsigned_value
        (if has_selector o then field_by_name o.selector fs vs else field_at zero fs vs)
    else none
