-- ===== src/Mu/Types.antt =====
-- The Go types and values that mu.go walks by reflection, as data.
-- A GoType is a finite tree, so that a struct is never its own container: the panic of
-- checkInfiniteRecursion, which guards against that, is never met.
use go_tpm.Base.{ℕ, suc, Bool, false, List, String, Outcome, replicate}

-- The struct `options`. A selector "" is none.
pub record Options : Type 0 where
  pub selector : String
  pub sized : Bool
  pub raw : Bool
  pub ignore : Bool
  pub sized1 : Bool

-- `new(options)`, and what a nil pointer to options stands for.
abbrev pub no_options : Options
no_options = record { selector = ""; sized = false; raw = false; ignore = false; sized1 = false }

mutual
  -- A number is the bit pattern of its w bytes, big-endian on the wire; a bool is 0 or 1.
  -- A byte slice or array that is not nil is `bytes`; any other slice that is not nil is `list`.
  pub data Value : Type 0 where
    num : ℕ → Value
    nil : Value
    ref : Value → Value
    bytes : List ℕ → Value
    list fields : Values → Value

  pub data Values : Type 0 where
    no_values : Values
    value : Value → Values → Values

abbrev pub count : Values → ℕ
count no_values = 0
count (value v vs) = suc (count vs)

abbrev pub append : Values → Values → Values
append no_values ws = ws
append (value v vs) ws = value v (append vs ws)

-- Why an operation of the package can return an error. An error of a custom type's own code has a
-- number that stands for it. The context that Error carries beside its cause is not modelled.
pub data MuError : Type 0 where
  unexpected_eof : MuError
  sized_value_too_large sized1_value_too_large slice_length_out_of_range list_length_out_of_range :
      ℕ → MuError
  invalid_selector : ℕ → MuError
  custom_error : ℕ → MuError

-- The two methods of a type that implements CustomMarshaller, its zero value, and whether it is a
-- struct. `unmarshal` takes the old value and the input, and returns the value and the input left.
pub record Codec : Type 0 where
  pub is_struct : Bool
  pub zero_value : Value
  pub marshal : Value → Outcome MuError (List ℕ)
  pub unmarshal : Value → List ℕ → Outcome MuError (Value × List ℕ)

-- What a Select method returns: nil, NilUnionValue, or a pointer to the union's i-th field.
pub data Selected : Type 0 where
  invalid nil_union_value : Selected
  member : ℕ → Selected

-- The slice types that the package treats in a way of their own, and all others.
pub data SliceName : Type 0 where
  sized1_bytes_type raw_bytes_type other_slice : SliceName

mutual
  pub data GoType : Type 0 where
    bool_type : GoType
    -- Signed or not, and the width in bytes.
    number : Bool → ℕ → GoType
    ptr : GoType → GoType
    slice : SliceName → GoType → GoType
    struct : Fields → GoType
    -- A struct that implements Union, with its Select method.
    union : (ℕ → Selected) → Fields → GoType
    array : ℕ → GoType → GoType
    custom : Codec → GoType
    -- A type of any other kind.
    other : GoType

  -- The fields of a struct: name, the options in its tag, and type.
  pub data Fields : Type 0 where
    end : Fields
    field : String → Options → GoType → Fields → Fields

unfoldable mutual
  -- reflect.Zero
  pub zero_of : GoType → Value
  zero_of bool_type = num 0
  zero_of (number signed w) = num 0
  zero_of (ptr t) = nil
  zero_of (slice name t) = nil
  zero_of (struct fs) = fields (zeros_of fs)
  zero_of (union select fs) = fields (zeros_of fs)
  zero_of (array n t) = bytes (replicate n 0)
  zero_of (custom c) = c.zero_value
  zero_of other = nil

  pub zeros_of : Fields → Values
  zeros_of end = no_values
  zeros_of (field name o t fs) = value (zero_of t) (zeros_of fs)
