-- ===== src/Codec/Values.antt =====
-- What the codec of the records works on (agent_company_os/adapters/durable_codec.py): JSON values,
-- Python values and type hints. A float is the 64 bits of a double. The registered classes, the
-- members of the enumerations and the texts of times are the `Registry`.
use nebula_os.Prelude.{
  ℕ, ◌^◌, ◌/◌, ◌%◌, String, Bool, true, false, Option, List, str_eq, ◌==◌, same_bool, if◌then◌else◌,
}
use nebula_os.Domain.Errors.{DomainError, invariant_violation}
use nebula_os.Domain.Validation.{DateTime}
pub use nebula_os.Prelude.{ℤ, pos, negsuc, same_int}

-- What `json` reads and writes: an object has its pairs in order.
mutual
  pub data Json : Type 0 where
    null : Json
    boolean : Bool → Json
    integer : ℤ → Json
    double : (bits : ℕ) → Json
    string : String → Json
    array : Items → Json
    object : Members → Json

  pub data Items : Type 0 where
    array_end : Items
    item : Json → Items → Items

  pub data Members : Type 0 where
    object_end : Members
    pair : String → Json → Members → Members

-- The options of a `Literal` and the values of enumerations.
pub data Scalar : Type 0 where
  absent : Scalar
  flag : Bool → Scalar
  number : ℤ → Scalar
  word : String → Scalar

-- Python values: `member` is one of an enumeration, `entity` one of a data class with its fields in
-- the order of the class.
mutual
  pub data Value : Type 0 where
    nothing : Value
    truth : Bool → Value
    whole : ℤ → Value
    float : (bits : ℕ) → Value
    text : String → Value
    moment : DateTime → Value
    member : (enumeration : String) → Scalar → Value
    tuple : Values → Value
    entity : (name : String) → Fields → Value

  pub data Values : Type 0 where
    tuple_end : Values
    next_value : Value → Values → Values

  pub data Fields : Type 0 where
    entity_end : Fields
    field : String → Value → Fields → Fields

-- Type hints.
mutual
  pub data Schema : Type 0 where
    none_type bool_type int_type str_type float_type datetime_type : Schema
    enum_type record_type alias_type : (name : String) → Schema
    literal_type : List Scalar → Schema
    union_type : Schemas → Schema
    sequence_type : Schema → Schema
    tuple_type : Schemas → Schema

  pub data Schemas : Type 0 where
    hints_end : Schemas
    schema : Schema → Schemas → Schemas

-- What a call may raise: a domain error, a `TypeError` or `ValueError`, a `RecursionError`, or the
-- `OverflowError` of an integer that no float can be.
pub data Failure : Type 0 where
  domain : DomainError → Failure
  wrong_value recursion_error overflow_error : Failure

pub data Attempt (T : Type 0) : Type 0 where
  done : T → Attempt T
  failed : Failure → Attempt T

infixl 5 ◌>>=◌
abbrev pub ◌>>=◌ : {T U : Type 0} → Attempt T → (T → Attempt U) → Attempt U
failed error >>= rest = failed error
done value >>= rest = rest value

-- `_invalid`
abbrev pub invalid : Failure
invalid = domain (invariant_violation "invalid_durable_record")

-- `except (InvariantViolation, TypeError, ValueError)`
abbrev pub is_caught : Failure → Bool
is_caught (domain (invariant_violation rule)) = true
is_caught (domain error) = false
is_caught wrong_value = true
is_caught recursion_error = false
is_caught overflow_error = false

-- `math.isfinite`: the exponent is not all ones.
abbrev pub is_finite : (bits : ℕ) → Bool
is_finite bits = if (bits / 2 ^ 52) % 2048 == 2047 then false else true

pub record Registry : Type 0 where
  -- The hints of a class of `_RECORD_TYPES`, in the order of its fields.
  pub declared : String → Option (List (String × Schema))
  -- The call of the class, with the checks of its constructor.
  pub construct : String → Fields → Attempt Value
  -- The enumeration has a member with this value.
  pub has_member : String → Scalar → Bool
  -- `TypeAliasType.__value__`
  pub alias_value : String → Schema
  pub isoformat : DateTime → String
  pub fromisoformat : String → Option DateTime
  -- `float(value)` of an integer
  pub float_of : ℤ → Option ℕ

abbrev pub scalar_json : Scalar → Json
scalar_json absent = null
scalar_json (flag b) = boolean b
scalar_json (number n) = integer n
scalar_json (word s) = string s

abbrev pub scalar_value : Scalar → Value
scalar_value absent = nothing
scalar_value (flag b) = truth b
scalar_value (number n) = whole n
scalar_value (word s) = text s

-- `type(value) is type(option) and value == option`
abbrev pub is_option : Json → Scalar → Bool
is_option null absent = true
is_option (boolean a) (flag b) = same_bool a b
is_option (integer m) (number n) = same_int m n
is_option (string s) (word t) = str_eq s t
is_option value option = false
