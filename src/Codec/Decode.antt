-- ===== src/Codec/Decode.antt =====
-- `_decode` of agent_company_os/adapters/durable_codec.py. The fuel is the depth of calls that Python
-- allows; beyond it stands a `RecursionError`. The fields of a record are decoded in the order of its
-- class, where Python takes the order of a set.
use nebula_os.Prelude.{
  ℕ, zero, suc, String, Bool, ◌&&◌, Option, none, some, List, [], ◌∷◌, str_eq, any, is_subset, ◌==◌,
  if◌then◌else◌,
}
use nebula_os.Domain.Errors.{invariant_violation}
use nebula_os.Domain.Validation.{DateTime, is_utc}
use nebula_os.Codec.Values.{
  Json, Items, Members, null, boolean, integer, double, string, array, object, array_end, item,
  object_end, pair, Scalar, number, word, Value, Values, Fields, nothing, truth, whole, float, text,
  moment, member, tuple, tuple_end, next_value, entity_end, field, Schema, Schemas, none_type,
  bool_type, int_type, str_type, float_type, datetime_type, enum_type, record_type, alias_type,
  literal_type, union_type, sequence_type, tuple_type, hints_end, schema, Registry, Attempt, done,
  failed, ◌>>=◌, invalid, is_caught, is_finite, is_option, domain, wrong_value, recursion_error,
  overflow_error,
}
use nebula_os.Codec.Encode.{names}

-- The value of a key; keys are distinct here.
abbrev pub find : String → Members → Option Json
find k object_end = none
find k (pair l j members) = if str_eq l k then some j else find k members

-- A value that is one of the options, as it is.
abbrev pub plain : Json → Attempt Value
plain null = done nothing
plain (boolean b) = done (truth b)
plain (integer n) = done (whole n)
plain (string s) = done (text s)
plain (double bits) = failed invalid
plain (array items) = failed invalid
plain (object members) = failed invalid

unfoldable pub decode_literal : List Scalar → Json → Attempt Value
decode_literal options j = if any (is_option j) options then plain j else failed invalid

unfoldable pub decode_none : Json → Attempt Value
decode_none null = done nothing
decode_none j = failed invalid

unfoldable pub decode_bool : Json → Attempt Value
decode_bool (boolean b) = done (truth b)
decode_bool j = failed invalid

unfoldable pub decode_int : Json → Attempt Value
decode_int (integer n) = done (whole n)
decode_int j = failed invalid

unfoldable pub decode_str : Json → Attempt Value
decode_str (string s) = done (text s)
decode_str j = failed invalid

-- `math.isfinite` raises the `OverflowError` too.
abbrev float_or_overflow : Option ℕ → Attempt Value
float_or_overflow none = failed overflow_error
float_or_overflow (some bits) = done (float bits)

unfoldable pub decode_float : Registry → Json → Attempt Value
decode_float reg (double bits) = if is_finite bits then done (float bits) else failed invalid
decode_float reg (integer n) = float_or_overflow (reg.float_of n)
decode_float reg j = failed invalid

abbrev utc_moment : Option DateTime → Attempt Value
utc_moment none = failed wrong_value
utc_moment (some t) =
    if is_utc t then done (moment t) else failed (domain (invariant_violation "utc_aware_datetime"))

unfoldable pub decode_datetime : Registry → Json → Attempt Value
decode_datetime reg (string s) = utc_moment (reg.fromisoformat s)
decode_datetime reg j = failed invalid

-- `expected(value)` for an enumeration; `ValueError` for a value that no member has.
abbrev member_of : Registry → String → Scalar → Attempt Value
member_of reg name raw =
    if reg.has_member name raw then done (member name raw) else failed wrong_value

unfoldable pub decode_enum : Registry → String → Json → Attempt Value
decode_enum reg name (string s) = member_of reg name (word s)
decode_enum reg name (integer n) = member_of reg name (number n)
decode_enum reg name j = failed invalid

-- The items of a list, one schema for all.
unfoldable pub decode_items : (Json → Attempt Value) → Items → Attempt Values
decode_items f array_end = done tuple_end
decode_items f (item j items) =
    f j >>= λ v. decode_items f items >>= λ values. done (next_value v values)

unfoldable pub decode_sequence : (Json → Attempt Value) → Json → Attempt Value
unfolding decode_items
decode_sequence f (array items) = decode_items f items >>= λ values. done (tuple values)
decode_sequence f j = failed invalid

-- The items of a list, with a schema each; `len(value) != len(args)` is `invalid`.
unfoldable pub decode_each : (Json → Schema → Attempt Value) → Schemas → Items → Attempt Values
decode_each f hints_end array_end = done tuple_end
decode_each f hints_end (item j items) = failed invalid
decode_each f (schema s schemas) array_end = failed invalid
decode_each f (schema s schemas) (item j items) =
    f j s >>= λ v. decode_each f schemas items >>= λ values. done (next_value v values)

abbrev pub count_items : Items → ℕ
count_items array_end = zero
count_items (item j items) = suc (count_items items)

abbrev pub count_schemas : Schemas → ℕ
count_schemas hints_end = zero
count_schemas (schema s schemas) = suc (count_schemas schemas)

unfoldable pub decode_tuple : (Json → Schema → Attempt Value) → Schemas → Json → Attempt Value
unfolding decode_each
decode_tuple f schemas (array items) =
    if count_items items == count_schemas schemas
    then (decode_each f schemas items >>= λ values. done (tuple values))
    else failed invalid
decode_tuple f schemas j = failed invalid

-- The options of a union in their order; an error that is not caught ends the loop.
unfoldable pub first_of : (Schema → Attempt Value) → Schemas → Attempt Value
first_of f hints_end = failed invalid
first_of f (schema s schemas) =
    let rest = first_of f schemas in
    elim (f s) [ done v ↦ done v | failed error ↦ if is_caught error then rest else failed error ]

-- `_decode(value[name], hints[name])` for each field.
unfoldable pub decode_fields :
    (Json → Schema → Attempt Value) → Members → List (String × Schema) → Attempt Fields
decode_fields f members [] = done entity_end
decode_fields f members ((name, s) ∷ hints) = elim (find name members) [
  | none ↦ failed invalid
  | some j ↦ f j s >>= λ v. decode_fields f members hints >>= λ fields. done (field name v fields)
]

abbrev pub hint_names : List (String × Schema) → List String
hint_names [] = []
hint_names ((name, s) ∷ hints) = name ∷ hint_names hints

-- `set(a) == set(b)`
abbrev pub same_texts : List String → List String → Bool
same_texts a b = is_subset a b && is_subset b a

unfoldable pub decode_entity :
    Registry → (Json → Schema → Attempt Value) → String → Json → Attempt Value
unfolding decode_fields
decode_entity reg f name (object members) = elim (reg.declared name) [
  | none ↦ failed invalid
  | some hints ↦
      let fields = decode_fields f members hints in
      if same_texts (names members) (hint_names hints)
      then fields >>= reg.construct name
      else failed invalid
]
decode_entity reg f name j = failed invalid

unfoldable pub decode : Registry → (fuel : ℕ) → Json → Schema → Attempt Value
unfolding decode_none decode_bool decode_int decode_str decode_float decode_datetime decode_enum
    decode_entity decode_literal first_of decode_sequence decode_tuple
decode reg zero j s = failed recursion_error
decode reg (suc n) j none_type = decode_none j
decode reg (suc n) j bool_type = decode_bool j
decode reg (suc n) j int_type = decode_int j
decode reg (suc n) j str_type = decode_str j
decode reg (suc n) j float_type = decode_float reg j
decode reg (suc n) j datetime_type = decode_datetime reg j
decode reg (suc n) j (enum_type name) = decode_enum reg name j
decode reg (suc n) j (record_type name) = decode_entity reg (decode reg n) name j
decode reg (suc n) j (alias_type name) = decode reg n j (reg.alias_value name)
decode reg (suc n) j (literal_type options) = decode_literal options j
decode reg (suc n) j (union_type options) = first_of (decode reg n j) options
decode reg (suc n) j (sequence_type s) = decode_sequence (λ i. decode reg n i s) j
decode reg (suc n) j (tuple_type schemas) = decode_tuple (decode reg n) schemas j
