-- ===== src/Codec/Leaves.antt =====
-- What `_decode` of agent_company_os/adapters/durable_codec.py returns for the plain types, a tuple
-- and a record.
use nebula_os.Prelude.{String, Bool, true, ◌≡◌, sym, inl, inr, Option-cases, some, List, any, arith}
use nebula_os.Domain.Validation.{DateTime, is_utc}
use nebula_os.Codec.Values.{
  ℤ, Json, Items, Members, null, boolean, integer, double, string, array, object, Scalar, absent,
  flag, number, word, Value, Values, Fields, nothing, truth, whole, text, moment, member, tuple,
  Schema, Schemas, Registry, Attempt, done, ◌>>=◌, is_option, scalar_json, scalar_value,
}
use nebula_os.Codec.Decode.{
  decode_each, decode_fields, decode_none, decode_bool, decode_int, decode_str, decode_datetime,
  decode_enum, decode_entity, decode_literal, decode_tuple,
}
use nebula_os.Codec.Made.{done_injective, first_done}

-- What the decoding against one of the plain types returns.
pub none-is : (j : Json) (v : Value) → decode_none j ≡ done v → v ≡ nothing
unfolding decode_none
none-is j v h = ground arith

pub bool-is : (j : Json) (v : Value) → decode_bool j ≡ done v → (b : Bool) × (v ≡ truth b)
unfolding decode_bool
bool-is (boolean b) v h = (b, sym (done_injective h))
bool-is j v h = ground arith

pub int-is : (j : Json) (v : Value) → decode_int j ≡ done v → (m : ℤ) × (v ≡ whole m)
unfolding decode_int
int-is (integer m) v h = (m, sym (done_injective h))
int-is j v h = ground arith

pub str-is : (j : Json) (v : Value) → decode_str j ≡ done v → (s : String) × (v ≡ text s)
unfolding decode_str
str-is (string s) v h = (s, sym (done_injective h))
str-is j v h = ground arith

pub literal-is :
    (options : List Scalar) (j : Json) (v : Value)
    → decode_literal options j ≡ done v
    → (option : Scalar) × (v ≡ scalar_value option)
      × (any (is_option (scalar_json option)) options ≡ true)
unfolding decode_literal
literal-is options null v h = (absent, ground arith, ground arith)
literal-is options (boolean b) v h = (flag b, ground arith, ground arith)
literal-is options (integer m) v h = (number m, ground arith, ground arith)
literal-is options (string s) v h = (word s, ground arith, ground arith)
literal-is options (double bits) v h = ground arith
literal-is options (array items) v h = ground arith
literal-is options (object members) v h = ground arith

pub enum-is :
    (reg : Registry) (name : String) (j : Json) (v : Value)
    → decode_enum reg name j ≡ done v
    → (raw : Scalar) × (v ≡ member name raw) × (reg.has_member name raw ≡ true)
unfolding decode_enum
enum-is reg name (string s) v h = (word s, ground arith, ground arith)
enum-is reg name (integer m) v h = (number m, ground arith, ground arith)
enum-is reg name j v h = ground arith

pub datetime-is :
    (reg : Registry) (j : Json) (v : Value)
    → decode_datetime reg j ≡ done v
    → (t : DateTime) × (v ≡ moment t) × (is_utc t ≡ true)
unfolding decode_datetime
datetime-is reg (string s) v h = elim (Option-cases (reg.fromisoformat s)) [
  | inl e ↦ ground arith
  | inr (t, e) ↦ (t, ground arith, ground arith)
]
datetime-is reg j v h = ground arith

pub tuple-is :
    (f : Json → Schema → Attempt Value) (schemas : Schemas) (j : Json) (v : Value)
    → decode_tuple f schemas j ≡ done v
    → (items : Items) × (values : Values) × (v ≡ tuple values)
      × (decode_each f schemas items ≡ done values)
unfolding decode_tuple
tuple-is f schemas (array items) v h =
    let chain : (decode_each f schemas items >>= λ values. done (tuple values)) ≡ done v =
      ground arith in
    let (values, e, h') = first_done (decode_each f schemas items) _ v chain in
    (items, values, sym (done_injective h'), e)
tuple-is f schemas j v h = ground arith

pub entity-is :
    (reg : Registry) (f : Json → Schema → Attempt Value) (name : String) (j : Json) (v : Value)
    → decode_entity reg f name j ≡ done v
    → (members : Members) × (hints : List (String × Schema)) × (fields : Fields) × (reg.declared
          name
        ≡ some hints)
      × (decode_fields f members hints ≡ done fields)
      × (reg.construct name fields ≡ done v)
unfolding decode_entity
entity-is reg f name (object members) v h = elim (Option-cases (reg.declared name)) [
  | inl e ↦ ground arith
  | inr (hints, e) ↦
      let chain : (decode_fields f members hints >>= reg.construct name) ≡ done v = ground arith in
      let (fields, e', h') = first_done (decode_fields f members hints) _ v chain in
      (members, hints, fields, e, e', h')
]
entity-is reg f name j v h = ground arith
