-- ===== src/Codec/Typed.antt =====
-- Which values have a type, and which JSON values present a value
-- (agent_company_os/adapters/durable_codec.py).
use nebula_os.Prelude.{
  ℕ, zero, suc, String, Bool, true, ◌≡◌, ◌⊎◌, some, List, [], ◌∷◌, any, all_distinct,
}
use nebula_os.Domain.Validation.{DateTime, ahead}
use nebula_os.Codec.Values.{
  ℤ, Json, Items, Members, null, boolean, integer, double, string, array, object, array_end, item,
  Scalar, number, word, Value, Values, Fields, nothing, truth, whole, float, text, moment, member,
  tuple, entity, tuple_end, next_value, entity_end, field, Schema, Schemas, none_type, bool_type,
  int_type, str_type, float_type, datetime_type, enum_type, record_type, alias_type, literal_type,
  union_type, sequence_type, tuple_type, hints_end, schema, Registry, done, failed, Failure,
  is_caught, is_finite, is_option, scalar_json, scalar_value,
}
use nebula_os.Codec.Encode.{names}
use nebula_os.Codec.Decode.{decode, find, same_texts, hint_names}

abbrev pub field_names : Fields → List String
field_names entity_end = []
field_names (field k v fields) = k ∷ field_names fields

-- The JSON value presents the value: as `_encode` does, but for the order of the members.
unfoldable mutual
  pub Presents : Registry → Value → Json → Type 0
  Presents reg nothing j = j ≡ null
  Presents reg (truth b) j = j ≡ boolean b
  Presents reg (whole n) j = j ≡ integer n
  Presents reg (float bits) j = j ≡ double bits
  Presents reg (text s) j = j ≡ string s
  Presents reg (moment t) j = j ≡ string (reg.isoformat t)
  Presents reg (member enumeration raw) j = j ≡ scalar_json raw
  Presents reg (tuple values) j =
      (items : Items) × (j ≡ array items) × PresentsItems reg values items
  Presents reg (entity name fields) j =
      (members : Members) × (j ≡ object members)
      × (all_distinct (names members) ≡ true)
      × (same_texts (names members) (field_names fields) ≡ true)
      × PresentsFields reg fields members

  pub PresentsItems : Registry → Values → Items → Type 0
  PresentsItems reg tuple_end items = items ≡ array_end
  PresentsItems reg (next_value v values) items =
      (j : Json) × (rest : Items) × (items ≡ item j rest)
      × Presents reg v j
      × PresentsItems reg values rest

  pub PresentsFields : Registry → Fields → Members → Type 0
  PresentsFields reg entity_end members = Unit {0}
  PresentsFields reg (field k v fields) members =
      (j : Json) × (find k members ≡ some j) × Presents reg v j × PresentsFields reg fields members

abbrev pub AllValues : (Value → Type 0) → Values → Type 0
AllValues P tuple_end = Unit {0}
AllValues P (next_value v values) = P v × AllValues P values

-- Each value has the schema at its place.
abbrev pub EachTyped : (Value → Schema → Type 0) → Values → Schemas → Type 0
EachTyped T tuple_end hints_end = Unit {0}
EachTyped T tuple_end (schema s schemas) = ⊥
EachTyped T (next_value v values) hints_end = ⊥
EachTyped T (next_value v values) (schema s schemas) = T v s × EachTyped T values schemas

-- Each field has the name and the type that its class declares.
abbrev pub FieldsTyped : (Value → Schema → Type 0) → Fields → List (String × Schema) → Type 0
FieldsTyped T entity_end [] = Unit {0}
FieldsTyped T entity_end (hint ∷ hints) = ⊥
FieldsTyped T (field k v fields) [] = ⊥
FieldsTyped T (field k v fields) ((name, s) ∷ hints) =
    (k ≡ name) × T v s × FieldsTyped T fields hints

-- One option has the value, and those before refuse it.
abbrev pub Chosen : (T R : Schema → Type 0) → Schemas → Type 0
Chosen T R hints_end = ⊥
Chosen T R (schema s schemas) = T s ⊎ (R s × Chosen T R schemas)

-- Whatever presents the value, the decoding raises an error that the loop over a union catches.
abbrev pub Refused : Registry → ℕ → Value → Schema → Type 0
Refused reg n v s =
    (j : Json)
    → Presents reg v j
    → (error : Failure) × (decode reg n j s ≡ failed error) × (is_caught error ≡ true)

-- The value has the type, and is found within so many calls.
unfoldable pub HasType : Registry → ℕ → Value → Schema → Type 0
HasType reg zero v s = ⊥
HasType reg (suc n) v none_type = v ≡ nothing
HasType reg (suc n) v bool_type = (b : Bool) × (v ≡ truth b)
HasType reg (suc n) v int_type = (m : ℤ) × (v ≡ whole m)
HasType reg (suc n) v str_type = (s : String) × (v ≡ text s)
HasType reg (suc n) v float_type = (bits : ℕ) × (v ≡ float bits) × (is_finite bits ≡ true)
HasType reg (suc n) v datetime_type =
    (t : DateTime) × (v ≡ moment t)
    × (t.zone ≡ ahead 0)
    × (reg.fromisoformat (reg.isoformat t) ≡ some t)
HasType reg (suc n) v (enum_type name) =
    ((s : String) × (v ≡ member name (word s)) × (reg.has_member name (word s) ≡ true))
    ⊎ ((m : ℤ) × (v ≡ member name (number m)) × (reg.has_member name (number m) ≡ true))
HasType reg (suc n) v (record_type name) =
    (fields : Fields) × (hints : List (String × Schema)) × (v ≡ entity name fields)
    × (reg.declared name ≡ some hints)
    × (all_distinct (hint_names hints) ≡ true)
    × FieldsTyped (HasType reg n) fields hints
    × (reg.construct name fields ≡ done (entity name fields))
HasType reg (suc n) v (alias_type name) = HasType reg n v (reg.alias_value name)
HasType reg (suc n) v (literal_type options) =
    (option : Scalar) × (v ≡ scalar_value option)
    × (any (is_option (scalar_json option)) options ≡ true)
HasType reg (suc n) v (union_type options) = Chosen (HasType reg n v) (Refused reg n v) options
HasType reg (suc n) v (sequence_type s) =
    (values : Values) × (v ≡ tuple values) × AllValues (λ w. HasType reg n w s) values
HasType reg (suc n) v (tuple_type schemas) =
    (values : Values) × (v ≡ tuple values) × EachTyped (HasType reg n) values schemas
