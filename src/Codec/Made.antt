-- ===== src/Codec/Made.antt =====
-- Values of a type as decoding makes them, and the loops of `_decode` over items, fields and options
-- (agent_company_os/adapters/durable_codec.py).
use nebula_os.Prelude.{
  ℕ, zero, suc, String, Bool, true, ◌≡◌, refl, ap, subst, ◌⊎◌, inl, inr, Option, none, some, List,
  [], ◌∷◌, any, arith,
}
use nebula_os.Domain.Validation.{DateTime, is_utc}
use nebula_os.Codec.Values.{
  ℤ, Json, Items, Members, array_end, item, Scalar, Value, Values, Fields, nothing, truth, whole,
  float, text, moment, member, tuple, field, Schema, Schemas, none_type, bool_type, int_type,
  str_type, float_type, datetime_type, enum_type, record_type, alias_type, literal_type, union_type,
  sequence_type, tuple_type, hints_end, schema, Registry, Attempt, done, failed, ◌>>=◌, invalid,
  is_finite, is_option, scalar_json, scalar_value,
}
use nebula_os.Codec.Decode.{decode_items, decode_each, decode_fields, first_of, find}
use nebula_os.Codec.Typed.{AllValues, EachTyped, FieldsTyped}

-- One of the options has the property.
abbrev pub OneOf : (Schema → Type 0) → Schemas → Type 0
OneOf T hints_end = ⊥
OneOf T (schema s schemas) = T s ⊎ OneOf T schemas

-- The value is one of the type, made within so many calls: a record is what its class made of fields
-- that have the declared names and types.
unfoldable pub IsOf : Registry → ℕ → Value → Schema → Type 0
IsOf reg zero v s = ⊥
IsOf reg (suc n) v none_type = v ≡ nothing
IsOf reg (suc n) v bool_type = (b : Bool) × (v ≡ truth b)
IsOf reg (suc n) v int_type = (m : ℤ) × (v ≡ whole m)
IsOf reg (suc n) v str_type = (s : String) × (v ≡ text s)
IsOf reg (suc n) v float_type = (bits : ℕ) × (v ≡ float bits) × (is_finite bits ≡ true)
IsOf reg (suc n) v datetime_type = (t : DateTime) × (v ≡ moment t) × (is_utc t ≡ true)
IsOf reg (suc n) v (enum_type name) =
    (raw : Scalar) × (v ≡ member name raw) × (reg.has_member name raw ≡ true)
IsOf reg (suc n) v (record_type name) =
    (fields : Fields) × (hints : List (String × Schema)) × (reg.declared name ≡ some hints)
    × FieldsTyped (IsOf reg n) fields hints
    × (reg.construct name fields ≡ done v)
IsOf reg (suc n) v (alias_type name) = IsOf reg n v (reg.alias_value name)
IsOf reg (suc n) v (literal_type options) =
    (option : Scalar) × (v ≡ scalar_value option)
    × (any (is_option (scalar_json option)) options ≡ true)
IsOf reg (suc n) v (union_type options) = OneOf (IsOf reg n v) options
IsOf reg (suc n) v (sequence_type s) =
    (values : Values) × (v ≡ tuple values) × AllValues (λ w. IsOf reg n w s) values
IsOf reg (suc n) v (tuple_type schemas) =
    (values : Values) × (v ≡ tuple values) × EachTyped (IsOf reg n) values schemas

pub done_injective : {T : Type 0} {a b : T} → done a ≡ done b → a ≡ b
done_injective {T} {a} {b} h = ap (value_or a) h
  where
    value_or : {T : Type 0} → T → Attempt T → T
    value_or x (done y) = y
    value_or x (failed error) = x

-- What a chain returns comes from what its first part returned.
pub first_done :
    {T U : Type 0} (a : Attempt T) (rest : T → Attempt U) (w : U)
    → (a >>= rest) ≡ done w
    → (v : T) × (a ≡ done v) × (rest v ≡ done w)
first_done (failed error) rest w h = ground arith
first_done (done v) rest w h = (v, refl, h)

pub items-AllValues :
    (f : Json → Attempt Value) (P : Value → Type 0)
    (sound : (j : Json) (v : Value) → f j ≡ done v → P v) (items : Items) (values : Values)
    → decode_items f items ≡ done values
    → AllValues P values
unfolding decode_items
items-AllValues f P sound array_end values h = subst (AllValues P) (done_injective h) tt
items-AllValues f P sound (item j items) values h =
    let (v, e, h') = first_done (f j) _ values h in
    let (rest, e', h'') = first_done (decode_items f items) _ values h' in
    subst (AllValues P) (done_injective h'') (sound j v e, items-AllValues f P sound items rest e')

module _ (f : Json → Schema → Attempt Value) (T : Value → Schema → Type 0)
    (sound : (j : Json) (s : Schema) (v : Value) → f j s ≡ done v → T v s) where
  pub each-EachTyped :
      (schemas : Schemas) (items : Items) (values : Values)
      → decode_each f schemas items ≡ done values
      → EachTyped T values schemas
  unfolding decode_each
  each-EachTyped hints_end array_end values h =
      subst (λ w. EachTyped T w hints_end) (done_injective h) tt
  each-EachTyped hints_end (item j items) values h = ground arith
  each-EachTyped (schema s schemas) array_end values h = ground arith
  each-EachTyped (schema s schemas) (item j items) values h =
      let (v, e, h') = first_done (f j s) _ values h in
      let (rest, e', h'') = first_done (decode_each f schemas items) _ values h' in
      subst (λ w. EachTyped T w (schema s schemas)) (done_injective h'')
        (sound j s v e, each-EachTyped schemas items rest e')

  pub fields-FieldsTyped :
      (members : Members) (hints : List (String × Schema)) (fields : Fields)
      → decode_fields f members hints ≡ done fields
      → FieldsTyped T fields hints
  unfolding decode_fields
  fields-FieldsTyped members [] fields h = subst (λ w. FieldsTyped T w []) (done_injective h) tt
  fields-FieldsTyped members ((name, s) ∷ hints) fields h =
      by_member (find name members) h (fields-FieldsTyped members hints)
    where
      by_member :
          (found : Option Json)
          → elim found [
            | none ↦ failed invalid
            | some j ↦
                f j s >>= λ v. decode_fields f members hints >>= λ rest. done (field name v rest)
          ]
            ≡ done fields
          → ((rest : Fields) → decode_fields f members hints ≡ done rest → FieldsTyped T rest hints)
          → FieldsTyped T fields ((name, s) ∷ hints)
      by_member none h typed = ground arith
      by_member (some j) h typed =
          let (v, e, h') = first_done (f j s) _ fields h in
          let (rest, e', h'') = first_done (decode_fields f members hints) _ fields h' in
          subst (λ w. FieldsTyped T w ((name, s) ∷ hints)) (done_injective h'')
            (refl, sound j s v e, typed rest e')

pub first-OneOf :
    (f : Schema → Attempt Value) (T : Schema → Type 0) (v : Value)
    (sound : (s : Schema) → f s ≡ done v → T s) (schemas : Schemas)
    → first_of f schemas ≡ done v
    → OneOf T schemas
unfolding first_of
first-OneOf f T v sound hints_end h = ground arith
first-OneOf f T v sound (schema s schemas) h =
    by_option (f s) refl (first-OneOf f T v sound schemas)
  where
    by_option :
        (a : Attempt Value)
        → f s ≡ a
        → (first_of f schemas ≡ done v → OneOf T schemas)
        → OneOf T (schema s schemas)
    by_option (done w) e later = inl (sound s (ground arith))
    by_option (failed error) e later = inr (later (ground arith))
