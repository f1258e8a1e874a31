-- ===== src/Codec/Decoded.antt =====
-- JSON values that present typed values are decoded to them (agent_company_os/adapters/durable_codec.py).
use nebula_os.Prelude.{
  ℕ, zero, suc, String, Bool, true, ◌≡◌, refl, sym, subst, inl, inr, some, List, any, arith, ==_iff,
}
use nebula_os.Domain.Validation.{DateTime, ahead, is_utc}
use nebula_os.Codec.Values.{
  ℤ, Json, null, boolean, integer, double, string, array, object, Scalar, number, word, Value,
  Values, Fields, nothing, truth, whole, float, text, moment, member, tuple, entity, Schema,
  Schemas, none_type, bool_type, int_type, str_type, float_type, datetime_type, enum_type,
  record_type, alias_type, literal_type, union_type, sequence_type, tuple_type, Registry, done,
  failed, Failure, is_caught, is_finite, is_option, scalar_json, scalar_value,
}
use nebula_os.Codec.Encode.{names}
use nebula_os.Codec.Decode.{
  decode, same_texts, hint_names, decode_literal, decode_none, decode_bool, decode_int, decode_str,
  decode_float, decode_datetime, decode_enum, decode_entity, decode_sequence, decode_tuple,
  count_items, count_schemas,
}
use nebula_os.Codec.Typed.{Presents, AllValues, EachTyped, FieldsTyped, Refused, HasType}
use nebula_os.Codec.Parts.{
  scalar-Presents, plain-scalar, field_names-hint_names, fields-decoded, items-decoded,
  each-decoded, Chosen-decoded, Chosen-weaken,
}

module _ (reg : Registry) where
  -- What presents `w`, which is the value, shows what presents the value.
  shown_as : (v w : Value) (j : Json) → v ≡ w → Presents reg v j → Presents reg w j
  shown_as v w j same p = subst (λ u. Presents reg u j) same p

  none-decoded : (v : Value) (j : Json) → v ≡ nothing → Presents reg v j → decode_none j ≡ done v
  unfolding decode_none Presents
  none-decoded v j same p = let e : j ≡ null = shown_as v nothing j same p in rw (e, same) refl

  bool-decoded :
      (v : Value) (j : Json) (b : Bool) → v ≡ truth b → Presents reg v j → decode_bool j ≡ done v
  unfolding decode_bool Presents
  bool-decoded v j b same p =
      let e : j ≡ boolean b = shown_as v (truth b) j same p in rw (e, same) refl

  int-decoded :
      (v : Value) (j : Json) (m : ℤ) → v ≡ whole m → Presents reg v j → decode_int j ≡ done v
  unfolding decode_int Presents
  int-decoded v j m same p =
      let e : j ≡ integer m = shown_as v (whole m) j same p in rw (e, same) refl

  str-decoded :
      (v : Value) (j : Json) (s : String) → v ≡ text s → Presents reg v j → decode_str j ≡ done v
  unfolding decode_str Presents
  str-decoded v j s same p =
      let e : j ≡ string s = shown_as v (text s) j same p in rw (e, same) refl

  float-decoded :
      (v : Value) (j : Json) (bits : ℕ)
      → v ≡ float bits
      → is_finite bits ≡ true
      → Presents reg v j
      → decode_float reg j ≡ done v
  unfolding decode_float Presents
  float-decoded v j bits same finite p =
      let e : j ≡ double bits = shown_as v (float bits) j same p in
      let step : decode_float reg (double bits) ≡ done (float bits) = ground arith in
      rw (e, same) step

  datetime-decoded :
      (v : Value) (j : Json) (t : DateTime)
      → v ≡ moment t
      → t.zone ≡ ahead 0
      → reg.fromisoformat (reg.isoformat t) ≡ some t
      → Presents reg v j
      → decode_datetime reg j ≡ done v
  unfolding decode_datetime Presents
  datetime-decoded v j t same utc back p =
      let e : j ≡ string (reg.isoformat t) = shown_as v (moment t) j same p in
      let utc' : is_utc t ≡ true = rw utc refl in
      let step : decode_datetime reg (string (reg.isoformat t)) ≡ done (moment t) = ground arith in
      rw (e, same) step

  enum-decoded :
      (name : String) (v : Value) (j : Json) (raw : Scalar)
      → v ≡ member name raw
      → decode_enum reg name (scalar_json raw) ≡ done (member name raw)
      → Presents reg v j
      → decode_enum reg name j ≡ done v
  unfolding Presents
  enum-decoded name v j raw same step p =
      let e : j ≡ scalar_json raw = shown_as v (member name raw) j same p in rw (e, same) step

  literal-decoded :
      (options : List Scalar) (option : Scalar) (v : Value) (j : Json)
      → v ≡ scalar_value option
      → any (is_option (scalar_json option)) options ≡ true
      → Presents reg v j
      → decode_literal options j ≡ done v
  unfolding decode_literal
  literal-decoded options option v j same listed p =
      let e = scalar-Presents reg option j (shown_as v (scalar_value option) j same p) in
      let plainly = plain-scalar reg option in rw (e, same, listed) plainly

  module _ (n : ℕ)
      (ih : (v : Value) (s : Schema) (j : Json)
        → HasType reg n v s
        → Presents reg v j
        → decode reg n j s ≡ done v) where
    sequence-decoded :
        (s : Schema) (v : Value) (j : Json) (values : Values)
        → v ≡ tuple values
        → AllValues (λ w. HasType reg n w s) values
        → Presents reg v j
        → decode_sequence (λ i. decode reg n i s) j ≡ done v
    unfolding decode_sequence Presents
    sequence-decoded s v j values same typed p =
        let (items, e, shown) = shown_as v (tuple values) j same p in
        let all = items-decoded reg (decode reg n) (HasType reg n) ih s values items typed shown in
        rw (e, same, all) refl

    tuple-decoded :
        (schemas : Schemas) (v : Value) (j : Json) (values : Values)
        → v ≡ tuple values
        → EachTyped (HasType reg n) values schemas
        → Presents reg v j
        → decode_tuple (decode reg n) schemas j ≡ done v
    unfolding decode_tuple Presents
    tuple-decoded schemas v j values same typed p =
        let (items, e, shown) = shown_as v (tuple values) j same p in
        let (all, count) =
          each-decoded reg (decode reg n) (HasType reg n) ih schemas values items typed shown in
        let step : decode_tuple (decode reg n) schemas (array items) ≡ done (tuple values) =
          ground (arith, ==_iff (count_items items) (count_schemas schemas)) in
        rw (e, same) step

    entity-decoded :
        (name : String) (v : Value) (j : Json) (fields : Fields) (hints : List (String × Schema))
        → v ≡ entity name fields
        → reg.declared name ≡ some hints
        → FieldsTyped (HasType reg n) fields hints
        → reg.construct name fields ≡ done (entity name fields)
        → Presents reg v j
        → decode_entity reg (decode reg n) name j ≡ done v
    unfolding decode_entity Presents
    entity-decoded name v j fields hints same declared typed constructed p =
        let (members, e, distinct, covered, shown) = shown_as v (entity name fields) j same p in
        let all =
          fields-decoded reg (decode reg n) (HasType reg n) ih fields hints members typed shown in
        let covered' : same_texts (names members) (hint_names hints) ≡ true =
          rw (sym (field_names-hint_names reg (HasType reg n) fields hints typed)) covered in
        let step : decode_entity reg (decode reg n) name (object members)
            ≡ done (entity name fields) =
          ground arith in
        rw (e, same) step

module _ (reg : Registry) where
  enum-word :
      (name s : String)
      → reg.has_member name (word s) ≡ true
      → decode_enum reg name (string s) ≡ done (member name (word s))
  unfolding decode_enum
  enum-word name s h = ground arith

  enum-number :
      (name : String) (m : ℤ)
      → reg.has_member name (number m) ≡ true
      → decode_enum reg name (integer m) ≡ done (member name (number m))
  unfolding decode_enum
  enum-number name m h = ground arith

  -- A JSON value that presents a typed value decodes to it.
  pub decode-Presents :
      (n : ℕ) (v : Value) (s : Schema) (j : Json)
      → HasType reg n v s
      → Presents reg v j
      → decode reg n j s ≡ done v
  unfolding decode HasType
  decode-Presents zero v s j h p = absurd h
  decode-Presents (suc n) v none_type j h p = none-decoded reg v j h p
  decode-Presents (suc n) v bool_type j h p = bool-decoded reg v j h.0 h.1 p
  decode-Presents (suc n) v int_type j h p = int-decoded reg v j h.0 h.1 p
  decode-Presents (suc n) v str_type j h p = str-decoded reg v j h.0 h.1 p
  decode-Presents (suc n) v float_type j h p = float-decoded reg v j h.0 h.1 h.2 p
  decode-Presents (suc n) v datetime_type j (t, same, utc, back) p =
      datetime-decoded reg v j t same utc back p
  decode-Presents (suc n) v (enum_type name) j (inl (s, same, has)) p =
      enum-decoded reg name v j (word s) same (enum-word name s has) p
  decode-Presents (suc n) v (enum_type name) j (inr (m, same, has)) p =
      enum-decoded reg name v j (number m) same (enum-number name m has) p
  decode-Presents (suc n) v (record_type name) j
        (fields, hints, same, declared, distinct, typed, made) p =
      entity-decoded reg n (decode-Presents n) name v j fields hints same declared typed made p
  decode-Presents (suc n) v (alias_type name) j h p =
      decode-Presents n v (reg.alias_value name) j h p
  decode-Presents (suc n) v (literal_type options) j (option, same, listed) p =
      literal-decoded reg options option v j same listed p
  decode-Presents (suc n) v (union_type options) j h p =
      Chosen-decoded reg (decode reg n) (HasType reg n) (decode-Presents n) n v j options p (
        Chosen-weaken (HasType reg n v) (Refused reg n v)
          (λ s. (error : Failure) × (decode reg n j s ≡ failed error) × (is_caught error ≡ true))
          options (λ s refused. refused j p) h)
  decode-Presents (suc n) v (sequence_type s) j (values, same, typed) p =
      sequence-decoded reg n (decode-Presents n) s v j values same typed p
  decode-Presents (suc n) v (tuple_type schemas) j (values, same, typed) p =
      tuple-decoded reg n (decode-Presents n) schemas v j values same typed p
