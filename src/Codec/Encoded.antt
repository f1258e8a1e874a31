-- ===== src/Codec/Encoded.antt =====
-- `_encode` of typed values (agent_company_os/adapters/durable_codec.py).
use nebula_os.Prelude.{
  ℕ, zero, suc, String, true, false, ◌≡◌, refl, sym, ap, subst, inl, inr, some, List, [], ◌∷◌,
  arith, mem_text, all_distinct, is_subset, eq_iff,
}
use nebula_os.Domain.Validation.{DateTime, ahead, is_utc}
use nebula_os.Codec.Values.{
  Json, Items, Members, null, boolean, integer, double, string, array, object, array_end, item,
  object_end, pair, Scalar, absent, flag, number, word, Value, Values, Fields, float, moment,
  member, tuple, entity, tuple_end, next_value, entity_end, field, Schema, Schemas, none_type,
  bool_type, int_type, str_type, float_type, datetime_type, enum_type, record_type, alias_type,
  literal_type, union_type, sequence_type, tuple_type, hints_end, schema, Registry, done, is_finite,
  scalar_value,
}
use nebula_os.Codec.Encode.{
  encode, encode_values, encode_fields, names, is_registered, is_unambiguous, items_unambiguous,
  members_unambiguous,
}
use nebula_os.Codec.Decode.{same_texts}
use nebula_os.Codec.Typed.{
  Presents, PresentsItems, PresentsFields, AllValues, EachTyped, FieldsTyped, Chosen, Refused,
  HasType, field_names,
}
use nebula_os.Codec.Parts.{field_names-hint_names}

subset-more : (a b : List String) (k : String) → is_subset a b ≡ true → is_subset a (k ∷ b) ≡ true
subset-more [] b k h = refl
subset-more (x ∷ a) b k h = ground (arith, subset-more a b k)

subset_refl : (a : List String) → is_subset a a ≡ true
subset_refl [] = refl
subset_refl (x ∷ a) = ground (arith, subset-more a a x (subset_refl a), eq_iff x x)

pub same_texts_refl : (a : List String) → same_texts a a ≡ true
same_texts_refl a = ground (arith, subset_refl a)

module _ (reg : Registry) where
  -- The value is encoded, and the JSON value presents it.
  abbrev pub IsEncoded : Value → Type 0
  IsEncoded v = (j : Json) × (encode reg v ≡ done j) × Presents reg v j × (is_unambiguous j ≡ true)

  -- A further member under another name changes nothing.
  PresentsFields-pair :
      (k : String) (j : Json) (members : Members) (fields : Fields)
      → mem_text k (field_names fields) ≡ false
      → PresentsFields reg fields members
      → PresentsFields reg fields (pair k j members)
  unfolding PresentsFields
  PresentsFields-pair k j members entity_end new p = tt
  PresentsFields-pair k j members (field l v fields) new (i, found, shown, rest) = (
    i,
    ground (arith, eq_iff k l),
    shown,
    PresentsFields-pair k j members fields (ground arith) rest,
  )

  module _ (T : Value → Schema → Type 0)
      (encodes : (v : Value) (s : Schema) → T v s → IsEncoded v) where
    values-encoded :
        (s : Schema) (values : Values)
        → AllValues (λ v. T v s) values
        → (items : Items) × (encode_values reg values ≡ done items)
          × PresentsItems reg values items
          × (items_unambiguous items ≡ true)
    unfolding encode PresentsItems is_unambiguous
    values-encoded s tuple_end h = (array_end, refl, refl, refl)
    values-encoded s (next_value v values) h =
        let (j, e, shown, clear) = encodes v s h.0 in
        let (items, e', shown', clear') = values-encoded s values h.1 in
        (item j items, ground arith, (j, items, refl, shown, shown'), ground arith)

    each-encoded :
        (schemas : Schemas) (values : Values)
        → EachTyped T values schemas
        → (items : Items) × (encode_values reg values ≡ done items)
          × PresentsItems reg values items
          × (items_unambiguous items ≡ true)
    unfolding encode PresentsItems is_unambiguous
    each-encoded hints_end tuple_end h = (array_end, refl, refl, refl)
    each-encoded hints_end (next_value v values) h = absurd h
    each-encoded (schema s schemas) tuple_end h = absurd h
    each-encoded (schema s schemas) (next_value v values) h =
        let (j, e, shown, clear) = encodes v s h.0 in
        let (items, e', shown', clear') = each-encoded schemas values h.1 in
        (item j items, ground arith, (j, items, refl, shown, shown'), ground arith)

    fields-encoded :
        (fields : Fields) (hints : List (String × Schema))
        → FieldsTyped T fields hints
        → all_distinct (field_names fields) ≡ true
        → (members : Members) × (encode_fields reg fields ≡ done members)
          × (names members ≡ field_names fields)
          × PresentsFields reg fields members
          × (members_unambiguous members ≡ true)
    unfolding encode PresentsFields is_unambiguous
    fields-encoded entity_end [] h distinct = (object_end, refl, refl, tt, refl)
    fields-encoded entity_end (hint ∷ hints) h distinct = absurd h
    fields-encoded (field k v fields) [] h distinct = absurd h
    fields-encoded (field k v fields) ((name, s) ∷ hints) h distinct =
        let (j, e, shown, clear) = encodes v s h.1 in
        let (members, e', named, shown', clear') = fields-encoded fields hints h.2 (ground arith) in
        let new : mem_text k (field_names fields) ≡ false = ground arith in
        let new' : mem_text k (names members) ≡ false = rw named new in
        (
          pair k j members,
          ground arith,
          ap (λ (ks : List String). k ∷ ks) named,
          (j, ground (arith, eq_iff k k), shown, PresentsFields-pair k j members fields new shown'),
          ground arith,
        )

    Chosen-IsEncoded :
        (R : Schema → Type 0) (v : Value) (options : Schemas) → Chosen (T v) R options → IsEncoded v
    Chosen-IsEncoded R v hints_end h = absurd h
    Chosen-IsEncoded R v (schema s schemas) (inl typed) = encodes v s typed
    Chosen-IsEncoded R v (schema s schemas) (inr (refused, rest)) =
        Chosen-IsEncoded R v schemas rest

  tuple-IsEncoded :
      (v : Value) (values : Values)
      → v ≡ tuple values
      → (items : Items) × (encode_values reg values ≡ done items)
        × PresentsItems reg values items
        × (items_unambiguous items ≡ true)
      → IsEncoded v
  unfolding encode Presents is_unambiguous
  tuple-IsEncoded v values same (items, e, shown, clear) =
      subst IsEncoded (sym same) (array items, ground arith, (items, refl, shown), clear)

  entity-IsEncoded :
      (v : Value) (name : String) (fields : Fields) (hints : List (String × Schema))
      → v ≡ entity name fields
      → reg.declared name ≡ some hints
      → all_distinct (field_names fields) ≡ true
      → (members : Members) × (encode_fields reg fields ≡ done members)
        × (names members ≡ field_names fields)
        × PresentsFields reg fields members
        × (members_unambiguous members ≡ true)
      → IsEncoded v
  unfolding encode Presents is_unambiguous
  entity-IsEncoded v name fields hints same declared distinct (members, e, named, shown, clear) =
      let registered : is_registered reg name ≡ true = ground arith in
      subst IsEncoded (sym same) (
        object members,
        ground arith,
        (members, refl, rw named distinct, rw named (same_texts_refl (field_names fields)), shown),
        clear,
      )

  scalar-IsEncoded : (option : Scalar) → IsEncoded (scalar_value option)
  unfolding encode Presents is_unambiguous
  scalar-IsEncoded absent = (null, refl, refl, refl)
  scalar-IsEncoded (flag b) = (boolean b, refl, refl, refl)
  scalar-IsEncoded (number n) = (integer n, refl, refl, refl)
  scalar-IsEncoded (word s) = (string s, refl, refl, refl)

  member-IsEncoded : (name : String) (raw : Scalar) → IsEncoded (member name raw)
  unfolding encode Presents is_unambiguous
  member-IsEncoded name absent = (null, refl, refl, refl)
  member-IsEncoded name (flag b) = (boolean b, refl, refl, refl)
  member-IsEncoded name (number n) = (integer n, refl, refl, refl)
  member-IsEncoded name (word s) = (string s, refl, refl, refl)

  float-IsEncoded : (bits : ℕ) → is_finite bits ≡ true → IsEncoded (float bits)
  unfolding encode Presents is_unambiguous
  float-IsEncoded bits finite = (double bits, ground arith, refl, refl)

  moment-IsEncoded : (t : DateTime) → t.zone ≡ ahead 0 → IsEncoded (moment t)
  unfolding encode Presents is_unambiguous
  moment-IsEncoded t utc =
      let utc' : is_utc t ≡ true = rw utc refl in
      (string (reg.isoformat t), ground arith, refl, refl)

  -- A typed value is encoded, and what it is encoded to presents it.
  pub encode-Typed : (n : ℕ) (v : Value) (s : Schema) → HasType reg n v s → IsEncoded v
  unfolding HasType
  encode-Typed zero v s h = absurd h
  encode-Typed (suc n) v none_type h = subst IsEncoded (sym h) (scalar-IsEncoded absent)
  encode-Typed (suc n) v bool_type (b, same) =
      subst IsEncoded (sym same) (scalar-IsEncoded (flag b))
  encode-Typed (suc n) v int_type (m, same) =
      subst IsEncoded (sym same) (scalar-IsEncoded (number m))
  encode-Typed (suc n) v str_type (s, same) = subst IsEncoded (sym same) (scalar-IsEncoded (word s))
  encode-Typed (suc n) v float_type (bits, same, finite) =
      subst IsEncoded (sym same) (float-IsEncoded bits finite)
  encode-Typed (suc n) v datetime_type (t, same, utc, back) =
      subst IsEncoded (sym same) (moment-IsEncoded t utc)
  encode-Typed (suc n) v (enum_type name) (inl (s, same, has)) =
      subst IsEncoded (sym same) (member-IsEncoded name (word s))
  encode-Typed (suc n) v (enum_type name) (inr (m, same, has)) =
      subst IsEncoded (sym same) (member-IsEncoded name (number m))
  encode-Typed (suc n) v (record_type name) (fields, hints, same, declared, distinct, typed, made) =
      let distinct' : all_distinct (field_names fields) ≡ true =
        rw (field_names-hint_names reg (HasType reg n) fields hints typed) distinct in
      entity-IsEncoded v name fields hints same declared distinct'
        (fields-encoded (HasType reg n) (encode-Typed n) fields hints typed distinct')
  encode-Typed (suc n) v (alias_type name) h = encode-Typed n v (reg.alias_value name) h
  encode-Typed (suc n) v (literal_type options) (option, same, listed) =
      subst IsEncoded (sym same) (scalar-IsEncoded option)
  encode-Typed (suc n) v (union_type options) h =
      Chosen-IsEncoded (HasType reg n) (encode-Typed n) (Refused reg n v) v options h
  encode-Typed (suc n) v (sequence_type s) (values, same, typed) =
      tuple-IsEncoded v values same (values-encoded (HasType reg n) (encode-Typed n) s values typed)
  encode-Typed (suc n) v (tuple_type schemas) (values, same, typed) =
      tuple-IsEncoded v values same
        (each-encoded (HasType reg n) (encode-Typed n) schemas values typed)
