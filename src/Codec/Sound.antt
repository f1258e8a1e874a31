-- ===== src/Codec/Sound.antt =====
-- What decoding returns is of the type that is asked for
-- (agent_company_os/adapters/durable_codec.py).
use nebula_os.Prelude.{ℕ, zero, suc, String, true, ◌≡◌, sym, inl, inr, Option-cases, some, arith}
use nebula_os.Codec.Values.{
  ℤ, Json, integer, double, array, Value, float, Schema, none_type, bool_type, int_type, str_type,
  float_type, datetime_type, enum_type, record_type, alias_type, literal_type, union_type,
  sequence_type, tuple_type, Registry, Attempt, done, failed, ◌>>=◌, is_finite,
}
use nebula_os.Codec.Decode.{decode, decode_items, decode_float}
use nebula_os.Codec.Records.{Library, decode_record, decode_parsed, open_envelope, as_invalid}
use nebula_os.Codec.Made.{
  IsOf, done_injective, first_done, items-AllValues, each-EachTyped, fields-FieldsTyped,
  first-OneOf,
}
use nebula_os.Codec.Leaves.{
  none-is, bool-is, int-is, str-is, literal-is, enum-is, datetime-is, tuple-is, entity-is,
}

module _ (reg : Registry)
    (floats_finite : (m : ℤ) (bits : ℕ) → reg.float_of m ≡ some bits → is_finite bits ≡ true) where
  float-is :
      (j : Json) (v : Value)
      → decode_float reg j ≡ done v
      → (bits : ℕ) × (v ≡ float bits) × (is_finite bits ≡ true)
  unfolding decode_float
  float-is (double bits) v h = (bits, ground arith, ground arith)
  float-is (integer m) v h = elim (Option-cases (reg.float_of m)) [
    | inl e ↦ ground arith
    | inr (bits, e) ↦ (bits, ground arith, floats_finite m bits e)
  ]
  float-is j v h = ground arith

  -- A value that is decoded against a type is one of the type.
  pub decode-IsOf :
      (n : ℕ) (j : Json) (s : Schema) (v : Value) → decode reg n j s ≡ done v → IsOf reg n v s
  unfolding decode IsOf
  decode-IsOf zero j s v h = ground arith
  decode-IsOf (suc n) j none_type v h = none-is j v h
  decode-IsOf (suc n) j bool_type v h = bool-is j v h
  decode-IsOf (suc n) j int_type v h = int-is j v h
  decode-IsOf (suc n) j str_type v h = str-is j v h
  decode-IsOf (suc n) j float_type v h = float-is j v h
  decode-IsOf (suc n) j datetime_type v h = datetime-is reg j v h
  decode-IsOf (suc n) j (enum_type name) v h = enum-is reg name j v h
  decode-IsOf (suc n) j (record_type name) v h =
      let (members, hints, fields, e, e', made) = entity-is reg (decode reg n) name j v h in
      (
        fields,
        hints,
        e,
        fields-FieldsTyped (decode reg n) (IsOf reg n) (decode-IsOf n) members hints fields e',
        made,
      )
  decode-IsOf (suc n) j (alias_type name) v h = decode-IsOf n j (reg.alias_value name) v h
  decode-IsOf (suc n) j (literal_type options) v h = literal-is options j v h
  decode-IsOf (suc n) j (union_type options) v h =
      first-OneOf (decode reg n j) (IsOf reg n v) v (λ s. decode-IsOf n j s v) options h
  decode-IsOf (suc n) (array items) (sequence_type s) v h =
      let (values, e, h') = first_done (decode_items (λ i. decode reg n i s) items) _ v h in
      (
        values,
        sym (done_injective h'),
        items-AllValues (λ i. decode reg n i s) (λ w. IsOf reg n w s) (λ i w. decode-IsOf n i s w)
            items values e,
      )
  decode-IsOf (suc n) j (sequence_type s) v h = ground arith
  decode-IsOf (suc n) j (tuple_type schemas) v h =
      let (items, values, same, e) = tuple-is (decode reg n) schemas j v h in
      (
        values,
        same,
        each-EachTyped (decode reg n) (IsOf reg n) (decode-IsOf n) schemas items values e,
      )

  module _ (lib : Library) (depth : ℕ) where
    from-as_invalid :
        (a : Attempt Value) (v : Value) → as_invalid reg lib depth a ≡ done v → a ≡ done v
    from-as_invalid (done w) v h = h
    from-as_invalid (failed error) v h = ground arith

    -- A record that `decode_record` reads from a text is one of the type asked for: its class is
    -- registered, its fields have the names and types that the class declares, and so in every record,
    -- tuple, union and alias inside of it, times are in UTC and floats finite, and the constructor of
    -- each class has made the record of these fields; provided that a float made of an integer is
    -- finite.
    pub decode_record-IsOf :
        (s : String) (name : String) (v : Value)
        → decode_record reg lib depth s name ≡ done v
        → IsOf reg depth v (record_type name)
    unfolding decode_record decode_parsed
    decode_record-IsOf s name v h = elim (Option-cases (lib.loads s)) [
      | inl e ↦ ground arith
      | inr (j, e) ↦
          let parsed = from-as_invalid (decode_parsed reg lib depth name j) v (ground arith) in
          let chain : (open_envelope reg lib depth name j >>= λ payload.
          decode reg depth payload (record_type name))
              ≡ done v =
            ground arith in
          let (payload, e', h') = first_done (open_envelope reg lib depth name j) _ v chain in
          decode-IsOf depth payload (record_type name) v h'
    ]
