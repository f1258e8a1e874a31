-- ===== src/Codec/RoundTrip.antt =====
-- Records through their texts and back (`encode_record` and `decode_record` of
-- agent_company_os/adapters/durable_codec.py).
use nebula_os.Prelude.{ℕ, zero, suc, String, true, ◌≡◌, refl, some, arith, eq_iff}
use nebula_os.Codec.Values.{Json, Value, record_type, Registry, done}
use nebula_os.Codec.Encode.{encode, sort_keys, is_registered, is_unambiguous}
use nebula_os.Codec.Decode.{decode}
use nebula_os.Codec.Records.{Library, envelope, encode_record, decode_record, class_name}
use nebula_os.Codec.Typed.{HasType}
use nebula_os.Codec.Decoded.{decode-Presents}
use nebula_os.Codec.Encoded.{encode-Typed}
use nebula_os.Codec.Ordered.{unambiguous-sort_keys, Presents-sort_keys}

module _ (reg : Registry) (lib : Library) (depth : ℕ) where
  -- A value of a record type is a record of this class, and the class is registered.
  record-class :
      (name : String) (v : Value)
      → HasType reg depth v (record_type name)
      → (class_name v ≡ some name) × (is_registered reg name ≡ true)
  unfolding HasType
  record-class name v h = by_depth depth h
    where
      by_depth :
          (n : ℕ)
          → HasType reg n v (record_type name)
          → (class_name v ≡ some name) × (is_registered reg name ≡ true)
      by_depth zero h = absurd h
      by_depth (suc n) (fields, hints, same, declared, distinct, typed, made) =
          (rw same refl, ground arith)

  written :
      (name : String) (v : Value) (j : Json)
      → class_name v ≡ some name
      → is_registered reg name ≡ true
      → encode reg v ≡ done j
      → decode reg depth j (record_type name) ≡ done v
      → lib.equal v v ≡ true
      → encode_record reg lib depth v ≡ done (lib.dumps (envelope name (sort_keys j)))
  unfolding encode_record
  written name v j named registered encoded decoded same = ground arith

  read :
      (name : String) (v : Value) (j : Json) (s : String)
      → is_registered reg name ≡ true
      → is_unambiguous j ≡ true
      → decode reg depth j (record_type name) ≡ done v
      → lib.loads s ≡ some (envelope name j)
      → decode_record reg lib depth s name ≡ done v
  unfolding decode_record is_unambiguous
  read name v j s registered clear decoded loaded = ground (arith, eq_iff name name)

  -- A record of its declared type is written without an error, and what is written is read back as
  -- the same record, provided that `json` reads back the text it wrote and that the record equals
  -- itself.
  pub decode_record-encode_record :
      (name : String) (v : Value)
      → HasType reg depth v (record_type name)
      → lib.equal v v ≡ true
      → ((j : Json)
          → encode reg v ≡ done j
          → lib.loads (lib.dumps (envelope name (sort_keys j)))
            ≡ some (envelope name (sort_keys j)))
      → (s : String) × (encode_record reg lib depth v ≡ done s)
        × (decode_record reg lib depth s name ≡ done v)
  decode_record-encode_record name v typed same reads_back =
      let (named, registered) = record-class name v typed in
      let (j, encoded, shown, clear) = encode-Typed reg depth v (record_type name) typed in
      let decoded = decode-Presents reg depth v (record_type name) j typed shown in
      let decoded' =
        decode-Presents reg depth v (record_type name) (sort_keys j) typed
          (Presents-sort_keys reg v j shown) in
      (
        lib.dumps (envelope name (sort_keys j)),
        written name v j named registered encoded decoded same,
        read name v (sort_keys j) (lib.dumps (envelope name (sort_keys j))) registered
            (unambiguous-sort_keys j clear) decoded' (reads_back j encoded),
      )
