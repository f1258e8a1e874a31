-- ===== src/Codec/Tests.antt =====
-- A small registry, and a record through its text.
use nebula_os.Prelude.{
  ℕ, String, true, false, ◌≡◌, refl, none, some, inl, inr, List, [], ◌∷◌, arith, str_eq,
  if◌then◌else◌,
}
use nebula_os.Domain.Validation.{DateTime, ahead}
use nebula_os.Codec.Values.{
  ℤ, float, is_finite, float_type, failed, overflow_error, pos, Json, integer, string, object,
  object_end, pair, Value, whole, text, moment, entity, entity_end, field, Schema, none_type,
  int_type, str_type, datetime_type, record_type, union_type, hints_end, schema, Registry, done,
  invalid,
}
use nebula_os.Codec.Encode.{is_unambiguous, encode, sort_keys, insert_member, str_before}
use nebula_os.Codec.Decode.{decode, decode_entity, decode_fields, decode_float, decode_none}
use nebula_os.Codec.Records.{
  Library, envelope, encode_record, decode_record, decode_parsed, open_envelope,
}
use nebula_os.Codec.Typed.{Presents, HasType}
use nebula_os.Codec.Made.{IsOf}
use nebula_os.Codec.Sound.{decode_record-IsOf}
use nebula_os.Codec.RoundTrip.{decode_record-encode_record}

abbrev noon : DateTime
noon = record { instant = 5; zone = ahead 0 }

abbrev note_hints : List (String × Schema)
note_hints =
    ("title", str_type)
    ∷ ("mark", union_type (schema none_type (schema int_type hints_end)))
    ∷ ("at", datetime_type)
    ∷ []

abbrev registry : Registry
registry = record {
  declared = λ name. if str_eq name "Note" then some note_hints else none;
  construct = λ name fields. done (entity name fields);
  has_member = λ name raw. false;
  alias_value = λ name. none_type;
  isoformat = λ t. "noon";
  fromisoformat = λ s. some noon;
  float_of = λ n. none;
}

abbrev note : Value
note =
    entity "Note" (
      field "title" (text "a") (field "mark" (whole (pos 3)) (field "at" (moment noon) entity_end)))

abbrev payload : Json
payload = object (
    pair "at" (string "noon")
      (pair "mark" (integer (pos 3)) (pair "title" (string "a") object_end)))

abbrev library : Library
library = record {
  dumps = λ j. "text";
  loads = λ s. some (envelope "Note" payload);
  equal = λ v w. true;
}

note-HasType : HasType registry 4 note (record_type "Note")
unfolding HasType Presents decode decode_none
note-HasType = (
  field "title" (text "a") (field "mark" (whole (pos 3)) (field "at" (moment noon) entity_end)),
  note_hints,
  refl,
  refl,
  refl,
  (
    refl,
    ("a", refl),
    (
      refl,
      inr ((λ j p. (invalid, rw p refl, refl)), inl (pos 3, refl)),
      (refl, (noon, refl, refl, refl), tt),
    ),
  ),
  refl,
)

decode_record-encode_record_example :
    (s : String) × (encode_record registry library 4 note ≡ done s)
    × (decode_record registry library 4 s "Note" ≡ done note)
unfolding encode sort_keys insert_member str_before
decode_record-encode_record_example =
    decode_record-encode_record registry library 4 "Note" note note-HasType refl
      λ j e. sorted_payload j e
  where
    sorted_payload :
        (j : Json)
        → encode registry note ≡ done j
        → some (envelope "Note" payload) ≡ some (envelope "Note" (sort_keys j))
    sorted_payload j e = ground arith

-- A score, of which no float is 3 in this registry: the error of Python is passed on as it is.
overflow_escapes :
    decode
      (record registry { declared = λ name. some (("score", float_type) ∷ []) })
      4
      (object (pair "score" (integer (pos 3)) object_end))
      (record_type "Hit")
    ≡ failed overflow_error
unfolding decode decode_entity decode_fields decode_float
overflow_escapes = refl

-- Scores from texts: each integer is read as the float 0 in this registry.
abbrev scores : Registry
scores = record registry {
  declared = λ name. some (("score", float_type) ∷ []);
  float_of = λ n. some 0;
}

abbrev score_library : Library
score_library = record library {
  loads = λ s. some (envelope "Hit" (object (pair "score" (integer (pos 3)) object_end)));
}

abbrev hit : Value
hit = entity "Hit" (field "score" (float 0) entity_end)

hit_read : decode_record scores score_library 4 "text" "Hit" ≡ done hit
unfolding decode_record decode_parsed open_envelope is_unambiguous decode decode_entity
    decode_fields decode_float
hit_read = refl

zero_finite : (m : ℤ) (bits : ℕ) → some 0 ≡ some bits → is_finite bits ≡ true
zero_finite m bits h = ground arith

decode_record-IsOf_example : IsOf scores 4 hit (record_type "Hit")
decode_record-IsOf_example =
    decode_record-IsOf scores zero_finite score_library 4 "text" "Hit" hit hit_read
