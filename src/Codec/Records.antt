-- ===== src/Codec/Records.antt =====
-- `encode_record`, `decode_record` and their like of agent_company_os/adapters/durable_codec.py.
use nebula_os.Prelude.{
  ℕ, String, Bool, false, ◌&&◌, Option, none, some, [], ◌∷◌, str_eq, if◌then◌else◌,
}
use nebula_os.Codec.Values.{
  pos, same_int, Json, integer, string, object, object_end, pair, Value, entity, Schema,
  record_type, Registry, Attempt, done, failed, ◌>>=◌, invalid, wrong_value, recursion_error,
}
use nebula_os.Codec.Encode.{encode, sort_keys, names, is_registered, is_unambiguous}
use nebula_os.Codec.Decode.{decode, find, same_texts}

-- The `json` library, and Python's `==` of two values.
pub record Library : Type 0 where
  pub dumps : Json → String
  pub loads : String → Option Json
  pub equal : Value → Value → Bool

-- The object that is written for a record, its keys in order.
abbrev pub envelope : (name : String) → Json → Json
envelope name payload = object (
    pair "payload" payload
      (pair "schema_version" (integer (pos 1)) (pair "type" (string name) object_end)))

abbrev pub class_name : Value → Option String
class_name (entity name fields) = some name
class_name v = none

module _ (reg : Registry) (lib : Library) (depth : ℕ) where
  -- What follows the first test of `encode_record`.
  unfoldable pub encode_checked : (name : String) → Value → Attempt String
  unfolding encode decode sort_keys
  encode_checked name record' = encode reg record' >>= λ payload.
      decode reg depth payload (record_type name) >>= λ decoded.
      if lib.equal decoded record'
      then done (lib.dumps (envelope name (sort_keys payload)))
      else failed invalid

  unfoldable pub encode_record : Value → Attempt String
  unfolding encode_checked
  encode_record record' = elim (class_name record') [
    | none ↦ failed invalid
    | some name ↦ if is_registered reg name then encode_checked name record' else failed invalid
  ]

  -- The tests of the envelope.
  abbrev pub is_version_1 : Option Json → Bool
  is_version_1 (some (integer n)) = same_int n (pos 1)
  is_version_1 j = false

  abbrev pub is_text : String → Option Json → Bool
  is_text name (some (string s)) = str_eq s name
  is_text name j = false

  unfoldable pub open_envelope : (name : String) → Json → Attempt Json
  open_envelope name (object members) = elim (find "payload" members) [
    | none ↦ failed invalid
    | some payload ↦
        if same_texts (names members) ("schema_version" ∷ "type" ∷ "payload" ∷ [])
          && is_version_1 (find "schema_version" members)
          && is_text name (find "type" members)
          && is_registered reg name
        then done payload
        else failed invalid
  ]
  open_envelope name j = failed invalid

  -- `except (TypeError, ValueError, KeyError, AttributeError, RecursionError)`
  abbrev pub as_invalid : Attempt Value → Attempt Value
  as_invalid (failed wrong_value) = failed invalid
  as_invalid (failed recursion_error) = failed invalid
  as_invalid (failed error) = failed error
  as_invalid (done v) = done v

  unfoldable pub decode_parsed : (name : String) → Json → Attempt Value
  unfolding open_envelope decode is_unambiguous
  decode_parsed name j =
      if is_unambiguous j
      then (open_envelope name j >>= λ payload. decode reg depth payload (record_type name))
      else failed invalid

  -- A text that is no JSON is a `ValueError`.
  unfoldable pub decode_record : String → (name : String) → Attempt Value
  unfolding decode_parsed
  decode_record serialized name = elim (lib.loads serialized) [
    | none ↦ failed invalid
    | some j ↦ as_invalid (decode_parsed name j)
  ]

  -- `encode_value` and `decode_value`, for keys and tuples
  unfoldable pub encode_value : Value → Schema → Attempt String
  unfolding encode decode sort_keys
  encode_value v expected = encode reg v >>= λ encoded.
      decode reg depth encoded expected >>= λ decoded.
      if lib.equal decoded v then done (lib.dumps (sort_keys encoded)) else failed invalid

  unfoldable pub decode_value : String → Schema → Attempt Value
  unfolding decode is_unambiguous
  decode_value serialized expected = elim (lib.loads serialized) [
    | none ↦ failed invalid
    | some j ↦
        let decoded = decode reg depth j expected in
        if is_unambiguous j then as_invalid decoded else failed invalid
  ]
