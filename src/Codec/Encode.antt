-- ===== src/Codec/Encode.antt =====
-- `_encode` and the order of keys in the text (agent_company_os/adapters/durable_codec.py).
use Prim.Native.Char.{code}
use nebula_os.Prelude.{
  String, Bool, true, false, ◌&&◌, ◌||◌, none, some, List, [], ◌∷◌, ltb, ◌==◌, mem_text,
  if◌then◌else◌,
}
use nebula_os.Domain.Validation.{is_utc}
use nebula_os.Codec.Values.{
  Json, Items, Members, null, boolean, integer, double, string, array, object, array_end, item,
  object_end, pair, Value, Values, Fields, nothing, truth, whole, float, text, moment, member,
  tuple, entity, tuple_end, next_value, entity_end, field, Registry, Attempt, done, failed, ◌>>=◌,
  invalid, is_finite, scalar_json, domain,
}
use nebula_os.Domain.Errors.{invariant_violation}

-- `type(value) in _RECORD_TYPES`
abbrev pub is_registered : Registry → String → Bool
is_registered reg name = elim (reg.declared name) [ none ↦ false | some hints ↦ true ]

unfoldable mutual
  pub encode : Registry → Value → Attempt Json
  encode reg (member enumeration raw) = done (scalar_json raw)
  encode reg (moment t) =
      if is_utc t
      then done (string (reg.isoformat t))
      else failed (domain (invariant_violation "utc_aware_datetime"))
  encode reg (entity name fields) =
      let encoded = encode_fields reg fields in
      if is_registered reg name
      then (encoded >>= λ members. done (object members))
      else failed invalid
  encode reg (tuple values) = encode_values reg values >>= λ items. done (array items)
  encode reg (float bits) = if is_finite bits then done (double bits) else failed invalid
  encode reg nothing = done null
  encode reg (truth b) = done (boolean b)
  encode reg (whole n) = done (integer n)
  encode reg (text s) = done (string s)

  pub encode_values : Registry → Values → Attempt Items
  encode_values reg tuple_end = done array_end
  encode_values reg (next_value v values) =
      encode reg v >>= λ j. encode_values reg values >>= λ items. done (item j items)

  pub encode_fields : Registry → Fields → Attempt Members
  encode_fields reg entity_end = done object_end
  encode_fields reg (field name v fields) =
      encode reg v >>= λ j. encode_fields reg fields >>= λ members. done (pair name j members)

-- The order of `str`, by the code points.
unfoldable pub str_before : String → String → Bool
str_before String.[] String.[] = false
str_before String.[] (String.◌∷◌ d t) = true
str_before (String.◌∷◌ c s) String.[] = false
str_before (String.◌∷◌ c s) (String.◌∷◌ d t) =
    ltb (code c) (code d) || (code c == code d && str_before s t)

unfoldable pub insert_member : String → Json → Members → Members
unfolding str_before
insert_member k j object_end = pair k j object_end
insert_member k j (pair l i members) =
    if str_before l k then pair l i (insert_member k j members) else pair k j (pair l i members)

-- `sort_keys=True`
unfoldable mutual
  unfolding insert_member

  pub sort_keys : Json → Json
  sort_keys (array items) = array (sort_items items)
  sort_keys (object members) = object (sort_members members)
  sort_keys null = null
  sort_keys (boolean b) = boolean b
  sort_keys (integer n) = integer n
  sort_keys (double bits) = double bits
  sort_keys (string s) = string s

  pub sort_items : Items → Items
  sort_items array_end = array_end
  sort_items (item j items) = item (sort_keys j) (sort_items items)

  pub sort_members : Members → Members
  sort_members object_end = object_end
  sort_members (pair k j members) = insert_member k (sort_keys j) (sort_members members)

abbrev pub names : Members → List String
names object_end = []
names (pair k j members) = k ∷ names members

-- `_pairs`, at each object: no key comes twice.
unfoldable mutual
  pub is_unambiguous : Json → Bool
  is_unambiguous (array items) = items_unambiguous items
  is_unambiguous (object members) = members_unambiguous members
  is_unambiguous null = true
  is_unambiguous (boolean b) = true
  is_unambiguous (integer n) = true
  is_unambiguous (double bits) = true
  is_unambiguous (string s) = true

  pub items_unambiguous : Items → Bool
  items_unambiguous array_end = true
  items_unambiguous (item j items) = is_unambiguous j && items_unambiguous items

  pub members_unambiguous : Members → Bool
  members_unambiguous object_end = true
  members_unambiguous (pair k j members) =
      (if mem_text k (names members) then false else true)
      && is_unambiguous j
      && members_unambiguous members
