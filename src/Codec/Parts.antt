-- ===== src/Codec/Parts.antt =====
-- The parts of what presents a value, decoded (agent_company_os/adapters/durable_codec.py).
use nebula_os.Prelude.{ℕ, suc, String, true, ◌≡◌, refl, ap, inl, inr, List, [], ◌∷◌, arith}
use nebula_os.Codec.Values.{
  Json, Items, Members, Scalar, absent, flag, number, word, Value, Values, Fields, tuple_end,
  next_value, entity_end, field, Schema, Schemas, hints_end, schema, Registry, Attempt, done,
  failed, Failure, is_caught, scalar_json, scalar_value,
}
use nebula_os.Codec.Decode.{
  hint_names, plain, decode_fields, decode_items, decode_each, first_of, count_items, count_schemas,
}
use nebula_os.Codec.Typed.{
  Presents, PresentsItems, PresentsFields, AllValues, EachTyped, FieldsTyped, Chosen, field_names,
}

module _ (reg : Registry) where
  pub scalar-Presents :
      (option : Scalar) (j : Json) → Presents reg (scalar_value option) j → j ≡ scalar_json option
  unfolding Presents
  scalar-Presents absent j h = h
  scalar-Presents (flag b) j h = h
  scalar-Presents (number n) j h = h
  scalar-Presents (word s) j h = h

  pub plain-scalar : (option : Scalar) → plain (scalar_json option) ≡ done (scalar_value option)
  plain-scalar absent = refl
  plain-scalar (flag b) = refl
  plain-scalar (number n) = refl
  plain-scalar (word s) = refl

  pub field_names-hint_names :
      (T : Value → Schema → Type 0) (fields : Fields) (hints : List (String × Schema))
      → FieldsTyped T fields hints
      → field_names fields ≡ hint_names hints
  field_names-hint_names T entity_end [] h = refl
  field_names-hint_names T entity_end (hint ∷ hints) h = absurd h
  field_names-hint_names T (field k v fields) [] h = absurd h
  field_names-hint_names T (field k v fields) ((name, s) ∷ hints) h =
      cc (h.0, field_names-hint_names T fields hints h.2)

  module _ (f : Json → Schema → Attempt Value) (T : Value → Schema → Type 0)
      (decodes : (v : Value) (s : Schema) (j : Json)
        → T v s
        → Presents reg v j
        → f j s ≡ done v) where
    pub fields-decoded :
        (fields : Fields) (hints : List (String × Schema)) (members : Members)
        → FieldsTyped T fields hints
        → PresentsFields reg fields members
        → decode_fields f members hints ≡ done fields
    unfolding decode_fields PresentsFields
    fields-decoded entity_end [] members h p = refl
    fields-decoded entity_end (hint ∷ hints) members h p = absurd h
    fields-decoded (field k v fields) [] members h p = absurd h
    fields-decoded (field k v fields) ((name, s) ∷ hints) members h p =
        let (j, found, shown, rest) = p in
        let e = decodes v s j h.1 shown in
        let same = h.0 in let ih = fields-decoded fields hints members h.2 rest in ground arith

    pub items-decoded :
        (s : Schema) (values : Values) (items : Items)
        → AllValues (λ v. T v s) values
        → PresentsItems reg values items
        → decode_items (λ j. f j s) items ≡ done values
    unfolding decode_items PresentsItems
    items-decoded s tuple_end items h p = rw p refl
    items-decoded s (next_value v values) items h p =
        let (j, rest, same, shown, others) = p in
        let e = decodes v s j h.0 shown in
        let ih = items-decoded s values rest h.1 others in rw same (ground arith)

    pub each-decoded :
        (schemas : Schemas) (values : Values) (items : Items)
        → EachTyped T values schemas
        → PresentsItems reg values items
        → (decode_each f schemas items ≡ done values) × (count_items items ≡ count_schemas schemas)
    unfolding decode_each PresentsItems
    each-decoded hints_end tuple_end items h p = rw p (refl, refl)
    each-decoded hints_end (next_value v values) items h p = absurd h
    each-decoded (schema s schemas) tuple_end items h p = absurd h
    each-decoded (schema s schemas) (next_value v values) items h p =
        let (j, rest, same, shown, others) = p in
        let e = decodes v s j h.0 shown in
        let (ih, count) = each-decoded schemas values rest h.1 others in
        rw same (ground arith, ap suc count)

    pub Chosen-decoded :
        (n : ℕ) (v : Value) (j : Json) (options : Schemas)
        → Presents reg v j
        → Chosen
            (T v)
            (λ s. (error : Failure) × (f j s ≡ failed error) × (is_caught error ≡ true))
            options
        → first_of (f j) options ≡ done v
    unfolding first_of
    Chosen-decoded n v j hints_end p h = absurd h
    Chosen-decoded n v j (schema s schemas) p (inl typed) =
        let e = decodes v s j typed p in ground arith
    Chosen-decoded n v j (schema s schemas) p (inr (refused, rest)) =
        let (error, raised, caught) = refused in
        let ih = Chosen-decoded n v j schemas p rest in ground arith

pub Chosen-weaken :
    (T R Q : Schema → Type 0) (options : Schemas)
    → ((s : Schema) → R s → Q s)
    → Chosen T R options
    → Chosen T Q options
Chosen-weaken T R Q hints_end k h = h
Chosen-weaken T R Q (schema s schemas) k (inl t) = inl t
Chosen-weaken T R Q (schema s schemas) k (inr (r, rest)) =
    inr (k s r, Chosen-weaken T R Q schemas k rest)
