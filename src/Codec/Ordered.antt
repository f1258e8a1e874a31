-- ===== src/Codec/Ordered.antt =====
-- What has its keys in order presents what it did before (`sort_keys` in
-- agent_company_os/adapters/durable_codec.py).
use nebula_os.Prelude.{
  String, true, ◌≡◌, refl, sym, ◌∙◌, List, [], ◌∷◌, arith, mem_text, all_distinct, is_subset,
  eq_iff,
}
use nebula_os.Codec.Values.{
  Json, Items, Members, null, boolean, integer, double, string, array, object, array_end, item,
  object_end, pair, Scalar, absent, flag, number, word, scalar_json, Value, Values, Fields, nothing,
  truth, whole, float, text, moment, member, tuple, entity, tuple_end, next_value, entity_end,
  field, Registry,
}
use nebula_os.Codec.Encode.{
  sort_keys, sort_items, sort_members, names, is_unambiguous, items_unambiguous,
  members_unambiguous,
}
use nebula_os.Codec.Decode.{same_texts}
use nebula_os.Codec.Typed.{Presents, PresentsItems, PresentsFields, field_names}
use nebula_os.Codec.Sorted.{
  all_distinct-sort_members, find-sort_members, is_subset-by, mem_text-sort_members,
  unambiguous-insert_member,
}

subset-mem :
    (a b : List String) (k : String)
    → is_subset a b ≡ true
    → mem_text k a ≡ true
    → mem_text k b ≡ true
subset-mem [] b k h m = absurd (cc)
subset-mem (x ∷ a) b k h m = ground (arith, subset-mem a b k, eq_iff k x)

mem-subset :
    (a b : List String)
    → ((k : String) → mem_text k a ≡ true → mem_text k b ≡ true)
    → is_subset a b ≡ true
mem-subset [] b h = refl
mem-subset (x ∷ a) b h =
    let first = h x (ground (arith, eq_iff x x)) in
    let rest = mem-subset a b (λ k m. h k (ground arith)) in ground arith

same_texts-sort_members :
    (members : Members) (ns : List String)
    → same_texts (names members) ns ≡ true
    → same_texts (names (sort_members members)) ns ≡ true
same_texts-sort_members members ns h =
    let sorted = names (sort_members members) in
    let low : is_subset sorted ns ≡ true = mem-subset sorted ns (λ k m.
      subset-mem (names members) ns k (ground arith) (sym (mem_text-sort_members k members) ∙ m)) in
    let high = is_subset-by ns sorted (names members) (λ k. mem_text-sort_members k members) in
    ground arith

mutual
  unfolding sort_keys is_unambiguous

  -- Ordered keys stay distinct.
  pub unambiguous-sort_keys :
      (j : Json) → is_unambiguous j ≡ true → is_unambiguous (sort_keys j) ≡ true
  unambiguous-sort_keys (array items) h = unambiguous-sort_items items h
  unambiguous-sort_keys (object members) h = unambiguous-sort_members members h
  unambiguous-sort_keys null h = refl
  unambiguous-sort_keys (boolean b) h = refl
  unambiguous-sort_keys (integer n) h = refl
  unambiguous-sort_keys (double bits) h = refl
  unambiguous-sort_keys (string s) h = refl

  unambiguous-sort_items :
      (items : Items) → items_unambiguous items ≡ true → items_unambiguous (sort_items items) ≡ true
  unambiguous-sort_items array_end h = refl
  unambiguous-sort_items (item j items) h =
      ground (arith, unambiguous-sort_keys j, unambiguous-sort_items items)

  unambiguous-sort_members :
      (members : Members)
      → members_unambiguous members ≡ true
      → members_unambiguous (sort_members members) ≡ true
  unambiguous-sort_members object_end h = refl
  unambiguous-sort_members (pair k j members) h =
      unambiguous-insert_member k (sort_keys j) (sort_members members)
        (ground (arith, mem_text-sort_members k members)) (unambiguous-sort_keys j (ground arith))
        (unambiguous-sort_members members (ground arith))

scalar_json-sort_keys : (raw : Scalar) → sort_keys (scalar_json raw) ≡ scalar_json raw
unfolding sort_keys
scalar_json-sort_keys absent = refl
scalar_json-sort_keys (flag b) = refl
scalar_json-sort_keys (number n) = refl
scalar_json-sort_keys (word s) = refl

module _ (reg : Registry) where
  mutual
    unfolding sort_keys Presents

    -- What presents a value does so with its keys in order.
    pub Presents-sort_keys :
        (v : Value) (j : Json) → Presents reg v j → Presents reg v (sort_keys j)
    Presents-sort_keys nothing j h = rw h refl
    Presents-sort_keys (truth b) j h = rw h refl
    Presents-sort_keys (whole n) j h = rw h refl
    Presents-sort_keys (float bits) j h = rw h refl
    Presents-sort_keys (text s) j h = rw h refl
    Presents-sort_keys (moment t) j h = rw h refl
    Presents-sort_keys (member enumeration raw) j h = rw h (scalar_json-sort_keys raw)
    Presents-sort_keys (tuple values) j (items, same, shown) =
        (sort_items items, rw same refl, Presents-sort_items values items shown)
    Presents-sort_keys (entity name fields) j (members, same, distinct, covered, shown) = (
      sort_members members,
      rw same refl,
      all_distinct-sort_members members distinct,
      same_texts-sort_members members (field_names fields) covered,
      Presents-sort_members fields members distinct shown,
    )

    Presents-sort_items :
        (values : Values) (items : Items)
        → PresentsItems reg values items
        → PresentsItems reg values (sort_items items)
    Presents-sort_items tuple_end items h = rw h refl
    Presents-sort_items (next_value v values) items (j, rest, same, shown, others) = (
      sort_keys j,
      sort_items rest,
      rw same refl,
      Presents-sort_keys v j shown,
      Presents-sort_items values rest others,
    )

    Presents-sort_members :
        (fields : Fields) (members : Members)
        → all_distinct (names members) ≡ true
        → PresentsFields reg fields members
        → PresentsFields reg fields (sort_members members)
    Presents-sort_members entity_end members distinct h = tt
    Presents-sort_members (field k v fields) members distinct (j, found, shown, rest) = (
      sort_keys j,
      find-sort_members k j members distinct found,
      Presents-sort_keys v j shown,
      Presents-sort_members fields members distinct rest,
    )
