-- ===== src/Codec/Sorted.antt =====
-- The keys of an object in order (`sort_keys` in agent_company_os/adapters/durable_codec.py): what is
-- found in it.
use nebula_os.Prelude.{
  String, true, false, ◌||◌, ◌≡◌, refl, subst, ◌∙◌, some, List, [], ◌∷◌, arith, mem_text,
  all_distinct, is_subset, eq_iff, str_eq, if◌then◌else◌, inl, inr, Bool-cases,
}
use nebula_os.Codec.Values.{Json, Members, object_end, pair}
use nebula_os.Codec.Encode.{
  sort_keys, sort_members, insert_member, names, is_unambiguous, members_unambiguous,
}
use nebula_os.Codec.Decode.{find}

find-insert_member :
    (k l : String) (j : Json) (members : Members)
    → mem_text l (names members) ≡ false
    → find k (insert_member l j members) ≡ (if str_eq l k then some j else find k members)
unfolding insert_member
find-insert_member k l j object_end new = refl
find-insert_member k l j (pair m i members) new =
    ground (arith, find-insert_member k l j members, eq_iff l k, eq_iff m k, eq_iff l m)

mem_text-insert_member :
    (k l : String) (j : Json) (members : Members)
    → mem_text k (names (insert_member l j members)) ≡ (str_eq k l || mem_text k (names members))
unfolding insert_member
mem_text-insert_member k l j object_end = refl
mem_text-insert_member k l j (pair m i members) =
    ground (arith, mem_text-insert_member k l j members)

all_distinct-insert_member :
    (l : String) (j : Json) (members : Members)
    → mem_text l (names members) ≡ false
    → all_distinct (names members) ≡ true
    → all_distinct (names (insert_member l j members)) ≡ true
unfolding insert_member
all_distinct-insert_member l j object_end new distinct = refl
all_distinct-insert_member l j (pair m i members) new distinct = ground (
  arith,
  all_distinct-insert_member l j members,
  mem_text-insert_member m l j members,
  eq_iff l m,
  eq_iff m l,
)

pub unambiguous-insert_member :
    (l : String) (j : Json) (members : Members)
    → mem_text l (names members) ≡ false
    → is_unambiguous j ≡ true
    → members_unambiguous members ≡ true
    → members_unambiguous (insert_member l j members) ≡ true
unfolding insert_member is_unambiguous
unambiguous-insert_member l j object_end new clear rest = ground arith
unambiguous-insert_member l j (pair m i members) new clear rest = ground (
  arith,
  unambiguous-insert_member l j members,
  mem_text-insert_member m l j members,
  eq_iff l m,
  eq_iff m l,
)

pub mem_text-sort_members :
    (k : String) (members : Members)
    → mem_text k (names (sort_members members)) ≡ mem_text k (names members)
unfolding sort_keys
mem_text-sort_members k object_end = refl
mem_text-sort_members k (pair l j members) = ground (
  arith,
  mem_text-insert_member k l (sort_keys j) (sort_members members),
  mem_text-sort_members k members,
)

pub all_distinct-sort_members :
    (members : Members)
    → all_distinct (names members) ≡ true
    → all_distinct (names (sort_members members)) ≡ true
unfolding sort_keys
all_distinct-sort_members object_end h = refl
all_distinct-sort_members (pair l j members) h =
    all_distinct-insert_member l (sort_keys j) (sort_members members)
      (ground (arith, mem_text-sort_members l members))
      (all_distinct-sort_members members (ground arith))

-- A member that is found is found in order, with its own keys in order.
pub find-sort_members :
    (k : String) (j : Json) (members : Members)
    → all_distinct (names members) ≡ true
    → find k members ≡ some j
    → find k (sort_members members) ≡ some (sort_keys j)
unfolding sort_keys
find-sort_members k j object_end distinct h = absurd (cc)
find-sort_members k j (pair l i members) distinct h =
    let e =
      find-insert_member k l (sort_keys i) (sort_members members)
        (ground (arith, mem_text-sort_members l members)) in
    elim (Bool-cases (str_eq l k)) [
      | inl same ↦
          let own : i ≡ j = ground arith in
          e ∙ rw same (subst (λ x. some (sort_keys i) ≡ some (sort_keys x)) own refl)
      | inr other ↦
          let ih = find-sort_members k j members (ground arith) (ground arith) in e ∙ rw other ih
    ]

pub is_subset-by :
    (a b d : List String)
    → ((k : String) → mem_text k b ≡ mem_text k d)
    → is_subset a b ≡ is_subset a d
is_subset-by [] b d same = refl
is_subset-by (x ∷ a) b d same = ground (arith, same x, is_subset-by a b d same)
