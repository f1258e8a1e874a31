-- ===== src/Planning/Settling.antt =====
-- Outcomes of the search (agent_company_os/domain/plan_validation.py), and the lists that it keeps.
use nebula_os.Prelude.{
  ℕ, ◌<◌, ◌≤◌, String, true, false, ◌≡◌, refl, subst, sym, List, [], ◌∷◌, inl, inr, Bool-cases, All,
  count_if, mem_text, str_eq, eq_iff, eq_refl, arith, if◌then◌else◌,
}
use nebula_os.Planning.Search.{
  Outcome, returns, raises, key_error, out_of_fuel, followed_by, remove,
}

-- The call returns what `P` holds of, or raises a domain error: no `KeyError`, and enough fuel.
abbrev pub Settles : {T : Type 0} → (T → Type 0) → Outcome T → Type 0
Settles P (returns value) = P value
Settles P (raises error) = Unit {0}
Settles P (key_error key) = ⊥
Settles P out_of_fuel = ⊥

-- The call raises no domain error, and what it returns satisfies `P`.
abbrev pub Accepts : {T : Type 0} → (T → Type 0) → Outcome T → Type 0
Accepts P (returns value) = P value
Accepts P (raises error) = ⊥
Accepts P (key_error key) = Unit {0}
Accepts P out_of_fuel = Unit {0}

pub Settles-followed_by :
    {T U : Type 0} (P : T → Type 0) (Q : U → Type 0) (o : Outcome T) (rest : T → Outcome U)
    → Settles P o
    → ((value : T) → P value → Settles Q (rest value))
    → Settles Q (followed_by o rest)
Settles-followed_by P Q (returns value) rest h k = k value h
Settles-followed_by P Q (raises error) rest h k = tt
Settles-followed_by P Q (key_error key) rest h k = h
Settles-followed_by P Q out_of_fuel rest h k = h

pub Accepts-followed_by :
    {T U : Type 0} (P : T → Type 0) (Q : U → Type 0) (o : Outcome T) (rest : T → Outcome U)
    → Accepts P o
    → ((value : T) → P value → Accepts Q (rest value))
    → Accepts Q (followed_by o rest)
Accepts-followed_by P Q (returns value) rest h k = k value h
Accepts-followed_by P Q (raises error) rest h k = h
Accepts-followed_by P Q (key_error key) rest h k = tt
Accepts-followed_by P Q out_of_fuel rest h k = tt

pub Settles-weaken :
    {T : Type 0} (P Q : T → Type 0) (o : Outcome T)
    → ((value : T) → P value → Q value)
    → Settles P o
    → Settles Q o
Settles-weaken P Q (returns value) k h = k value h
Settles-weaken P Q (raises error) k h = tt
Settles-weaken P Q (key_error key) k h = h
Settles-weaken P Q out_of_fuel k h = h

-- A call that settles and raises nothing returns.
pub returned :
    {T : Type 0} (P Q : T → Type 0) (o : Outcome T)
    → Settles P o
    → Accepts Q o
    → (value : T) × (o ≡ returns value) × P value
returned P Q (returns value) s a = (value, refl, s)
returned P Q (raises error) s a = absurd a
returned P Q (key_error key) s a = absurd s
returned P Q out_of_fuel s a = absurd s

pub All-map :
    {A : Type 0} (P Q : A → Type 0) (xs : List A) → ((x : A) → P x → Q x) → All P xs → All Q xs
All-map P Q [] k h = tt
All-map P Q (x ∷ xs) k h = (k x h.0, All-map P Q xs k h.1)

pub All-mem :
    (P : String → Type 0) (k : String) (xs : List String) → All P xs → mem_text k xs ≡ true → P k
All-mem P k [] h m = absurd (cc)
All-mem P k (x ∷ xs) h m = elim (Bool-cases (str_eq k x)) [
  | inl same ↦ subst P (sym ((eq_iff k x).0 same)) h.0
  | inr other ↦ All-mem P k xs h.1 (ground arith)
]

remove-absent : (k : String) (xs : List String) → mem_text k xs ≡ false → remove k xs ≡ xs
remove-absent k [] h = refl
remove-absent k (x ∷ xs) h = ground (arith, remove-absent k xs)

-- Leaving what was entered restores the set.
pub remove-enter : (k : String) (xs : List String) → mem_text k xs ≡ false → remove k (k ∷ xs) ≡ xs
remove-enter k xs h = ground (arith, eq_refl k, remove-absent k xs)

-- How many of the ids are not being visited.
abbrev pub room : (visiting ids : List String) → ℕ
room visiting ids = count_if (λ i. if mem_text i visiting then false else true) ids

room-enter_le : (k : String) (v ids : List String) → room (k ∷ v) ids ≤ room v ids
room-enter_le k v [] = omega arith
room-enter_le k v (i ∷ ids) = ground (arith, room-enter_le k v ids)

-- Entering a node takes from the room.
pub room-enter :
    (k : String) (v ids : List String)
    → mem_text k ids ≡ true
    → mem_text k v ≡ false
    → room (k ∷ v) ids < room v ids
room-enter k v [] m n = absurd (cc)
room-enter k v (i ∷ ids) m n =
    ground (arith, eq_iff k i, eq_iff i k, eq_refl k, room-enter_le k v ids, room-enter k v ids)

pub room-le : (v ids : List String) → room v ids ≤ count_if (λ i. true) ids
room-le v [] = omega arith
room-le v (i ∷ ids) = ground (arith, room-le v ids)
