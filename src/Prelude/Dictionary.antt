-- ===== src/Prelude/Dictionary.antt =====
-- Python's `dict` with text keys, in insertion order: writing to a key that is there keeps its place.
use Prim.Native.Nat.{◌+◌}
use Prim.Native.String.{String}
use mathlib.Core.Path.{◌≡◌, refl, subst}
use mathlib.Core.Logic.{◌⊎◌, inl, inr}
use mathlib.Core.Bool.{Bool}
use mathlib.Core.List.{List, [], ◌∷◌}
use mathlib.Core.Option.{Option, none, some}
use native.Mathlib.Omega.{arith}
use text.Mathlib.Text.{◌==◌ as str_eq}
use text.Mathlib.TextEquality.{eq_iff}
use nebula_os.Prelude.Tests.{Bool-cases, if◌then◌else◌}
use nebula_os.Prelude.Lists.{All, count_if}

abbrev pub Dict {ℓ} : Type ℓ → Type ℓ
Dict V = List (String × V)

module _ {ℓ} {V : Type ℓ} where
  -- `d.get(k)`
  unfoldable pub lookup : String → Dict V → Option V
  lookup k [] = none
  lookup k ((j, v) ∷ d) = if str_eq j k then some v else lookup k d

  -- `d[k] = v`
  unfoldable pub insert : String → V → Dict V → Dict V
  insert k v [] = (k, v) ∷ []
  insert k v ((j, w) ∷ d) = if str_eq j k then (j, v) ∷ d else (j, w) ∷ insert k v d

  -- `d.values()`
  unfoldable pub values : Dict V → List V
  values [] = []
  values ((j, v) ∷ d) = v ∷ values d

  pub lookup-insert :
      (k j : String) (v : V) (d : Dict V)
      → lookup j (insert k v d) ≡ (if str_eq k j then some v else lookup j d)
  unfolding lookup insert
  lookup-insert k j v [] = refl
  lookup-insert k j v ((i, w) ∷ d) =
      ground (arith, eq_iff k j, eq_iff i k, eq_iff i j, lookup-insert k j v d)

  -- What is found after a write was written, or was there before.
  pub lookup-insert_cases :
      (k j : String) (v w : V) (d : Dict V)
      → lookup j (insert k v d) ≡ some w
      → ((k ≡ j) × (w ≡ v)) ⊎ (lookup j d ≡ some w)
  lookup-insert_cases k j v w d h =
      let e = lookup-insert k j v d in
      elim (Bool-cases (str_eq k j)) [
        | inl same ↦ inl ((eq_iff k j).0 same, ground arith)
        | inr other ↦ inr (ground arith)
      ]

  -- A new key adds one value.
  pub count_if-insert_new :
      (p : V → Bool) (k : String) (v : V) (d : Dict V)
      → lookup k d ≡ none
      → count_if p (values (insert k v d)) ≡ count_if p (values d) + (if p v then 1 else 0)
  unfolding lookup insert values
  count_if-insert_new p k v [] h = omega arith
  count_if-insert_new p k v ((j, w) ∷ d) h = ground (arith, count_if-insert_new p k v d)

  -- A key that is there exchanges its value.
  pub count_if-insert_old :
      (p : V → Bool) (k : String) (v w : V) (d : Dict V)
      → lookup k d ≡ some w
      → count_if p (values (insert k v d)) + (if p w then 1 else 0)
        ≡ count_if p (values d) + (if p v then 1 else 0)
  unfolding lookup insert values
  count_if-insert_old p k v w [] h = absurd (cc)
  count_if-insert_old p k v w ((j, u) ∷ d) h = ground (arith, count_if-insert_old p k v w d)

  pub All-lookup {κ} :
      (P : V → Type κ) (k : String) (v : V) (d : Dict V)
      → All P (values d)
      → lookup k d ≡ some v
      → P v
  unfolding lookup values
  All-lookup P k v [] h e = absurd (cc)
  All-lookup P k v ((j, w) ∷ d) h e = elim (Bool-cases (str_eq j k)) [
    | inl same ↦ subst P (ground arith) h.0
    | inr other ↦ All-lookup P k v d h.1 (ground arith)
  ]

  pub All-insert {κ} :
      (P : V → Type κ) (k : String) (v : V) (d : Dict V)
      → All P (values d)
      → P v
      → All P (values (insert k v d))
  unfolding insert values
  All-insert P k v [] h e = (e, tt)
  All-insert P k v ((j, w) ∷ d) h e = elim (Bool-cases (str_eq j k)) [
    | inl same ↦ rw same (e, h.1)
    | inr other ↦ rw other (h.0, All-insert P k v d h.1 e)
  ]
