-- ===== src/Knowledge/Pieces.antt =====
-- Stripping and cutting texts (agent_company_os/domain/chunking.py): lengths, and the characters that
-- are no space.
use Prim.Native.Char.{Char, code}
use nebula_os.Prelude.{
  ℕ, zero, suc, ◌-◌, ◌≤◌, String, true, false, ◌≡◌, refl, ap, ◌∙◌, some, List, [], ◌∷◌, is_nil,
  ◌==◌, if◌then◌else◌, arith, inl, inr, Option-cases, Bool-cases,
}
use nebula_os.Domain.Validation.{is_empty, is_space, strip, strip_start, strip_end}
use nebula_os.Planning.Plan.{text_length}
use nebula_os.Knowledge.Text.{take_text, drop_text, join_text, join_all}
use nebula_os.Knowledge.Chunking.{gap, push, paragraphs, last_break, next_end}

-- The text without its spaces.
unfoldable pub squeeze : String → String
squeeze String.[] = String.[]
squeeze (String.◌∷◌ c s) =
    let rest = squeeze s in if is_space (code c) then rest else String.◌∷◌ c rest

pub is_empty-text_length : (s : String) → is_empty s ≡ true → text_length s ≡ 0
is_empty-text_length String.[] h = refl
is_empty-text_length (String.◌∷◌ c s) h = absurd (cc)

pub not_empty-text_length : (s : String) → is_empty s ≡ false → 1 ≤ text_length s
not_empty-text_length String.[] h = absurd (cc)
not_empty-text_length (String.◌∷◌ c s) h = omega arith

pub squeeze-is_empty : (s : String) → is_empty s ≡ true → squeeze s ≡ String.[]
unfolding squeeze
squeeze-is_empty String.[] h = refl
squeeze-is_empty (String.◌∷◌ c s) h = absurd (cc)

squeeze-strip_start : (s : String) → squeeze (strip_start s) ≡ squeeze s
unfolding squeeze strip_start
squeeze-strip_start String.[] = refl
squeeze-strip_start (String.◌∷◌ c s) = ground (arith, squeeze-strip_start s)

squeeze-strip_end : (s : String) → squeeze (strip_end s) ≡ squeeze s
unfolding squeeze strip_end
squeeze-strip_end String.[] = refl
squeeze-strip_end (String.◌∷◌ c s) =
    ground (arith, squeeze-strip_end s, squeeze-is_empty (strip_end s))

pub squeeze-strip : (s : String) → squeeze (strip s) ≡ squeeze s
unfolding strip
squeeze-strip s = squeeze-strip_end (strip_start s) ∙ squeeze-strip_start s

text_length-strip_start : (s : String) → text_length (strip_start s) ≤ text_length s
unfolding strip_start
text_length-strip_start String.[] = omega arith
text_length-strip_start (String.◌∷◌ c s) = ground (arith, text_length-strip_start s)

text_length-strip_end : (s : String) → text_length (strip_end s) ≤ text_length s
unfolding strip_end
text_length-strip_end String.[] = omega arith
text_length-strip_end (String.◌∷◌ c s) = ground (arith, text_length-strip_end s)

pub text_length-strip : (s : String) → text_length (strip s) ≤ text_length s
unfolding strip
text_length-strip s =
    omega (arith, text_length-strip_end (strip_start s), text_length-strip_start s)

pub text_length-take_text : (n : ℕ) (s : String) → text_length (take_text n s) ≤ n
unfolding take_text
text_length-take_text zero s = omega arith
text_length-take_text (suc n) String.[] = omega arith
text_length-take_text (suc n) (String.◌∷◌ c s) = omega (arith, text_length-take_text n s)

pub text_length-drop_text : (n : ℕ) (s : String) → text_length (drop_text n s) ≡ text_length s - n
unfolding drop_text
text_length-drop_text zero s = omega arith
text_length-drop_text (suc n) String.[] = omega arith
text_length-drop_text (suc n) (String.◌∷◌ c s) = omega (arith, text_length-drop_text n s)

pub squeeze-join_text : (s t : String) → squeeze (join_text s t) ≡ join_text (squeeze s) (squeeze t)
unfolding squeeze join_text
squeeze-join_text String.[] t = refl
squeeze-join_text (String.◌∷◌ c s) t = ground (arith, squeeze-join_text s t)

pub join_text-empty : (s : String) → join_text s String.[] ≡ s
unfolding join_text
join_text-empty String.[] = refl
join_text-empty (String.◌∷◌ c s) = ap (String.◌∷◌ c) (join_text-empty s)

pub join_text_assoc : (s t u : String) → join_text (join_text s t) u ≡ join_text s (join_text t u)
unfolding join_text
join_text_assoc String.[] t u = refl
join_text_assoc (String.◌∷◌ c s) t u = ap (String.◌∷◌ c) (join_text_assoc s t u)

take_text-drop_text : (n : ℕ) (s : String) → join_text (take_text n s) (drop_text n s) ≡ s
unfolding join_text take_text drop_text
take_text-drop_text zero s = refl
take_text-drop_text (suc n) String.[] = refl
take_text-drop_text (suc n) (String.◌∷◌ c s) = ap (String.◌∷◌ c) (take_text-drop_text n s)

-- What a cut leaves on its two sides, stripped, has the characters of the whole.
pub squeeze-cut :
    (n : ℕ) (s : String)
    → join_text (squeeze (strip (take_text n s))) (squeeze (strip (drop_text n s))) ≡ squeeze s
squeeze-cut n s = cc (
  squeeze-strip (take_text n s),
  squeeze-strip (drop_text n s),
  squeeze-join_text (take_text n s) (drop_text n s),
  take_text-drop_text n s,
)

last_break_lt : (n : ℕ) (s : String) (i : ℕ) → last_break n s ≡ some i → suc i ≤ n
unfolding last_break
last_break_lt zero s i h = absurd (cc)
last_break_lt (suc n) String.[] i h = absurd (cc)
last_break_lt (suc n) (String.◌∷◌ c s) i h = elim (Option-cases (last_break n s)) [
  | inl e ↦ ground arith
  | inr (k, e) ↦ let ih = last_break_lt n s k e in ground arith
]

-- The next part of a text that is not empty has a character, and no more than the limit.
pub next_end_bounds :
    (limit : ℕ) (s : String)
    → 1 ≤ limit
    → is_empty s ≡ false
    → (1 ≤ next_end limit s) × (next_end limit s ≤ limit)
unfolding next_end
next_end_bounds limit s positive filled = elim (Option-cases (last_break limit s)) [
  | inl e ↦ ground (arith, not_empty-text_length s filled)
  | inr (zero, e) ↦ ground (arith, not_empty-text_length s filled)
  | inr (suc k, e) ↦ ground (arith, not_empty-text_length s filled, last_break_lt limit s (suc k) e)
]

-- The characters of a gap are spaces.
squeeze-gap : (s : String) (n : ℕ) → gap s ≡ some n → squeeze (drop_text n s) ≡ squeeze s
unfolding gap squeeze drop_text
squeeze-gap String.[] n h = absurd (cc)
squeeze-gap (String.◌∷◌ c s) zero h = refl
squeeze-gap (String.◌∷◌ c s) (suc m) h = elim (Bool-cases (code c == 10)) [
  | inl line ↦
      let e : m ≡ 0 = ground arith in ap (λ (k : ℕ). squeeze (drop_text k s)) e ∙ ground arith
  | inr other ↦ elim (Option-cases (gap s)) [
    | inl e ↦ absurd (ground arith)
    | inr (k, e) ↦
        let same : m ≡ k = ground arith in
        let ih = squeeze-gap s k e in
        let space : is_space (code c) ≡ true = ground arith in
        ap (λ (k : ℕ). squeeze (drop_text k s)) same ∙ ground arith
  ]
]

-- There is always a first paragraph.
push-join_all :
    (c : Char) (texts : List String)
    → is_nil texts ≡ false
    → join_all (push c texts) ≡ String.◌∷◌ c (join_all texts)
unfolding join_all join_text
push-join_all c [] h = absurd (cc)
push-join_all c (s ∷ texts) h = refl

push-is_nil : (c : Char) (texts : List String) → is_nil (push c texts) ≡ is_nil texts
push-is_nil c [] = refl
push-is_nil c (s ∷ texts) = refl

paragraphs-is_nil : (k : ℕ) (s : String) → is_nil (paragraphs k s) ≡ false
unfolding paragraphs
paragraphs-is_nil k String.[] = refl
paragraphs-is_nil (suc k) (String.◌∷◌ c s) = paragraphs-is_nil k s
paragraphs-is_nil zero (String.◌∷◌ c s) =
    let ih = push-is_nil c (paragraphs 0 s) ∙ paragraphs-is_nil 0 s in
    elim (Option-cases (gap s)) [ inl e ↦ ground arith | inr (n, e) ↦ ground arith ]

squeeze-same :
    (c : Char) (s t : String)
    → squeeze s ≡ squeeze t
    → squeeze (String.◌∷◌ c s) ≡ squeeze (String.◌∷◌ c t)
unfolding squeeze
squeeze-same c s t h = ground arith

squeeze-space :
    (c : Char) (s : String) → is_space (code c) ≡ true → squeeze s ≡ squeeze (String.◌∷◌ c s)
unfolding squeeze
squeeze-space c s h = ground arith

-- The paragraphs have the characters of the text, in their order, but for spaces.
pub squeeze-paragraphs :
    (k : ℕ) (s : String) → squeeze (join_all (paragraphs k s)) ≡ squeeze (drop_text k s)
unfolding paragraphs drop_text join_all join_text
squeeze-paragraphs zero String.[] = refl
squeeze-paragraphs (suc k) String.[] = refl
squeeze-paragraphs (suc k) (String.◌∷◌ c s) = squeeze-paragraphs k s
squeeze-paragraphs zero (String.◌∷◌ c s) =
    let going : squeeze (join_all (push c (paragraphs 0 s))) ≡ squeeze (String.◌∷◌ c s) =
      ap squeeze (push-join_all c (paragraphs 0 s) (paragraphs-is_nil 0 s))
      ∙ squeeze-same c (join_all (paragraphs 0 s)) s (squeeze-paragraphs 0 s) in
    elim (Bool-cases (code c == 10)) [
      | inl line ↦ elim (Option-cases (gap s)) [
        | inl e ↦ rw (line, e) going
        | inr (n, e) ↦
            rw (line, e)
              (squeeze-paragraphs n s ∙ squeeze-gap s n e ∙ squeeze-space c s (ground arith))
      ]
      | inr other ↦ rw other going
    ]
