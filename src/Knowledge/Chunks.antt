-- ===== src/Knowledge/Chunks.antt =====
-- What the chunks of a source are (`chunk_content` of agent_company_os/domain/chunking.py).
use nebula_os.Prelude.{
  ℕ, zero, suc, ◌≤◌, String, true, false, ◌≡◌, refl, sym, ap, ◌∙◌, none, List, [], ◌∷◌, ◌++◌,
  length, texts_of, All, All-append, ltb, arith, inl, inr, Bool-cases,
}
use nebula_os.Domain.Validation.{is_empty, strip}
use nebula_os.Planning.Plan.{text_length}
use nebula_os.Planning.Settling.{Settles, Settles-followed_by, Settles-weaken}
use nebula_os.Knowledge.Text.{take_text, drop_text, join_text, join_all}
use nebula_os.Knowledge.Chunking.{Part, next_end, append_part, split_remaining, split_paragraphs}
use nebula_os.Knowledge.Pieces.{
  squeeze, squeeze-join_text, squeeze-cut, squeeze-strip, squeeze-is_empty, join_text-empty,
  join_text_assoc, text_length-strip, text_length-take_text, text_length-drop_text, next_end_bounds,
  not_empty-text_length,
}

abbrev pub part_texts : List Part → List String
part_texts parts = texts_of (λ p. p.0) parts

-- The characters of the parts, in order, without spaces.
abbrev pub kept_of : List Part → String
kept_of parts = squeeze (join_all (part_texts parts))

join_all-append :
    (parts : List Part) (s : String)
    → join_all (part_texts (parts ++ ((s, none) ∷ []))) ≡ join_text (join_all (part_texts parts)) s
unfolding join_all
join_all-append [] s = unfold join_text in join_text-empty s
join_all-append ((t, fact) ∷ parts) s =
    ap (join_text t) (join_all-append parts s)
    ∙ sym (join_text_assoc t (join_all (part_texts parts)) s)

kept_of-append_part :
    (s : String) (parts : List Part)
    → kept_of (append_part s parts) ≡ join_text (kept_of parts) (squeeze s)
kept_of-append_part s parts = elim (Bool-cases (is_empty s)) [
  | inl e ↦ rw (e, squeeze-is_empty s e) (sym (join_text-empty (kept_of parts)))
  | inr f ↦
      rw f
        (ap squeeze (join_all-append parts s) ∙ squeeze-join_text (join_all (part_texts parts)) s)
]

-- A part of a text: not empty, within the limit, and of no fact.
abbrev pub IsPiece : (limit : ℕ) → Part → Type 0
IsPiece limit p = (is_empty p.0 ≡ false) × (text_length p.0 ≤ limit)

append_part-All :
    (limit : ℕ) (s : String) (parts : List Part)
    → text_length s ≤ limit
    → All (IsPiece limit) parts
    → All (IsPiece limit) (append_part s parts)
append_part-All limit s parts short h = elim (Bool-cases (is_empty s)) [
  | inl e ↦ rw e h
  | inr f ↦ rw f (All-append (IsPiece limit) parts ((s, none) ∷ []) h ((f, short), tt))
]

-- The parts so far, pieces all, are followed by pieces with the characters of the text.
abbrev pub IsCut : (limit : ℕ) (s : String) (parts parts' : List Part) → Type 0
IsCut limit s parts parts' =
    All (IsPiece limit) parts' × (kept_of parts' ≡ join_text (kept_of parts) (squeeze s))

IsCut-nothing :
    (limit : ℕ) (s : String) (parts : List Part)
    → is_empty s ≡ true
    → All (IsPiece limit) parts
    → IsCut limit s parts parts
IsCut-nothing limit s parts e h =
    (h, rw (squeeze-is_empty s e) (sym (join_text-empty (kept_of parts))))

split_remaining-Settles :
    (fuel limit chunks : ℕ) (s : String) (parts : List Part)
    → 1 ≤ limit
    → text_length s ≤ fuel
    → All (IsPiece limit) parts
    → Settles (IsCut limit s parts) (split_remaining fuel limit chunks s parts)
unfolding split_remaining
split_remaining-Settles zero limit chunks s parts positive enough h =
    elim (Bool-cases (is_empty s)) [
      | inl e ↦ rw e (IsCut-nothing limit s parts e h)
      | inr f ↦ absurd (omega (arith, not_empty-text_length s f))
    ]
split_remaining-Settles (suc fuel) limit chunks s parts positive enough h =
    elim (Bool-cases (is_empty s)) [
      | inl e ↦ rw e (IsCut-nothing limit s parts e h)
      | inr f ↦
          let end = next_end limit s in
          let part = strip (take_text end s) in
          let rest = strip (drop_text end s) in
          let parts' = append_part part parts in
          let bounds = next_end_bounds limit s positive f in
          let short : text_length part ≤ limit =
            omega
              (arith, text_length-strip (take_text end s), text_length-take_text end s, bounds.1) in
          let less : text_length rest ≤ fuel =
            omega
              (arith, text_length-strip (drop_text end s), text_length-drop_text end s, bounds.0) in
          let ih =
            split_remaining-Settles fuel limit chunks rest parts' positive less
              (append_part-All limit part parts short h) in
          elim (Bool-cases (ltb chunks (length parts'))) [
            | inl many ↦ rw (f, many) tt
            | inr few ↦
                rw (f, few)
                  (Settles-weaken (IsCut limit rest parts') (IsCut limit s parts)
                    (split_remaining fuel limit chunks rest parts')
                    (λ parts'' cut. (
                      cut.0,
                      cut.1
                          ∙ ap (λ t. join_text t (squeeze rest)) (kept_of-append_part part parts)
                          ∙ join_text_assoc (kept_of parts) (squeeze part) (squeeze rest)
                          ∙ ap (join_text (kept_of parts)) (squeeze-cut end s),
                    ))
                    ih)
          ]
    ]

pub split_paragraphs-Settles :
    (limit chunks : ℕ) (texts : List String) (parts : List Part)
    → 1 ≤ limit
    → All (IsPiece limit) parts
    → Settles (IsCut limit (join_all texts) parts) (split_paragraphs limit chunks texts parts)
unfolding split_paragraphs join_all
split_paragraphs-Settles limit chunks [] parts positive h =
    IsCut-nothing limit String.[] parts refl h
split_paragraphs-Settles limit chunks (s ∷ texts) parts positive h =
    Settles-followed_by (IsCut limit (strip s) parts)
      (IsCut limit (join_text s (join_all texts)) parts)
      (split_remaining (text_length (strip s)) limit chunks (strip s) parts)
      (λ parts'. split_paragraphs limit chunks texts parts')
      (split_remaining-Settles (text_length (strip s)) limit chunks (strip s) parts positive
        (omega arith) h)
      λ parts' cut.
        Settles-weaken (IsCut limit (join_all texts) parts')
          (IsCut limit (join_text s (join_all texts)) parts)
          (split_paragraphs limit chunks texts parts')
          (λ parts'' cut'. (
            cut'.0,
            cut'.1
                ∙ ap (λ t. join_text t (squeeze (join_all texts))) cut.1
                ∙ join_text_assoc (kept_of parts) (squeeze (strip s)) (squeeze (join_all texts))
                ∙ ap (λ t. join_text (kept_of parts) (join_text t (squeeze (join_all texts))))
                    (squeeze-strip s)
                ∙ ap (join_text (kept_of parts)) (sym (squeeze-join_text s (join_all texts))),
          ))
          (split_paragraphs-Settles limit chunks texts parts' positive cut.0)
