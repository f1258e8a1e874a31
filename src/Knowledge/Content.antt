-- ===== src/Knowledge/Content.antt =====
-- Bounds on the chunks of a source, and what they keep of its text
-- (`chunk_content` of agent_company_os/domain/chunking.py).
use nebula_os.Prelude.{
  ℕ, suc, ◌≤◌, String, true, false, ◌||◌, ◌≡◌, refl, ap, ◌∙◌, List, [], ◌∷◌, is_nil, length,
  texts_of, ltb, if◌then◌else◌, arith, inl, inr, Bool-cases,
}
use nebula_os.Domain.Errors.{ok, Result-cases, invariant_violation}
use nebula_os.Domain.Validation.{is_empty, strip}
use nebula_os.Planning.Plan.{text_length}
use nebula_os.Planning.Search.{raises}
use nebula_os.Planning.Settling.{Settles, Settles-followed_by, Settles-weaken}
use nebula_os.Planning.Validate.{lift_result}
use nebula_os.Knowledge.Text.{join_all, join_text, drop_text, bounded_text, any_char, is_control}
use nebula_os.Knowledge.Data.{KnowledgeSourceVersion, KnowledgeChunk, Encodings, check_chunk}
use nebula_os.Knowledge.Chunking.{
  Part, paragraphs, split_paragraphs, content_parts, chunk_of, chunks_from, chunk_content,
}
use nebula_os.Knowledge.Pieces.{squeeze, squeeze-paragraphs}
use nebula_os.Knowledge.Chunks.{part_texts, kept_of, IsCut, split_paragraphs-Settles}

-- A chunk of the version, at its place: of the same source, with a text that is not blank, within the
-- limit and without control characters, and with the digest of this text.
abbrev pub IsChunk : Encodings → KnowledgeSourceVersion → (ordinal : ℕ) → KnowledgeChunk → Type 0
IsChunk p v ordinal c =
    (c.ordinal ≡ ordinal)
    × (c.source_id ≡ v.source.id)
    × (is_empty (strip c.text) ≡ false)
    × (text_length c.text ≤ v.limits.chunk_chars)
    × (any_char is_control c.text ≡ false)
    × (c.content_hash ≡ p.digest c.text)

abbrev pub AreChunks :
    Encodings → KnowledgeSourceVersion → (ordinal : ℕ) → List KnowledgeChunk → Type 0
AreChunks p v ordinal [] = Unit {0}
AreChunks p v ordinal (c ∷ cs) = IsChunk p v ordinal c × AreChunks p v (suc ordinal) cs

abbrev pub chunk_texts : List KnowledgeChunk → List String
chunk_texts cs = texts_of (λ c. c.text) cs

bounded_text_bounds :
    (s : String) (maximum : ℕ)
    → bounded_text s maximum ≡ ok tt
    → (is_empty (strip s) ≡ false) × (text_length s ≤ maximum) × (any_char is_control s ≡ false)
unfolding bounded_text
bounded_text_bounds s maximum h = (ground arith, ground arith, ground arith)

not_nil : {A : Type 0} (xs : List A) → is_nil xs ≡ false → 1 ≤ length xs
not_nil [] h = absurd (cc)
not_nil (x ∷ xs) h = omega arith

module _ (p : Encodings) (v : KnowledgeSourceVersion) where
  chunk_of-IsChunk :
      (ordinal : ℕ) (part : Part)
      → bounded_text part.0 v.limits.chunk_chars ≡ ok tt
      → IsChunk p v ordinal (chunk_of p v ordinal part)
  unfolding chunk_of
  chunk_of-IsChunk ordinal (text, fact) h =
      let bounds = bounded_text_bounds text v.limits.chunk_chars h in
      (refl, refl, bounds.0, bounds.1, bounds.2, refl)

  check_chunk-same : (c d : KnowledgeChunk) → check_chunk p c ≡ ok d → d ≡ c
  unfolding check_chunk
  check_chunk-same c d h = ground arith

  chunk_of-text : (ordinal : ℕ) (part : Part) → (chunk_of p v ordinal part).text ≡ part.0
  unfolding chunk_of
  chunk_of-text ordinal (text, fact) = refl

  chunks_from-parts :
      (ordinal : ℕ) (part : Part) (parts : List Part) (cs : List KnowledgeChunk)
      → chunks_from p v ordinal (part ∷ parts) ≡ ok cs
      → (c : KnowledgeChunk) × (rest : List KnowledgeChunk) × (bounded_text part.0
            v.limits.chunk_chars
          ≡ ok tt)
        × (check_chunk p (chunk_of p v ordinal part) ≡ ok c)
        × (chunks_from p v (suc ordinal) parts ≡ ok rest)
        × (cs ≡ c ∷ rest)
  unfolding chunks_from
  chunks_from-parts ordinal (text, fact) parts cs h =
      elim (Result-cases (check_chunk p (chunk_of p v ordinal (text, fact)))) [
        | inl (c, checked) ↦ elim (Result-cases (chunks_from p v (suc ordinal) parts)) [
          | inl (rest, made) ↦ (c, rest, ground arith, checked, made, ground arith)
          | inr (error, raised) ↦ absurd (ground arith)
        ]
        | inr (error, raised) ↦ absurd (ground arith)
      ]

  -- One chunk for each part, with its text.
  chunks_from-AreChunks :
      (ordinal : ℕ) (parts : List Part) (cs : List KnowledgeChunk)
      → chunks_from p v ordinal parts ≡ ok cs
      → AreChunks p v ordinal cs × (chunk_texts cs ≡ part_texts parts) × (length cs ≡ length parts)
  chunks_from-AreChunks ordinal [] cs h =
      let e : cs ≡ [] = unfold chunks_from in ground arith in rw e (tt, refl, refl)
  chunks_from-AreChunks ordinal (part ∷ parts) cs h =
      let (c, rest, bounded, checked, made, same) = chunks_from-parts ordinal part parts cs h in
      let e = check_chunk-same (chunk_of p v ordinal part) c checked in
      let (others, texts, count) = chunks_from-AreChunks (suc ordinal) parts rest made in
      rw (same, e)
        (
          (chunk_of-IsChunk ordinal part bounded, others),
          ap (λ (t : String). t ∷ chunk_texts rest) (chunk_of-text ordinal part)
              ∙ ap (λ (ts : List String). part.0 ∷ ts) texts,
          ap suc count,
        )

  -- What is known of the parts is known of the chunks.
  chunks-Settles :
      (P : List Part → Type 0) (Q : List KnowledgeChunk → Type 0)
      → ((parts : List Part) (cs : List KnowledgeChunk)
          → P parts
          → AreChunks p v 0 cs
          → chunk_texts cs ≡ part_texts parts
          → 1 ≤ length cs
          → length cs ≤ v.limits.chunks
          → Q cs)
      → Settles P (content_parts v.content v.limits.chunk_chars v.limits.chunks)
      → Settles Q (chunk_content p v)
  unfolding chunk_content
  chunks-Settles P Q k h =
      Settles-followed_by P Q (content_parts v.content v.limits.chunk_chars v.limits.chunks)
        (λ parts.
          if is_nil parts || ltb v.limits.chunks (length parts)
          then raises (invariant_violation "knowledge_chunk_count")
          else lift_result (chunks_from p v 0 parts))
        h λ parts known. made parts known
    where
      made :
          (parts : List Part)
          → P parts
          → Settles Q (
              if is_nil parts || ltb v.limits.chunks (length parts)
              then raises (invariant_violation "knowledge_chunk_count")
              else lift_result (chunks_from p v 0 parts))
      made parts known = elim (Bool-cases (is_nil parts || ltb v.limits.chunks (length parts))) [
        | inl refused ↦ rw refused tt
        | inr admitted ↦ elim (Result-cases (chunks_from p v 0 parts)) [
          | inl (cs, e) ↦
              let (chunks, texts, count) = chunks_from-AreChunks 0 parts cs e in
              let filled = not_nil parts (ground arith) in
              rw (admitted, e)
                (k parts cs known chunks texts (omega (arith, count, filled)) (ground arith))
          | inr (error, e) ↦ rw (admitted, e) tt
        ]
      ]

  -- The parts of any content are found within the fuel.
  content_parts-Settles :
      1 ≤ v.limits.chunk_chars
      → Settles
          (λ (parts : List Part). Unit {0})
          (content_parts v.content v.limits.chunk_chars v.limits.chunks)
  unfolding content_parts
  content_parts-Settles positive = elim (Bool-cases (is_nil v.content.facts)) [
    | inl none' ↦ rw none' (
        Settles-weaken (IsCut v.limits.chunk_chars (join_all (paragraphs 0 v.content.text)) [])
          (λ (parts : List Part). Unit {0})
          (split_paragraphs v.limits.chunk_chars v.limits.chunks (paragraphs 0 v.content.text) [])
          (λ parts cut. tt)
          (split_paragraphs-Settles v.limits.chunk_chars v.limits.chunks
            (paragraphs 0 v.content.text) [] positive tt))
    | inr facts ↦ rw facts tt
  ]

  -- With a limit of one character or more, the chunking of any source ends within its fuel. The chunks
  -- that it returns are numbered from 0, are one or more and at most so many as the limit says, belong
  -- to the source, and each has a text that is not blank, is not longer than the limit, has no control
  -- character, and has the digest that the chunk carries.
  pub chunk_content-AreChunks :
      1 ≤ v.limits.chunk_chars
      → Settles
          (λ cs. AreChunks p v 0 cs × (1 ≤ length cs) × (length cs ≤ v.limits.chunks))
          (chunk_content p v)
  chunk_content-AreChunks positive =
      chunks-Settles (λ (parts : List Part). Unit {0})
        (λ cs. AreChunks p v 0 cs × (1 ≤ length cs) × (length cs ≤ v.limits.chunks))
        (λ parts cs u chunks texts some' few. (chunks, some', few)) (content_parts-Settles positive)

  -- Chunking a source without facts keeps its text: the chunks that are returned have, one after the
  -- other, the characters of the text in their order, but for spaces.
  pub chunk_content-text :
      1 ≤ v.limits.chunk_chars
      → is_nil v.content.facts ≡ true
      → Settles
          (λ cs. squeeze (join_all (chunk_texts cs)) ≡ squeeze v.content.text)
          (chunk_content p v)
  chunk_content-text positive plain =
      chunks-Settles (λ parts. kept_of parts ≡ squeeze v.content.text)
        (λ cs. squeeze (join_all (chunk_texts cs)) ≡ squeeze v.content.text)
        (λ parts cs kept chunks texts some' few. ap (λ ts. squeeze (join_all ts)) texts ∙ kept)
        (rw (plain_parts plain) (
          Settles-weaken (IsCut v.limits.chunk_chars (join_all (paragraphs 0 v.content.text)) [])
            (λ parts. kept_of parts ≡ squeeze v.content.text)
            (split_paragraphs v.limits.chunk_chars v.limits.chunks (paragraphs 0 v.content.text) [])
            (λ parts cut.
              cut.1 ∙ joined ∙ squeeze-paragraphs 0 v.content.text ∙ from_start v.content.text)
            (split_paragraphs-Settles v.limits.chunk_chars v.limits.chunks
              (paragraphs 0 v.content.text) [] positive tt)))
    where
      plain_parts :
          is_nil v.content.facts ≡ true
          → content_parts v.content v.limits.chunk_chars v.limits.chunks
            ≡ split_paragraphs v.limits.chunk_chars v.limits.chunks (paragraphs 0 v.content.text) []
      plain_parts e = unfold content_parts in ground arith

      joined :
          join_text (kept_of []) (squeeze (join_all (paragraphs 0 v.content.text)))
          ≡ squeeze (join_all (paragraphs 0 v.content.text))
      joined = unfold squeeze join_all join_text in refl

      from_start : (s : String) → squeeze (drop_text 0 s) ≡ squeeze s
      from_start s = unfold drop_text in refl
