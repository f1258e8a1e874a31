-- ===== src/Knowledge/Chunking.antt =====
-- `chunk_content` of agent_company_os/domain/chunking.py. The loop over what remains of a paragraph has
-- fuel, one unit for each character.
use Prim.Native.Char.{Char, code}
use nebula_os.Prelude.{
  ℕ, zero, suc, String, ◌||◌, Option, none, some, List, [], ◌∷◌, ◌++◌, ltb, ◌==◌, length, is_nil,
  if◌then◌else◌,
}
use nebula_os.Domain.Errors.{Result, ok, invariant_violation, ◌>>=◌, ◌>>◌}
use nebula_os.Domain.Validation.{is_empty, strip}
use nebula_os.Planning.Plan.{text_length}
use nebula_os.Planning.Search.{Outcome, returns, raises, out_of_fuel, followed_by}
use nebula_os.Planning.Validate.{lift_result}
use nebula_os.Knowledge.Text.{take_text, drop_text, join_text, bounded_text}
use nebula_os.Knowledge.Data.{
  KnowledgeFact, KnowledgeSourceVersion, NormalizedContent, KnowledgeChunk, Encodings, check_chunk,
}

-- How many characters `[ \t]*\n` matches at the front.
unfoldable pub gap : String → Option ℕ
gap String.[] = none
gap (String.◌∷◌ c s) =
    let rest = gap s in
    if code c == 10
    then some 1
    else if code c == 32 || code c == 9
    then elim rest [ none ↦ none | some n ↦ some (suc n) ]
    else none

-- A character in front of the first text.
abbrev pub push : Char → List String → List String
push c [] = []
push c (s ∷ texts) = String.◌∷◌ c s ∷ texts

-- `re.split(r"\n[ \t]*\n", text)`; the characters of a match are skipped.
unfoldable pub paragraphs : (skipped : ℕ) → String → List String
unfolding gap
paragraphs k String.[] = String.[] ∷ []
paragraphs (suc k) (String.◌∷◌ c s) = paragraphs k s
paragraphs zero (String.◌∷◌ c s) =
    let skipping = λ (n : ℕ). String.[] ∷ paragraphs n s in
    let going = push c (paragraphs zero s) in
    if code c == 10 then elim (gap s) [ none ↦ going | some n ↦ skipping n ] else going

-- `max(remaining.rfind(" ", 0, end), remaining.rfind("\n", 0, end))`
unfoldable pub last_break : (end : ℕ) → String → Option ℕ
last_break zero s = none
last_break (suc n) String.[] = none
last_break (suc n) (String.◌∷◌ c s) =
    let later = last_break n s in
    elim later [
      | some i ↦ some (suc i)
      | none ↦ if code c == 32 || code c == 10 then some 0 else none
    ]

-- `if split > 0: end = split`
abbrev pub end_at : Option ℕ → (end : ℕ) → ℕ
end_at none end = end
end_at (some zero) end = end
end_at (some (suc i)) end = suc i

-- Where the next part ends.
unfoldable pub next_end : (limit : ℕ) → String → ℕ
unfolding last_break
next_end limit remaining =
    if ltb limit (text_length remaining)
    then end_at (last_break limit remaining) limit
    else text_length remaining

abbrev pub Part : Type 0
Part = String × Option KnowledgeFact

-- `if part: parts.append((part, None))`, at the end of the list so far
abbrev pub append_part : String → List Part → List Part
append_part part parts = if is_empty part then parts else parts ++ ((part, none) ∷ [])

-- `while remaining`
unfoldable pub split_remaining : (fuel limit chunks : ℕ) → String → List Part → Outcome (List Part)
unfolding take_text drop_text strip next_end
split_remaining zero limit chunks remaining parts =
    if is_empty remaining then returns parts else out_of_fuel
split_remaining (suc fuel) limit chunks remaining parts =
    let end = next_end limit remaining in
    let parts' = append_part (strip (take_text end remaining)) parts in
    let going = split_remaining fuel limit chunks (strip (drop_text end remaining)) parts' in
    if is_empty remaining
    then returns parts
    else if ltb chunks (length parts')
    then raises (invariant_violation "knowledge_chunk_count")
    else going

-- `for paragraph in re.split(…)`
unfoldable pub split_paragraphs : (limit chunks : ℕ) → List String → List Part → Outcome (List Part)
unfolding split_remaining strip
split_paragraphs limit chunks [] parts = returns parts
split_paragraphs limit chunks (paragraph ∷ rest) parts =
    let remaining = strip paragraph in
    followed_by (split_remaining (text_length remaining) limit chunks remaining parts)
      λ parts'. split_paragraphs limit chunks rest parts'

-- An optional text in an f-string.
abbrev pub shown : Option String → String
shown none = "None"
shown (some s) = s

-- `[(f"{content.company}\n{fact.key}: {fact.value}", fact) for fact in content.facts]`
unfoldable pub fact_parts : Option String → List KnowledgeFact → List Part
unfolding join_text
fact_parts company [] = []
fact_parts company (f ∷ facts) =
    (join_text (shown company) (join_text "\n" (join_text f.key (join_text ": " f.value))), some f)
    ∷ fact_parts company facts

-- The parts of the content.
unfoldable pub content_parts : NormalizedContent → (limit chunks : ℕ) → Outcome (List Part)
unfolding fact_parts split_paragraphs paragraphs
content_parts content limit chunks =
    if is_nil content.facts
    then split_paragraphs limit chunks (paragraphs 0 content.text) []
    else returns (fact_parts content.company content.facts)

module _ (p : Encodings) (version : KnowledgeSourceVersion) where
  -- The chunk of a part, with its ordinal.
  unfoldable pub chunk_of : (ordinal : ℕ) → Part → KnowledgeChunk
  chunk_of ordinal (text, fact) =
      let content_hash = p.digest text in
      record {
        id = p.digest (
            p.identity_text version.source.workspace_id version.source.id
              version.source.content_version version.chunking_algorithm version.limits.chunk_chars
              ordinal content_hash);
        workspace_id = version.source.workspace_id;
        source_id = version.source.id;
        source_version = version.source.content_version;
        ordinal = ordinal;
        text = text;
        content_hash = content_hash;
        fact = fact;
      }

  -- `for ordinal, (text, fact) in enumerate(parts)`
  unfoldable pub chunks_from : (ordinal : ℕ) → List Part → Result (List KnowledgeChunk)
  unfolding bounded_text chunk_of check_chunk
  chunks_from ordinal [] = ok []
  chunks_from ordinal ((text, fact) ∷ parts) = do
    bounded_text text version.limits.chunk_chars
    chunk ← check_chunk p (chunk_of ordinal (text, fact))
    rest ← chunks_from (suc ordinal) parts
    ok (chunk ∷ rest)

  -- `chunk_content`
  unfoldable pub chunk_content : Outcome (List KnowledgeChunk)
  unfolding content_parts chunks_from
  chunk_content =
      followed_by (content_parts version.content version.limits.chunk_chars version.limits.chunks)
        λ parts.
          if is_nil parts || ltb version.limits.chunks (length parts)
          then raises (invariant_violation "knowledge_chunk_count")
          else lift_result (chunks_from 0 parts)
