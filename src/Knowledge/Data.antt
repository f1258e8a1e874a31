-- ===== src/Knowledge/Data.antt =====
-- Sources, their content and chunks (agent_company_os/domain/knowledge.py). The digest of a text and
-- the JSON text of structured content are parameters of the checks that compare them.
use nebula_os.Prelude.{
  ℕ, String, Bool, true, false, ◌&&◌, ◌||◌, Option, none, some, List, [], ◌∷◌, ltb, leb, ◌==◌, any,
  length, is_nil, str_eq, all_distinct, distinct_by, same_bool, if◌then◌else◌,
}
use nebula_os.Domain.Errors.{Result, ok, invariant_violation, raise_if, ◌>>◌}
use nebula_os.Domain.Validation.{DateTime, Version, require_utc}
use nebula_os.Knowledge.Text.{bounded_text, any_char}

pub data SourceType : Type 0 where
  plain_text markdown structured_facts : SourceType

abbrev pub is_structured : SourceType → Bool
is_structured plain_text = false
is_structured markdown = false
is_structured structured_facts = true

pub data TrustClass : Type 0 where
  authoritative approved_internal unverified_external : TrustClass

abbrev pub trust_value : TrustClass → String
trust_value authoritative = "authoritative"
trust_value approved_internal = "approved_internal"
trust_value unverified_external = "unverified_external"

abbrev pub same_trust : TrustClass → TrustClass → Bool
same_trust a b = str_eq (trust_value a) (trust_value b)

pub data SourceStatus : Type 0 where
  active disabled : SourceStatus

pub record KnowledgeScope : Type 0 where
  pub source_ids : List String
  pub trust_classes : List TrustClass

-- `KnowledgeScope.__post_init__`
unfoldable pub check_scope : KnowledgeScope → Result KnowledgeScope
check_scope s = do
  raise_if
      (ltb 20 (length s.source_ids)
        || (if all_distinct s.source_ids then false else true)
        || is_nil s.trust_classes
        || (if distinct_by same_trust s.trust_classes then false else true))
      (invariant_violation "knowledge_scope_schema")
  ok s

pub record IngestionLimits : Type 0 where
  pub source_bytes : ℕ
  pub normalized_chars : ℕ
  pub facts : ℕ
  pub chunk_chars : ℕ
  pub chunks : ℕ

abbrev pub default_limits : IngestionLimits
default_limits = record {
  source_bytes = 32768;
  normalized_chars = 16000;
  facts = 50;
  chunk_chars = 800;
  chunks = 64;
}

-- `not 1 <= value <= maximum`
abbrev pub is_outside : ℕ × ℕ → Bool
is_outside (value, maximum) = if leb 1 value && leb value maximum then false else true

-- `IngestionLimits.__post_init__`
unfoldable pub check_limits : IngestionLimits → Result IngestionLimits
check_limits l = do
  raise_if
      (any is_outside (
        (l.source_bytes, 131072)
        ∷ (l.normalized_chars, 64000)
        ∷ (l.facts, 100)
        ∷ (l.chunk_chars, 2000)
        ∷ (l.chunks, 128)
        ∷ []))
      (invariant_violation "knowledge_ingestion_limit")
  ok l

pub record KnowledgeFact : Type 0 where
  pub key : String
  pub value : String

abbrev pub same_fact : KnowledgeFact → KnowledgeFact → Bool
same_fact a b = str_eq a.key b.key && str_eq a.value b.value

-- `KnowledgeFact.__post_init__`
unfoldable pub check_fact : KnowledgeFact → Result KnowledgeFact
unfolding bounded_text
check_fact f = do bounded_text f.key 128; bounded_text f.value 512; ok f

pub record NormalizedContent : Type 0 where
  pub text : String
  pub company : Option String
  pub facts : List KnowledgeFact
  pub algorithm : String

pub record KnowledgeSource : Type 0 where
  pub id : String
  pub workspace_id : String
  pub name : String
  pub source_type : SourceType
  pub trust : TrustClass
  pub created_at : DateTime
  pub version : Version
  pub content_version : Version
  pub status : SourceStatus

-- `KnowledgeSource.__post_init__`
unfoldable pub check_source : KnowledgeSource → Result KnowledgeSource
unfolding bounded_text
check_source s = do bounded_text s.name 128; require_utc s.created_at; ok s

pub record KnowledgeSourceVersion : Type 0 where
  pub source : KnowledgeSource
  pub content : NormalizedContent
  pub content_hash : String
  pub created_at : DateTime
  pub limits : IngestionLimits
  pub chunking_algorithm : String
  pub schema_version : ℕ

pub record KnowledgeChunk : Type 0 where
  pub id : String
  pub workspace_id : String
  pub source_id : String
  pub source_version : Version
  pub ordinal : ℕ
  pub text : String
  pub content_hash : String
  pub fact : Option KnowledgeFact

-- `company is not None`
abbrev pub is_given : Option String → Bool
is_given none = false
is_given (some company) = true

-- The digest of a text, and `json.dumps` of the content and of the identity of a chunk.
pub record Encodings : Type 0 where
  pub digest : String → String
  pub structured_text : (company : String) → List KnowledgeFact → String
  pub identity_text :
      (workspace_id source_id : String)
      → Version
      → (algorithm : String) (limit ordinal : ℕ) (content_hash : String) → String

module _ (p : Encodings) where
  -- `NormalizedContent.__post_init__` from `if self.company is not None` on
  unfoldable pub check_binding : NormalizedContent → Option String → Result (Unit {0})
  unfolding bounded_text
  check_binding c none = ok tt
  check_binding c (some company) = do
    bounded_text company 128
    raise_if
        ((if str_eq c.text (p.structured_text company c.facts) then false else true)
          || (if distinct_by same_fact c.facts then false else true))
        (invariant_violation "knowledge_structured_content_binding")

  -- `NormalizedContent.__post_init__`
  unfoldable pub check_content : NormalizedContent → Result NormalizedContent
  unfolding bounded_text check_binding
  check_content c = do
    bounded_text c.text 64000
    raise_if
        ((if str_eq c.algorithm "utf8-lf-v1" then false else true)
          || any_char (λ n. n == 13) c.text
          || ltb 100 (length c.facts)
          || same_bool (is_given c.company) (is_nil c.facts))
        (invariant_violation "knowledge_normalized_schema")
    check_binding c c.company
    ok c

  -- `KnowledgeSourceVersion.__post_init__`
  unfoldable pub check_source_version : KnowledgeSourceVersion → Result KnowledgeSourceVersion
  unfolding bounded_text
  check_source_version v = do
    require_utc v.created_at
    bounded_text v.content.text v.limits.normalized_chars
    raise_if
        ((if str_eq v.content_hash (p.digest v.content.text) then false else true)
          || (if v.schema_version == 1 then false else true)
          || (if str_eq v.chunking_algorithm "paragraph-or-fact-v1" then false else true)
          || ltb v.limits.facts (length v.content.facts)
          || same_bool (is_structured v.source.source_type) (is_nil v.content.facts)
          || ltb v.created_at.instant v.source.created_at.instant)
        (invariant_violation "knowledge_content_hash_or_schema")
    ok v

  -- `KnowledgeChunk.__post_init__`
  unfoldable pub check_chunk : KnowledgeChunk → Result KnowledgeChunk
  unfolding bounded_text
  check_chunk c = do
    bounded_text c.text 2000
    raise_if (if str_eq c.content_hash (p.digest c.text) then false else true)
        (invariant_violation "knowledge_chunk_integrity")
    ok c
