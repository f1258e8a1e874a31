-- ===== src/Knowledge/Tests.antt =====
-- Concrete sources.
use nebula_os.Prelude.{◌≤◌, String, ◌≡◌, refl, none, List, [], ◌∷◌, length, arith}
use nebula_os.Domain.Validation.{DateTime, ahead, strip, strip_start, strip_end}
use nebula_os.Planning.Search.{Outcome, returns}
use nebula_os.Planning.Settling.{Settles}
use nebula_os.Knowledge.Text.{join_all, take_text, drop_text, bounded_text}
use nebula_os.Knowledge.Data.{
  KnowledgeSourceVersion, KnowledgeChunk, Encodings, plain_text, authoritative, SourceStatus,
  check_chunk,
}
use nebula_os.Knowledge.Chunking.{
  chunk_content, chunks_from, chunk_of, content_parts, split_paragraphs, split_remaining, next_end,
  last_break, paragraphs, gap,
}
use nebula_os.Knowledge.Pieces.{squeeze}
use nebula_os.Knowledge.Content.{
  AreChunks, chunk_texts, chunk_content-AreChunks, chunk_content-text,
}

abbrev noon : DateTime
noon = record { instant = 5; zone = ahead 0 }

abbrev encodings : Encodings
encodings = record {
  digest = λ s. s;
  structured_text = λ company facts. company;
  identity_text =
      λ workspace_id source_id version algorithm limit ordinal content_hash. content_hash;
}

abbrev notes : String → KnowledgeSourceVersion
notes text = record {
  source = record {
    id = "s";
    workspace_id = "w";
    name = "notes";
    source_type = plain_text;
    trust = authoritative;
    created_at = noon;
    version = 1;
    content_version = 1;
    status = SourceStatus.active;
  };
  content = record { text = text; company = none; facts = []; algorithm = "utf8-lf-v1" };
  content_hash = text;
  created_at = noon;
  limits = record {
    source_bytes = 100;
    normalized_chars = 100;
    facts = 1;
    chunk_chars = 5;
    chunks = 4;
  };
  chunking_algorithm = "paragraph-or-fact-v1";
  schema_version = 1;
}

-- A cut is made at the last space before the limit, a long word is cut, and a blank line parts.
abbrev two_paragraphs : String
two_paragraphs = "ab cd ef\n \nghijklm"

texts_of_outcome : Outcome (List KnowledgeChunk) → List String
texts_of_outcome (returns cs) = chunk_texts cs
texts_of_outcome other = []

cut_words :
    texts_of_outcome (chunk_content encodings (notes two_paragraphs))
    ≡ "ab" ∷ "cd ef" ∷ "ghijk" ∷ "lm" ∷ []
unfolding texts_of_outcome chunk_content chunks_from chunk_of content_parts split_paragraphs
    split_remaining next_end last_break paragraphs gap strip strip_start strip_end take_text
    drop_text bounded_text check_chunk
cut_words = refl

chunk_content-AreChunks_example :
    Settles
      (λ cs. AreChunks encodings (notes two_paragraphs) 0 cs × (1 ≤ length cs) × (length cs ≤ 4))
      (chunk_content encodings (notes two_paragraphs))
chunk_content-AreChunks_example =
    chunk_content-AreChunks encodings (notes two_paragraphs) (omega arith)

chunk_content-text_example :
    Settles
      (λ cs. squeeze (join_all (chunk_texts cs)) ≡ squeeze two_paragraphs)
      (chunk_content encodings (notes two_paragraphs))
chunk_content-text_example = chunk_content-text encodings (notes two_paragraphs) (omega arith) refl
