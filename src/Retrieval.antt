-- ===== src/Retrieval.antt =====
-- Chunks of course knowledge as the retrieval of app/rag/ sees them: a document with its metadata,
-- of which the keys that the code reads are modelled, and the small functions on one document.
pub mod Expand
pub mod Trim
pub mod Fusion
pub mod Plan
pub mod Search
pub mod Ingest
pub mod Tests
use customer_service.Prelude.{
  ℕ, Bool, true, false, not, Option, none, some, if◌then◌else◌, List, [], ◌∷◌, ◌++◌,
}
use customer_service.Prelude.Text.{
  Text, codes, Text-discrete, same, strip, or_else, text_of, has_text, ends_with,
}
use customer_service.Prelude.Int.{ℤ, ℤ_discrete}

-- A document; `ident` is the identity of the object, by which `is` compares.
pub record Document : Type 0 where
  pub ident : ℕ
  pub page_content : Text
  pub source : Option Text
  pub section : Option Text
  pub chunk : Option ℤ
  pub chunk_role : Option Text
  pub parent_id : Option Text
  pub course_code : Option Text
  pub course_file : Option Text
  pub content_hash : Option Text
  pub deleted : Bool

abbrev str_of : Option Text → Text
str_of none = codes "None"
str_of (some t) = t

abbrev pub Key : Type 0
Key = Text × Text

unfoldable pub Key-discrete : Discrete Key
unfolding Text-discrete
Key-discrete = hlevel Text-discrete

-- `document_key`
unfoldable pub document_key : Document → Key
document_key document = (str_of document.source, document.page_content)

-- `is_retrieval_chunk`
unfoldable pub is_retrieval_chunk : Document → Bool
is_retrieval_chunk document =
    not (same (or_else (text_of document.chunk_role) (codes "child")) (codes "parent"))

-- `_chunk_index`
abbrev pub chunk_index : Document → Option ℤ
chunk_index document = document.chunk

abbrev section_key_of : Text → Text → Option Key
section_key_of source section =
    if has_text source then (if has_text section then some (source, section) else none) else none

-- `_section_key`
unfoldable pub section_key : Document → Option Key
section_key document = section_key_of (text_of document.source) (strip (text_of document.section))

-- `document_course_code`; `none` is the `AttributeError` of `Path(source).removesuffix`, which a path
-- does not have
abbrev code_or_source : Text → Text → Option Text
code_or_source [] source = if ends_with (codes ".md") source then none else some []
code_or_source (c ∷ code) source = some (c ∷ code)

unfoldable pub document_course_code : Document → Option Text
document_course_code document =
    code_or_source (or_else (text_of document.course_code) (text_of document.course_file))
      (text_of document.source)

-- `_matches_course`; an empty code is no code
unfoldable pub matches_course : Document → Text → Option Bool
unfolding document_course_code
matches_course document [] = some true
matches_course document (c ∷ code) = elim (document_course_code document) [
  | none ↦ none
  | some own ↦ some (same own (c ∷ code))
]

-- `format_rag_context_chunk`
unfoldable pub format_rag_context_chunk : Document → Text
format_rag_context_chunk document =
    codes "来源:" ++ (str_of document.source ++ (codes "\n" ++ document.page_content))
