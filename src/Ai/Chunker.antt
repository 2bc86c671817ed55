-- ===== src/Ai/Chunker.antt =====
-- chunker.py: the stamp that each chunk gets. The splitter is the library's: an argument. `V` stands
-- for metadata values, with the three conversions that the code makes.
pub mod Ids
use arush_adabala_tax_liabil.Prelude.{
  ℕ, zero, suc, ◌+◌, ◌-◌, ◌*◌, ◌/◌, ◌%◌, ◌≤◌, ◌<◌, min, String, ◌≡◌, refl, sym, ap, ◌∙◌, ◌≢◌, ◌↔◌,
  ◌⊎◌, inl, inr, Bool, true, false, not, ◌&&◌, ◌||◌, Option, none, some, List, [], ◌∷◌, ◌++◌, map,
  arith, ltb, leb, if◌then◌else◌, Bool-cases, Option-cases, leb→le, lt→ltb, Eq, ◌==◌, ==_refl,
  length, take, get_elem?, length-append, length-take, length-map, any, All, All-append, All-take,
  contains, Exc, Result, ok, raised, bind, bind-eq-ok, Result-cases, ok_injective, ok_or,
  budget_exceeded, value_error, key_error, type_error, runtime_error, timeout_error,
  validation_error, dependency_unavailable, string_eq, nat_eq, list_eq, graph_recursion,
  http_timeout, http_error, cancelled, other,
}
use arush_adabala_tax_liabil.Prelude.Dict.{Dict, lookup, insert, get_or}
use arush_adabala_tax_liabil.Prelude.Int.{ℤ, pos, negsuc}
use arush_adabala_tax_liabil.Prelude.Text.{Text, codes}
use arush_adabala_tax_liabil.Prelude.Text.Decimal.{decimal}

abbrev pub default_chunk_size : ℕ
default_chunk_size = 900

abbrev pub default_overlap : ℕ
default_overlap = 150

abbrev pub unknown_doc_id : Text
unknown_doc_id = codes "doc-synth-unknown"

abbrev pub doc_id_key : Text
doc_id_key = codes "doc_id"

abbrev pub chunk_ordinal_key : Text
chunk_ordinal_key = codes "chunk_ordinal"

abbrev pub chunk_id_key : Text
chunk_id_key = codes "chunk_id"

-- `chunk-{doc_id}-p{ordinal}`
unfoldable pub chunk_id_for : Text → ℕ → Text
chunk_id_for doc_id ordinal = (codes "chunk-" ++ doc_id) ++ b'-' ∷ b'p' ∷ decimal ordinal

-- The splitter's parameters, or the refusal of an overlap outside 0 <= overlap < chunk_size // 2.
unfoldable pub make_splitter : ℤ → ℤ → Result (ℕ × ℕ)
make_splitter (pos size) (pos overlap) =
    if ltb overlap (size / 2) then ok (size, overlap) else raised value_error
make_splitter (pos size) (negsuc n) = raised value_error
make_splitter (negsuc n) overlap = raised value_error

pub record Document (V : Type 0) : Type 0 where
  pub page_content : Text
  pub metadata : Dict Text V

pub record Values (V : Type 0) : Type 0 where
  pub of_text : Text → V
  pub of_int : ℕ → V
  pub str : V → Text

module _ {V : Type 0} (values : Values V) where
  -- `str(chunk.metadata.get(DOC_ID_KEY, UNKNOWN_DOC_ID))`
  unfoldable pub doc_id_in : Document V → Text
  doc_id_in chunk = elim (lookup doc_id_key chunk.metadata) [
    | none ↦ unknown_doc_id
    | some v ↦ values.str v
  ]

  unfoldable pub stamped : Document V → Text → ℕ → Document V
  stamped chunk doc_id ordinal = record chunk {
    metadata = insert chunk_id_key (values.of_text (chunk_id_for doc_id ordinal)) (
        insert chunk_ordinal_key (values.of_int ordinal)
          (insert doc_id_key (values.of_text doc_id) chunk.metadata));
  }

  -- The loop of `chunk_docs`; `seen` counts the chunks of each document so far.
  unfoldable pub stamp_all : Dict Text ℕ → List (Document V) → List (Document V)
  stamp_all seen [] = []
  stamp_all seen (chunk ∷ chunks) =
      let doc_id = doc_id_in chunk in
      let ordinal = get_or (lookup doc_id seen) 0 in
      stamped chunk doc_id ordinal ∷ stamp_all (insert doc_id (ordinal + 1) seen) chunks

  unfoldable pub chunk_docs :
      (ℕ → ℕ → List (Document V) → List (Document V))
      → List (Document V)
      → ℤ
      → ℤ
      → Result (List (Document V))
  chunk_docs split_documents docs chunk_size overlap =
      bind (make_splitter chunk_size overlap) λ p. ok (stamp_all [] (split_documents p.0 p.1 docs))
