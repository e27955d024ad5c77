-- ===== src/Examples/Evaluation.antt =====
-- src/query: the evaluator at concrete inputs.
use snow_seek.Documents.{DocumentMeta, DocumentState, DocumentStore}
use snow_seek.Index.{
  InMemoryIndex, Posting, bytes_less, find, insert, lookup, sorted_keys, sorted_terms,
}
use snow_seek.Prelude.{
  Bool, Bytes, List, [], arith, length, none, ok, refl, some, true, ℕ, ◌&&◌, ◌↔◌, ◌∷◌, ◌≡◌,
}
use snow_seek.Prelude.Ascending.{member}
use snow_seek.Prelude.Int.{pos}
use snow_seek.Query.Evaluator.{
  add_term, add_terms, collect_conjuncts, collect_positive_terms, estimate, estimate_prefix,
  evaluate, evaluate_conjunction, evaluate_prefix, evaluate_query, evaluate_term, expansion,
  insert_operand, insert_unique, intersect_rest, leading, prepare_prefixes, select, sort_operands,
  sort_unique, unite_terms, universe_from,
}
use snow_seek.Query.Evaluator.Fuel.{evaluate_query-AreMatches, evaluate_query_sound}
use snow_seek.Query.Evaluator.Matches.{AreMatches}
use snow_seek.Query.Evaluator.Prefixes.{any_key, any_of, expansion-any_key}
use snow_seek.Query.Evaluator.Selection.{AreLists, IdsFrom}
use snow_seek.Query.Filter.{starts_with}
use snow_seek.Query.Metadata.{compare_sizes}
use snow_seek.Query.Postings.{matches_postings, posting_document_ids}
use snow_seek.Query.Postings.Phrases.{Occurs, matches_postings-Occurs}
use snow_seek.Query.Sets.{DocumentIds, complement_ids, intersect_ids, union_ids}
use snow_seek.Query.Tree.{ComparisonOperator, QueryNode, expression_depth}

abbrev document_of : ℕ → ℕ → DocumentMeta
document_of id size = record {
  id = id;
  path = b'a' ∷ [];
  file_size = size;
  modified_time_ns = pos 0;
  token_count = 1;
  state = DocumentState.live;
  content_crc32c = none;
}

abbrev documents : DocumentStore
documents = document_of 0 5 ∷ document_of 1 7 ∷ document_of 2 9 ∷ []

abbrev posting_of : ℕ → List ℕ → Posting
posting_of id positions = record {
  document_id = id;
  frequency = length positions;
  positions = positions;
}

abbrev index : InMemoryIndex
index = record {
  dictionary =
      (b'a' ∷ [], posting_of 0 (0 ∷ []) ∷ posting_of 2 (1 ∷ []) ∷ [])
      ∷ (b'b' ∷ [], posting_of 2 (0 ∷ 2 ∷ []) ∷ [])
      ∷ [];
  store_positions = true;
}

-- A glob that matches every path.
abbrev any_glob : Bytes → Bytes → Bool
any_glob pattern path = true

-- a* AND NOT size:<6
abbrev query : QueryNode
query =
    QueryNode.conjunction (QueryNode.prefix (b'a' ∷ []))
      (QueryNode.negation (QueryNode.size_filter (b'<' ∷ b'6' ∷ []) ComparisonOperator.less 6))

documents-IdsFrom : IdsFrom 0 documents
documents-IdsFrom = (refl, (refl, (refl, tt)))

index-AreLists : AreLists index.dictionary
unfolding posting_document_ids
index-AreLists = ((omega arith, (omega arith, tt)), ((omega arith, tt), tt))

prepare_prefixes_test : prepare_prefixes (sorted_terms index) query [] ≡ ok ((b'a' ∷ []) ∷ [])
unfolding prepare_prefixes sorted_terms sorted_keys insert bytes_less leading expansion starts_with
    add_terms add_term
prepare_prefixes_test = refl

evaluate_query-AreMatches_example :
    (ids : DocumentIds) × (names : List Bytes) × (evaluate_query any_glob documents index query
      ≡ ok (ids, names))
    × AreMatches any_glob documents index query ids
evaluate_query-AreMatches_example =
    evaluate_query-AreMatches any_glob documents index query ((b'a' ∷ []) ∷ []) documents-IdsFrom
      index-AreLists refl prepare_prefixes_test

evaluate_query_test : evaluate_query any_glob documents index query ≡ ok (2 ∷ [], (b'a' ∷ []) ∷ [])
unfolding evaluate_query prepare_prefixes sorted_terms sorted_keys insert bytes_less leading
    expansion starts_with add_terms add_term evaluate expression_depth evaluate_conjunction
    sort_operands collect_conjuncts insert_operand estimate estimate_prefix find lookup
    evaluate_prefix unite_terms union_ids evaluate_term posting_document_ids intersect_rest
    intersect_ids select compare_sizes complement_ids universe_from sort_unique insert_unique
    collect_positive_terms
evaluate_query_test = refl

evaluate_query_sound_example : AreMatches any_glob documents index query (2 ∷ [])
evaluate_query_sound_example =
    evaluate_query_sound any_glob documents index query (2 ∷ []) ((b'a' ∷ []) ∷ [])
      documents-IdsFrom index-AreLists evaluate_query_test

matches_postings-Occurs_example :
    (matches_postings (some (posting_of 2 (1 ∷ []) ∷ posting_of 2 (0 ∷ 2 ∷ []) ∷ [])) 0 ≡ true)
    ↔ Occurs (posting_of 2 (1 ∷ [])) (posting_of 2 (0 ∷ 2 ∷ []) ∷ []) 0
matches_postings-Occurs_example =
    matches_postings-Occurs (posting_of 2 (1 ∷ [])) (posting_of 2 (0 ∷ 2 ∷ []) ∷ []) 0
      ((omega arith, (omega arith, tt)), tt)

-- Whether the third document has a term.
abbrev is_in_third : Bytes → Bool
is_in_third name = member 2 (evaluate_term any_glob documents index name)

expansion-any_key_example :
    any_of is_in_third (expansion (sorted_terms index) (b'a' ∷ []))
    ≡ any_key (λ x. starts_with x (b'a' ∷ []) && is_in_third x) index.dictionary
expansion-any_key_example = expansion-any_key is_in_third (b'a' ∷ []) index
