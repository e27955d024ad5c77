-- ===== src/Storage/Validation/Table/Pushed.antt =====
-- A table of `decode_document_table` in src/storage/index_validation.cpp with one more document.
use mathlib.Core.List.{map-append}
use snow_seek.Documents.{DocumentMeta, DocumentStore, is_tombstone}
use snow_seek.Documents.Store.{IsStore, IsStoreFrom-push}
use snow_seek.Prelude.{
  Bool, List, [], arith, if◌then◌else◌, length, length-append, map, not, true, ℕ, ◌++◌, ◌+◌, ◌<◌,
  ◌^◌, ◌∙◌, ◌∷◌, ◌≡◌, ◌≤◌,
}
use snow_seek.Storage.Validation.Table.{LoadedDocumentTable}

abbrev pub is_live : DocumentMeta → Bool
is_live document = not (is_tombstone document.state)

unfoldable pub count_live : DocumentStore → ℕ
count_live [] = 0
count_live (document ∷ documents) =
    (if is_tombstone document.state then 0 else 1) + count_live documents

pub count_live-append :
    (documents : DocumentStore) (document : DocumentMeta)
    → count_live (documents ++ (document ∷ []))
      ≡ count_live documents + (if is_tombstone document.state then 0 else 1)
unfolding count_live
count_live-append [] document = omega arith
count_live-append (d ∷ documents) document = omega (arith, count_live-append documents document)

pub count_live-le-length : (documents : DocumentStore) → count_live documents ≤ length documents
unfolding count_live
count_live-le-length [] = omega arith
count_live-le-length (d ∷ documents) = ground (arith, count_live-le-length documents)

-- The documents of a table with their counts; `n` of them so far.
pub record IsTable (has_positions : Bool) (declared n : ℕ) (table : LoadedDocumentTable)
    : Type 0 where
  pub store : IsStore table.documents
  pub count_is : length table.documents ≡ n
  pub tokens : map (λ (d : DocumentMeta). d.token_count) table.documents ≡ table.token_counts
  pub physical_is : table.stats.physical_document_count ≡ declared
  pub positions_is : table.stores_positions ≡ has_positions
  pub live_is : table.stats.live_document_count ≡ count_live table.documents
  pub tombstones_are : table.stats.tombstone_count + count_live table.documents ≡ n
  pub small : n ≤ 2 ^ 32

pub map-push :
    (documents : DocumentStore) (d : DocumentMeta) (counts : List ℕ) (count : ℕ)
    → map (λ (x : DocumentMeta). x.token_count) documents ≡ counts
    → d.token_count ≡ count
    → map (λ (x : DocumentMeta). x.token_count) (documents ++ (d ∷ [])) ≡ counts ++ (count ∷ [])
map-push documents d counts count e k =
    map-append (λ (x : DocumentMeta). x.token_count) documents (d ∷ []) ∙ λ i. e i ++ (k i ∷ [])

-- A table with one more document at its end.
pub pushed-IsTable :
    (has : Bool) (declared n count lives tombstones : ℕ) (loaded : LoadedDocumentTable)
    (document : DocumentMeta)
    → IsTable has declared n loaded
    → n < 2 ^ 32
    → document.id ≡ length loaded.documents
    → (is_tombstone document.state ≡ true → document.token_count ≡ 0)
    → document.token_count ≡ count
    → lives ≡ loaded.stats.live_document_count + (if is_tombstone document.state then 0 else 1)
    → tombstones ≡ loaded.stats.tombstone_count + (if is_tombstone document.state then 1 else 0)
    → IsTable has declared (n + 1) (record loaded {
      documents = loaded.documents ++ (document ∷ []);
      token_counts = loaded.token_counts ++ (count ∷ []);
      stats = record (loaded.stats) { live_document_count = lives; tombstone_count = tombstones };
    })
pushed-IsTable has declared n count lives tombstones loaded document t room id dead tokens l s =
    record {
      store = IsStoreFrom-push 0 loaded.documents document t.store (id ∙ omega arith) dead;
      count_is = length-append loaded.documents (document ∷ []) ∙ omega (arith, t.count_is);
      tokens = map-push loaded.documents document loaded.token_counts count t.tokens tokens;
      physical_is = t.physical_is;
      positions_is = t.positions_is;
      live_is = omega (arith, l, t.live_is, count_live-append loaded.documents document);
      tombstones_are =
          ground (arith, s, t.tombstones_are, count_live-append loaded.documents document);
      small = omega arith;
    }
