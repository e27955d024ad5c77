-- ===== src/Storage/Writing/Written.antt =====
-- What stands in the file where `write_index_file` of src/storage/index_file.cpp succeeded.
use mathlib.Core.Path.{subst}
use snow_seek.Documents.{DocumentStore}
use snow_seek.Index.{InMemoryIndex, sorted_terms}
use snow_seek.Prelude.{
  Bool, Bytes, List, Option, Returns, Returns->>=, Returns-then, Returns-throw_if, [], ap, false,
  length, ltb, not, ok, refl, some, sym, throw_if_then, true, ℕ, ◌++◌, ◌∙◌, ◌∷◌, ◌≡◌,
}
use snow_seek.Storage.Header.{IndexHeader, max_u64, write_header}
use snow_seek.Storage.Header.Checks.{IsHeader}
use snow_seek.Storage.Header.Layout.{header_bytes}
use snow_seek.Storage.Stream.{Output}
use snow_seek.Storage.Validation.Table.{SegmentStats}
use snow_seek.Storage.Writing.{
  check_space, encode_sections, make_header, write_file, write_index_file, write_index_file_bounded,
  write_sections_bytes,
}
use snow_seek.Storage.Writing.Documents.{DocumentsState, encode_documents}
use snow_seek.Storage.Writing.Envelope.{file_content, file_header}
use snow_seek.Storage.Writing.Fields.{finish}
use snow_seek.Storage.Writing.Placing.{header_of, make_header-header_of}
use snow_seek.Storage.Writing.Streams.{
  Took-then, bytes_same, joined, write_header-Took, write_sections_bytes-Took,
}
use snow_seek.Storage.Writing.Terms.{write_terms, write_terms_section}

-- What the sections and the statistics are made of.
abbrev Encoded : DocumentStore → List Bytes × SegmentStats → Type 0
Encoded documents (sections, stats) =
    (table : DocumentsState) × (terms : Bytes) × (postings : Bytes) × (positions : Bytes)
    × (encode_documents documents ≡ ok table)
    × (sections
        ≡ table.documents_stream.written ∷ table.paths_stream.written ∷ terms ∷ postings ∷ positions
          ∷ [])
    × (stats.physical_document_count ≡ length documents)
    × (stats.live_document_count ≡ table.live_document_count)
    × (stats.tombstone_count ≡ table.tombstone_count)

finish-written :
    (stream : Output) (bytes : Bytes) → finish stream ≡ ok bytes → bytes ≡ stream.written
unfolding finish
finish-written stream bytes e =
    throw_if_then (not stream.good) _ (ok stream.written) e
      λ good now. sym (bytes_same stream.written bytes now)

encode_sections-Encoded :
    (documents : DocumentStore) (index : InMemoryIndex)
    → Returns (Encoded documents) (encode_sections documents index)
unfolding encode_sections
encode_sections-Encoded documents index =
    let Q = Encoded documents in
    Returns-then Q (encode_documents documents) _ λ table e1.
      Returns-then Q (write_terms documents index _ (sorted_terms index)) _ λ state e2.
        Returns-then Q (write_terms_section state.term_records (sorted_terms index)) _
          λ terms_stream e3. Returns-then Q (finish table.documents_stream) _ λ documents_bytes e4.
            Returns-then Q (finish table.paths_stream) _ λ paths e5.
              Returns-then Q (finish terms_stream) _ λ terms e0.
                Returns-then Q (finish state.postings_stream) _ λ postings e6.
                  Returns-then Q (finish state.positions_stream) _ λ positions e7.
                    let first_ = finish-written table.documents_stream documents_bytes e4 in
                    let second_ = finish-written table.paths_stream paths e5 in
                    (
                      table,
                      terms,
                      postings,
                      positions,
                      e1,
                      λ i. first_ i ∷ second_ i ∷ terms ∷ postings ∷ positions ∷ [],
                      refl,
                      refl,
                      refl,
                    )

-- A new file that is open.
abbrev pub opened : Option ℕ → Output
opened room = record { written = []; room = room; good = true }

abbrev WroteFile : IndexHeader → List Bytes → Output → Type 0
WroteFile header sections out =
    IsHeader header × (out.written ≡ header_bytes header ++ joined sections)

shown_good : (b : Bool) → not b ≡ false → b ≡ true
shown_good true h = refl
shown_good false h = cc

write_file-WroteFile :
    (room : Option ℕ) (made : IndexHeader) (sections : List Bytes)
    → length made.sections ≡ 5
    → Returns (WroteFile made sections) (write_file (some (opened room)) made sections)
unfolding write_file
write_file-WroteFile room made sections five =
    let Q = WroteFile made sections in
    Returns-then Q (write_header (opened room) made) _ λ headed e.
      Returns-throw_if Q (not (write_sections_bytes headed sections).good) _ _ λ good.
        let good_ : (write_sections_bytes headed sections).good ≡ true = shown_good _ good in
        let (v, first_) = write_header-Took (opened room) headed made five e in
        let rest = write_sections_bytes-Took headed sections good_ in
        let both =
          Took-then (opened room) headed (write_sections_bytes headed sections) (header_bytes made)
            (joined sections) (first_ rest.0) rest in
        (v, both.1)

-- What stands in the file.
abbrev pub WroteIndex : DocumentStore → Bool → SegmentStats × Output → Type 0
WroteIndex documents stores_positions (stats, out) =
    (table : DocumentsState) × (terms : Bytes) × (postings : Bytes) × (positions : Bytes)
    × (encode_documents documents ≡ ok table)
    × IsHeader (
        file_header table.documents_stream.written table.paths_stream.written terms postings
          positions stores_positions)
    × (out.written
        ≡ file_content table.documents_stream.written table.paths_stream.written terms postings
            positions stores_positions)
    × (stats.file_size
        ≡ (file_header table.documents_stream.written table.paths_stream.written terms postings
            positions stores_positions).file_size)
    × (stats.physical_document_count ≡ length documents)
    × (stats.live_document_count ≡ table.live_document_count)
    × (stats.tombstone_count ≡ table.tombstone_count)

pub write_index_file-WroteIndex :
    (available : Option ℕ) (room : Option ℕ) (documents : DocumentStore) (index : InMemoryIndex)
    → Returns
        (WroteIndex documents index.store_positions)
        (write_index_file available (some (opened room)) documents index)
unfolding write_index_file write_index_file_bounded
write_index_file-WroteIndex available room documents index =
    let flag = index.store_positions in
    let Q = WroteIndex documents flag in
    Returns->>= (Encoded documents) Q (encode_sections documents index) _
      (encode_sections-Encoded documents index)
      λ (sections, stats) (table, terms, postings, positions, encoded, s_eq, n1, n2, n3).
        let five : length sections ≡ 5 = ap length s_eq in
        Returns-then Q (make_header flag sections) _ λ made e2.
          let (h_eq, fits) = make_header-header_of flag sections made five e2 in
          let made_eq = h_eq ∙ ap (header_of flag) s_eq in
          let made_five : length made.sections ≡ 5 =
            ap (λ (h : IndexHeader). length h.sections) made_eq in
          Returns-throw_if Q (ltb max_u64 made.file_size) _ _ λ enough.
            Returns-then Q (check_space available made.file_size) _ λ done e3.
              Returns->>= (WroteFile made sections) Q
                (write_file (some (opened room)) made sections) _
                (write_file-WroteFile room made sections made_five)
                λ out w.
                  let (v, bytes) =
                    subst (λ (p : IndexHeader × List Bytes). WroteFile p.0 p.1 out)
                      (λ i. (made_eq i, s_eq i)) w in
                  (
                    table,
                    terms,
                    postings,
                    positions,
                    encoded,
                    v,
                    bytes,
                    ap (λ (h : IndexHeader). h.file_size) made_eq,
                    n1,
                    n2,
                    n3,
                  )
