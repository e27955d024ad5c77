-- ===== src/Storage/Validation/Terms/Parts.antt =====
-- What the steps of the loops of `decode_terms_and_postings` in src/storage/index_validation.cpp
-- answer: ascending positions, as many as the posting's frequency, and a term's text.
use snow_seek.Arithmetic.{checked_add}
use snow_seek.Index.{are_ascending, is_at_or_before}
use snow_seek.Prelude.{
  Bool, Bytes, Error, List, Option, Result, Returns, Returns->>=, Returns-map, Returns-then,
  Returns-throw_if, [], ap, arith, false, if◌then◌else◌, length, ltb, ltb-false, none, ok, refl,
  some, suc, sym, throw, throw_if_then, true, zero, ℕ, ◌∙◌, ◌∷◌, ◌≡◌, ◌≤◌,
}
use snow_seek.Prelude.Ascending.{From}
use snow_seek.Prelude.Slices.{length-take}
use snow_seek.Storage.Codec.{read_u32_le}
use snow_seek.Storage.File.{read_exact, seek_to}
use snow_seek.Storage.Header.{SectionDescriptor}
use snow_seek.Storage.Records.{TermRecord}
use snow_seek.Storage.Validation.Terms.{decode_term_bytes, posting_positions, read_positions}

abbrev next_after : Option ℕ → ℕ
next_after none = 0
next_after (some previous) = suc previous

is_at_or_before-next_after :
    (position : ℕ) (previous : Option ℕ)
    → is_at_or_before position previous ≡ false
    → next_after previous ≤ position
is_at_or_before-next_after position none h = omega arith
is_at_or_before-next_after position (some previous) h = ground (arith, h)

abbrev ReadPositions : ℕ → Option ℕ → List ℕ × Bytes → Type 0
ReadPositions n previous (positions, rest) =
    (length positions ≡ n) × From (next_after previous) positions

read_positions-ReadPositions :
    (n : ℕ) (previous : Option ℕ) (input : Bytes)
    → Returns (ReadPositions n previous) (read_positions n previous input)
unfolding read_positions
read_positions-ReadPositions zero previous input = (refl, tt)
read_positions-ReadPositions (suc n) previous input =
    Returns-then (ReadPositions (suc n) previous) (read_u32_le input) _ λ (position, rest) t.
      Returns-throw_if (ReadPositions (suc n) previous) (is_at_or_before position previous)
        (Error.runtime_error "posting positions are not increasing") _
        λ later.
          Returns->>= (ReadPositions n (some position)) (ReadPositions (suc n) previous)
            (read_positions n (some position) rest) _
            (read_positions-ReadPositions n (some position) rest)
            λ (positions, after) (count, f).
              (omega (arith, count), (is_at_or_before-next_after position previous later, f))

From-are_ascending : (lo : ℕ) (xs : List ℕ) → From lo xs → are_ascending xs ≡ true
unfolding are_ascending
From-are_ascending lo [] f = refl
From-are_ascending lo (x ∷ []) f = refl
From-are_ascending lo (x ∷ y ∷ xs) (a, f) = ground (arith, f, From-are_ascending (suc x) (y ∷ xs) f)

-- As many positions as occurrences where positions are stored, in ascending order.
abbrev pub PostingPositions : Bool → ℕ → List ℕ × Bytes → Type 0
PostingPositions has_positions frequency (positions, rest) =
    (length positions ≡ (if has_positions then frequency else 0)) × (are_ascending positions ≡ true)

pub posting_positions-PostingPositions :
    (has_positions : Bool) (frequency : ℕ) (input : Bytes)
    → Returns
        (PostingPositions has_positions frequency)
        (posting_positions has_positions frequency input)
unfolding posting_positions are_ascending
posting_positions-PostingPositions true n input =
    Returns-map (ReadPositions n none) (PostingPositions true n) (read_positions n none input)
      (read_positions-ReadPositions n none input)
      λ (positions, rest) (count, f). (count, From-are_ascending 0 positions f)
posting_positions-PostingPositions false n input = (refl, refl)

abbrev text_of : Result (Bytes × Bytes) → Bytes
text_of (ok (text, rest)) = text
text_of (throw e) = []

abbrev pub IsText : TermRecord → Bytes → Type 0
IsText entry text = length text ≡ entry.term_length

pub decode_term_bytes-IsText :
    (content : Bytes) (terms_section : SectionDescriptor) (entry : TermRecord)
    → Returns (IsText entry) (decode_term_bytes content terms_section entry)
unfolding decode_term_bytes read_exact
decode_term_bytes-IsText content terms_section entry =
    Returns-then (IsText entry) (checked_add terms_section.offset entry.term_offset "term offset") _
      λ offset o. Returns-then (IsText entry) (seek_to content offset) _ λ input i.
        Returns-then (IsText entry) (read_exact input entry.term_length) _ λ (text, rest) r.
          throw_if_then (ltb (length input) entry.term_length) _ _ r λ enough same.
            ap length (ap (λ (x : Result (Bytes × Bytes)). text_of x) (sym same))
            ∙ length-take entry.term_length input
                (ltb-false (length input) entry.term_length enough)
