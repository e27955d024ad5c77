-- ===== src/Documents/Reader/Valid.antt =====
-- What src/document/text_reader.cpp emits, and the test of UTF-8 in src/storage/index_file_internal.hpp.
use mathlib.Core.Path.{subst}
use snow_seek.Documents.Reader.{
  InvalidUtf8Policy, Scanned, TextReadStats, add_u64, copy, handle_invalid_sequence,
  is_continuation, is_valid_second_byte, multibyte_step, next_step, replacement_character, scan,
  sequence_length, skip, valid_more,
}
use snow_seek.Documents.Reader.Chunks.{nothing_read}
use snow_seek.Documents.Reader.Outputs.{after_front, scan-front}
use snow_seek.Documents.Reader.Resuming.{whole}
use snow_seek.Documents.Reader.Scanning.{after_step, scan_round}
use snow_seek.Documents.Reader.Steps.{Step-cases}
use snow_seek.Documents.Reader.Whole.{read_whole}
use snow_seek.Prelude.{
  Bool, Bool-cases, Bytes, Returns, Returns->>=, Returns-ok, [], ap, append-nil, arith, drop, inl,
  inr, length, ok, refl, suc, sym, take, true, zero, ℕ, ◌++◌, ◌-◌, ◌<◌, ◌==◌, ◌>>=◌, ◌∙◌, ◌∷◌, ◌≡◌,
  ◌≤◌, ◌⊎◌,
}
use snow_seek.Storage.File.Utf8.{is_second_byte, is_tail_byte, is_valid_utf8, utf8_length}

pub sequence_length-utf8_length : (lead : ℕ) → sequence_length lead ≡ utf8_length lead
unfolding sequence_length utf8_length
sequence_length-utf8_length lead = ground arith

pub second_byte : (lead b : ℕ) → is_valid_second_byte lead b ≡ is_second_byte lead b
unfolding is_valid_second_byte is_second_byte
second_byte lead b = ground arith

pub tail_byte : (b : ℕ) → is_continuation b ≡ is_tail_byte b
unfolding is_continuation is_tail_byte
tail_byte b = ground arith

-- One whole sequence, as the test reads it.
abbrev pub IsSequence : Bytes → Type 0
IsSequence (b1 ∷ []) = utf8_length b1 ≡ 1
IsSequence (b1 ∷ b2 ∷ []) = (utf8_length b1 ≡ 2) × (is_second_byte b1 b2 ≡ true)
IsSequence (b1 ∷ b2 ∷ b3 ∷ []) =
    (utf8_length b1 ≡ 3) × (is_second_byte b1 b2 ≡ true) × (is_tail_byte b3 ≡ true)
IsSequence (b1 ∷ b2 ∷ b3 ∷ b4 ∷ []) =
    (utf8_length b1 ≡ 4)
    × (is_second_byte b1 b2 ≡ true)
    × (is_tail_byte b3 ≡ true)
    × (is_tail_byte b4 ≡ true)
IsSequence _ = ⊥

-- A sequence in front of a text.
pub IsSequence-front : (s ys : Bytes) → IsSequence s → is_valid_utf8 (s ++ ys) ≡ is_valid_utf8 ys
unfolding is_valid_utf8
IsSequence-front (b1 ∷ []) [] h = ground (arith, h)
IsSequence-front (b1 ∷ []) (y1 ∷ []) h = ground (arith, h)
IsSequence-front (b1 ∷ []) (y1 ∷ y2 ∷ []) h = ground (arith, h)
IsSequence-front (b1 ∷ []) (y1 ∷ y2 ∷ y3 ∷ ys) h = ground (arith, h)
IsSequence-front (b1 ∷ b2 ∷ []) [] h = ground (arith, h)
IsSequence-front (b1 ∷ b2 ∷ []) (y1 ∷ []) h = ground (arith, h)
IsSequence-front (b1 ∷ b2 ∷ []) (y1 ∷ y2 ∷ ys) h = ground (arith, h)
IsSequence-front (b1 ∷ b2 ∷ b3 ∷ []) [] h = ground (arith, h)
IsSequence-front (b1 ∷ b2 ∷ b3 ∷ []) (y1 ∷ ys) h = ground (arith, h)
IsSequence-front (b1 ∷ b2 ∷ b3 ∷ b4 ∷ []) ys h = ground (arith, h)
IsSequence-front (b1 ∷ b2 ∷ b3 ∷ b4 ∷ b5 ∷ s) ys h = absurd h
IsSequence-front [] ys h = absurd h

length-cases :
    (lead : ℕ)
    → (sequence_length lead ≤ 1)
      ⊎ ((sequence_length lead ≡ 2) ⊎ ((sequence_length lead ≡ 3) ⊎ (sequence_length lead ≡ 4)))
unfolding sequence_length
length-cases lead = ground arith

multibyte_copy :
    (final : Bool) (expected lead n : ℕ) (rest : Bytes)
    → multibyte_step final expected lead rest ≡ copy n
    → (n ≡ expected)
      × (expected ≤ suc (length rest))
      × (expected ≤ suc (valid_more (expected - 1) lead true rest))
unfolding multibyte_step
multibyte_copy final expected lead n rest e = ground (arith, e)

two_valid :
    (lead : ℕ) (rest : Bytes)
    → sequence_length lead ≡ 2
    → 2 ≤ suc (valid_more 1 lead true rest)
    → IsSequence (take 2 (lead ∷ rest))
unfolding valid_more
two_valid lead [] e h = absurd (omega arith)
two_valid lead (b2 ∷ rest) e h =
    ground (arith, h, e, sequence_length-utf8_length lead, second_byte lead b2)

three_valid :
    (lead : ℕ) (rest : Bytes)
    → sequence_length lead ≡ 3
    → 3 ≤ suc (valid_more 2 lead true rest)
    → IsSequence (take 3 (lead ∷ rest))
unfolding valid_more
three_valid lead [] e h = absurd (omega arith)
three_valid lead (b2 ∷ []) e h = absurd (ground (arith, h))
three_valid lead (b2 ∷ b3 ∷ rest) e h =
    ground (arith, h, e, sequence_length-utf8_length lead, second_byte lead b2, tail_byte b3)

four_valid :
    (lead : ℕ) (rest : Bytes)
    → sequence_length lead ≡ 4
    → 4 ≤ suc (valid_more 3 lead true rest)
    → IsSequence (take 4 (lead ∷ rest))
unfolding valid_more
four_valid lead [] e h = absurd (omega arith)
four_valid lead (b2 ∷ []) e h = absurd (ground (arith, h))
four_valid lead (b2 ∷ b3 ∷ []) e h = absurd (ground (arith, h))
four_valid lead (b2 ∷ b3 ∷ b4 ∷ rest) e h =
    ground (
      arith,
      h,
      e,
      sequence_length-utf8_length lead,
      second_byte lead b2,
      tail_byte b3,
      tail_byte b4,
    )

multibyte_IsSequence :
    (final : Bool) (lead n : ℕ) (rest : Bytes)
    → 1 < sequence_length lead
    → multibyte_step final (sequence_length lead) lead rest ≡ copy n
    → IsSequence (take n (lead ∷ rest))
multibyte_IsSequence final lead n rest many e =
    let (n_eq, fits, valid) = multibyte_copy final (sequence_length lead) lead n rest e in
    elim (length-cases lead) [
      | inl few ↦ absurd (omega arith)
      | inr (inl two) ↦
          rw (n_eq, two)
            (two_valid lead rest two
              (subst (λ (k : ℕ). k ≤ suc (valid_more (k - 1) lead true rest)) two valid))
      | inr (inr (inl three)) ↦
          rw (n_eq, three)
            (three_valid lead rest three
              (subst (λ (k : ℕ). k ≤ suc (valid_more (k - 1) lead true rest)) three valid))
      | inr (inr (inr four)) ↦
          rw (n_eq, four)
            (four_valid lead rest four
              (subst (λ (k : ℕ). k ≤ suc (valid_more (k - 1) lead true rest)) four valid))
    ]

-- What the main loop copies is a sequence.
pub next_step-IsSequence :
    (final : Bool) (lead n : ℕ) (rest : Bytes)
    → next_step final lead rest ≡ copy n
    → IsSequence (take n (lead ∷ rest))
unfolding next_step
next_step-IsSequence final lead n rest e = elim (Bool-cases (sequence_length lead == 1)) [
  | inl one ↦
      let n_eq : n ≡ 1 = ground (arith, e, one) in
      rw n_eq (ground (arith, one, sequence_length-utf8_length lead))
  | inr other ↦ elim (Bool-cases (sequence_length lead == 0)) [
    | inl none_ ↦ absurd (ground (arith, e, other, none_))
    | inr some_ ↦
        multibyte_IsSequence final lead n rest (ground (arith, other, some_))
          (ground (arith, e, other, some_))
  ]
]

replacement_text :
    (policy : InvalidUtf8Policy) (offset : ℕ) (stats : TextReadStats)
    → Returns
        (λ (x : TextReadStats × Bytes). (ys : Bytes) → is_valid_utf8 (x.1 ++ ys) ≡ is_valid_utf8 ys)
        (handle_invalid_sequence policy offset stats [])
unfolding handle_invalid_sequence utf8_length is_second_byte is_tail_byte
replacement_text InvalidUtf8Policy.replace offset stats =
    λ ys. IsSequence-front replacement_character ys (refl, refl, refl)
replacement_text InvalidUtf8Policy.reject offset stats = tt

module _ (policy : InvalidUtf8Policy) (final : Bool) where
  abbrev IsText : Scanned → Type 0
  IsText r = is_valid_utf8 r.output ≡ true

  -- Valid output before the output of the rest.
  front-IsText :
      (f offset : ℕ) (input s : Bytes) (stats : TextReadStats)
      → ((ys : Bytes) → is_valid_utf8 (s ++ ys) ≡ is_valid_utf8 ys)
      → Returns IsText (scan f policy final offset input stats [])
      → Returns IsText (scan f policy final offset input stats s)
  front-IsText f offset input s stats h t =
      let eq : scan f policy final offset input stats s ≡ (
          scan f policy final offset input stats [] >>= λ r.
          ok (after_front stats.bytes_read stats.bytes_emitted s r)) =
        ap (λ (o : Bytes). scan f policy final offset input stats o) (sym (append-nil s))
        ∙ scan-front policy final stats.bytes_read stats.bytes_emitted s f offset input stats [] in
      subst (Returns IsText) (sym eq) (
        Returns->>= IsText IsText (scan f policy final offset input stats []) _ t
          λ r v. h r.output ∙ v)

  replaced :
      (offset n f : ℕ) (input : Bytes) (stats : TextReadStats)
      → ((stats' : TextReadStats)
          → Returns IsText (scan f policy final (add_u64 offset n) (drop n input) stats' []))
      → Returns IsText (after_step policy final f (skip n) offset input stats [])
  replaced offset n f input stats ih =
      Returns->>=
        (λ (x : TextReadStats × Bytes). (ys : Bytes) → is_valid_utf8 (x.1 ++ ys) ≡ is_valid_utf8 ys)
        IsText (handle_invalid_sequence policy offset stats []) _
        (replacement_text policy offset stats)
        λ (stats', output') h.
          front-IsText f (add_u64 offset n) (drop n input) output' stats' h (ih stats')

  pub scan-IsText :
      (fuel offset : ℕ) (input : Bytes) (stats : TextReadStats)
      → Returns IsText (scan fuel policy final offset input stats [])
  unfolding scan is_valid_utf8
  scan-IsText fuel offset [] stats = refl
  scan-IsText zero offset (lead ∷ rest) stats = tt
  scan-IsText (suc f) offset (lead ∷ rest) stats =
      let input = lead ∷ rest in
      subst (Returns IsText) (sym (scan_round policy final f lead offset rest stats []))
        (elim (Step-cases (next_step final lead rest)) [
          | inl (n, e) ↦ rw e (
              front-IsText f (add_u64 offset n) (drop n input) (take n input) stats
                (λ ys.
                  IsSequence-front (take n input) ys (next_step-IsSequence final lead n rest e))
                (scan-IsText f (add_u64 offset n) (drop n input) stats))
          | inr (inl (n, e)) ↦ rw e (
              replaced offset n f input stats
                (λ stats'. scan-IsText f (add_u64 offset n) (drop n input) stats'))
          | inr (inr e) ↦ rw e refl
        ])

-- The text that a scan of any content answers is UTF-8 as the Segment's checks understand it: every
-- sequence is whole, none is overlong, a surrogate or beyond the last code point.
pub read_whole-is_valid_utf8 :
    (policy : InvalidUtf8Policy) (content : Bytes) (stats : TextReadStats) (text : Bytes)
    → read_whole policy content ≡ ok (stats, text)
    → is_valid_utf8 text ≡ true
unfolding read_whole
read_whole-is_valid_utf8 policy content stats text e =
    Returns-ok (λ (x : TextReadStats × Bytes). is_valid_utf8 x.1 ≡ true) (read_whole policy content)
      (stats, text)
      (Returns->>= (IsText policy true) (λ (x : TextReadStats × Bytes). is_valid_utf8 x.1 ≡ true)
        (whole policy true 0 content nothing_read []) _
        (scan-IsText policy true (length content) 0 content nothing_read) λ r v. v)
      e
