-- ===== src/Analysis/Tokenizer/Words.antt =====
-- A tokenization by src/analysis/tokenizer.cpp against the words of the text.
use snow_seek.Analysis.Tokenizer.{
  Token, TokenizerSession, emit_pending, finish, is_ascii_token_character, new_session,
  normalize_ascii, push, push_byte, push_bytes, require_consumer, terms_of, tokenize,
  tokenize_with_positions,
}
use snow_seek.Analysis.Tokenizer.Runs.{
  all_short, number, split, split-gap, split-token, with_run, with_run-append, words,
}
use snow_seek.Prelude.{
  Bool, Bool-cases, Bytes, Error, List, Result, [], ap, append-nil, append_assoc, arith, eq→==,
  false, if◌then◌else◌, inl, inr, length, length-append, le→leb, ltb→lt, ok, refl, throw, true, ℕ,
  ◌++◌, ◌+◌, ◌<◌, ◌==◌, ◌>>=◌, ◌^◌, ◌∙◌, ◌∷◌, ◌≡◌, ◌≤◌,
}

abbrev too_long : Error
too_long = Error.length_error "token exceeds maximum length"

-- The end of a run of the session: what is left pending is emitted.
abbrev close : Result (TokenizerSession × List Token) → Result (List Token)
close r = r >>= λ (s, received). finish true s received >>= λ (t, tokens). ok tokens

-- A session in the middle of a text.
abbrev at : ℕ → Bytes → ℕ → TokenizerSession
at limit pending n = record {
  max_token_length = limit;
  pending = pending;
  next_position = n;
  finished = false;
}

abbrev outcome : ℕ → ℕ → List Token → List Bytes → Result (List Token)
outcome limit n received ws =
    if all_short limit ws then ok (received ++ number n ws) else throw too_long

push_byte_full :
    (limit n c : ℕ) (p : Bytes) (received : List Token)
    → is_ascii_token_character c ≡ true
    → length p ≡ limit
    → push_byte (at limit p n) received c ≡ throw too_long
unfolding push_byte
push_byte_full limit n c p received h e = rw (h, eq→== (length p) limit e)

push_byte_room :
    (limit n c : ℕ) (p : Bytes) (received : List Token)
    → is_ascii_token_character c ≡ true
    → length p < limit
    → push_byte (at limit p n) received c
      ≡ ok (at limit (p ++ (normalize_ascii c ∷ [])) n, received)
unfolding push_byte
push_byte_room limit n c p received h e = rw (h, ne→== (length p) limit e)
  where
    ne→== : (a b : ℕ) → a < b → (a == b) ≡ false
    ne→== a b e = ground arith

push_byte_gap :
    (limit n c : ℕ) (p : Bytes) (received : List Token)
    → is_ascii_token_character c ≡ false
    → push_byte (at limit p n) received c ≡ emit_pending (at limit p n) received
unfolding push_byte
push_byte_gap limit n c p received h = rw h

emit_nothing :
    (limit n : ℕ) (received : List Token)
    → emit_pending (at limit [] n) received ≡ ok (at limit [] n, received)
unfolding emit_pending
emit_nothing limit n received = refl

emit_word :
    (limit n c : ℕ) (p : Bytes) (received : List Token)
    → n < 2 ^ 32
    → emit_pending (at limit (c ∷ p) n) received
      ≡ ok (at limit [] (n + 1), received ++ (record { term = c ∷ p; position = n } ∷ []))
unfolding emit_pending
emit_word limit n c p received h = ground arith

-- The claim of the induction, for the text with its split.
abbrev Good : ℕ → ℕ → Bytes → List Token → Bytes → Bytes × List Bytes → Type 0
Good limit n p received text (w, ws) =
    n + length (with_run (p ++ w) ws) ≤ 2 ^ 32
    → close (push_bytes (at limit p n) received text)
      ≡ outcome limit n received (with_run (p ++ w) ws)

close_pending :
    (limit n : ℕ) (p : Bytes) (received : List Token)
    → length p ≤ limit
    → n + length (with_run p []) ≤ 2 ^ 32
    → (finish true (at limit p n) received >>= λ (t, tokens). ok tokens)
      ≡ outcome limit n received (with_run p [])
unfolding all_short finish require_consumer
close_pending limit n [] received h k = rw (emit_nothing limit n received, append-nil received)
close_pending limit n (c ∷ p) received h k =
    rw (emit_word limit n c p received (omega arith), le→leb (length (c ∷ p)) limit h)

all_short_long :
    (limit : ℕ) (w : Bytes) (ws : List Bytes) → limit < length w → all_short limit (w ∷ ws) ≡ false
unfolding all_short
all_short_long limit w ws h = ground arith

all_short_next :
    (limit : ℕ) (w : Bytes) (ws : List Bytes)
    → length w ≤ limit
    → all_short limit (w ∷ ws) ≡ all_short limit ws
unfolding all_short
all_short_next limit w ws h = ground arith

push_bytes_step :
    (s : TokenizerSession) (received : List Token) (c : ℕ) (text : Bytes)
    → push_bytes s received (c ∷ text)
      ≡ (push_byte s received c >>= λ (next, emitted). push_bytes next emitted text)
unfolding push_bytes
push_bytes_step s received c text = refl

module _ (limit n : ℕ) (p : Bytes) (received : List Token) (c : ℕ) (text : Bytes) where
  Good-full :
      is_ascii_token_character c ≡ true
      → length p ≡ limit
      → Good limit n p received (c ∷ text) (split (c ∷ text))
  Good-full tok full = rw (split-token c text tok) λ fits.
      let long : limit < length (p ++ (normalize_ascii c ∷ (split text).0)) =
        omega (arith, length-append p (normalize_ascii c ∷ (split text).0)) in
      rw (
        push_bytes_step (at limit p n) received c text,
        push_byte_full limit n c p received tok full,
        with_run-append p (normalize_ascii c) (split text).0 (split text).1,
        all_short_long limit (p ++ (normalize_ascii c ∷ (split text).0)) (split text).1 long,
      )

  Good-room :
      is_ascii_token_character c ≡ true
      → length p < limit
      → Good limit n (p ++ (normalize_ascii c ∷ [])) received text (split text)
      → Good limit n p received (c ∷ text) (split (c ∷ text))
  Good-room tok room ih = rw (split-token c text tok) λ fits.
      let joined = append_assoc p (normalize_ascii c ∷ []) (split text).0 in
      rw
        (
          push_bytes_step (at limit p n) received c text,
          push_byte_room limit n c p received tok room,
        )
        (rw joined at (ih (rw joined fits)))

  Good-gap_empty :
      is_ascii_token_character c ≡ false
      → p ≡ []
      → Good limit n [] received text (split text)
      → Good limit n p received (c ∷ text) (split (c ∷ text))
  unfolding words
  Good-gap_empty gap none_pending ih =
      rw (split-gap c text gap, none_pending)
        λ fits.
          rw
            (
              push_bytes_step (at limit [] n) received c text,
              push_byte_gap limit n c [] received gap,
              emit_nothing limit n received,
            )
            (ih fits)

Good-gap_word :
    (limit n x : ℕ) (p : Bytes) (received : List Token) (c : ℕ) (text : Bytes)
    → length (x ∷ p) ≤ limit
    → is_ascii_token_character c ≡ false
    → Good limit
        (n + 1)
        []
        (received ++ (record { term = x ∷ p; position = n } ∷ []))
        text
        (split text)
    → Good limit n (x ∷ p) received (c ∷ text) (split (c ∷ text))
unfolding words
Good-gap_word limit n x p received c text short gap ih =
    rw (split-gap c text gap, append-nil p)
      λ fits.
        rw
          (
            push_bytes_step (at limit (x ∷ p) n) received c text,
            push_byte_gap limit n c (x ∷ p) received gap,
            emit_word limit n x p received (omega arith),
            all_short_next limit (x ∷ p) (with_run (split text).0 (split text).1) short,
          )
          (ih (omega arith) ∙ simp append_assoc)

Good-gap :
    (limit n : ℕ) (p : Bytes) (received : List Token) (c : ℕ) (text : Bytes)
    → length p ≤ limit
    → is_ascii_token_character c ≡ false
    → ((m : ℕ) (r : List Token) → Good limit m [] r text (split text))
    → Good limit n p received (c ∷ text) (split (c ∷ text))
Good-gap limit n [] received c text short gap ih =
    Good-gap_empty limit n [] received c text gap refl (ih n received)
Good-gap limit n (x ∷ p) received c text short gap ih =
    Good-gap_word limit n x p received c text short gap
      (ih (n + 1) (received ++ (record { term = x ∷ p; position = n } ∷ [])))

Good-nil :
    (limit n : ℕ) (p : Bytes) (received : List Token)
    → length p ≤ limit
    → Good limit n p received [] (split [])
unfolding push_bytes split
Good-nil limit n p received short = rw (append-nil p) (close_pending limit n p received short)

push_bytes-Good :
    (limit n : ℕ) (p : Bytes) (received : List Token) (text : Bytes)
    → length p ≤ limit
    → Good limit n p received text (split text)
push_bytes-Good limit n p received [] hp = Good-nil limit n p received hp
push_bytes-Good limit n p received (c ∷ text) hp = elim (Bool-cases (is_ascii_token_character c)) [
  | inl tok ↦ elim (Bool-cases (length p == limit)) [
    | inl full ↦ Good-full limit n p received c text tok (ground (arith, full))
    | inr room ↦ Good-room limit n p received c text tok (ground (arith, room)) (
        push_bytes-Good limit n (p ++ (normalize_ascii c ∷ [])) received text (
          omega (
            arith,
            length-append p (normalize_ascii c ∷ []),
            ltb→lt (length p) limit (ground (arith, room)),
          )))
  ]
  | inr gap ↦
      Good-gap limit n p received c text hp gap
        (λ m r. push_bytes-Good limit m [] r text (omega arith))
]

-- With a nonzero limit, a text of at most 2 ^ 32 words is tokenized as its words, lowercased and
-- numbered from 0, if none is longer than the limit; otherwise the length error is thrown.
pub tokenize_with_positions-words :
    (limit : ℕ) (text : Bytes)
    → 0 < limit
    → length (words text) ≤ 2 ^ 32
    → tokenize_with_positions limit text ≡ (
        if all_short limit (words text)
        then ok (number 0 (words text))
        else throw (Error.length_error "token exceeds maximum length"))
unfolding tokenize_with_positions new_session push require_consumer words
tokenize_with_positions-words limit text pos fits =
    rw (nonzero limit pos) (push_bytes-Good limit 0 [] [] text (omega arith) (omega arith))
  where
    nonzero : (limit : ℕ) → 0 < limit → (limit == 0) ≡ false
    nonzero limit pos = ground arith

pub terms_of-number : (n : ℕ) (ws : List Bytes) → terms_of (number n ws) ≡ ws
terms_of-number n [] = refl
terms_of-number n (w ∷ ws) = λ i. w ∷ terms_of-number (n + 1) ws i

-- The terms alone, under the same conditions.
pub tokenize-words :
    (limit : ℕ) (text : Bytes)
    → 0 < limit
    → length (words text) ≤ 2 ^ 32
    → tokenize limit text ≡ (
        if all_short limit (words text)
        then ok (words text)
        else throw (Error.length_error "token exceeds maximum length"))
unfolding tokenize
tokenize-words limit text pos fits =
    rw (tokenize_with_positions-words limit text pos fits) (branch (all_short limit (words text)))
  where
    branch :
        (b : Bool)
        → ((if b then ok (number 0 (words text)) else throw too_long) >>= λ tokens.
            ok (terms_of tokens))
          ≡ (if b then ok (words text) else throw too_long)
    branch true = ap ok (terms_of-number 0 (words text))
    branch false = refl
