-- ===== src/Query/Operand/Errors.antt =====
-- The errors of the operands of src/query/query_parser.cpp.
use snow_seek.Analysis.Tokenizer.{
  Token, TokenizerSession, default_max_token_length, emit_pending, finish, new_session, push,
  push_byte, push_bytes, require_consumer, tokenize, tokenize_with_positions,
}
use snow_seek.Prelude.{
  Bytes, List, Option, Yields, Yields->>=, [], arith, false, length, none, refl, some, take, true,
  ℕ, ◌*◌, ◌+◌, ◌-◌, ◌^◌, ◌∷◌, ◌≡◌,
}
use snow_seek.Query.Filter.{
  civil_day, multiplier_of, parse_comparison, parse_mtime_day, parse_size, scale,
}
use snow_seek.Query.Lexer.{LexToken, TokenKind, is_end, next}
use snow_seek.Query.Number.{from_chars}
use snow_seek.Query.Operand.{
  find_first_of, is_wildcard, normalize_term, only_term, operand_of, parse_extension_filter,
  parse_mtime_filter, parse_operand, parse_phrase, parse_prefix, parse_size_filter, parse_word,
  word_by,
}

abbrev Any {ℓ} : {A : Type ℓ} → A → Type 0
Any a = Unit {0}

emit_pending-Yields :
    (session : TokenizerSession) (received : List Token)
    → Yields Any (emit_pending session received)
unfolding emit_pending
emit_pending-Yields session received = ground arith

push_byte-Yields :
    (session : TokenizerSession) (received : List Token) (character : ℕ)
    → Yields Any (push_byte session received character)
unfolding push_byte
push_byte-Yields session received character = ground (arith, emit_pending-Yields session received)

push_bytes-Yields :
    (session : TokenizerSession) (received : List Token) (text : Bytes)
    → Yields Any (push_bytes session received text)
unfolding push_bytes
push_bytes-Yields session received [] = tt
push_bytes-Yields session received (c ∷ text) =
    Yields->>= Any Any (push_byte session received c) _ (push_byte-Yields session received c)
      λ (next, emitted) _. push_bytes-Yields next emitted text

new_session-Yields : (limit : ℕ) → Yields Any (new_session limit)
unfolding new_session
new_session-Yields limit = ground arith

push-Yields :
    (session : TokenizerSession) (received : List Token) (text : Bytes)
    → Yields Any (push true session received text)
unfolding push require_consumer
push-Yields session received text = ground (arith, push_bytes-Yields session received text)

finish-Yields :
    (session : TokenizerSession) (received : List Token) → Yields Any (finish true session received)
unfolding finish require_consumer
finish-Yields session received = ground (arith, emit_pending-Yields session received)

tokenize-Yields : (limit : ℕ) (text : Bytes) → Yields Any (tokenize limit text)
unfolding tokenize tokenize_with_positions
tokenize-Yields limit text =
    Yields->>= Any Any (tokenize_with_positions limit text) _
      (Yields->>= Any Any (new_session limit) _ (new_session-Yields limit) λ session _.
        Yields->>= Any Any (push true session [] text) _ (push-Yields session [] text)
          λ (pushed, received) _.
            Yields->>= Any Any (finish true pushed received) _ (finish-Yields pushed received)
              λ _ _. tt)
      λ _ _. tt

parse_comparison-Yields : (text : Bytes) (offset : ℕ) → Yields Any (parse_comparison text offset)
unfolding parse_comparison
parse_comparison-Yields text offset = ground arith

scale-Yields :
    (offset value : ℕ) (multiplier : Option ℕ) → Yields Any (scale offset value multiplier)
unfolding scale
scale-Yields offset value none = refl
scale-Yields offset value (some m) = ground arith

parse_size-Yields : (text : Bytes) (offset : ℕ) → Yields Any (parse_size text offset)
unfolding parse_size
parse_size-Yields text offset =
    let result = from_chars (2 ^ 64) text in
    ground (arith, scale-Yields offset result.value (multiplier_of result.left))

civil_day-Yields : (offset y m d : ℕ) → Yields Any (civil_day offset y m d)
unfolding civil_day
civil_day-Yields offset y m d = ground arith

parse_mtime_day-Yields : (text : Bytes) (offset : ℕ) → Yields Any (parse_mtime_day text offset)
unfolding parse_mtime_day
parse_mtime_day-Yields [] offset = refl
parse_mtime_day-Yields (a ∷ []) offset = refl
parse_mtime_day-Yields (a ∷ b ∷ []) offset = refl
parse_mtime_day-Yields (a ∷ b ∷ c ∷ []) offset = refl
parse_mtime_day-Yields (a ∷ b ∷ c ∷ d ∷ []) offset = refl
parse_mtime_day-Yields (a ∷ b ∷ c ∷ d ∷ e ∷ []) offset = refl
parse_mtime_day-Yields (a ∷ b ∷ c ∷ d ∷ e ∷ f ∷ []) offset = refl
parse_mtime_day-Yields (a ∷ b ∷ c ∷ d ∷ e ∷ f ∷ g ∷ []) offset = refl
parse_mtime_day-Yields (a ∷ b ∷ c ∷ d ∷ e ∷ f ∷ g ∷ h ∷ []) offset = refl
parse_mtime_day-Yields (a ∷ b ∷ c ∷ d ∷ e ∷ f ∷ g ∷ h ∷ i ∷ []) offset = refl
parse_mtime_day-Yields (y1 ∷ y2 ∷ y3 ∷ y4 ∷ s1 ∷ m1 ∷ m2 ∷ s2 ∷ d1 ∷ d2 ∷ []) offset =
    let year = (y1 - b'0') * 1000 + (y2 - b'0') * 100 + (y3 - b'0') * 10 + (y4 - b'0') in
    let month = (m1 - b'0') * 10 + (m2 - b'0') in
    let day = (d1 - b'0') * 10 + (d2 - b'0') in
    ground (arith, civil_day-Yields offset year month day)
parse_mtime_day-Yields (a ∷ b ∷ c ∷ d ∷ e ∷ f ∷ g ∷ h ∷ i ∷ j ∷ k ∷ text) offset = refl

only_term-Yields : (offset : ℕ) (terms : List Bytes) → Yields Any (only_term offset terms)
unfolding only_term
only_term-Yields offset [] = refl
only_term-Yields offset (t ∷ []) = tt
only_term-Yields offset (t ∷ u ∷ terms) = refl

normalize_term-Yields : (text : Bytes) (offset : ℕ) → Yields Any (normalize_term text offset)
unfolding normalize_term
normalize_term-Yields text offset =
    Yields->>= Any Any (tokenize default_max_token_length text) _
      (tokenize-Yields default_max_token_length text) λ terms _. only_term-Yields offset terms

word_by-Yields :
    (wildcard : Option ℕ) (text : Bytes) (offset : ℕ) → Yields Any (word_by wildcard text offset)
unfolding word_by parse_prefix
word_by-Yields none text offset =
    Yields->>= Any Any (normalize_term text offset) _ (normalize_term-Yields text offset) λ _ _. tt
word_by-Yields (some wildcard) text offset =
    let word_text = take (length text - 1) text in
    ground (arith, normalize_term-Yields word_text offset)

parse_size_filter-Yields : (text : Bytes) (offset : ℕ) → Yields Any (parse_size_filter text offset)
unfolding parse_size_filter
parse_size_filter-Yields text offset =
    Yields->>= Any Any (parse_comparison text offset) _ (parse_comparison-Yields text offset)
      λ parsed _.
        Yields->>= Any Any (parse_size parsed.operand offset) _
          (parse_size-Yields parsed.operand offset) λ _ _. tt

parse_mtime_filter-Yields :
    (text : Bytes) (offset : ℕ) → Yields Any (parse_mtime_filter text offset)
unfolding parse_mtime_filter
parse_mtime_filter-Yields text offset =
    Yields->>= Any Any (parse_comparison text offset) _ (parse_comparison-Yields text offset)
      λ parsed _.
        Yields->>= Any Any (parse_mtime_day parsed.operand offset) _
          (parse_mtime_day-Yields parsed.operand offset) λ _ _. tt

operand_of-Yields :
    (kind : TokenKind) (text : Bytes) (offset proximity : ℕ)
    → Yields (λ node. is_end kind ≡ false) (operand_of kind text offset proximity)
unfolding operand_of parse_word parse_phrase parse_extension_filter is_end
operand_of-Yields TokenKind.word text offset proximity =
    ground (arith, word_by-Yields (find_first_of is_wildcard text) text offset)
operand_of-Yields TokenKind.phrase text offset proximity =
    ground (arith, tokenize-Yields default_max_token_length text)
operand_of-Yields TokenKind.path_filter text offset proximity = ground arith
operand_of-Yields TokenKind.extension_filter text offset proximity = ground arith
operand_of-Yields TokenKind.size_filter text offset proximity =
    ground (arith, parse_size_filter-Yields text offset)
operand_of-Yields TokenKind.mtime_filter text offset proximity =
    ground (arith, parse_mtime_filter-Yields text offset)
operand_of-Yields TokenKind.conjunction text offset proximity = refl
operand_of-Yields TokenKind.disjunction text offset proximity = refl
operand_of-Yields TokenKind.negation text offset proximity = refl
operand_of-Yields TokenKind.left_parenthesis text offset proximity = refl
operand_of-Yields TokenKind.right_parenthesis text offset proximity = refl
operand_of-Yields TokenKind.end text offset proximity = refl

pub parse_operand-Yields :
    (token : LexToken) → Yields (λ node. is_end token.kind ≡ false) (parse_operand token)
unfolding parse_operand
parse_operand-Yields token = operand_of-Yields token.kind token.text token.offset token.proximity
