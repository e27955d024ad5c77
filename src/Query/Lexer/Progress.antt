-- ===== src/Query/Lexer/Progress.antt =====
-- What each token of the Lexer in src/query/query_parser.cpp leaves of the input.
use snow_seek.Prelude.{
  Bool, Bytes, Error, Result, String, Yields, Yields->>=, Yields-throw_if, [], arith, drop, false,
  if_intro, if◌then◌else◌, inl, inr, length, not, ok, refl, suc, take, throw, true, zero, ℕ, ◌&&◌,
  ◌*◌, ◌++◌, ◌+◌, ◌-◌, ◌<◌, ◌==◌, ◌>>◌, ◌^◌, ◌||◌, ◌∷◌, ◌≡◌, ◌≤◌, ◌⊎◌,
}
use snow_seek.Query.Filter.{is_error, starts_with}
use snow_seek.Query.Lexer.{
  LexToken, Lexer, TokenKind, at_boundary, classify_word, extension_prefix, find_filter, is_end,
  is_space, mtime_prefix, next, next_token, path_prefix, read_bare, read_phrase, read_proximity,
  read_quoted, read_quoted_filter, read_quoted_value, read_suffix, read_word, require_boundary,
  size_prefix, skip_whitespace, starts_with_ascii_case_insensitive,
}
use snow_seek.Query.Number.{from_chars, read_digits}

abbrev pub weight : TokenKind → ℕ
weight kind = if is_end kind then 0 else 1

-- What is left of the input is no longer than `n`.
abbrev Within {ℓ} : {A : Type ℓ} → ℕ → A × Lexer → Type 0
Within n (a, lexer) = length lexer.rest ≤ n

length-drop_le : (n : ℕ) (text : Bytes) → length (drop n text) ≤ length text
length-drop_le zero text = omega arith
length-drop_le (suc n) [] = omega arith
length-drop_le (suc n) (c ∷ text) = omega (arith, length-drop_le n text)

read_digits_left :
    (value taken : ℕ) (text : Bytes) → length (read_digits value taken text).left ≤ length text
unfolding read_digits
read_digits_left value taken [] = omega arith
read_digits_left value taken (c ∷ text) =
    ground (arith, read_digits_left (value * 10 + (c - b'0')) (taken + 1) text)

from_chars_left : (bound : ℕ) (text : Bytes) → length (from_chars bound text).left ≤ length text
unfolding from_chars
from_chars_left bound text = ground (arith, read_digits_left 0 0 text)

read_proximity-Within :
    (offset n : ℕ) (lexer : Lexer)
    → length lexer.rest ≤ n
    → Yields (Within n) (read_proximity offset lexer)
unfolding read_proximity
read_proximity-Within offset n lexer h =
    let result = from_chars (2 ^ 32) lexer.rest in
    let shorter : length result.left ≤ n = omega (arith, from_chars_left (2 ^ 32) lexer.rest) in
    Yields-throw_if (Within {A = ℕ} n) (result.taken == 0 || is_error result.ec)
      (Error.syntax_error offset "invalid phrase proximity")
      (ok (result.value, record { rest = result.left; position = lexer.position + result.taken }))
      refl λ _. shorter

read_quoted-Within :
    (offset : ℕ) (decoded : Bytes) (position : ℕ) (text : Bytes) (n : ℕ)
    → length text ≤ n
    → Yields (Within n) (read_quoted offset decoded position text)
unfolding read_quoted
read_quoted-Within offset decoded position [] n h = refl
read_quoted-Within offset decoded position (c ∷ []) n h = ground arith
read_quoted-Within offset decoded position (c ∷ e ∷ text) n h = ground (
  arith,
  read_quoted-Within offset (decoded ++ (c ∷ [])) (position + 1) (e ∷ text) n (omega arith),
  read_quoted-Within offset (decoded ++ (e ∷ [])) (position + 2) text n (omega arith),
)

read_quoted_value-Within :
    (offset n : ℕ) (lexer : Lexer)
    → length lexer.rest ≤ n
    → Yields (Within n) (read_quoted_value offset lexer)
unfolding read_quoted_value
read_quoted_value-Within offset n lexer h =
    read_quoted-Within offset [] lexer.position lexer.rest n h

module _ (Q : LexToken × Lexer → Type 0) where
  at_boundary-Yields :
      (message : String) (position : ℕ) (text : Bytes) (m : Result (LexToken × Lexer))
      → Yields Q m
      → Yields Q (at_boundary message position text >> m)
  unfolding at_boundary
  at_boundary-Yields message position [] m h = h
  at_boundary-Yields message position (c ∷ text) m h = Yields-throw_if Q _ _ m refl λ _. h

  require_boundary-Yields :
      (message : String) (lexer : Lexer) (m : Result (LexToken × Lexer))
      → Yields Q m
      → Yields Q (require_boundary message lexer >> m)
  unfolding require_boundary
  require_boundary-Yields message lexer m h =
      at_boundary-Yields message lexer.position lexer.rest m h

read_bare-Within :
    (position : ℕ) (text : Bytes) (n : ℕ)
    → length text ≤ n
    → Yields (Within n) (read_bare position text)
unfolding read_bare
read_bare-Within position [] n h = omega arith
read_bare-Within position (c ∷ text) n h =
    if_intro (Yields (Within n)) (is_space c || c == b'(' || c == b')') _ _ (λ _. h)
      λ _.
        if_intro (Yields (Within n)) (c == b'"') _ _ (λ _. refl)
          λ _.
            Yields->>= (Within n) (Within n) (read_bare (position + 1) text) _
              (read_bare-Within (position + 1) text n (omega arith)) λ a p. p

-- A filter's name takes bytes.
abbrev FilterFound : TokenKind × ℕ → Type 0
FilterFound found =
    (found ≡ (TokenKind.end, 0))
    ⊎ ((k : ℕ) × (kind : TokenKind) × (found ≡ (kind, suc k)) × (is_end kind ≡ false))

found_cases :
    (a b c d : Bool)
    → FilterFound (
        if a
        then (TokenKind.path_filter, 5)
        else if b
        then (TokenKind.extension_filter, 10)
        else if c
        then (TokenKind.size_filter, 5)
        else if d
        then (TokenKind.mtime_filter, 6)
        else (TokenKind.end, 0))
unfolding is_end
found_cases true b c d = inr (4, TokenKind.path_filter, refl, refl)
found_cases false true c d = inr (9, TokenKind.extension_filter, refl, refl)
found_cases false false true d = inr (4, TokenKind.size_filter, refl, refl)
found_cases false false false true = inr (5, TokenKind.mtime_filter, refl, refl)
found_cases false false false false = inl refl

find_filter_cases : (text : Bytes) → FilterFound (find_filter text)
unfolding find_filter
find_filter_cases text =
    found_cases (starts_with_ascii_case_insensitive text path_prefix)
      (starts_with_ascii_case_insensitive text extension_prefix)
      (starts_with_ascii_case_insensitive text size_prefix)
      (starts_with_ascii_case_insensitive text mtime_prefix)

read_suffix-Within :
    (n : ℕ) (lexer : Lexer) → length lexer.rest ≤ n → Yields (Within n) (read_suffix lexer)
unfolding read_suffix
read_suffix-Within n lexer h =
    if_intro (Yields (Within n)) (starts_with lexer.rest (b'~' ∷ [])) _ _
      (λ _. read_proximity-Within lexer.position n _ (omega (arith, length-drop_le 1 lexer.rest)))
      λ _. h

-- What is left after a token of `text`, and whether it is the last one.
abbrev Took : ℕ → LexToken × Lexer → Type 0
Took n (token, lexer) = length lexer.rest + weight token.kind ≤ n

weight_le : (kind : TokenKind) → weight kind ≤ 1
weight_le kind = ground arith

read_quoted_filter-Took :
    (kind : TokenKind) (offset n : ℕ) (lexer : Lexer)
    → length lexer.rest < n
    → Yields (Took n) (read_quoted_filter kind offset lexer)
unfolding read_quoted_filter
read_quoted_filter-Took kind offset n lexer h =
    Yields->>= (Within (length lexer.rest)) (Took n) (read_quoted_value lexer.position _) _
      (read_quoted_value-Within lexer.position (length lexer.rest) _ (length-drop_le 1 lexer.rest))
      λ (decoded, after) p.
        require_boundary-Yields (Took n) _ after _ (omega (arith, p, weight_le kind))

read_phrase-Took :
    (offset n : ℕ) (lexer : Lexer)
    → length lexer.rest < n
    → Yields (Took n) (read_phrase offset lexer)
unfolding read_phrase
read_phrase-Took offset n lexer h =
    Yields->>= (Within (length lexer.rest)) (Took n) (read_quoted_value offset lexer) _
      (read_quoted_value-Within offset (length lexer.rest) lexer (omega arith))
      λ (decoded, quoted) p.
        Yields->>= (Within (length lexer.rest)) (Took n) (read_suffix quoted) _
          (read_suffix-Within (length lexer.rest) quoted p)
          λ (proximity, after) q.
            require_boundary-Yields (Took n) _ after _
              (omega (arith, q, weight_le TokenKind.phrase))

-- A byte that begins a word.
abbrev StartsWord : ℕ → Type 0
StartsWord c = ((is_space c || c == b'(' || c == b')') ≡ false) × ((c == b'"') ≡ false)

read_bare_shorter :
    (position c n : ℕ) (text : Bytes)
    → StartsWord c
    → length text ≤ n
    → Yields (Within n) (read_bare position (c ∷ text))
unfolding read_bare
read_bare_shorter position c n text (stop, quote) h =
    rw (stop, quote)
      (Yields->>= (Within n) (Within n) (read_bare (position + 1) text) _
        (read_bare-Within (position + 1) text n h) λ a p. p)

read_word-Took :
    (position c : ℕ) (text : Bytes)
    → StartsWord c
    → Yields
        (Took (suc (length text)))
        (read_word (record { rest = c ∷ text; position = position }))
unfolding read_word is_end
read_word-Took position c text h = elim (find_filter_cases (c ∷ text)) [
  | inl e ↦ rw e (
      Yields->>= (Within (length text)) (Took (suc (length text)))
        (read_bare (position + 0) (c ∷ text)) _
        (read_bare_shorter (position + 0) c (length text) text h (omega arith))
        λ (bytes, after) p.
          omega (arith, p, weight_le (classify_word (TokenKind.end, 0) position bytes).kind))
  | inr (k, kind, e, filter) ↦ rw e (
      if_intro (Yields (Took (suc (length text))))
        (not (is_end kind) && starts_with (drop k text) (b'"' ∷ [])) _ _
        (λ _.
          read_quoted_filter-Took kind position (suc (length text))
            (record { rest = drop k text; position = position + suc k })
            (omega (arith, length-drop_le k text)))
        λ _.
          Yields->>= (Within (length text)) (Took (suc (length text)))
            (read_bare (position + suc k) (drop k text)) _
            (read_bare-Within (position + suc k) (drop k text) (length text)
              (length-drop_le k text))
            λ (bytes, after) p. omega (
              arith,
              p,
              weight_le
                  (classify_word (kind, suc k) position (take (suc k) (c ∷ text) ++ bytes)).kind,
            ))
]

-- The head of what skip_whitespace leaves is no whitespace.
abbrev NoSpace : Bytes → Type 0
NoSpace [] = Unit {0}
NoSpace (c ∷ text) = is_space c ≡ false

skip_whitespace_within :
    (position : ℕ) (text : Bytes)
    → (length (skip_whitespace position text).rest ≤ length text)
      × NoSpace (skip_whitespace position text).rest
unfolding skip_whitespace
skip_whitespace_within position [] = (omega arith, tt)
skip_whitespace_within position (c ∷ text) =
    let (shorter, ih) = skip_whitespace_within (position + 1) text in
    if_intro (λ (r : Lexer). (length r.rest ≤ length (c ∷ text)) × NoSpace r.rest) (is_space c) _ _
      (λ _. (omega (arith, shorter), ih)) λ e. (omega arith, e)

next_token-Took :
    (position : ℕ) (text : Bytes)
    → NoSpace text
    → Yields (Took (length text)) (next_token position text)
unfolding next_token is_end
next_token-Took position [] h = omega arith
next_token-Took position (c ∷ text) h =
    let n = length (c ∷ text) in
    if_intro (Yields (Took n)) (c == b'(') _ _ (λ _. omega arith)
      λ open_.
        if_intro (Yields (Took n)) (c == b')') _ _ (λ _. omega arith)
          λ close.
            if_intro (Yields (Took n)) (c == b'"') _ _
              (λ _. read_phrase-Took position n _ (omega arith))
              λ quote. read_word-Took position c text (ground (arith, h, open_, close), quote)

Took-weaken :
    (m n : ℕ) (r : Result (LexToken × Lexer)) → m ≤ n → Yields (Took m) r → Yields (Took n) r
Took-weaken m n (ok a) h y = omega arith
Took-weaken m n (throw e) h y = y

-- Reading the next token succeeds or fails with a syntax error, and every token but the last one
-- makes what is left of the input shorter.
pub next-Took : (lexer : Lexer) → Yields (Took (length lexer.rest)) (next lexer)
unfolding next
next-Took lexer =
    let (shorter, stop) = skip_whitespace_within lexer.position lexer.rest in
    let start = skip_whitespace lexer.position lexer.rest in
    Took-weaken (length start.rest) (length lexer.rest) (next_token start.position start.rest)
      shorter (next_token-Took start.position start.rest stop)
