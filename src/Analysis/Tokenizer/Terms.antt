-- ===== src/Analysis/Tokenizer/Terms.antt =====
-- Terms of src/analysis/tokenizer.cpp as texts of their own.
use snow_seek.Analysis.Tokenizer.{is_ascii_token_character, normalize_ascii, tokenize}
use snow_seek.Analysis.Tokenizer.Runs.{all_short, split, split-gap, split-token, with_run, words}
use snow_seek.Analysis.Tokenizer.Words.{tokenize-words}
use snow_seek.Prelude.{
  &&-true, All, Bool-cases, Bytes, Error, List, Option, [], arith, false, if◌then◌else◌, inl, inr,
  leb, leb→le, length, le→leb, none, ok, refl, some, sym, throw, true, ℕ, ◌&&◌, ◌++◌, ◌+◌, ◌<◌,
  ◌==◌, ◌^◌, ◌||◌, ◌∙◌, ◌∷◌, ◌≡◌, ◌≤◌, ◌⊎◌,
}

-- A byte of a term: a small letter of ASCII, a digit or an underscore.
abbrev pub IsTermByte : ℕ → Type 0
IsTermByte c = ((b'a' ≤ c) × (c ≤ b'z')) ⊎ (((b'0' ≤ c) × (c ≤ b'9')) ⊎ (c ≡ b'_'))

-- What a byte of a text is to a term: a small letter, a digit or an underscore is itself, a capital is
-- the small letter 32 places on, and any other byte is nothing.
abbrev pub term_byte : ℕ → Option ℕ
term_byte c =
    if leb b'a' c && leb c b'z' || leb b'0' c && leb c b'9' || c == b'_'
    then some c
    else if leb b'A' c && leb c b'Z'
    then some (c + 32)
    else none

abbrev pub IsTerm : Bytes → Type 0
IsTerm w = (0 < length w) × All IsTermByte w

-- The bytes of a text that belong to terms.
abbrev pub with_byte : Option ℕ → Bytes → Bytes
with_byte none rest = rest
with_byte (some c) rest = c ∷ rest

abbrev pub term_bytes : Bytes → Bytes
term_bytes [] = []
term_bytes (c ∷ text) = with_byte (term_byte c) (term_bytes text)

abbrev pub concatenated : List Bytes → Bytes
concatenated [] = []
concatenated (w ∷ ws) = w ++ concatenated ws

normalize_ascii-IsTermByte :
    (c : ℕ) → is_ascii_token_character c ≡ true → IsTermByte (normalize_ascii c)
unfolding is_ascii_token_character normalize_ascii
normalize_ascii-IsTermByte c h = ground (arith, h)

-- A byte of a term is a token character that lowercasing leaves alone.
IsTermByte-normalize_ascii :
    (c : ℕ) → IsTermByte c → (is_ascii_token_character c ≡ true) × (normalize_ascii c ≡ c)
unfolding is_ascii_token_character normalize_ascii
IsTermByte-normalize_ascii c h = ground (arith, h)

term_byte-token :
    (c : ℕ) → is_ascii_token_character c ≡ true → term_byte c ≡ some (normalize_ascii c)
unfolding is_ascii_token_character normalize_ascii
term_byte-token c h = ground (arith, h)

term_byte-gap : (c : ℕ) → is_ascii_token_character c ≡ false → term_byte c ≡ none
unfolding is_ascii_token_character
term_byte-gap c h = ground (arith, h)

concatenated-with_run :
    (run : Bytes) (rest : List Bytes) → concatenated (with_run run rest) ≡ run ++ concatenated rest
concatenated-with_run [] rest = refl
concatenated-with_run (c ∷ run) rest = refl

concatenated-words-split :
    (text : Bytes) → concatenated (words text) ≡ (split text).0 ++ concatenated (split text).1
unfolding words
concatenated-words-split text = concatenated-with_run (split text).0 (split text).1

-- The words hold all the term bytes of the text, in order.
concatenated-split :
    (text : Bytes) → (split text).0 ++ concatenated (split text).1 ≡ term_bytes text
concatenated-split [] = unfold split in refl
concatenated-split (c ∷ text) =
    let ih = concatenated-split text in
    elim (Bool-cases (is_ascii_token_character c)) [
      | inl tok ↦ rw (split-token c text tok, term_byte-token c tok) (λ i. normalize_ascii c ∷ ih i)
      | inr gap ↦
          rw (split-gap c text gap, term_byte-gap c gap) (concatenated-words-split text ∙ ih)
    ]

concatenated-words : (text : Bytes) → concatenated (words text) ≡ term_bytes text
concatenated-words text = concatenated-words-split text ∙ concatenated-split text

with_run-IsTerm :
    (run : Bytes) (rest : List Bytes)
    → All IsTermByte run
    → All IsTerm rest
    → All IsTerm (with_run run rest)
with_run-IsTerm [] rest h k = k
with_run-IsTerm (c ∷ run) rest h k = ((omega arith, h), k)

abbrev SplitTerms : Bytes × List Bytes → Type 0
SplitTerms (run, rest) = All IsTermByte run × All IsTerm rest

words_of_split :
    (text : Bytes)
    → All IsTermByte (split text).0
    → All IsTerm (split text).1
    → All IsTerm (words text)
unfolding words
words_of_split text run rest = with_run-IsTerm (split text).0 (split text).1 run rest

split-SplitTerms : (text : Bytes) → SplitTerms (split text)
split-SplitTerms [] = unfold split in (tt, tt)
split-SplitTerms (c ∷ text) =
    let (run, rest) = split-SplitTerms text in
    elim (Bool-cases (is_ascii_token_character c)) [
      | inl tok ↦ rw (split-token c text tok) ((normalize_ascii-IsTermByte c tok, run), rest)
      | inr gap ↦ rw (split-gap c text gap) (tt, words_of_split text run rest)
    ]

words-IsTerm : (text : Bytes) → All IsTerm (words text)
unfolding words
words-IsTerm text =
    let (run, rest) = split-SplitTerms text in
    with_run-IsTerm (split text).0 (split text).1 run rest

split-IsTerm : (w : Bytes) → All IsTermByte w → split w ≡ (w, [])
split-IsTerm [] h = unfold split in refl
split-IsTerm (c ∷ w) h =
    let (token, same) = IsTermByte-normalize_ascii c h.0 in
    split-token c w token ∙ rw (split-IsTerm w h.1, same)

words_of_term : (w : Bytes) → IsTerm w → words w ≡ w ∷ []
unfolding words
words_of_term [] h = absurd (omega (arith, h.0))
words_of_term (c ∷ w) h = rw (split-IsTerm (c ∷ w) h.1)

all_short-All :
    (limit : ℕ) (ws : List Bytes)
    → all_short limit ws ≡ true
    → All (λ (w : Bytes). length w ≤ limit) ws
unfolding all_short
all_short-All limit [] h = tt
all_short-All limit (w ∷ ws) h =
    let (now, later) = &&-true (leb (length w) limit) (all_short limit ws) h in
    (leb→le (length w) limit now, all_short-All limit ws later)

all_short_one : (limit : ℕ) (w : Bytes) → length w ≤ limit → all_short limit (w ∷ []) ≡ true
unfolding all_short
all_short_one limit w h = rw (le→leb (length w) limit h)

Alone : ℕ → Bytes → Type 0
Alone limit w = tokenize limit w ≡ ok (w ∷ [])

tokenize-Alone : (limit : ℕ) (w : Bytes) → 0 < limit → length w ≤ limit → IsTerm w → Alone limit w
unfolding Alone
tokenize-Alone limit w pos short term =
    tokenize-words limit w pos (rw (words_of_term w term) (omega arith))
    ∙ rw (words_of_term w term, all_short_one limit w short)

terms-Alone :
    (limit : ℕ) (ws : List Bytes)
    → 0 < limit
    → All (λ (w : Bytes). length w ≤ limit) ws
    → All IsTerm ws
    → All (Alone limit) ws
terms-Alone limit [] pos short terms = tt
terms-Alone limit (w ∷ ws) pos short terms =
    (tokenize-Alone limit w pos short.0 terms.0, terms-Alone limit ws pos short.1 terms.1)

-- If a text of at most 2 ^ 32 words is tokenized, each of its terms is a nonempty string of small
-- letters of ASCII, digits and underscores, and is tokenized as itself alone. One behind the other the
-- terms are all letters, digits and underscores of the text in their order, each capital as its small
-- letter.
pub tokenize_again :
    (limit : ℕ) (text : Bytes) (terms : List Bytes)
    → 0 < limit
    → length (words text) ≤ 2 ^ 32
    → tokenize limit text ≡ ok terms
    → All IsTerm terms
      × All (λ (w : Bytes). tokenize limit w ≡ ok (w ∷ [])) terms
      × (concatenated terms ≡ term_bytes text)
unfolding Alone
tokenize_again limit text terms pos fits e = elim (Bool-cases (all_short limit (words text))) [
  | inl short ↦
      let same : ok (words text) ≡ ok terms =
        sym (tokenize-words limit text pos fits ∙ rw short) ∙ e in
      let eq : words text ≡ terms = cc same in
      rw (← eq) (
        words-IsTerm text,
        terms-Alone limit (words text) pos (all_short-All limit (words text) short)
            (words-IsTerm text),
        concatenated-words text,
      )
  | inr long ↦
      let clash : throw (Error.length_error "token exceeds maximum length") ≡ ok terms =
        sym (tokenize-words limit text pos fits ∙ rw long) ∙ e in
      absurd (cc clash)
]
