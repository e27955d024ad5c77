-- ===== src/Analysis/Tokenizer/Runs.antt =====
-- The runs of token bytes in a text and its words, described with no state, beside
-- src/analysis/tokenizer.cpp.
use snow_seek.Analysis.Tokenizer.{Token, is_ascii_token_character, normalize_ascii}
use snow_seek.Prelude.{
  Bool, Bytes, List, [], false, if◌then◌else◌, is_empty, leb, length, refl, true, ℕ, ◌&&◌, ◌++◌,
  ◌+◌, ◌∷◌, ◌≡◌,
}

-- The run at the front of the text, which may be empty, and the words after it.
unfoldable pub split : Bytes → Bytes × List Bytes
split [] = ([], [])
split (c ∷ text) =
    let (run, rest) = split text in
    if is_ascii_token_character c
    then (normalize_ascii c ∷ run, rest)
    else ([], if is_empty run then rest else run ∷ rest)

-- A run counts as a word unless it is empty.
abbrev pub with_run : Bytes → List Bytes → List Bytes
with_run [] rest = rest
with_run (c ∷ run) rest = (c ∷ run) ∷ rest

-- The words of a text.
unfoldable pub words : Bytes → List Bytes
words text = let (run, rest) = split text in with_run run rest

abbrev pub number : ℕ → List Bytes → List Token
number n [] = []
number n (w ∷ ws) = record { term = w; position = n } ∷ number (n + 1) ws

unfoldable pub all_short : ℕ → List Bytes → Bool
all_short limit [] = true
all_short limit (w ∷ ws) = leb (length w) limit && all_short limit ws

pub split-token :
    (c : ℕ) (text : Bytes)
    → is_ascii_token_character c ≡ true
    → split (c ∷ text) ≡ (normalize_ascii c ∷ (split text).0, (split text).1)
unfolding split
split-token c text h = rw h

pub split-gap :
    (c : ℕ) (text : Bytes)
    → is_ascii_token_character c ≡ false
    → split (c ∷ text) ≡ ([], words text)
unfolding split words
split-gap c text h = rw h (λ i. ([], with_run_lem (split text).0 (split text).1 i))
  where
    with_run_lem :
        (run : Bytes) (rest : List Bytes)
        → (if is_empty run then rest else run ∷ rest) ≡ with_run run rest
    with_run_lem [] rest = refl
    with_run_lem (c ∷ run) rest = refl

pub with_run-append :
    (p : Bytes) (c : ℕ) (w : Bytes) (ws : List Bytes)
    → with_run (p ++ (c ∷ w)) ws ≡ (p ++ (c ∷ w)) ∷ ws
with_run-append [] c w ws = refl
with_run-append (x ∷ p) c w ws = refl
