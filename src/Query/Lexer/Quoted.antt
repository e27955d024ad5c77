-- ===== src/Query/Lexer/Quoted.antt =====
-- Quoted values of the Lexer in src/query/query_parser.cpp, and how they are written.
use mathlib.Core.Path.{ap₂, subst}
use snow_seek.Prelude.{
  Bool-cases, Bytes, Returns, Returns-map, Returns-ok, [], ap, append-nil, append_assoc, arith,
  false, if_intro, if◌then◌else◌, inl, inr, length, not, ok, refl, sym, true, ℕ, ◌&&◌, ◌++◌, ◌+◌,
  ◌==◌, ◌||◌, ◌∙◌, ◌∷◌, ◌≡◌,
}
use snow_seek.Query.Lexer.{Lexer, read_quoted, read_quoted_value}

abbrev pub escape_byte : ℕ → Bytes
escape_byte c = if c == b'"' || c == b'\\' then b'\\' ∷ c ∷ [] else c ∷ []

-- The bytes between the quotes for a value.
abbrev pub escape : Bytes → Bytes
escape [] = []
escape (c ∷ text) = escape_byte c ++ escape text

-- A plain byte is taken as it stands.
read_quoted_plain :
    (offset c position : ℕ) (decoded text : Bytes) (r : Bytes × Lexer)
    → (c == b'"' || c == b'\\') ≡ false
    → read_quoted offset (decoded ++ (c ∷ [])) (position + 1) text ≡ ok r
    → read_quoted offset decoded position (c ∷ text) ≡ ok r
unfolding read_quoted
read_quoted_plain offset c position decoded [] r h e = cc
read_quoted_plain offset c position decoded (x ∷ text) r h e = ground (arith, h, e)

read_quoted_escaped :
    (offset c position : ℕ) (decoded text : Bytes) (r : Bytes × Lexer)
    → (c == b'"' || c == b'\\') ≡ true
    → read_quoted offset (decoded ++ (c ∷ [])) (position + 2) text ≡ ok r
    → read_quoted offset decoded position (b'\\' ∷ c ∷ text) ≡ ok r
unfolding read_quoted
read_quoted_escaped offset c position decoded text r h e = ground (arith, h, e)

read_quoted_close :
    (offset position : ℕ) (decoded text : Bytes)
    → read_quoted offset decoded position (b'"' ∷ text)
      ≡ ok (decoded, record { rest = text; position = position + 1 })
unfolding read_quoted
read_quoted_close offset position decoded [] = refl
read_quoted_close offset position decoded (x ∷ text) = refl

read_quoted-escape :
    (offset position end_position : ℕ) (decoded text rest : Bytes)
    → end_position ≡ position + length (escape text) + 1
    → read_quoted offset decoded position (escape text ++ (b'"' ∷ rest))
      ≡ ok (decoded ++ text, record { rest = rest; position = end_position })
read_quoted-escape offset position end_position decoded [] rest e =
    read_quoted_close offset position decoded rest
    ∙ ap₂ (λ (d : Bytes) (p : ℕ). ok (d, record { rest = rest; position = p }))
        (sym (append-nil decoded)) (omega (arith, e))
read_quoted-escape offset position end_position decoded (c ∷ text) rest e =
    elim (Bool-cases (c == b'"' || c == b'\\')) [
      | inl special ↦ rw special (
          read_quoted_escaped offset c position decoded (escape text ++ (b'"' ∷ rest))
            (decoded ++ (c ∷ text), record { rest = rest; position = end_position }) special
            (subst
              (λ d.
                read_quoted offset (decoded ++ (c ∷ [])) (position + 2)
                  (escape text ++ (b'"' ∷ rest))
                ≡ ok (d, record { rest = rest; position = end_position }))
              (append_assoc decoded (c ∷ []) text)
              (read_quoted-escape offset (position + 2) end_position (decoded ++ (c ∷ [])) text rest
                (ground (arith, e, special)))))
      | inr plain ↦ rw plain (
          read_quoted_plain offset c position decoded (escape text ++ (b'"' ∷ rest))
            (decoded ++ (c ∷ text), record { rest = rest; position = end_position }) plain
            (subst
              (λ d.
                read_quoted offset (decoded ++ (c ∷ [])) (position + 1)
                  (escape text ++ (b'"' ∷ rest))
                ≡ ok (d, record { rest = rest; position = end_position }))
              (append_assoc decoded (c ∷ []) text)
              (read_quoted-escape offset (position + 1) end_position (decoded ++ (c ∷ [])) text rest
                (ground (arith, e, plain)))))
    ]

-- A value whose quotes and backslashes are escaped is read back, with what follows the closing quote
-- left over.
pub read_quoted_value-escape :
    (offset position : ℕ) (text rest : Bytes)
    → read_quoted_value offset (record { rest = escape text ++ (b'"' ∷ rest); position = position })
      ≡ ok (text, record { rest = rest; position = position + length (escape text) + 1 })
unfolding read_quoted_value
read_quoted_value-escape offset position text rest =
    read_quoted-escape offset position (position + length (escape text) + 1) [] text rest refl

abbrev Written : Bytes → Bytes → Bytes × Lexer → Type 0
Written decoded text (value, lexer) =
    (w : Bytes) × (value ≡ decoded ++ w) × (text ≡ escape w ++ (b'"' ∷ lexer.rest))

Written-cons :
    (decoded text more : Bytes) (c : ℕ)
    → text ≡ escape_byte c ++ more
    → (r : Bytes × Lexer) → Written (decoded ++ (c ∷ [])) more r
    → Written decoded text r
Written-cons decoded text more c e (value, lexer) (w, ev, et) = (
  c ∷ w,
  ev ∙ append_assoc decoded (c ∷ []) w,
  e
      ∙ ap (λ t. escape_byte c ++ t) et
      ∙ sym (append_assoc (escape_byte c) (escape w) (b'"' ∷ lexer.rest)),
)

read_quoted-Written :
    (offset position : ℕ) (decoded text : Bytes)
    → Returns (Written decoded text) (read_quoted offset decoded position text)
unfolding read_quoted
read_quoted-Written offset position decoded [] = tt
read_quoted-Written offset position decoded (c ∷ []) =
    if_intro (Returns (Written decoded (c ∷ []))) (c == b'"') _ _
      (λ e. ([], sym (append-nil decoded), ground (arith, e))) λ _. ground arith
read_quoted-Written offset position decoded (c ∷ x ∷ text) =
    if_intro (Returns (Written decoded (c ∷ x ∷ text))) (c == b'"') _ _
      (λ e. ([], sym (append-nil decoded), ground (arith, e)))
      λ quote.
        if_intro (Returns (Written decoded (c ∷ x ∷ text))) (c == b'\\') _ _
          (λ slash.
            if_intro (Returns (Written decoded (c ∷ x ∷ text)))
              (not (x == b'"') && not (x == b'\\')) _ _ (λ _. tt)
              λ special.
                Returns-map (Written (decoded ++ (x ∷ [])) text) (Written decoded (c ∷ x ∷ text))
                  (read_quoted offset (decoded ++ (x ∷ [])) (position + 2) text)
                  (read_quoted-Written offset (position + 2) (decoded ++ (x ∷ [])) text)
                  (Written-cons decoded (c ∷ x ∷ text) text x ground (arith, slash, special)))
          λ slash.
            Returns-map (Written (decoded ++ (c ∷ [])) (x ∷ text)) (Written decoded (c ∷ x ∷ text))
              (read_quoted offset (decoded ++ (c ∷ [])) (position + 1) (x ∷ text))
              (read_quoted-Written offset (position + 1) (decoded ++ (c ∷ [])) (x ∷ text))
              (Written-cons decoded (c ∷ x ∷ text) (x ∷ text) c ground (arith, quote, slash))

-- What is read as a quoted value is the text with its quotes and backslashes escaped and a closing
-- quote, and the rest of the input after it: the spelling of a value is unique.
pub read_quoted_value_unique :
    (offset : ℕ) (lexer after : Lexer) (text : Bytes)
    → read_quoted_value offset lexer ≡ ok (text, after)
    → lexer.rest ≡ escape text ++ (b'"' ∷ after.rest)
unfolding read_quoted_value
read_quoted_value_unique offset lexer after text e =
    let (w, ev, et) =
      Returns-ok (Written [] lexer.rest) (read_quoted offset [] lexer.position lexer.rest)
        (text, after) (read_quoted-Written offset lexer.position [] lexer.rest) e in
    rw ev et
