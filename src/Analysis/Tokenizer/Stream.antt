-- ===== src/Analysis/Tokenizer/Stream.antt =====
-- The chunks of a text that is pushed to a session of src/analysis/tokenizer.cpp.
use snow_seek.Analysis.Tokenizer.{
  Token, TokenizerSession, emit_pending, push, push_byte, push_bytes, require_consumer,
}
use snow_seek.Prelude.{
  Bool, Bool-cases, Bytes, Error, List, Result-cases, [], arith, bind_then, false, inl, inr, ok,
  refl, throw, throw_if, true, ℕ, ◌++◌, ◌>>=◌, ◌>>◌, ◌∙◌, ◌∷◌, ◌≡◌,
}

push_bytes-append :
    (s : TokenizerSession) (received : List Token) (xs ys : Bytes)
    → push_bytes s received (xs ++ ys)
      ≡ (push_bytes s received xs >>= λ (t, emitted). push_bytes t emitted ys)
unfolding push_bytes
push_bytes-append s received [] ys = refl
push_bytes-append s received (c ∷ xs) ys = elim (Result-cases (push_byte s received c)) [
  | inl ((t, emitted), e) ↦ rw e (push_bytes-append t emitted xs ys)
  | inr (x, e) ↦ rw e
]

emit_pending-open :
    (s t : TokenizerSession) (received emitted : List Token)
    → emit_pending s received ≡ ok (t, emitted)
    → t.finished ≡ s.finished
unfolding emit_pending
emit_pending-open s t received emitted e = ground arith

push_byte-open :
    (s t : TokenizerSession) (received emitted : List Token) (c : ℕ)
    → push_byte s received c ≡ ok (t, emitted)
    → t.finished ≡ s.finished
unfolding push_byte
push_byte-open s t received emitted c e = ground (arith, emit_pending-open s t received emitted)

push_bytes-open :
    (s t : TokenizerSession) (received emitted : List Token) (xs : Bytes)
    → push_bytes s received xs ≡ ok (t, emitted)
    → t.finished ≡ s.finished
unfolding push_bytes
push_bytes-open s t received emitted [] e = ground arith
push_bytes-open s t received emitted (c ∷ xs) e =
    bind_then (push_byte s received c) _ e λ (u, more) now later.
      push_bytes-open u t more emitted xs later ∙ push_byte-open s u received more c now

-- Pushing two chunks in turn is pushing their concatenation, in session state, in the tokens that
-- the consumer receives and in the error thrown: a token may run across the cut.
pub push-append :
    (consumer : Bool) (s : TokenizerSession) (received : List Token) (xs ys : Bytes)
    → push consumer s received (xs ++ ys)
      ≡ (push consumer s received xs >>= λ (t, emitted). push consumer t emitted ys)
unfolding push require_consumer
push-append false s received xs ys = open_or_not s.finished
  where
    open_or_not :
        (b : Bool)
        → (throw_if b (Error.logic_error "cannot push data to a finished tokenizer session")
            >> (throw (Error.invalid_argument "token consumer must not be empty")
                >> push_bytes s received (xs ++ ys)))
          ≡ ((throw_if b (Error.logic_error "cannot push data to a finished tokenizer session")
                >> (throw (Error.invalid_argument "token consumer must not be empty")
                    >> push_bytes s received xs))
              >>= λ (t, emitted). push false t emitted ys)
    open_or_not true = refl
    open_or_not false = refl
push-append true s received xs ys = elim (Bool-cases s.finished) [
  | inl closed ↦ simp closed
  | inr unfinished ↦ elim (Result-cases (push_bytes s received xs)) [
    | inl ((t, emitted), e) ↦ simp (
      unfinished,
      push_bytes-append s received xs ys,
      e,
      push_bytes-open s t received emitted xs e,
    )
    | inr (x, e) ↦ simp (unfinished, push_bytes-append s received xs ys, e)
  ]
]
