-- ===== src/Documents/Reader/Begins.antt =====
-- Valid input of src/document/text_reader.cpp, under both policies. A text that the test accepts
-- begins with a sequence, and the rest is such a text again.
use snow_seek.Documents.Reader.{
  InvalidUtf8Policy, Step, TextReadStats, add_u64, copy, multibyte_step, next_step, scan,
  valid_more,
}
use snow_seek.Documents.Reader.Scanning.{after_step, scan_round}
use snow_seek.Documents.Reader.Valid.{second_byte, sequence_length-utf8_length, tail_byte}
use snow_seek.Prelude.{
  &&-true, Bool-cases, Bytes, [], ap, append-nil, append_assoc, arith, drop, inl, inr, length, min,
  ok, refl, suc, sym, take, true, zero, ℕ, ◌&&◌, ◌++◌, ◌==◌, ◌∙◌, ◌∷◌, ◌≡◌, ◌≤◌,
}
use snow_seek.Prelude.Slices.{take-drop}
use snow_seek.Storage.File.Utf8.{is_second_byte, is_tail_byte, is_valid_utf8, utf8_length}
use snow_seek.Storage.Validation.Envelope.Checksums.{length-drop}

pub record Begins (lead : ℕ) (rest : Bytes) : Type 0 where
  pub size : ℕ
  pub some_ : 1 ≤ size
  pub fits : size ≤ suc (length rest)
  pub step_is : next_step true lead rest ≡ copy size
  pub later : is_valid_utf8 (drop size (lead ∷ rest)) ≡ true

one_step : (lead : ℕ) (rest : Bytes) → utf8_length lead ≡ 1 → next_step true lead rest ≡ copy 1
unfolding next_step
one_step lead rest e = ground (arith, e, sequence_length-utf8_length lead)

two_step :
    (lead b2 : ℕ) (rest : Bytes)
    → utf8_length lead ≡ 2
    → is_second_byte lead b2 ≡ true
    → next_step true lead (b2 ∷ rest) ≡ copy 2
unfolding next_step multibyte_step valid_more
two_step lead b2 rest e h =
    let n = sequence_length-utf8_length lead ∙ e in
    let check : min (suc (suc (length rest))) 2 ≡ 2 = omega arith in
    let v = second_byte lead b2 ∙ h in rw (n, check, v) (ground arith)

three_step :
    (lead b2 b3 : ℕ) (rest : Bytes)
    → utf8_length lead ≡ 3
    → is_second_byte lead b2 ≡ true
    → is_tail_byte b3 ≡ true
    → next_step true lead (b2 ∷ b3 ∷ rest) ≡ copy 3
unfolding next_step multibyte_step valid_more
three_step lead b2 b3 rest e h k =
    let n = sequence_length-utf8_length lead ∙ e in
    let check : min (suc (suc (suc (length rest)))) 3 ≡ 3 = omega arith in
    let v = second_byte lead b2 ∙ h in
    let w = tail_byte b3 ∙ k in rw (n, check, v, w) (ground arith)

four_step :
    (lead b2 b3 b4 : ℕ) (rest : Bytes)
    → utf8_length lead ≡ 4
    → is_second_byte lead b2 ≡ true
    → is_tail_byte b3 ≡ true
    → is_tail_byte b4 ≡ true
    → next_step true lead (b2 ∷ b3 ∷ b4 ∷ rest) ≡ copy 4
unfolding next_step multibyte_step valid_more
four_step lead b2 b3 b4 rest e h k l =
    let n = sequence_length-utf8_length lead ∙ e in
    let check : min (suc (suc (suc (suc (length rest))))) 4 ≡ 4 = omega arith in
    let v = second_byte lead b2 ∙ h in
    let w = tail_byte b3 ∙ k in let x = tail_byte b4 ∙ l in rw (n, check, v, w, x) (ground arith)

module _ (lead : ℕ) where
  Begins-one : (rest : Bytes) → utf8_length lead ≡ 1 → is_valid_utf8 rest ≡ true → Begins lead rest
  Begins-one rest e h = record {
    size = 1;
    some_ = omega arith;
    fits = omega arith;
    step_is = one_step lead rest e;
    later = h;
  }

  Begins-two :
      (b2 : ℕ) (rest : Bytes)
      → utf8_length lead ≡ 2
      → (is_second_byte lead b2 && is_valid_utf8 rest) ≡ true
      → Begins lead (b2 ∷ rest)
  Begins-two b2 rest e h = record {
    size = 2;
    some_ = omega arith;
    fits = omega arith;
    step_is = two_step lead b2 rest e (&&-true (is_second_byte lead b2) _ h).0;
    later = (&&-true (is_second_byte lead b2) _ h).1;
  }

  Begins-three :
      (b2 b3 : ℕ) (rest : Bytes)
      → utf8_length lead ≡ 3
      → (is_second_byte lead b2 && is_tail_byte b3 && is_valid_utf8 rest) ≡ true
      → Begins lead (b2 ∷ b3 ∷ rest)
  Begins-three b2 b3 rest e h = record {
    size = 3;
    some_ = omega arith;
    fits = omega arith;
    step_is = three_step lead b2 b3 rest e (ground (arith, h)) (ground (arith, h));
    later = ground (arith, h);
  }

  Begins-four :
      (b2 b3 b4 : ℕ) (rest : Bytes)
      → utf8_length lead ≡ 4
      → (is_second_byte lead b2 && is_tail_byte b3 && is_tail_byte b4 && is_valid_utf8 rest) ≡ true
      → Begins lead (b2 ∷ b3 ∷ b4 ∷ rest)
  Begins-four b2 b3 b4 rest e h = record {
    size = 4;
    some_ = omega arith;
    fits = omega arith;
    step_is =
        four_step lead b2 b3 b4 rest e (ground (arith, h)) (ground (arith, h)) (ground (arith, h));
    later = ground (arith, h);
  }

  pub is_valid_utf8-Begins : (rest : Bytes) → is_valid_utf8 (lead ∷ rest) ≡ true → Begins lead rest
  unfolding is_valid_utf8
  is_valid_utf8-Begins [] h = Begins-one [] (ground (arith, h)) refl
  is_valid_utf8-Begins (b2 ∷ []) h = elim (Bool-cases (utf8_length lead == 1)) [
    | inl one ↦ Begins-one (b2 ∷ []) (ground (arith, one)) (ground (arith, h, one))
    | inr more ↦ Begins-two b2 [] (ground (arith, h, more)) (ground (arith, h, more))
  ]
  is_valid_utf8-Begins (b2 ∷ b3 ∷ []) h = elim (Bool-cases (utf8_length lead == 1)) [
    | inl one ↦ Begins-one (b2 ∷ b3 ∷ []) (ground (arith, one)) (ground (arith, h, one))
    | inr more ↦ elim (Bool-cases (utf8_length lead == 2)) [
      | inl two ↦ Begins-two b2 (b3 ∷ []) (ground (arith, two)) (ground (arith, h, more, two))
      | inr three ↦
          Begins-three b2 b3 [] (ground (arith, h, more, three)) (ground (arith, h, more, three))
    ]
  ]
  is_valid_utf8-Begins (b2 ∷ b3 ∷ b4 ∷ rest) h = elim (Bool-cases (utf8_length lead == 1)) [
    | inl one ↦ Begins-one (b2 ∷ b3 ∷ b4 ∷ rest) (ground (arith, one)) (ground (arith, h, one))
    | inr more ↦ elim (Bool-cases (utf8_length lead == 2)) [
      | inl two ↦
          Begins-two b2 (b3 ∷ b4 ∷ rest) (ground (arith, two)) (ground (arith, h, more, two))
      | inr not2 ↦ elim (Bool-cases (utf8_length lead == 3)) [
        | inl three ↦
            Begins-three b2 b3 (b4 ∷ rest) (ground (arith, three))
              (ground (arith, h, more, not2, three))
        | inr not3 ↦
            let four : (utf8_length lead == 4
                  && is_second_byte lead b2
                  && is_tail_byte b3
                  && is_tail_byte b4
                  && is_valid_utf8 rest)
                ≡ true =
              ground (arith, h, more, not2, not3) in
            Begins-four b2 b3 b4 rest (ground (arith, four)) (ground (arith, four))
      ]
    ]
  ]

-- Valid input goes through whole, under both policies.
pub scan-valid :
    (policy : InvalidUtf8Policy) (fuel offset : ℕ) (input : Bytes) (stats : TextReadStats)
    (output : Bytes)
    → length input ≤ fuel
    → is_valid_utf8 input ≡ true
    → (k : ℕ) × (scan fuel policy true offset input stats output
        ≡ ok (record { stats = stats; output = output ++ input; kept = []; kept_offset = k }))
unfolding scan
scan-valid policy fuel offset [] stats output h v = (
  offset,
  ap (λ (o : Bytes). ok (record { stats = stats; output = o; kept = []; kept_offset = offset }))
      (sym (append-nil output)),
)
scan-valid policy zero offset (lead ∷ rest) stats output h v = absurd (omega arith)
scan-valid policy (suc f) offset (lead ∷ rest) stats output h v =
    let input = lead ∷ rest in
    let b = is_valid_utf8-Begins lead rest v in
    let n = b.size in
    let (k, e) =
      scan-valid policy f (add_u64 offset n) (drop n input) stats (output ++ take n input)
        (omega (arith, length-drop n input, b.some_)) b.later in
    let joined : (output ++ take n input) ++ drop n input ≡ output ++ input =
      append_assoc output (take n input) (drop n input)
      ∙ ap (λ (x : Bytes). output ++ x) (sym (take-drop n input)) in
    (
      k,
      scan_round policy true f lead offset rest stats output
          ∙ ap (λ (s : Step). after_step policy true f s offset input stats output) b.step_is
          ∙ e
          ∙ ap
              (λ (x : Bytes). ok (record { stats = stats; output = x; kept = []; kept_offset = k }))
              joined,
    )
