-- ===== src/Documents/Reader/Strict.antt =====
-- Strict reading in src/document/text_reader.cpp: where it stops.
use mathlib.Core.Path.{subst}
use snow_seek.Documents.Reader.{
  InvalidUtf8Policy, Scanned, TextReadStats, add_u64, copy, handle_invalid_sequence, multibyte_step,
  next_step, scan, skip,
}
use snow_seek.Documents.Reader.Begins.{is_valid_utf8-Begins, scan-valid}
use snow_seek.Documents.Reader.Chunks.{nothing_read}
use snow_seek.Documents.Reader.Resuming.{whole}
use snow_seek.Documents.Reader.Scanning.{scan_round}
use snow_seek.Documents.Reader.Steps.{
  Step-cases, Takes, next_step-Takes, next_step-extend, next_step-ne-keep,
}
use snow_seek.Documents.Reader.Valid.{
  IsSequence, IsSequence-front, next_step-IsSequence, scan-IsText,
}
use snow_seek.Documents.Reader.Whole.{read_whole}
use snow_seek.Prelude.{
  Bool-cases, Bytes, Error, Result, Returns, [], ap, append-nil, append_assoc, arith, drop, false,
  inl, inr, length, ok, refl, suc, sym, take, throw, true, zero, ℕ, ◌%◌, ◌++◌, ◌+◌, ◌-◌, ◌<◌, ◌^◌,
  ◌∙◌, ◌∷◌, ◌≡◌, ◌≢◌, ◌≤◌, ◌⊎◌,
}
use snow_seek.Prelude.Slices.{take-drop}
use snow_seek.Storage.File.Utf8.{is_valid_utf8}
use snow_seek.Storage.Validation.Envelope.Checksums.{length-drop, take_add}

-- The longest front of the input that is valid UTF-8 has `k` bytes, and more bytes follow.
abbrev pub IsFirstInvalid : Bytes → ℕ → Type 0
IsFirstInvalid input k =
    (k < length input)
    × (is_valid_utf8 (take k input) ≡ true)
    × ((j : ℕ) → k < j → j ≤ length input → is_valid_utf8 (take j input) ≡ false)

-- A sequence that is copied from a last chunk is copied from any, and from a longer input.
copy_anywhere :
    (lead n : ℕ) (xs : Bytes) → next_step true lead xs ≡ copy n → next_step false lead xs ≡ copy n
unfolding next_step multibyte_step
copy_anywhere lead n xs e = ground (arith, e)

copy_longer :
    (lead n : ℕ) (xs ys : Bytes)
    → next_step true lead xs ≡ copy n
    → next_step true lead (xs ++ ys) ≡ copy n
copy_longer lead n xs ys e =
    let now = copy_anywhere lead n xs e in next_step-extend true lead xs ys (λ kept. cc) ∙ now

true_not_false : true ≢ false
true_not_false e = cc

-- No front of an input begins well where the input does not.
skip-IsFirstInvalid :
    (lead n : ℕ) (rest : Bytes) → next_step true lead rest ≡ skip n → IsFirstInvalid (lead ∷ rest) 0
unfolding is_valid_utf8
skip-IsFirstInvalid lead n rest e = (omega arith, refl, no_front)
  where
    no_front :
        (j : ℕ) → 0 < j → j ≤ length (lead ∷ rest) → is_valid_utf8 (take j (lead ∷ rest)) ≡ false
    no_front zero low high = absurd (omega arith)
    no_front (suc j) low high = elim (Bool-cases (is_valid_utf8 (lead ∷ take j rest))) [
      | inr bad ↦ bad
      | inl good ↦
          let b = is_valid_utf8-Begins lead (take j rest) good in
          let long = copy_longer lead b.size (take j rest) (drop j rest) b.step_is in
          let here : next_step true lead rest ≡ copy b.size =
            ap (next_step true lead) (take-drop j rest) ∙ long in
          absurd (cc (e, here))
    ]

-- What is said of the rest of an input behind a sequence.
module _ (input : Bytes) (n : ℕ) (some_ : 1 ≤ n) (fits : n ≤ length input)
    (front : IsSequence (take n input)) where
  front_valid : (m : ℕ) → is_valid_utf8 (take (n + m) input) ≡ is_valid_utf8 (take m (drop n input))
  front_valid m =
      ap is_valid_utf8 (take_add n m input)
      ∙ IsSequence-front (take n input) (take m (drop n input)) front

  later-IsFirstInvalid : (k : ℕ) → IsFirstInvalid (drop n input) k → IsFirstInvalid input (n + k)
  later-IsFirstInvalid k (low, good, bad) =
      let left = length-drop n input in
      (
        omega (arith, left, low, fits),
        front_valid k ∙ good,
        λ j more inside.
            let j_eq : j ≡ n + (j - n) = omega arith in
            ap (λ (m : ℕ). is_valid_utf8 (take m input)) j_eq
            ∙ front_valid (j - n)
            ∙ bad (j - n) (omega arith) (omega (arith, left)),
      )

-- A strict scan answers its input, or where its valid front ends.
abbrev Strict : ℕ → Bytes → Bytes → Result Scanned → Type 0
Strict offset input text (ok r) = r.output ≡ text
Strict offset input text (throw e) =
    (k : ℕ) × IsFirstInvalid input k × (e ≡ Error.invalid_utf8 ((offset + k) % 2 ^ 64))

Strict-later :
    (offset n : ℕ) (input text : Bytes)
    → 1 ≤ n
    → n ≤ length input
    → IsSequence (take n input)
    → (m : Result Scanned) → Strict (add_u64 offset n) (drop n input) text m
    → Strict offset input text m
Strict-later offset n input text some_ fits front (ok r) h = h
Strict-later offset n input text some_ fits front (throw e) (k, here, same) =
    let sum : (add_u64 offset n + k) % 2 ^ 64 ≡ (offset + (n + k)) % 2 ^ 64 = omega arith in
    (n + k, later-IsFirstInvalid input n some_ fits front k here, same ∙ ap Error.invalid_utf8 sum)

scan-Strict :
    (fuel offset : ℕ) (input : Bytes) (stats : TextReadStats) (output : Bytes)
    → length input ≤ fuel
    → offset < 2 ^ 64
    → Strict offset input
        (output ++ input)
        (scan fuel InvalidUtf8Policy.reject true offset input stats output)
unfolding scan handle_invalid_sequence
scan-Strict fuel offset [] stats output h small = sym (append-nil output)
scan-Strict zero offset (lead ∷ rest) stats output h small = absurd (omega arith)
scan-Strict (suc f) offset (lead ∷ rest) stats output h small =
    let input = lead ∷ rest in
    let policy = InvalidUtf8Policy.reject in
    let t = next_step-Takes true lead rest in
    subst (Strict offset input (output ++ input))
      (sym (scan_round policy true f lead offset rest stats output))
      (elim (Step-cases (next_step true lead rest)) [
        | inl (n, e) ↦
            let (some_, fits) = subst (Takes (suc (length rest))) e t in
            let joined : (output ++ take n input) ++ drop n input ≡ output ++ input =
              append_assoc output (take n input) (drop n input)
              ∙ ap (λ (x : Bytes). output ++ x) (sym (take-drop n input)) in
            let next = add_u64 offset n in
            let m = scan f policy true next (drop n input) stats (output ++ take n input) in
            rw e (
              Strict-later offset n input (output ++ input) some_ fits
                (next_step-IsSequence true lead n rest e) m
                (subst (λ (x : Bytes). Strict next (drop n input) x m) joined
                  (scan-Strict f next (drop n input) stats (output ++ take n input)
                    (omega (arith, length-drop n input)) (omega arith))))
        | inr (inl (n, e)) ↦
            let at_start : offset ≡ (offset + 0) % 2 ^ 64 = omega arith in
            rw e (0, skip-IsFirstInvalid lead n rest e, ap Error.invalid_utf8 at_start)
        | inr (inr e) ↦ absurd (next_step-ne-keep lead rest e)
      ])

Strict-answer :
    (content : Bytes) (m : Result Scanned)
    → Strict 0 content content m
    → Returns (λ r. is_valid_utf8 r.output ≡ true) m
    → is_valid_utf8 content ≡ false
    → (k : ℕ) × IsFirstInvalid content k × (m ≡ throw (Error.invalid_utf8 (k % 2 ^ 64)))
Strict-answer content (ok r) s t v = absurd (cc (ap (λ (b : Bytes). is_valid_utf8 b) s, t, v))
Strict-answer content (throw e) (k, here, same) t v =
    let offset : (0 + k) % 2 ^ 64 ≡ k % 2 ^ 64 = omega arith in
    (k, here, ap throw (same ∙ ap Error.invalid_utf8 offset))

-- Either the content is valid UTF-8 and is answered as it is under both policies, every byte read and
-- emitted and no sequence counted as invalid, or it is not and a strict scan refuses it with the
-- offset, in 64 bits, at which its longest valid front ends.
pub read_whole-strict :
    (policy : InvalidUtf8Policy) (content : Bytes)
    → ((is_valid_utf8 content ≡ true)
        × (read_whole policy content
            ≡ ok (
              record {
                bytes_read = length content % 2 ^ 64;
                bytes_emitted = length content % 2 ^ 64;
                invalid_sequence_count = 0;
              },
              content,
            )))
      ⊎ ((is_valid_utf8 content ≡ false)
          × ((k : ℕ) × IsFirstInvalid content k
              × (read_whole InvalidUtf8Policy.reject content
                  ≡ throw (Error.invalid_utf8 (k % 2 ^ 64)))))
unfolding read_whole
read_whole-strict policy content = elim (Bool-cases (is_valid_utf8 content)) [
  | inl v ↦
      let (k, e) = scan-valid policy (length content) 0 content nothing_read [] (omega arith) v in
      inl (v, rw e refl)
  | inr v ↦
      let (k, here, e) =
        Strict-answer content (whole InvalidUtf8Policy.reject true 0 content nothing_read [])
          (scan-Strict (length content) 0 content nothing_read [] (omega arith) (omega arith))
          (scan-IsText InvalidUtf8Policy.reject true (length content) 0 content nothing_read) v in
      inr (v, (k, here, rw e refl))
]
