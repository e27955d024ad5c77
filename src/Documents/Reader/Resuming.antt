-- ===== src/Documents/Reader/Resuming.antt =====
-- The main loop of `emit_valid_utf8` in src/document/text_reader.cpp on an input in two parts: what the
-- first part leaves is put before the second.
-- The loop with as many rounds as bytes.
use snow_seek.Documents.Reader.{
  InvalidUtf8Policy, Scanned, Step, TextReadStats, add_u64, copy, handle_invalid_sequence, keep,
  next_step, scan, skip,
}
use snow_seek.Documents.Reader.Scanning.{after_step, scan_fuel, scan_round}
use snow_seek.Documents.Reader.Steps.{Step-cases, Takes, next_step-Takes, next_step-extend}
use snow_seek.Prelude.{
  Bool, Bytes, Result, [], ap, arith, drop, false, inl, inr, length, ok, refl, suc, sym, take, zero,
  ℕ, ◌++◌, ◌>>=◌, ◌∙◌, ◌∷◌, ◌≡◌, ◌≢◌, ◌≤◌,
}
use snow_seek.Prelude.Simulation.{>>=-assoc, >>=-eq}
use snow_seek.Prelude.Slices.{drop-append_left, take-append_left}
use snow_seek.Storage.Validation.Envelope.Checksums.{length-drop}

abbrev pub whole : InvalidUtf8Policy → Bool → ℕ → Bytes → TextReadStats → Bytes → Result Scanned
whole policy final offset input stats output =
    scan (length input) policy final offset input stats output

module _ (policy : InvalidUtf8Policy) where
  abbrev after_whole : Bool → Step → ℕ → Bytes → TextReadStats → Bytes → Result Scanned
  after_whole final (copy n) offset input stats output =
      whole policy final (add_u64 offset n) (drop n input) stats (output ++ take n input)
  after_whole final (skip n) offset input stats output =
      handle_invalid_sequence policy offset stats output >>= λ (stats', output').
      whole policy final (add_u64 offset n) (drop n input) stats' output'
  after_whole final keep offset input stats output =
      ok (record { stats = stats; output = output; kept = input; kept_offset = offset })

  enough_left :
      (n : ℕ) (rest : Bytes) (lead : ℕ) → 1 ≤ n → length (drop n (lead ∷ rest)) ≤ length rest
  enough_left n rest lead h = omega (arith, length-drop n (lead ∷ rest))

  after_step-whole :
      (final : Bool) (step : Step) (offset lead : ℕ) (rest : Bytes) (stats : TextReadStats)
      (output : Bytes)
      → Takes (suc (length rest)) step
      → after_step policy final (length rest) step offset (lead ∷ rest) stats output
        ≡ after_whole final step offset (lead ∷ rest) stats output
  after_step-whole final (copy n) offset lead rest stats output t =
      scan_fuel policy final (length rest) (length (drop n (lead ∷ rest))) (add_u64 offset n)
        (drop n (lead ∷ rest)) stats (output ++ take n (lead ∷ rest)) (enough_left n rest lead t.0)
        (omega arith)
  after_step-whole final (skip n) offset lead rest stats output t =
      >>=-eq (handle_invalid_sequence policy offset stats output) _ _ λ (stats', output') e.
        scan_fuel policy final (length rest) (length (drop n (lead ∷ rest))) (add_u64 offset n)
          (drop n (lead ∷ rest)) stats' output' (enough_left n rest lead t.0) (omega arith)
  after_step-whole final keep offset lead rest stats output t = refl

  whole_round :
      (final : Bool) (offset lead : ℕ) (rest : Bytes) (stats : TextReadStats) (output : Bytes)
      → whole policy final offset (lead ∷ rest) stats output
        ≡ after_whole final (next_step final lead rest) offset (lead ∷ rest) stats output
  whole_round final offset lead rest stats output =
      scan_round policy final (length rest) lead offset rest stats output
      ∙ after_step-whole final (next_step final lead rest) offset lead rest stats output
          (next_step-Takes final lead rest)

  module _ (final : Bool) (ys : Bytes) where
    -- Going on with the second part.
    abbrev pub resume : Scanned → Result Scanned
    resume r = whole policy final r.kept_offset (r.kept ++ ys) r.stats r.output

    abbrev pub Resumes : Bytes → Type 0
    Resumes xs =
        (offset : ℕ) (stats : TextReadStats) (output : Bytes)
        → whole policy final offset (xs ++ ys) stats output
          ≡ (whole policy false offset xs stats output >>= resume)

    resume_step :
        (step : Step) (offset : ℕ) (xs : Bytes) (stats : TextReadStats) (output : Bytes)
        → Takes (length xs) step
        → step ≢ keep
        → ((n : ℕ) → 1 ≤ n → n ≤ length xs → Resumes (drop n xs))
        → after_whole final step offset (xs ++ ys) stats output
          ≡ (after_whole false step offset xs stats output >>= resume)
    resume_step (copy n) offset xs stats output t k ih =
        rw (drop-append_left n xs ys t.1, take-append_left n xs ys t.1)
          (ih n t.0 t.1 (add_u64 offset n) stats (output ++ take n xs))
    resume_step (skip n) offset xs stats output t k ih = rw (drop-append_left n xs ys t.1) (
        >>=-eq (handle_invalid_sequence policy offset stats output) _ _
          (λ (stats', output') e. ih n t.0 t.1 (add_u64 offset n) stats' output')
        ∙ sym (>>=-assoc (handle_invalid_sequence policy offset stats output) _ resume))
    resume_step keep offset xs stats output t k ih = absurd (k refl)

    kept_all :
        (lead offset : ℕ) (rest : Bytes) (stats : TextReadStats) (output : Bytes)
        → next_step false lead rest ≡ keep
        → whole policy final offset ((lead ∷ rest) ++ ys) stats output
          ≡ (whole policy false offset (lead ∷ rest) stats output >>= resume)
    kept_all lead offset rest stats output e =
        let step =
          whole_round false offset lead rest stats output
          ∙ ap (λ (s : Step). after_whole false s offset (lead ∷ rest) stats output) e in
        sym (ap (λ (m : Result Scanned). m >>= resume) step)

    resume_round :
        (lead : ℕ) (rest : Bytes)
        → next_step false lead rest ≢ keep
        → ((n : ℕ) → 1 ≤ n → n ≤ suc (length rest) → Resumes (drop n (lead ∷ rest)))
        → Resumes (lead ∷ rest)
    resume_round lead rest moves ih offset stats output =
        let step = next_step false lead rest in
        let xs = lead ∷ rest in
        whole_round final offset lead (rest ++ ys) stats output
        ∙ ap (λ (s : Step). after_whole final s offset (xs ++ ys) stats output)
            (next_step-extend final lead rest ys moves)
        ∙ resume_step step offset xs stats output (next_step-Takes false lead rest) moves ih
        ∙ sym (
            ap (λ (m : Result Scanned). m >>= resume)
              (whole_round false offset lead rest stats output))

    resume_upto : (k : ℕ) (xs : Bytes) → length xs ≤ k → Resumes xs
    unfolding scan
    resume_upto k [] h = λ offset stats output. refl
    resume_upto zero (lead ∷ rest) h = absurd (omega arith)
    resume_upto (suc k) (lead ∷ rest) h =
        let ih : (n : ℕ) → 1 ≤ n → n ≤ suc (length rest) → Resumes (drop n (lead ∷ rest)) = λ n a b.
          resume_upto k (drop n (lead ∷ rest)) (omega (arith, length-drop n (lead ∷ rest))) in
        elim (Step-cases (next_step false lead rest)) [
          | inl (n, e) ↦ resume_round lead rest (λ kept. cc) ih
          | inr (inl (n, e)) ↦ resume_round lead rest (λ kept. cc) ih
          | inr (inr e) ↦ λ offset stats output. kept_all lead offset rest stats output e
        ]

    -- Scanning two parts as one is scanning the first, as one that more input follows, and then what it
    -- kept with the second part.
    pub scan_resume : (xs : Bytes) → Resumes xs
    scan_resume xs = resume_upto (length xs) xs (omega arith)
