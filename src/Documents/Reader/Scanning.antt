-- ===== src/Documents/Reader/Scanning.antt =====
-- The main loop of `emit_valid_utf8` in src/document/text_reader.cpp: its fuel, and what it makes of
-- an input that comes in two parts.
use snow_seek.Documents.Reader.{
  InvalidUtf8Policy, Scanned, Step, TextReadStats, add_u64, copy, handle_invalid_sequence, keep,
  next_step, scan, skip,
}
use snow_seek.Documents.Reader.Steps.{Step-cases, Takes, next_step-Takes}
use snow_seek.Prelude.{
  Bool, Bytes, Result, [], arith, drop, inl, inr, length, ok, refl, suc, sym, take, zero, ℕ, ◌++◌,
  ◌>>=◌, ◌∙◌, ◌∷◌, ◌≡◌, ◌≤◌,
}
use snow_seek.Prelude.Simulation.{>>=-eq}
use snow_seek.Storage.Validation.Envelope.Checksums.{length-drop}

module _ (policy : InvalidUtf8Policy) (final : Bool) where
  -- What follows a step, with `f` rounds left.
  abbrev pub after_step : ℕ → Step → ℕ → Bytes → TextReadStats → Bytes → Result Scanned
  after_step f (copy n) offset input stats output =
      scan f policy final (add_u64 offset n) (drop n input) stats (output ++ take n input)
  after_step f (skip n) offset input stats output =
      handle_invalid_sequence policy offset stats output >>= λ (stats', output').
      scan f policy final (add_u64 offset n) (drop n input) stats' output'
  after_step f keep offset input stats output =
      ok (record { stats = stats; output = output; kept = input; kept_offset = offset })

  pub scan_round :
      (f lead offset : ℕ) (rest : Bytes) (stats : TextReadStats) (output : Bytes)
      → scan (suc f) policy final offset (lead ∷ rest) stats output
        ≡ after_step f (next_step final lead rest) offset (lead ∷ rest) stats output
  unfolding scan
  scan_round f lead offset rest stats output = elim (Step-cases (next_step final lead rest)) [
    | inl (n, e) ↦ ground (arith, e)
    | inr (inl (n, e)) ↦ ground (arith, e)
    | inr (inr e) ↦ ground (arith, e)
  ]

  -- A step takes a byte at least.
  drop-le : (n f : ℕ) (input : Bytes) → 1 ≤ n → length input ≤ suc f → length (drop n input) ≤ f
  drop-le n f input h k = omega (arith, length-drop n input)

  -- More rounds than bytes change nothing.
  pub scan_fuel :
      (f g offset : ℕ) (input : Bytes) (stats : TextReadStats) (output : Bytes)
      → length input ≤ f
      → length input ≤ g
      → scan f policy final offset input stats output
        ≡ scan g policy final offset input stats output
  unfolding scan
  scan_fuel f g offset [] stats output h k = refl
  scan_fuel zero g offset (lead ∷ rest) stats output h k = absurd (omega arith)
  scan_fuel (suc f) zero offset (lead ∷ rest) stats output h k = absurd (omega arith)
  scan_fuel (suc f) (suc g) offset (lead ∷ rest) stats output h k =
      let input = lead ∷ rest in
      scan_round f lead offset rest stats output
      ∙ same_after (next_step final lead rest) (next_step-Takes final lead rest)
          (λ n offset' stats' output' t.
            scan_fuel f g offset' (drop n input) stats' output' (drop-le n f input t h)
              (drop-le n g input t k))
      ∙ sym (scan_round g lead offset rest stats output)
    where
      same_after :
          (step : Step)
          → Takes (length (lead ∷ rest)) step
          → ((n offset' : ℕ) (stats' : TextReadStats) (output' : Bytes)
              → 1 ≤ n
              → scan f policy final offset' (drop n (lead ∷ rest)) stats' output'
                ≡ scan g policy final offset' (drop n (lead ∷ rest)) stats' output')
          → after_step f step offset (lead ∷ rest) stats output
            ≡ after_step g step offset (lead ∷ rest) stats output
      same_after (copy n) t ih = ih n _ _ _ t.0
      same_after (skip n) t ih =
          >>=-eq (handle_invalid_sequence policy offset stats output) _ _
            λ (stats', output') e. ih n _ stats' output' t.0
      same_after keep t ih = refl
