-- ===== src/Documents/Reader/Outputs.antt =====
-- The main loop of `emit_valid_utf8` in src/document/text_reader.cpp: what it finds in its statistics
-- and its output stays, and its offset counts the bytes.
use mathlib.Core.Path.{subst}
use snow_seek.Documents.Reader.{
  InvalidUtf8Policy, Scanned, Step, TextReadStats, add_u64, copy, handle_invalid_sequence, keep,
  next_step, replacement_character, scan, skip,
}
use snow_seek.Documents.Reader.Scanning.{after_step, scan_round}
use snow_seek.Documents.Reader.Steps.{Takes, next_step-Takes}
use snow_seek.Prelude.{
  Bool, Bytes, Result, Returns, Returns-map, Returns-then, [], ap, append_assoc, arith, drop,
  length, ok, refl, suc, sym, take, zero, ℕ, ◌++◌, ◌<◌, ◌>>=◌, ◌^◌, ◌∙◌, ◌∷◌, ◌≡◌, ◌≤◌,
}
use snow_seek.Prelude.Simulation.{>>=-assoc, >>=-eq}
use snow_seek.Storage.Validation.Envelope.Checksums.{length-drop}

abbrev pub under : ℕ → ℕ → TextReadStats → TextReadStats
under read_ emitted stats = record stats { bytes_read = read_; bytes_emitted = emitted }

-- A result with other byte counts and with `front` before its output.
abbrev pub after_front : ℕ → ℕ → Bytes → Scanned → Scanned
after_front read_ emitted front r = record r {
  stats = under read_ emitted r.stats;
  output = front ++ r.output;
}

module _ (policy : InvalidUtf8Policy) (final : Bool) (read_ emitted : ℕ) (front : Bytes) where
  handle_invalid_sequence-front :
      (offset : ℕ) (stats : TextReadStats) (output : Bytes)
      → handle_invalid_sequence policy offset (under read_ emitted stats) (front ++ output) ≡ (
          handle_invalid_sequence policy offset stats output >>= λ (stats', output').
          ok (under read_ emitted stats', front ++ output'))
  unfolding handle_invalid_sequence
  handle_invalid_sequence-front offset stats output = by_policy policy
    where
      by_policy :
          (p : InvalidUtf8Policy)
          → handle_invalid_sequence p offset (under read_ emitted stats) (front ++ output) ≡ (
              handle_invalid_sequence p offset stats output >>= λ (stats', output').
              ok (under read_ emitted stats', front ++ output'))
      by_policy InvalidUtf8Policy.replace =
          rw (append_assoc front output replacement_character) refl
      by_policy InvalidUtf8Policy.reject = refl

  after_step-front :
      (step : Step) (f offset : ℕ) (input : Bytes) (stats : TextReadStats) (output : Bytes)
      → ((n : ℕ) (offset' : ℕ) (stats' : TextReadStats) (output' : Bytes)
          → scan f policy final offset'
              (drop n input)
              (under read_ emitted stats')
              (front ++ output')
            ≡ (scan f policy final offset' (drop n input) stats' output' >>= λ r.
                ok (after_front read_ emitted front r)))
      → after_step policy final f step offset input (under read_ emitted stats) (front ++ output)
        ≡ (after_step policy final f step offset input stats output >>= λ r.
            ok (after_front read_ emitted front r))
  after_step-front (copy n) f offset input stats output ih =
      rw (append_assoc front output (take n input))
        (ih n (add_u64 offset n) stats (output ++ take n input))
  after_step-front (skip n) f offset input stats output ih =
      rw (handle_invalid_sequence-front offset stats output) (
        >>=-assoc (handle_invalid_sequence policy offset stats output) _ _
        ∙ >>=-eq (handle_invalid_sequence policy offset stats output) _ _
            (λ (stats', output') e. ih n (add_u64 offset n) stats' output')
        ∙ sym (>>=-assoc (handle_invalid_sequence policy offset stats output) _ _))
  after_step-front keep f offset input stats output ih = refl

  pub scan-front :
      (fuel offset : ℕ) (input : Bytes) (stats : TextReadStats) (output : Bytes)
      → scan fuel policy final offset input (under read_ emitted stats) (front ++ output) ≡ (
          scan fuel policy final offset input stats output >>= λ r.
          ok (after_front read_ emitted front r))
  unfolding scan
  scan-front fuel offset [] stats output = refl
  scan-front zero offset (lead ∷ rest) stats output = refl
  scan-front (suc f) offset (lead ∷ rest) stats output =
      scan_round policy final f lead offset rest (under read_ emitted stats) (front ++ output)
      ∙ after_step-front (next_step final lead rest) f offset (lead ∷ rest) stats output
          (λ n offset' stats' output'. scan-front f offset' (drop n (lead ∷ rest)) stats' output')
      ∙ ap (λ (m : Result Scanned). m >>= λ r. ok (after_front read_ emitted front r))
          (sym (scan_round policy final f lead offset rest stats output))

-- The offset of what is kept, and the bytes that were read.
abbrev pub Offsets : ℕ → Bytes → TextReadStats → Scanned → Type 0
Offsets offset input stats r =
    (add_u64 r.kept_offset (length r.kept) ≡ add_u64 offset (length input))
    × (r.kept_offset < 2 ^ 64)

scanned_eq : (r r' : Scanned) → ◌≡◌ {A = Result Scanned} (ok r) (ok r') → r ≡ r'
scanned_eq r r' e = cc

module _ (policy : InvalidUtf8Policy) (final : Bool) where
  pub scan-Offsets :
      (fuel offset : ℕ) (input : Bytes) (stats : TextReadStats) (output : Bytes)
      → offset < 2 ^ 64
      → Returns (Offsets offset input stats) (scan fuel policy final offset input stats output)
  unfolding scan
  scan-Offsets fuel offset [] stats output h = (refl, h)
  scan-Offsets zero offset (lead ∷ rest) stats output h = tt
  scan-Offsets (suc f) offset (lead ∷ rest) stats output h =
      subst (Returns (Offsets offset (lead ∷ rest) stats))
        (sym (scan_round policy final f lead offset rest stats output))
        (by_step (next_step final lead rest) (next_step-Takes final lead rest) λ n stats' output' t.
          scan-Offsets f (add_u64 offset n) (drop n (lead ∷ rest)) stats' output' (omega arith))
    where
      moved :
          (n : ℕ) (stats' : TextReadStats) (r : Scanned)
          → n ≤ suc (length rest)
          → Offsets (add_u64 offset n) (drop n (lead ∷ rest)) stats' r
          → Offsets offset (lead ∷ rest) stats r
      moved n stats' r t (e, k) = (omega (arith, length-drop n (lead ∷ rest), e), k)

      by_step :
          (step : Step)
          → Takes (suc (length rest)) step
          → ((n : ℕ) (stats' : TextReadStats) (output' : Bytes)
              → n ≤ suc (length rest)
              → Returns
                  (Offsets (add_u64 offset n) (drop n (lead ∷ rest)) stats')
                  (scan f policy final (add_u64 offset n) (drop n (lead ∷ rest)) stats' output'))
          → Returns
              (Offsets offset (lead ∷ rest) stats)
              (after_step policy final f step offset (lead ∷ rest) stats output)
      by_step (copy n) t ih =
          Returns-map (Offsets (add_u64 offset n) (drop n (lead ∷ rest)) stats)
            (Offsets offset (lead ∷ rest) stats)
            (scan f policy final (add_u64 offset n) (drop n (lead ∷ rest)) stats
              (output ++ take n (lead ∷ rest)))
            (ih n stats (output ++ take n (lead ∷ rest)) t.1) (λ r o. moved n stats r t.1 o)
      by_step (skip n) t ih =
          Returns-then (Offsets offset (lead ∷ rest) stats)
            (handle_invalid_sequence policy offset stats output) _
            λ (stats', output') e.
              Returns-map (Offsets (add_u64 offset n) (drop n (lead ∷ rest)) stats')
                (Offsets offset (lead ∷ rest) stats)
                (scan f policy final (add_u64 offset n) (drop n (lead ∷ rest)) stats' output')
                (ih n stats' output' t.1) (λ r o. moved n stats' r t.1 o)
      by_step keep t ih = (refl, h)

  -- The byte counts of the statistics stay.
  pub scan_counts :
      (fuel offset : ℕ) (input : Bytes) (stats : TextReadStats) (r : Scanned)
      → scan fuel policy final offset input stats [] ≡ ok r
      → (r.stats.bytes_read ≡ stats.bytes_read) × (r.stats.bytes_emitted ≡ stats.bytes_emitted)
  scan_counts fuel offset input stats r e =
      let same : after_front stats.bytes_read stats.bytes_emitted [] r ≡ r = scanned_eq _ _ (
        sym (
          ap
            (λ (m : Result Scanned).
              m >>= λ x. ok (after_front stats.bytes_read stats.bytes_emitted [] x))
            e)
        ∙ sym (
            scan-front policy final stats.bytes_read stats.bytes_emitted [] fuel offset input stats
              [])
        ∙ e) in
      (
        sym (ap (λ (x : Scanned). x.stats.bytes_read) same),
        sym (ap (λ (x : Scanned). x.stats.bytes_emitted) same),
      )
