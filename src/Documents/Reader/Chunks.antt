-- ===== src/Documents/Reader/Chunks.antt =====
-- `emit_valid_utf8` and `TextReader::read` of src/document/text_reader.cpp against one scan of the
-- whole file.
-- The chunks as one.
use mathlib.Core.Path.{subst}
use snow_seek.Documents.Reader.{
  InvalidUtf8Policy, Reading, Scanned, TextReadStats, Utf8State, add_u64, emit_valid_utf8,
  finish_chunk, take_buffer,
}
use snow_seek.Documents.Reader.Outputs.{
  Offsets, after_front, scan-Offsets, scan-front, scan_counts, under,
}
use snow_seek.Documents.Reader.Resuming.{resume, scan_resume, whole}
use snow_seek.Prelude.{
  Bool, Bytes, List, Result, Returns-ok, [], ap, append-nil, append_assoc, arith, false, if_intro,
  if◌then◌else◌, is_empty, length, length-append, ok, refl, sym, true, ℕ, ◌%◌, ◌++◌, ◌<◌, ◌>>=◌,
  ◌^◌, ◌∙◌, ◌∷◌, ◌≡◌,
}
use snow_seek.Prelude.Simulation.{Simulates, Simulates-same}

unfoldable pub join : List Bytes → Bytes
join [] = []
join (chunk ∷ chunks) = chunk ++ join chunks

join-push :
    (chunks : List Bytes) (chunk : Bytes) → join (chunks ++ (chunk ∷ [])) ≡ join chunks ++ chunk
unfolding join
join-push [] chunk = append-nil chunk
join-push (c ∷ chunks) chunk =
    ap (λ (b : Bytes). c ++ b) (join-push chunks chunk) ∙ sym (append_assoc c (join chunks) chunk)

abbrev pub nothing_read : TextReadStats
nothing_read = record { bytes_read = 0; bytes_emitted = 0; invalid_sequence_count = 0 }

-- A scan of what was read so far.
abbrev pub scanned_so_far : InvalidUtf8Policy → Bool → Bytes → Result Scanned
scanned_so_far policy final bytes = whole policy final 0 bytes nothing_read []

-- What `read` has done with the bytes that were read, beside a scan of them: `kept` is pending.
pub record Tracks (bytes : Bytes) (r : Scanned) (reading : Reading) : Type 0 where
  pub state_is : reading.state ≡ record { pending = r.kept; pending_offset = r.kept_offset }
  pub read_is : reading.stats.bytes_read ≡ length bytes % 2 ^ 64
  pub emitted_is : join reading.emitted ≡ r.output
  pub counted : reading.stats.bytes_emitted ≡ length r.output % 2 ^ 64
  pub invalid : reading.stats.invalid_sequence_count ≡ r.stats.invalid_sequence_count
  pub observed_is : join reading.observed ≡ bytes
  pub offsets :
      (add_u64 r.kept_offset (length r.kept) ≡ length bytes % 2 ^ 64) × (r.kept_offset < 2 ^ 64)

-- The same, with a buffer counted that is not scanned yet.
pub record Begun (bytes buffer : Bytes) (r : Scanned) (reading : Reading) : Type 0 where
  pub state_is : reading.state ≡ record { pending = r.kept; pending_offset = r.kept_offset }
  pub read_is : reading.stats.bytes_read ≡ length (bytes ++ buffer) % 2 ^ 64
  pub emitted_is : join reading.emitted ≡ r.output
  pub counted : reading.stats.bytes_emitted ≡ length r.output % 2 ^ 64
  pub invalid : reading.stats.invalid_sequence_count ≡ r.stats.invalid_sequence_count
  pub observed_is : join reading.observed ≡ bytes ++ buffer
  pub offsets :
      (add_u64 r.kept_offset (length r.kept) ≡ length bytes % 2 ^ 64) × (r.kept_offset < 2 ^ 64)

chunk_offset :
    (s : Utf8State) (kept : Bytes) (offset base n : ℕ)
    → s ≡ record { pending = kept; pending_offset = offset }
    → base ≡ n
    → add_u64 offset (length kept) ≡ n
    → offset < 2 ^ 64
    → (if is_empty s.pending then base else s.pending_offset) ≡ offset
chunk_offset s kept offset base n e k o h =
    ap (λ (t : Utf8State). if is_empty t.pending then base else t.pending_offset) e ∙ by_kept kept o
  where
    by_kept :
        (l : Bytes) → add_u64 offset (length l) ≡ n → (if is_empty l then base else offset) ≡ offset
    by_kept [] o' = omega arith
    by_kept (x ∷ l) o' = refl

nothing_there : (xs : Bytes) → is_empty xs ≡ true → xs ≡ []
nothing_there [] h = refl
nothing_there (x ∷ xs) h = cc

module _ (policy : InvalidUtf8Policy) (final : Bool) (bytes buffer : Bytes) (r : Scanned)
    (reading : Reading) where
  abbrev rest_scan : Result Scanned
  rest_scan = whole policy final r.kept_offset (r.kept ++ buffer) reading.stats []

  whole_scan :
      scanned_so_far policy false bytes ≡ ok r
      → Begun bytes buffer r reading
      → scanned_so_far policy final (bytes ++ buffer) ≡ (
          rest_scan >>= λ r2. ok (after_front r.stats.bytes_read r.stats.bytes_emitted r.output r2))
  whole_scan e b =
      let stats_eq : under r.stats.bytes_read r.stats.bytes_emitted reading.stats ≡ r.stats =
        ap (λ (n : ℕ). record (r.stats) { invalid_sequence_count = n }) b.invalid in
      scan_resume policy final buffer bytes 0 nothing_read []
      ∙ ap (λ (m : Result Scanned). m >>= resume policy final buffer) e
      ∙ ap (λ (s : TextReadStats). whole policy final r.kept_offset (r.kept ++ buffer) s r.output)
          (sym stats_eq)
      ∙ ap
          (λ (o : Bytes).
            whole policy final r.kept_offset (r.kept ++ buffer)
              (under r.stats.bytes_read r.stats.bytes_emitted reading.stats) o)
          (sym (append-nil r.output))
      ∙ scan-front policy final r.stats.bytes_read r.stats.bytes_emitted r.output
          (length (r.kept ++ buffer)) r.kept_offset (r.kept ++ buffer) reading.stats []

  emit_scan :
      (base : ℕ)
      → base ≡ length bytes % 2 ^ 64
      → Begun bytes buffer r reading
      → emit_valid_utf8 policy buffer base final reading
        ≡ (rest_scan >>= λ r2. ok (finish_chunk reading r2))
  unfolding emit_valid_utf8
  emit_scan base e b =
      let offset_eq : (if is_empty reading.state.pending
            then base
            else reading.state.pending_offset)
          ≡ r.kept_offset =
        chunk_offset reading.state r.kept r.kept_offset base (length bytes % 2 ^ 64) b.state_is e
          b.offsets.0 b.offsets.1 in
      let pending_eq : reading.state.pending ≡ r.kept =
        ap (λ (s : Utf8State). s.pending) b.state_is in
      λ i. whole policy final (offset_eq i) (pending_eq i ++ buffer) reading.stats [] >>= λ r2.
      ok (finish_chunk reading r2)

  finished :
      (r2 : Scanned)
      → Begun bytes buffer r reading
      → rest_scan ≡ ok r2
      → Tracks
          (bytes ++ buffer)
          (after_front r.stats.bytes_read r.stats.bytes_emitted r.output r2)
          (finish_chunk reading r2)
  unfolding finish_chunk
  finished r2 b e =
      let test = is_empty r2.output in
      let (read_eq, emitted_eq) =
        scan_counts policy final (length (r.kept ++ buffer)) r.kept_offset (r.kept ++ buffer)
          reading.stats r2 e in
      let (end_, small) =
        Returns-ok (Offsets r.kept_offset (r.kept ++ buffer) reading.stats) rest_scan r2
          (scan-Offsets policy final (length (r.kept ++ buffer)) r.kept_offset (r.kept ++ buffer)
            reading.stats [] b.offsets.1)
          e in
      record {
        state_is = refl;
        read_is =
            if_intro (λ (t : TextReadStats). t.bytes_read ≡ length (bytes ++ buffer) % 2 ^ 64) test
              _ _ (λ none_. read_eq ∙ b.read_is) (λ some_. read_eq ∙ b.read_is);
        emitted_is =
            if_intro (λ (l : List Bytes). join l ≡ r.output ++ r2.output) test _ _
              (λ none_.
                b.emitted_is
                ∙ sym (append-nil r.output)
                ∙ ap (λ (o : Bytes). r.output ++ o) (sym (nothing_there r2.output none_)))
              (λ some_.
                join-push reading.emitted r2.output
                ∙ ap (λ (o : Bytes). o ++ r2.output) b.emitted_is);
        counted =
            if_intro
              (λ (t : TextReadStats). t.bytes_emitted ≡ length (r.output ++ r2.output) % 2 ^ 64)
              test _ _
              (λ none_. omega (
                arith,
                emitted_eq,
                b.counted,
                length-append r.output r2.output,
                ap length (nothing_there r2.output none_),
              ))
              (λ some_. omega (arith, emitted_eq, b.counted, length-append r.output r2.output));
        invalid =
            if_intro
              (λ (t : TextReadStats). t.invalid_sequence_count ≡ r2.stats.invalid_sequence_count)
              test _ _ (λ none_. refl) (λ some_. refl);
        observed_is = b.observed_is;
        offsets = (
          omega (arith, end_, b.offsets.0, length-append r.kept buffer, length-append bytes buffer),
          small,
        );
      }

  -- A chunk, or the end of the file, is handled as the scan of the whole would.
  pub emit-Simulates :
      (base : ℕ)
      → base ≡ length bytes % 2 ^ 64
      → scanned_so_far policy false bytes ≡ ok r
      → Begun bytes buffer r reading
      → Simulates
          (Tracks (bytes ++ buffer))
          (scanned_so_far policy final (bytes ++ buffer))
          (emit_valid_utf8 policy buffer base final reading)
  emit-Simulates base h e b =
      rw (whole_scan e b, emit_scan base h b)
        (Simulates-same (Tracks (bytes ++ buffer)) rest_scan _ _ λ r2 e2. finished r2 b e2)

pub take_buffer-Simulates :
    (policy : InvalidUtf8Policy) (bytes buffer : Bytes) (r : Scanned) (reading : Reading)
    → scanned_so_far policy false bytes ≡ ok r
    → Tracks bytes r reading
    → Simulates
        (Tracks (bytes ++ buffer))
        (scanned_so_far policy false (bytes ++ buffer))
        (take_buffer policy buffer reading)
unfolding take_buffer
take_buffer-Simulates policy bytes [] r reading e t =
    subst (λ (b : Bytes). Simulates (Tracks b) (scanned_so_far policy false b) (ok reading))
      (sym (append-nil bytes))
      (subst (λ (m : Result Scanned). Simulates (Tracks bytes) m (ok reading)) (sym e) t)
take_buffer-Simulates policy bytes (x ∷ buffer) r reading e t =
    let chunk = x ∷ buffer in
    emit-Simulates policy false bytes chunk r
      (record reading {
        stats = record (reading.stats) {
          bytes_read = add_u64 reading.stats.bytes_read (length chunk);
        };
        observed = reading.observed ++ (chunk ∷ []);
      })
      reading.stats.bytes_read t.read_is e
      (record {
        state_is = t.state_is;
        read_is = omega (arith, t.read_is, length-append bytes chunk);
        emitted_is = t.emitted_is;
        counted = t.counted;
        invalid = t.invalid;
        observed_is =
            join-push reading.observed chunk ∙ ap (λ (o : Bytes). o ++ chunk) t.observed_is;
        offsets = t.offsets;
      })
