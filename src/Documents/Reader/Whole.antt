-- ===== src/Documents/Reader/Whole.antt =====
-- `TextReader::read` of src/document/text_reader.cpp against one scan of the whole file.
use mathlib.Core.Path.{subst}
use snow_seek.Documents.Reader.{
  InvalidUtf8Policy, Reading, Scanned, TextReadStats, emit_valid_utf8, fresh, max_stream_size, read,
  read_chunks, scan, take_buffer,
}
use snow_seek.Documents.Reader.Chunks.{
  Tracks, emit-Simulates, join, nothing_read, scanned_so_far, take_buffer-Simulates,
}
use snow_seek.Documents.Reader.Resuming.{resume, scan_resume, whole}
use snow_seek.Prelude.{
  Bool, Bool-cases, Bytes, Error, Result, [], ap, append-nil, append_assoc, arith, drop, false, inl,
  inr, length, ltb, ltb-false, ltb→lt, ok, refl, some, suc, sym, take, throw, true, zero, ℕ, ◌%◌,
  ◌++◌, ◌<◌, ◌==◌, ◌>>=◌, ◌^◌, ◌||◌, ◌∙◌, ◌≡◌, ◌≤◌, ◌⊎◌,
}
use snow_seek.Prelude.Simulation.{>>=-assoc, Simulates, Simulates-eq}
use snow_seek.Prelude.Slices.{take-drop}
use snow_seek.Storage.Stream.{take_all}
use snow_seek.Storage.Validation.Envelope.Checksums.{length-drop}

scanned_keep :
    (policy : InvalidUtf8Policy) (final : Bool) (bytes more : Bytes) (e : Error)
    → scanned_so_far policy false bytes ≡ throw e
    → scanned_so_far policy final (bytes ++ more) ≡ throw e
scanned_keep policy final bytes more e h =
    scan_resume policy final more bytes 0 nothing_read []
    ∙ ap (λ (m : Result Scanned). m >>= resume policy final more) h

-- Related results are both values or the same error.
Simulates-cases {ℓ κ} :
    {A : Type ℓ} {B : Type κ} (R : A → B → Type 0) (m : Result A) (n : Result B)
    → Simulates R m n
    → ((a : A) × (b : B) × (m ≡ ok a) × (n ≡ ok b) × R a b)
      ⊎ ((e : Error) × (m ≡ throw e) × (n ≡ throw e))
Simulates-cases R (ok a) (ok b) h = inl (a, b, refl, refl, h)
Simulates-cases R (throw e) (throw e') h = inr (e, refl, ap throw (sym h))
Simulates-cases R (ok a) (throw e) h = absurd h
Simulates-cases R (throw e) (ok b) h = absurd h

module _ (policy : InvalidUtf8Policy) where
  -- What the loop answers beside a scan of all that it was given.
  abbrev Follows : Bytes → Result Reading → Type 0
  Follows bytes answer = Simulates (Tracks bytes) (scanned_so_far policy false bytes) answer

  Follows-throw :
      (bytes more : Bytes) (x : Error)
      → scanned_so_far policy false bytes ≡ throw x
      → Follows (bytes ++ more) (throw x)
  Follows-throw bytes more x m =
      subst (λ (s : Result Scanned). Simulates (Tracks (bytes ++ more)) s (throw x))
        (sym (scanned_keep policy false bytes more x m)) refl

  Follows-ok :
      (bytes : Bytes) (r : Scanned) (reading : Reading)
      → scanned_so_far policy false bytes ≡ ok r
      → Tracks bytes r reading
      → Follows bytes (ok reading)
  Follows-ok bytes r reading m t =
      subst (λ (s : Result Scanned). Simulates (Tracks bytes) s (ok reading)) (sym m) t

  module _ (chunk_size : ℕ) (some_ : 1 ≤ chunk_size) where
    parted :
        (bytes content : Bytes)
        → (bytes ++ take chunk_size content) ++ drop chunk_size content ≡ bytes ++ content
    parted bytes content =
        append_assoc bytes (take chunk_size content) (drop chunk_size content)
        ∙ ap (λ (b : Bytes). bytes ++ b) (sym (take-drop chunk_size content))

    read_chunks-Follows :
        (fuel : ℕ) (bytes content : Bytes) (r : Scanned) (reading : Reading)
        → length content < fuel
        → scanned_so_far policy false bytes ≡ ok r
        → Tracks bytes r reading
        → Follows (bytes ++ content) (read_chunks fuel policy chunk_size false content reading)
    unfolding read_chunks
    read_chunks-Follows zero bytes content r reading h e t = absurd (omega arith)
    read_chunks-Follows (suc fuel) bytes content r reading h e t =
        let buffer = take chunk_size content in
        let left = drop chunk_size content in
        elim (Simulates-cases (Tracks (bytes ++ buffer))
          (scanned_so_far policy false (bytes ++ buffer)) (take_buffer policy buffer reading)
          (take_buffer-Simulates policy bytes buffer r reading e t)) [
            | inr (x, m, n) ↦ rw n (
                subst (λ (b : Bytes). Follows b (throw x)) (parted bytes content)
                  (Follows-throw (bytes ++ buffer) left x m))
            | inl (r', next, m, n, t') ↦ rw n (elim (Bool-cases (ltb (length content) chunk_size)) [
              | inl short ↦
                  let all : buffer ≡ content =
                    take_all chunk_size content (omega (arith, ltb→lt _ _ short)) in
                  rw short (
                    subst (λ (b : Bytes). Follows (bytes ++ b) (ok next)) all
                      (Follows-ok (bytes ++ buffer) r' next m t'))
              | inr full ↦
                  let size = ltb-false (length content) chunk_size full in
                  rw full (
                    subst
                      (λ (b : Bytes).
                        Follows b (read_chunks fuel policy chunk_size false left next))
                      (parted bytes content)
                      (read_chunks-Follows fuel (bytes ++ buffer) left r' next
                        (omega (arith, length-drop chunk_size content)) m t'))
            ])
          ]

nothing_scanned : Scanned
nothing_scanned = record { stats = nothing_read; output = []; kept = []; kept_offset = 0 }

fresh-Tracks : Tracks [] nothing_scanned fresh
unfolding nothing_scanned join
fresh-Tracks = record {
  state_is = refl;
  read_is = refl;
  emitted_is = refl;
  counted = refl;
  invalid = refl;
  observed_is = refl;
  offsets = (refl, omega arith);
}

module _ (policy : InvalidUtf8Policy) (content : Bytes) where
  -- The last call, after the loop.
  abbrev last_emit : Reading → Result Reading
  last_emit reading = emit_valid_utf8 policy [] reading.stats.bytes_read true reading

  Ends : Result Reading → Type 0
  Ends answer = Simulates (Tracks content) (scanned_so_far policy true content) answer

  last_emit-Ends :
      (r : Scanned) (reading : Reading)
      → scanned_so_far policy false content ≡ ok r
      → Tracks content r reading
      → Ends (last_emit reading)
  unfolding Ends
  last_emit-Ends r reading m t =
      subst (λ (b : Bytes). Simulates (Tracks b) (scanned_so_far policy true b) (last_emit reading))
        (append-nil content)
        (emit-Simulates policy true content [] r reading reading.stats.bytes_read t.read_is m
          (record {
            state_is = t.state_is;
            read_is = t.read_is ∙ ap (λ (b : Bytes). length b % 2 ^ 64) (sym (append-nil content));
            emitted_is = t.emitted_is;
            counted = t.counted;
            invalid = t.invalid;
            observed_is = t.observed_is ∙ sym (append-nil content);
            offsets = t.offsets;
          }))

  failed-Ends : (x : Error) → scanned_so_far policy false content ≡ throw x → Ends (throw x)
  unfolding Ends
  failed-Ends x m =
      subst (λ (b : Bytes). Simulates (Tracks content) (scanned_so_far policy true b) (throw x))
        (append-nil content)
        (subst (λ (s : Result Scanned). Simulates (Tracks content) s (throw x))
          (sym (scanned_keep policy true content [] x m)) refl)

  finish-Ends :
      (answer : Result Reading) → Follows policy content answer → Ends (answer >>= last_emit)
  finish-Ends answer f =
      elim (Simulates-cases (Tracks content) (scanned_so_far policy false content) answer f) [
        | inr (x, m, n) ↦ rw n (failed-Ends x m)
        | inl (r, reading, m, n, t) ↦ rw n (last_emit-Ends r reading m t)
      ]

-- What one scan of the whole content answers: the statistics and the text.
unfoldable pub read_whole : InvalidUtf8Policy → Bytes → Result (TextReadStats × Bytes)
read_whole policy content = do
  r ← whole policy true 0 content nothing_read []
  ok (
    record {
      bytes_read = length content % 2 ^ 64;
      bytes_emitted = length r.output % 2 ^ 64;
      invalid_sequence_count = r.stats.invalid_sequence_count;
    },
    r.output,
  )

-- The statistics, the text that the consumer received, and the bytes that the source consumer saw.
abbrev pub received : Reading → TextReadStats × Bytes × Bytes
received reading = (reading.stats, join reading.emitted, join reading.observed)

tracks_received :
    (content : Bytes) (r : Scanned) (reading : Reading)
    → Tracks content r reading
    → received reading ≡ (
      record {
        bytes_read = length content % 2 ^ 64;
        bytes_emitted = length r.output % 2 ^ 64;
        invalid_sequence_count = r.stats.invalid_sequence_count;
      },
      r.output,
      content,
    )
tracks_received content r reading t = λ i. (
  record {
    bytes_read = t.read_is i;
    bytes_emitted = t.counted i;
    invalid_sequence_count = t.invalid i;
  },
  t.emitted_is i,
  t.observed_is i,
)

-- Reading a file that stays readable, with any chunk size that the reader accepts, comes to the same
-- as one scan of its whole content: the same statistics and the same text, in whatever chunks, or the
-- same error at the same offset. The source consumer sees the content, byte for byte.
pub read-read_whole :
    (policy : InvalidUtf8Policy) (chunk_size : ℕ) (content : Bytes)
    → 1 ≤ chunk_size
    → chunk_size < 2 ^ 63
    → (read policy chunk_size (some (record { content = content; is_broken = false }))
        >>= λ reading. ok (received reading))
      ≡ (read_whole policy content >>= λ (stats, text). ok (stats, text, content))
unfolding read read_whole Ends scan nothing_scanned
read-read_whole policy chunk_size content some_ small =
    let loop = read_chunks (suc (length content)) policy chunk_size false content fresh in
    let f =
      read_chunks-Follows policy chunk_size some_ (suc (length content)) [] content nothing_scanned
        fresh (omega arith) refl fresh-Tracks in
    let valid : (chunk_size == 0 || ltb max_stream_size chunk_size) ≡ false = ground arith in
    rw valid (
      sym (
        >>=-assoc (whole policy true 0 content nothing_read []) _ _
        ∙ Simulates-eq (Tracks content) (whole policy true 0 content nothing_read [])
            (loop >>= last_emit policy content) _ _ (finish-Ends policy content loop f)
            (λ r reading t. ap ok (sym (tracks_received content r reading t)))))
