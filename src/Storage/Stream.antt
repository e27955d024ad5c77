-- ===== src/Storage/Stream.antt =====
-- The parts of the standard streams that src/storage/binary_codec.cpp uses. An output stream has
-- the bytes that it took; `room` is how many more it takes, or none for a stringstream, which grows
-- at will. A write that meets the limit keeps what fits and marks the stream as failed, and a failed
-- stream takes nothing. An input stream is the bytes that are left; every read here throws when it
-- comes up short, so a failed input stream is never read again.
use snow_seek.Prelude.{
  Bool, Bytes, List, Option, [], ap, append_assoc, arith, false, if◌then◌else◌, leb, length,
  length-append, none, refl, some, suc, sym, take, true, zero, ℕ, ◌++◌, ◌+◌, ◌-◌, ◌<◌, ◌∙◌, ◌∷◌,
  ◌≡◌, ◌≤◌,
}

pub record Output : Type 0 where
  pub written : Bytes
  pub room : Option ℕ
  pub good : Bool

-- std::ostringstream, empty.
abbrev pub string_stream : Output
string_stream = record { written = []; room = none; good = true }

take_write : Option ℕ → Bytes → Output → Output
take_write none bytes out = record out { written = out.written ++ bytes }
take_write (some n) bytes out = record out {
  written = out.written ++ take n bytes;
  room = some (n - length bytes);
  good = leb (length bytes) n;
}

-- std::ostream::write.
unfoldable pub write : Output → Bytes → Output
unfolding take_write
write out bytes = if out.good then take_write out.room bytes out else out

-- `fits r bytes` says that a stream with room `r` takes all the bytes.
abbrev pub Fits : Option ℕ → ℕ → Type 0
Fits none n = Unit {0}
Fits (some m) n = n ≤ m

abbrev pub room_less : Option ℕ → ℕ → Option ℕ
room_less none n = none
room_less (some m) n = some (m - n)

-- What a stream is after it took some bytes whole.
abbrev pub took : Output → Bytes → Output
took out bytes = record {
  written = out.written ++ bytes;
  room = room_less out.room (length bytes);
  good = true;
}

pub take_all {ℓ} : {A : Type ℓ} (n : ℕ) (xs : List A) → length xs ≤ n → take n xs ≡ xs
take_all zero [] h = refl
take_all zero (x ∷ xs) h = absurd (omega arith)
take_all (suc n) [] h = refl
take_all (suc n) (x ∷ xs) h = λ i. x ∷ take_all n xs (omega arith) i

take_write-took :
    (r : Option ℕ) (out : Output) (bytes : Bytes)
    → out.good ≡ true
    → out.room ≡ r
    → Fits r (length bytes)
    → take_write r bytes out
      ≡ record { written = out.written ++ bytes; room = room_less r (length bytes); good = true }
unfolding take_write
take_write-took none out bytes g e f = ground arith
take_write-took (some n) out bytes g e f = ground (arith, take_all n bytes f)

pub write-took :
    (out : Output) (bytes : Bytes)
    → out.good ≡ true
    → Fits out.room (length bytes)
    → write out bytes ≡ took out bytes
unfolding write
write-took out bytes g f = simp g (take_write-took out.room out bytes g refl f)

pub write_short :
    (out : Output) (bytes : Bytes) (n : ℕ)
    → out.room ≡ some n
    → n < length bytes
    → (write out bytes).good ≡ false
unfolding write
write_short out bytes n r h = ground arith

Fits-less : (r : Option ℕ) (m n : ℕ) → Fits r (m + n) → Fits (room_less r m) n
Fits-less none m n f = tt
Fits-less (some k) m n f = omega arith

Fits-le : (r : Option ℕ) (m n : ℕ) → m ≤ n → Fits r n → Fits r m
Fits-le none m n h f = tt
Fits-le (some k) m n h f = omega arith

room_less_add : (r : Option ℕ) (m n : ℕ) → room_less (room_less r m) n ≡ room_less r (m + n)
room_less_add none m n = refl
room_less_add (some k) m n = ground arith

-- A stream that took some bytes and then some more took both.
pub took-took : (out : Output) (xs ys : Bytes) → took (took out xs) ys ≡ took out (xs ++ ys)
took-took out xs ys =
    let room : room_less (room_less out.room (length xs)) (length ys)
        ≡ room_less out.room (length (xs ++ ys)) =
      room_less_add out.room (length xs) (length ys)
      ∙ ap (room_less out.room) (sym (length-append xs ys)) in
    λ i. record { written = append_assoc out.written xs ys i; room = room i; good = true }

-- Room for two byte strings leaves room for the second after the first.
pub Fits-took :
    (out : Output) (xs : Bytes) (n : ℕ) → Fits out.room (length xs + n) → Fits (took out xs).room n
Fits-took out xs n f = Fits-less out.room (length xs) n f

pub Fits-front : (out : Output) (m n : ℕ) → Fits out.room (m + n) → Fits out.room m
Fits-front out m n f = Fits-le out.room m (m + n) (omega arith) f
