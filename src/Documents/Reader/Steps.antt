-- ===== src/Documents/Reader/Steps.antt =====
-- A round of the main loop of `emit_valid_utf8` in src/document/text_reader.cpp, on an input and on a
-- longer one.
use snow_seek.Documents.Reader.{
  Step, copy, keep, multibyte_step, next_step, sequence_length, skip, valid_more,
}
use snow_seek.Prelude.{
  Bool, Bool-cases, Bytes, [], arith, false, if_intro, inl, inr, length, length-append, ltb,
  ltb-false, ltb→lt, min, refl, suc, true, zero, ℕ, ◌++◌, ◌-◌, ◌<◌, ◌==◌, ◌∷◌, ◌≡◌, ◌≢◌, ◌≤◌, ◌⊎◌,
}

valid_more-le :
    (rounds lead : ℕ) (second : Bool) (xs : Bytes)
    → (valid_more rounds lead second xs ≤ rounds) × (valid_more rounds lead second xs ≤ length xs)
unfolding valid_more
valid_more-le zero lead second xs = (omega arith, omega arith)
valid_more-le (suc rounds) lead second [] = (omega arith, omega arith)
valid_more-le (suc rounds) lead second (x ∷ xs) = ground (arith, valid_more-le rounds lead false xs)

-- Bytes after those that are checked do not matter.
valid_more-append :
    (rounds lead : ℕ) (second : Bool) (xs ys : Bytes)
    → rounds ≤ length xs
    → valid_more rounds lead second (xs ++ ys) ≡ valid_more rounds lead second xs
unfolding valid_more
valid_more-append zero lead second xs ys h = refl
valid_more-append (suc rounds) lead second [] ys h = absurd (omega arith)
valid_more-append (suc rounds) lead second (x ∷ xs) ys h =
    ground (arith, valid_more-append rounds lead false xs ys (omega arith))

-- Nor do they after an invalid byte.
valid_more-stopped :
    (rounds more lead : ℕ) (second : Bool) (xs ys : Bytes)
    → rounds ≤ length xs
    → rounds ≤ more
    → valid_more rounds lead second xs < rounds
    → valid_more more lead second (xs ++ ys) ≡ valid_more rounds lead second xs
unfolding valid_more
valid_more-stopped zero more lead second xs ys h k lt = absurd (omega arith)
valid_more-stopped (suc rounds) zero lead second xs ys h k lt = absurd (omega arith)
valid_more-stopped (suc rounds) (suc more) lead second [] ys h k lt = absurd (omega arith)
valid_more-stopped (suc rounds) (suc more) lead second (x ∷ xs) ys h k lt =
    ground (arith, valid_more-stopped rounds more lead false xs ys (omega arith) (omega arith), lt)

module _ (final : Bool) (expected lead : ℕ) (xs ys : Bytes) where
  whole_sequence :
      expected ≤ suc (length xs)
      → multibyte_step final expected lead (xs ++ ys) ≡ multibyte_step false expected lead xs
  unfolding multibyte_step
  whole_sequence h =
      ground
        (arith, length-append xs ys, valid_more-append (expected - 1) lead true xs ys (omega arith))

  cut_sequence :
      suc (length xs) < expected
      → multibyte_step false expected lead xs ≢ keep
      → multibyte_step final expected lead (xs ++ ys) ≡ multibyte_step false expected lead xs
  unfolding multibyte_step
  cut_sequence h k = ground (
    arith,
    length-append xs ys,
    valid_more-stopped (length xs) (min (suc (length (xs ++ ys))) expected - 1) lead true xs ys
        (omega arith),
    k,
  )

-- What a round decided does not change with more input, unless it kept the rest.
pub next_step-extend :
    (final : Bool) (lead : ℕ) (xs ys : Bytes)
    → next_step false lead xs ≢ keep
    → next_step final lead (xs ++ ys) ≡ next_step false lead xs
unfolding next_step
next_step-extend final lead xs ys k =
    let n = sequence_length lead in
    elim (Bool-cases (ltb (suc (length xs)) n)) [
      | inl cut ↦ ground (arith, cut_sequence final n lead xs ys (ltb→lt _ _ cut), k)
      | inr whole ↦ ground (arith, whole_sequence final n lead xs ys (ltb-false _ _ whole))
    ]

-- A round takes a byte at least, and no more than there are.
abbrev pub Takes : ℕ → Step → Type 0
Takes available (copy n) = (1 ≤ n) × (n ≤ available)
Takes available (skip n) = (1 ≤ n) × (n ≤ available)
Takes available keep = Unit {0}

multibyte_step-Takes :
    (final : Bool) (expected lead : ℕ) (rest : Bytes)
    → 1 ≤ expected
    → Takes (suc (length rest)) (multibyte_step final expected lead rest)
unfolding multibyte_step
multibyte_step-Takes final expected lead rest h =
    let a = suc (length rest) in
    let c = min a expected in
    let v = suc (valid_more (c - 1) lead true rest) in
    let bound = valid_more-le (c - 1) lead true rest in
    if_intro (Takes a) (ltb v c) _ _ (λ bad. (omega arith, omega arith))
      (λ good.
        if_intro (Takes a) (ltb a expected) _ _
          (λ short. if_intro (Takes a) final _ _ (λ last. (omega arith, omega arith)) (λ more. tt))
          (λ enough. (omega arith, ltb-false a expected enough)))

pub next_step-Takes :
    (final : Bool) (lead : ℕ) (rest : Bytes) → Takes (suc (length rest)) (next_step final lead rest)
unfolding next_step
next_step-Takes final lead rest =
    let a = suc (length rest) in
    let n = sequence_length lead in
    if_intro (Takes a) (n == 1) _ _ (λ one. (omega arith, omega arith))
      (λ many.
        if_intro (Takes a) (n == 0) _ _ (λ none_. (omega arith, omega arith))
          (λ some_. multibyte_step-Takes final n lead rest (ground (arith, some_))))

-- The last call keeps nothing.
pub next_step-ne-keep : (lead : ℕ) (rest : Bytes) → next_step true lead rest ≢ keep
unfolding next_step multibyte_step
next_step-ne-keep lead rest e = ground (arith, e)

pub Step-cases :
    (step : Step) → ((n : ℕ) × (step ≡ copy n)) ⊎ (((n : ℕ) × (step ≡ skip n)) ⊎ (step ≡ keep))
Step-cases (copy n) = inl (n, refl)
Step-cases (skip n) = inr (inl (n, refl))
Step-cases keep = inr (inr refl)
