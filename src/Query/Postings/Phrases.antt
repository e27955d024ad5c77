-- ===== src/Query/Postings/Phrases.antt =====
-- phrase_matches of src/query/query_evaluator.cpp and the occurrences of a phrase.
use snow_seek.Index.{Posting}
use snow_seek.Prelude.{
  ==_iff, All, Bool-cases, List, Option, [], arith, false, if_intro, inl, inr, leb→le, length, ltb,
  ltb→lt, none, refl, some, suc, true, ℕ, ◌-◌, ◌<◌, ◌==◌, ◌↔◌, ◌∷◌, ◌≡◌, ◌≤◌,
}
use snow_seek.Prelude.Ascending.{From, member}
use snow_seek.Query.Postings.{
  and_then, any_start, chain_end, is_within, matches_postings, next_position,
}

-- One position of each posting, each after the one before, from `previous` to `last`.
abbrev pub IsChain : ℕ → List Posting → ℕ → Type 0
IsChain previous [] last = previous ≡ last
IsChain previous (posting ∷ postings) last =
    (p : ℕ) × (member p posting.positions ≡ true) × (previous < p) × IsChain p postings last

-- An occurrence of a phrase whose span exceeds the adjacent one by no more than `proximity`.
abbrev pub Occurs : Posting → List Posting → ℕ → Type 0
Occurs first postings proximity =
    (start : ℕ) × (last : ℕ) × (member start first.positions ≡ true)
    × IsChain start postings last
    × (last - start - length postings ≤ proximity)

-- The positions of a posting ascend.
abbrev pub Ascends : Posting → Type 0
Ascends posting = From 0 posting.positions

abbrev Next : List ℕ → ℕ → Option ℕ → Type 0
Next positions previous none = (p : ℕ) → member p positions ≡ true → p ≤ previous
Next positions previous (some q) =
    (member q positions ≡ true)
    × (previous < q)
    × ((p : ℕ) → member p positions ≡ true → previous < p → q ≤ p)

member-lower : (p lo : ℕ) (xs : List ℕ) → From lo xs → member p xs ≡ true → lo ≤ p
unfolding member
member-lower p lo [] f m = cc
member-lower p lo (x ∷ xs) (a, f) m = elim (Bool-cases (p == x)) [
  | inl e ↦ ground (arith, e)
  | inr e ↦ omega (arith, member-lower p (suc x) xs f (ground (arith, e, m)))
]

next_position-Next :
    (lo previous : ℕ) (positions : List ℕ)
    → From lo positions
    → Next positions previous (next_position positions previous)
unfolding next_position member
next_position-Next lo previous [] f = λ p m. cc
next_position-Next lo previous (x ∷ positions) (a, f) =
    if_intro (Next (x ∷ positions) previous) (ltb previous x) _ _
      (λ e. (
        ground arith,
        ltb→lt previous x e,
        λ p m _. member-lower p x (x ∷ positions) (omega arith, f) (ground (arith, m)),
      ))
      λ e.
        extend (next_position positions previous) e
          (next_position-Next (suc x) previous positions f)
  where
    extend :
        (r : Option ℕ)
        → ltb previous x ≡ false
        → Next positions previous r
        → Next (x ∷ positions) previous r
    extend none e k = λ p m. elim (Bool-cases (p == x)) [
      | inl s ↦ ground (arith, s, e)
      | inr s ↦ k p (ground (arith, s, m))
    ]
    extend (some q) e (m, l, k) = (
      ground (arith, m),
      l,
      λ p n h. elim (Bool-cases (p == x)) [
        | inl s ↦ ground (arith, s, e, h)
        | inr s ↦ k p (ground (arith, s, n)) h
      ],
    )

step_IsChain :
    (previous last : ℕ) (posting : Posting) (postings : List Posting) (r : Option ℕ)
    → Next posting.positions previous r
    → ((q : ℕ) → chain_end q postings ≡ some last → IsChain q postings last)
    → and_then r (λ p. chain_end p postings) ≡ some last
    → IsChain previous (posting ∷ postings) last
step_IsChain previous last posting postings none n ih e = cc
step_IsChain previous last posting postings (some q) (m, l, k) ih e = (q, m, l, ih q e)

-- The chain that is taken is one.
chain_end-IsChain :
    (previous last : ℕ) (postings : List Posting)
    → All Ascends postings
    → chain_end previous postings ≡ some last
    → IsChain previous postings last
unfolding chain_end
chain_end-IsChain previous last [] h e = cc
chain_end-IsChain previous last (posting ∷ postings) (now, h) e =
    step_IsChain previous last posting postings (next_position posting.positions previous)
      (next_position-Next 0 previous posting.positions now)
      (λ q. chain_end-IsChain q last postings h) e

abbrev Reaches : ℕ → Option ℕ → Type 0
Reaches last r = (e : ℕ) × (r ≡ some e) × (e ≤ last)

step_Reaches :
    (previous start last p : ℕ) (posting : Posting) (postings : List Posting) (r : Option ℕ)
    → Next posting.positions previous r
    → previous ≤ start
    → start < p
    → member p posting.positions ≡ true
    → ((q : ℕ) → q ≤ p → Reaches last (chain_end q postings))
    → Reaches last (and_then r (λ p. chain_end p postings))
step_Reaches previous start last p posting postings none n a l m ih = absurd (omega (arith, n p m))
step_Reaches previous start last p posting postings (some q) (m', l', k) a l m ih =
    ih q (k p m (omega arith))

-- No chain from there or later ends before it.
IsChain-chain_end :
    (previous start last : ℕ) (postings : List Posting)
    → All Ascends postings
    → previous ≤ start
    → IsChain start postings last
    → Reaches last (chain_end previous postings)
unfolding chain_end
IsChain-chain_end previous start last [] h a c = (previous, refl, omega (arith, c))
IsChain-chain_end previous start last (posting ∷ postings) (now, h) a (p, m, l, c) =
    step_Reaches previous start last p posting postings (next_position posting.positions previous)
      (next_position-Next 0 previous posting.positions now) a l m
      λ q le. IsChain-chain_end q p last postings h le c

within_Occurs :
    (first : Posting) (postings : List Posting) (start k : ℕ)
    → All Ascends postings
    → member start first.positions ≡ true
    → is_within start (length postings) k (chain_end start postings) ≡ true
    → Occurs first postings k
within_Occurs first postings start k h m w =
    by_end (chain_end start postings) (λ last. chain_end-IsChain start last postings h) w
  where
    by_end :
        (r : Option ℕ)
        → ((last : ℕ) → r ≡ some last → IsChain start postings last)
        → is_within start (length postings) k r ≡ true
        → Occurs first postings k
    by_end none c w = cc
    by_end (some last) c w =
        (start, last, m, c last refl, leb→le (last - start - length postings) k w)

any_start-Occurs :
    (first : Posting) (postings : List Posting) (k : ℕ) (starts : List ℕ)
    → All Ascends postings
    → ((p : ℕ) → member p starts ≡ true → member p first.positions ≡ true)
    → any_start starts postings k ≡ true
    → Occurs first postings k
unfolding any_start member
any_start-Occurs first postings k [] h sub e = cc
any_start-Occurs first postings k (s ∷ starts) h sub e =
    elim (Bool-cases (is_within s (length postings) k (chain_end s postings))) [
      | inl w ↦ within_Occurs first postings s k h (sub s (ground arith)) w
      | inr w ↦
          any_start-Occurs first postings k starts h (λ p m. sub p (ground (arith, m)))
            (ground (arith, e, w))
    ]

Occurs_any_start :
    (postings : List Posting) (k start last : ℕ) (starts : List ℕ)
    → All Ascends postings
    → member start starts ≡ true
    → IsChain start postings last
    → last - start - length postings ≤ k
    → any_start starts postings k ≡ true
unfolding any_start member
Occurs_any_start postings k start last [] h m c w = cc
Occurs_any_start postings k start last (s ∷ starts) h m c w = elim (Bool-cases (start == s)) [
  | inl e ↦
      let same = (==_iff start s).0 e in
      let (end_, reached, le) = IsChain-chain_end s start last postings h (omega (arith, same)) c in
      let near : is_within s (length postings) k (some end_) ≡ true = ground (arith, same, le, w) in
      rw (reached, near) refl
  | inr e ↦
      ground (arith, Occurs_any_start postings k start last starts h (ground (arith, e, m)) c w)
]

-- In ascending positions, the postings of a document match a phrase just when the phrase occurs in
-- it: one position of each term, in order, with a span that exceeds the adjacent one by no more than
-- the proximity.
pub matches_postings-Occurs :
    (first : Posting) (postings : List Posting) (proximity : ℕ)
    → All Ascends postings
    → (matches_postings (some (first ∷ postings)) proximity ≡ true)
      ↔ Occurs first postings proximity
unfolding matches_postings
matches_postings-Occurs first postings k h = (
  any_start-Occurs first postings k first.positions h (λ p m. m),
  λ (start, last, m, c, w). Occurs_any_start postings k start last first.positions h m c w,
)
