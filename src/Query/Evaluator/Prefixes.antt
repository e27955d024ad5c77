-- ===== src/Query/Evaluator/Prefixes.antt =====
-- The expansion of a prefix by src/query/query_evaluator.cpp, in a sorted vocabulary.
use snow_seek.Index.{InMemoryIndex, PostingList, bytes_less, insert, sorted_keys, sorted_terms}
use snow_seek.Prelude.{
  Bool, Bool-cases, Bytes, List, [], arith, false, if_intro, inl, inr, refl, true, ◌&&◌, ◌||◌, ◌∙◌,
  ◌∷◌, ◌≡◌,
}
use snow_seek.Query.Evaluator.{expansion, leading}
use snow_seek.Query.Filter.{starts_with}

starts_with-not_less : (n text : Bytes) → starts_with n text ≡ true → bytes_less n text ≡ false
unfolding starts_with bytes_less
starts_with-not_less n [] h = refl
starts_with-not_less [] (p ∷ text) h = cc
starts_with-not_less (c ∷ n) (p ∷ text) h = ground (arith, h, starts_with-not_less n text)

less_trans :
    (m n text : Bytes)
    → bytes_less m n ≡ false
    → bytes_less n text ≡ false
    → bytes_less m text ≡ false
unfolding bytes_less
less_trans m n [] h k = refl
less_trans m [] (p ∷ text) h k = cc
less_trans [] (c ∷ n) (p ∷ text) h k = cc
less_trans (d ∷ m) (c ∷ n) (p ∷ text) h k = ground (arith, h, k, less_trans m n text)

less_asym : (a b : Bytes) → bytes_less a b ≡ true → bytes_less b a ≡ false
unfolding bytes_less
less_asym a [] h = cc
less_asym [] (y ∷ b) h = refl
less_asym (x ∷ a) (y ∷ b) h = ground (arith, h, less_asym a b)

-- After a term that is past the prefix, none begins with it.
past_prefix :
    (m n text : Bytes)
    → bytes_less m n ≡ false
    → bytes_less n text ≡ false
    → starts_with n text ≡ false
    → starts_with m text ≡ false
unfolding bytes_less starts_with
past_prefix m n [] h k s = cc
past_prefix m [] (p ∷ text) h k s = cc
past_prefix [] (c ∷ n) (p ∷ text) h k s = refl
past_prefix (d ∷ m) (c ∷ n) (p ∷ text) h k s = ground (arith, h, k, s, past_prefix m n text)

abbrev pub Ordered : List Bytes → Type 0
Ordered [] = Unit {0}
Ordered (x ∷ []) = Unit {0}
Ordered (x ∷ y ∷ xs) = (bytes_less y x ≡ false) × Ordered (y ∷ xs)

insert-Ordered : (name : Bytes) (terms : List Bytes) → Ordered terms → Ordered (insert name terms)
unfolding insert
insert-Ordered name [] o = tt
insert-Ordered name (x ∷ []) o =
    if_intro Ordered (bytes_less x name) _ _ (λ e. (less_asym x name e, tt)) λ e. (e, tt)
insert-Ordered name (x ∷ y ∷ terms) (h, o) =
    if_intro Ordered (bytes_less x name) _ _
      (λ e.
        if_intro (λ r. Ordered r → Ordered (x ∷ r)) (bytes_less y name) _ _ (λ _ o'. (h, o'))
          (λ _ o'. (less_asym x name e, o')) (insert-Ordered name (y ∷ terms) o))
      λ e. (e, (h, o))

sorted_keys-Ordered : (entries : List (Bytes × PostingList)) → Ordered (sorted_keys entries)
unfolding sorted_keys
sorted_keys-Ordered [] = tt
sorted_keys-Ordered ((key, postings) ∷ entries) =
    insert-Ordered key (sorted_keys entries) (sorted_keys-Ordered entries)

-- Whether some text passes a test.
unfoldable pub any_of : (Bytes → Bool) → List Bytes → Bool
any_of test [] = false
any_of test (x ∷ xs) = test x || any_of test xs

none_past :
    (test : Bytes → Bool) (text n : Bytes) (terms : List Bytes)
    → Ordered (n ∷ terms)
    → bytes_less n text ≡ false
    → starts_with n text ≡ false
    → any_of (λ x. starts_with x text && test x) terms ≡ false
unfolding any_of
none_past test text n [] o k s = refl
none_past test text n (m ∷ terms) (h, o) k s =
    let s' = past_prefix m n text h k s in
    ground (arith, s', none_past test text m terms o (less_trans m n text h k) s')

leading-any_of :
    (test : Bytes → Bool) (text n : Bytes) (terms : List Bytes)
    → Ordered (n ∷ terms)
    → bytes_less n text ≡ false
    → any_of test (leading (n ∷ terms) text)
      ≡ any_of (λ x. starts_with x text && test x) (n ∷ terms)
unfolding any_of leading
leading-any_of test text n [] o k = ground arith
leading-any_of test text n (m ∷ terms) (h, o) k = elim (Bool-cases (starts_with n text)) [
  | inl s ↦ ground (arith, s, leading-any_of test text m terms o (less_trans m n text h k))
  | inr s ↦ ground (arith, s, none_past test text n (m ∷ terms) (h, o) k s)
]

tail-Ordered : (n : Bytes) (terms : List Bytes) → Ordered (n ∷ terms) → Ordered terms
tail-Ordered n [] o = tt
tail-Ordered n (m ∷ terms) (h, o) = o

pub expansion-any_of :
    (test : Bytes → Bool) (text : Bytes) (terms : List Bytes)
    → Ordered terms
    → any_of test (expansion terms text) ≡ any_of (λ x. starts_with x text && test x) terms
unfolding any_of expansion
expansion-any_of test text [] o = refl
expansion-any_of test text (n ∷ terms) o = elim (Bool-cases (bytes_less n text)) [
  | inl e ↦
      let s : starts_with n text ≡ false = ground (arith, e, starts_with-not_less n text) in
      rw (e, s) (expansion-any_of test text terms (tail-Ordered n terms o))
  | inr e ↦ rw e (leading-any_of test text n terms o e)
]

insert-any_of :
    (test : Bytes → Bool) (name : Bytes) (terms : List Bytes)
    → any_of test (insert name terms) ≡ (test name || any_of test terms)
unfolding any_of insert
insert-any_of test name [] = refl
insert-any_of test name (x ∷ terms) = ground (arith, insert-any_of test name terms)

-- Whether some key of the dictionary passes a test.
unfoldable pub any_key : (Bytes → Bool) → List (Bytes × PostingList) → Bool
any_key test [] = false
any_key test ((key, postings) ∷ entries) = test key || any_key test entries

sorted_keys-any_of :
    (test : Bytes → Bool) (entries : List (Bytes × PostingList))
    → any_of test (sorted_keys entries) ≡ any_key test entries
unfolding any_of sorted_keys any_key
sorted_keys-any_of test [] = refl
sorted_keys-any_of test ((key, postings) ∷ entries) =
    ground (arith, insert-any_of test key (sorted_keys entries), sorted_keys-any_of test entries)

-- A test holds of some term that a prefix expands to in an index just when it holds of some term of
-- the index that begins with the prefix.
pub expansion-any_key :
    (test : Bytes → Bool) (text : Bytes) (index : InMemoryIndex)
    → any_of test (expansion (sorted_terms index) text)
      ≡ any_key (λ x. starts_with x text && test x) index.dictionary
unfolding sorted_terms
expansion-any_key test text index =
    expansion-any_of test text (sorted_keys index.dictionary) (sorted_keys-Ordered index.dictionary)
    ∙ sorted_keys-any_of (λ x. starts_with x text && test x) index.dictionary
