-- ===== src/Index/Entries.antt =====
-- The entries of the index of src/index/index.cpp after an assignment.
use snow_seek.Index.{PostingList, assign, bytes_less, lookup}
use snow_seek.Index.Order.{bytes_less_irrefl}
use snow_seek.Prelude.{
  Bytes, List, Option, [], arith, bytes_eq, bytes_eq_refl, bytes_eq→eq, if_intro, none, refl, some,
  true, ◌∷◌, ◌≡◌,
}

pub lookup-assign_self :
    (text : Bytes) (postings : PostingList) (entries : List (Bytes × PostingList))
    → lookup text (assign text postings entries) ≡ some postings
unfolding lookup assign
lookup-assign_self text postings [] = ground (arith, bytes_eq_refl text)
lookup-assign_self text postings ((key, old) ∷ entries) =
    ground (arith, bytes_eq_refl text, lookup-assign_self text postings entries)

abbrev pub AllKeys : (Bytes → Type 0) → List (Bytes × PostingList) → Type 0
AllKeys P [] = Unit {0}
AllKeys P ((key, postings) ∷ entries) = P key × AllKeys P entries

pub AllKeys-map :
    (P Q : Bytes → Type 0) (entries : List (Bytes × PostingList))
    → ((key : Bytes) → P key → Q key)
    → AllKeys P entries
    → AllKeys Q entries
AllKeys-map P Q [] f h = tt
AllKeys-map P Q ((key, postings) ∷ entries) f h = (f key h.0, AllKeys-map P Q entries f h.1)

pub assign-AllKeys :
    (P : Bytes → Type 0) (text : Bytes) (postings : PostingList)
    (entries : List (Bytes × PostingList))
    → P text
    → AllKeys P entries
    → AllKeys P (assign text postings entries)
unfolding assign
assign-AllKeys P text postings [] p h = (p, tt)
assign-AllKeys P text postings ((key, old) ∷ entries) p h =
    if_intro (λ later. AllKeys P later) (bytes_eq text key) _ _ (λ same. h)
      (λ other. (h.0, assign-AllKeys P text postings entries p h.1))

same_text :
    (text key : Bytes) (postings : Option PostingList)
    → bytes_eq text key ≡ true
    → bytes_less key text ≡ true
    → postings ≡ none
same_text text key postings e h =
    let same = bytes_eq→eq text key e in cc (bytes_less_irrefl text, same, h)

-- A text that is after every key is not there.
pub lookup-eq-none :
    (text : Bytes) (entries : List (Bytes × PostingList))
    → AllKeys (λ key. bytes_less key text ≡ true) entries
    → lookup text entries ≡ none
unfolding lookup
lookup-eq-none text [] h = refl
lookup-eq-none text ((key, postings) ∷ entries) h =
    if_intro (λ found. found ≡ none) (bytes_eq text key) _ _ (λ same. same_text text key _ same h.0)
      (λ other. lookup-eq-none text entries h.1)
