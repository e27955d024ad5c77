-- ===== src/Query/Sets/Members.antt =====
-- The members of the ordered sets' intersection, union and difference, and their order.
use snow_seek.Prelude.{
  [], arith, if_intro, ltb, ltb→lt, not, refl, suc, ℕ, ◌&&◌, ◌==◌, ◌||◌, ◌∷◌, ◌≡◌,
}
use snow_seek.Prelude.Ascending.{From, From-lower, member, member-From}
use snow_seek.Query.Sets.{DocumentIds, complement_ids, intersect_ids, union_ids}

pub From-intersect_ids :
    (lo : ℕ) (left right : DocumentIds)
    → From lo left
    → From lo right
    → From lo (intersect_ids left right)
unfolding intersect_ids
From-intersect_ids lo [] right f g = tt
From-intersect_ids lo (x ∷ left) [] f g = tt
From-intersect_ids lo (x ∷ left) (y ∷ right) (fx, f) (gy, g) =
    if_intro (From lo) (ltb x y) _ _
      (λ e.
        From-intersect_ids lo left (y ∷ right) (From-lower (suc x) lo left (omega arith) f) (gy, g))
      λ a.
        if_intro (From lo) (ltb y x) _ _
          (λ e.
            From-intersect_ids lo (x ∷ left) right (fx, f)
              (From-lower (suc y) lo right (omega arith) g))
          λ b. (
            fx,
            From-intersect_ids (suc x) left right f
                (From-lower (suc y) (suc x) right (ground (arith, a, b)) g),
          )

pub From-union_ids :
    (lo : ℕ) (left right : DocumentIds)
    → From lo left
    → From lo right
    → From lo (union_ids left right)
unfolding union_ids
From-union_ids lo [] right f g = g
From-union_ids lo (x ∷ left) [] f g = f
From-union_ids lo (x ∷ left) (y ∷ right) (fx, f) (gy, g) =
    if_intro (From lo) (ltb x y) _ _
      (λ a. (fx, From-union_ids (suc x) left (y ∷ right) f (ltb→lt x y a, g)))
      λ a.
        if_intro (From lo) (ltb y x) _ _
          (λ b. (gy, From-union_ids (suc y) (x ∷ left) right (ltb→lt y x b, f) g))
          λ b. (
            fx,
            From-union_ids (suc x) left right f
                (From-lower (suc y) (suc x) right (ground (arith, a, b)) g),
          )

pub From-complement_ids :
    (lo : ℕ) (universe excluded : DocumentIds)
    → From lo universe
    → From lo (complement_ids universe excluded)
unfolding complement_ids
From-complement_ids lo [] excluded f = tt
From-complement_ids lo (x ∷ universe) [] f = f
From-complement_ids lo (x ∷ universe) (y ∷ excluded) (fx, f) =
    if_intro (From lo) (ltb x y) _ _
      (λ _. (fx, From-complement_ids (suc x) universe (y ∷ excluded) f))
      λ _.
        if_intro (From lo) (ltb y x) _ _
          (λ _. From-complement_ids lo (x ∷ universe) excluded (fx, f))
          λ _.
            From-lower (suc x) lo (complement_ids universe excluded) (omega arith)
              (From-complement_ids (suc x) universe excluded f)

-- A document is in the intersection of two ascending lists just when it is in both.
pub member-intersect_ids :
    (d lo : ℕ) (left right : DocumentIds)
    → From lo left
    → From lo right
    → member d (intersect_ids left right) ≡ (member d left && member d right)
unfolding intersect_ids member
member-intersect_ids d lo [] right f g = refl
member-intersect_ids d lo (x ∷ left) [] f g = ground arith
member-intersect_ids d lo (x ∷ left) (y ∷ right) (fx, f) (gy, g) =
    if_intro (λ r. member d r ≡ ((d == x || member d left) && (d == y || member d right))) (ltb x y)
      _ _
      (λ a. ground (
        arith,
        a,
        member-intersect_ids d lo left (y ∷ right) (From-lower (suc x) lo left (omega arith) f)
            (gy, g),
        member-From d (suc y) right g,
      ))
      λ a.
        if_intro (λ r. member d r ≡ ((d == x || member d left) && (d == y || member d right)))
          (ltb y x) _ _
          (λ b. ground (
            arith,
            b,
            member-intersect_ids d lo (x ∷ left) right (fx, f)
                (From-lower (suc y) lo right (omega arith) g),
            member-From d (suc x) left f,
          ))
          λ b. ground (
            arith,
            a,
            b,
            member-intersect_ids d (suc x) left right f
                (From-lower (suc y) (suc x) right (ground (arith, a, b)) g),
            member-From d (suc x) left f,
            member-From d (suc y) right g,
          )

-- A document is in the union of two lists just when it is in one of them.
pub member-union_ids :
    (d : ℕ) (left right : DocumentIds)
    → member d (union_ids left right) ≡ (member d left || member d right)
unfolding union_ids member
member-union_ids d [] right = refl
member-union_ids d (x ∷ left) [] = ground arith
member-union_ids d (x ∷ left) (y ∷ right) =
    if_intro (λ r. member d r ≡ ((d == x || member d left) || (d == y || member d right))) (ltb x y)
      _ _ (λ a. ground (arith, a, member-union_ids d left (y ∷ right)))
      λ a.
        if_intro (λ r. member d r ≡ ((d == x || member d left) || (d == y || member d right)))
          (ltb y x) _ _ (λ b. ground (arith, b, member-union_ids d (x ∷ left) right))
          λ b. ground (arith, a, b, member-union_ids d left right)

-- A document is in the difference of two ascending lists just when it is in the first and not in the
-- second.
pub member-complement_ids :
    (d lo : ℕ) (universe excluded : DocumentIds)
    → From lo universe
    → From lo excluded
    → member d (complement_ids universe excluded) ≡ (member d universe && not (member d excluded))
unfolding complement_ids member
member-complement_ids d lo [] excluded f g = refl
member-complement_ids d lo (x ∷ universe) [] f g = ground arith
member-complement_ids d lo (x ∷ universe) (y ∷ excluded) (fx, f) (gy, g) =
    if_intro
      (λ r. member d r ≡ ((d == x || member d universe) && not (d == y || member d excluded)))
      (ltb x y) _ _
      (λ a. ground (
        arith,
        a,
        member-complement_ids d lo universe (y ∷ excluded)
            (From-lower (suc x) lo universe (omega arith) f) (gy, g),
        member-From d (suc y) excluded g,
      ))
      λ a.
        if_intro
          (λ r. member d r ≡ ((d == x || member d universe) && not (d == y || member d excluded)))
          (ltb y x) _ _
          (λ b. ground (
            arith,
            b,
            member-complement_ids d lo (x ∷ universe) excluded (fx, f)
                (From-lower (suc y) lo excluded (omega arith) g),
            member-From d (suc x) universe f,
          ))
          λ b. ground (
            arith,
            a,
            b,
            member-complement_ids d (suc x) universe excluded f
                (From-lower (suc y) (suc x) excluded (ground (arith, a, b)) g),
            member-From d (suc x) universe f,
          )
