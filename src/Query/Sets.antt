-- ===== src/Query/Sets.antt =====
-- The ordered sets of document identifiers of src/query/query_evaluator.cpp: intersect_ids,
-- union_ids and complement_ids, with the merges of std::set_intersection, std::set_union and
-- std::set_difference.
pub mod Members
use snow_seek.Prelude.{List, [], if◌then◌else◌, ltb, ℕ, ◌∷◌}

abbrev pub DocumentIds : Type 0
DocumentIds = List ℕ

unfoldable pub intersect_ids : DocumentIds → DocumentIds → DocumentIds
intersect_ids [] right = []
intersect_ids (x ∷ left) [] = []
intersect_ids (x ∷ left) (y ∷ right) =
    let skip_left = intersect_ids left (y ∷ right) in
    let skip_right = intersect_ids (x ∷ left) right in
    let both = intersect_ids left right in
    if ltb x y then skip_left else if ltb y x then skip_right else x ∷ both

unfoldable pub union_ids : DocumentIds → DocumentIds → DocumentIds
union_ids [] right = right
union_ids (x ∷ left) [] = x ∷ left
union_ids (x ∷ left) (y ∷ right) =
    let take_left = union_ids left (y ∷ right) in
    let take_right = union_ids (x ∷ left) right in
    let both = union_ids left right in
    if ltb x y then x ∷ take_left else if ltb y x then y ∷ take_right else x ∷ both

-- std::set_difference.
unfoldable pub complement_ids : DocumentIds → DocumentIds → DocumentIds
complement_ids [] excluded = []
complement_ids (x ∷ universe) [] = x ∷ universe
complement_ids (x ∷ universe) (y ∷ excluded) =
    let keep = complement_ids universe (y ∷ excluded) in
    let pass = complement_ids (x ∷ universe) excluded in
    let drop_both = complement_ids universe excluded in
    if ltb x y then x ∷ keep else if ltb y x then pass else drop_both
