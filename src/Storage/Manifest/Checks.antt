-- ===== src/Storage/Manifest/Checks.antt =====
-- `validate_manifest` against an independent description.
use snow_seek.Prelude.{
  All, List, [], arith, bind_then, false, is_empty, leb, length, ltb, ok, refl, suc, throw_if_then,
  ℕ, ◌<◌, ◌==◌, ◌^◌, ◌||◌, ◌↔◌, ◌∷◌, ◌≡◌,
}
use snow_seek.Prelude.Ascending.{From}
use snow_seek.Storage.Manifest.{IndexManifest, back, max_u32, validate_ids, validate_manifest}

-- What a valid Manifest is: SegmentIds that are nonzero and ascend strictly, one at least and at
-- most 2 ^ 32 - 1 of them, all below the next one to be given out.
pub record IsManifest (manifest : IndexManifest) : Type 0 where
  pub generation_pos : 0 < manifest.generation
  pub some_segment : 0 < length manifest.active_segments
  pub representable : length manifest.active_segments < 2 ^ 32
  pub ascending : From 1 manifest.active_segments
  pub next_above : All (λ s. s < manifest.next_segment_id) manifest.active_segments

validate_ids→From :
    (previous : ℕ) (ids : List ℕ) → validate_ids previous ids ≡ ok tt → From (suc previous) ids
unfolding validate_ids
validate_ids→From previous [] e = tt
validate_ids→From previous (id ∷ ids) e =
    throw_if_then (id == 0 || leb id previous) _ _ e
      λ good rest. (ground (arith, good), validate_ids→From id ids rest)

From→validate_ids :
    (previous : ℕ) (ids : List ℕ) → From (suc previous) ids → validate_ids previous ids ≡ ok tt
unfolding validate_ids
From→validate_ids previous [] f = refl
From→validate_ids previous (id ∷ ids) f = ground (arith, From→validate_ids id ids f.1)

-- In an ascending list the last number is the greatest.
back_above :
    (lo next : ℕ) (ids : List ℕ)
    → From lo ids
    → back ids < next
    → 0 < length ids
    → All (λ s. s < next) ids
unfolding back
back_above lo next [] f h n = tt
back_above lo next (id ∷ []) f h n = (h, tt)
back_above lo next (id ∷ id' ∷ ids) f h n =
    let rest = back_above (suc id) next (id' ∷ ids) f.1 h (omega arith) in
    (omega (arith, rest.0, f.1.0), rest)

above_back : (next : ℕ) (ids : List ℕ) → 0 < length ids → All (λ s. s < next) ids → back ids < next
unfolding back
above_back next [] n h = absurd (omega arith)
above_back next (id ∷ []) n h = h.0
above_back next (id ∷ id' ∷ ids) n h = above_back next (id' ∷ ids) (omega arith) h.1

pub validate_manifest→IsManifest :
    (manifest : IndexManifest) → validate_manifest manifest ≡ ok tt → IsManifest manifest
unfolding validate_manifest
validate_manifest→IsManifest manifest e =
    let ids = manifest.active_segments in
    throw_if_then (manifest.generation == 0) _ _ e λ c1 e1.
      throw_if_then (is_empty ids || ltb max_u32 (length ids)) _ _ e1 λ c2 e2.
        bind_then (validate_ids 0 ids) _ e2 λ t valid e3.
          let f = validate_ids→From 0 ids valid in
          let (nonempty, few) = list_size ids c2 in
          record {
            generation_pos = ground (arith, c1);
            some_segment = nonempty;
            representable = few;
            ascending = f;
            next_above = back_above 1 manifest.next_segment_id ids f (ground (arith, e3)) nonempty;
          }
  where
    list_size :
        (ids : List ℕ)
        → (is_empty ids || ltb max_u32 (length ids)) ≡ false
        → (0 < length ids) × (length ids < 2 ^ 32)
    list_size [] c = cc
    list_size (id ∷ ids) c = ground arith

pub IsManifest→validate_manifest :
    (manifest : IndexManifest) → IsManifest manifest → validate_manifest manifest ≡ ok tt
unfolding validate_manifest
IsManifest→validate_manifest manifest v = ground (
  arith,
  From→validate_ids 0 manifest.active_segments v.ascending,
  above_back manifest.next_segment_id manifest.active_segments v.some_segment v.next_above,
  is_empty-false manifest.active_segments v.some_segment,
)
  where
    is_empty-false : (ids : List ℕ) → 0 < length ids → is_empty ids ≡ false
    is_empty-false [] h = absurd (omega arith)
    is_empty-false (id ∷ ids) h = refl

-- `validate_manifest` accepts exactly the Manifests of a nonzero generation whose SegmentIds are
-- nonzero, strictly ascending and below the next one, of which there is one at least and fewer
-- than 2 ^ 32.
pub validate_manifest-IsManifest :
    (manifest : IndexManifest) → (validate_manifest manifest ≡ ok tt) ↔ IsManifest manifest
validate_manifest-IsManifest manifest =
    (validate_manifest→IsManifest manifest, IsManifest→validate_manifest manifest)
