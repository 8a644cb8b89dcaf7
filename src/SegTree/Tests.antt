-- ===== src/SegTree/Tests.antt =====
-- Two segments, and the theorems at them.
use openeuler_ummu.Base.{ℕ, ◌+◌, ◌≡◌, refl, none, some, List, [], ◌∷◌, arith, ◌⊎◌, inl, inr, einval}
use openeuler_ummu.SegTree.{
  Range, range, range_match, range_overlap, range_not_exist, map_find, ummu_insert_seg,
  ummu_find_seg, ummu_delete_seg,
}
use openeuler_ummu.SegTree.Cover.{Ordered}
use openeuler_ummu.SegTree.Find.{Has, FindResult, ummu_find_seg-FindResult}
use openeuler_ummu.SegTree.Insert.{Inserted, Clash, ummu_insert_seg_lem}
use openeuler_ummu.SegTree.Delete.{Erased, ummu_delete_seg-present, ummu_delete_seg-absent}

abbrev two_segments : List (Range × ℕ)
two_segments = (range 0x1000 0xfff, 7) ∷ (range 0x5000 0x1fff, 8) ∷ []

two_segments-Ordered : Ordered 0 two_segments
two_segments-Ordered = omega arith

find_each :
    (ummu_find_seg 0x5000 0x1fff two_segments ≡ (range_match, some 8))
    × (ummu_find_seg 0x5000 0xfff two_segments ≡ (range_overlap, none))
    × (ummu_find_seg 0x2000 0x2fff two_segments ≡ (range_not_exist, none))
unfolding ummu_find_seg map_find
find_each = (refl, refl, refl)

ummu_find_seg-FindResult_example :
    FindResult two_segments 0x5000 (0x5000 + 0x1fff) (ummu_find_seg 0x5000 0x1fff two_segments)
ummu_find_seg-FindResult_example =
    ummu_find_seg-FindResult two_segments 0 0x5000 0x1fff two_segments-Ordered (omega arith)

ummu_insert_seg_lem_example :
    let (t', status) = ummu_insert_seg 9 two_segments 0x2000 0xfff in
    ((status ≡ 0) × Inserted 0 (range 0x2000 0xfff) 9 two_segments t')
    ⊎ ((status ≡ einval) × (t' ≡ two_segments) × Clash (range 0x2000 0xfff) two_segments)
ummu_insert_seg_lem_example =
    ummu_insert_seg_lem 9 two_segments 0 0x2000 0xfff two_segments-Ordered (omega arith)
      (omega arith)

ummu_delete_seg-present_example :
    let (t', freed, status) = ummu_delete_seg (λ v. v + 1) 0x5000 0x1fff two_segments in
    (status ≡ 0) × (freed ≡ 9 ∷ []) × Erased 0 (range 0x5000 0x1fff) two_segments t'
ummu_delete_seg-present_example =
    ummu_delete_seg-present (λ v. v + 1) two_segments 0 0x5000 0x1fff 8 two_segments-Ordered
      (omega arith) (omega arith) (inr (inl (refl, refl)))

not_there : (v : ℕ) → ¬ Has two_segments 0x5000 (0x5000 + 0xfff) v
not_there v h = ground arith

ummu_delete_seg-absent_example :
    ummu_delete_seg (λ v. v + 1) 0x5000 0xfff two_segments ≡ (two_segments, [], einval)
ummu_delete_seg-absent_example =
    ummu_delete_seg-absent (λ v. v + 1) two_segments 0 0x5000 0xfff two_segments-Ordered
      (omega arith) not_there
