-- ===== src/SegTree.antt =====
-- ummu_seg_tree.cpp: a `std::map` of granted ranges, ordered by "lies before".
-- The map is the list of its entries in order. `find` and `insert` walk it the way the tree does:
-- past the entries that lie before the key, to the first one that does not.
pub mod Cover
pub mod Find
pub mod Insert
pub mod Delete
pub mod RoundTrip
mod Tests
use openeuler_ummu.Base.{
  ℕ, ◌+◌, ◌%◌, ◌^◌, ltb, ◌==◌, ◌&&◌, if◌then◌else◌, Bool, Option, none, some, List, [], ◌∷◌, einval,
}

-- `struct Range`: an inclusive range of addresses
pub record Range : Type 0 where
  pub left : ℕ
  pub right : ℕ

abbrev pub range : ℕ → ℕ → Range
range l size = record { left = l; right = (l + size) % 2 ^ 64 }

-- `ModCmp`
abbrev pub mod_cmp : Range → Range → Bool
mod_cmp l r = ltb l.right r.left

-- `enum range_compare_ret`
pub data RangeCompareRet : Type 0 where
  range_match range_overlap range_not_exist : RangeCompareRet

module _ {V : Type 0} where
  -- `std::map::find`
  unfoldable pub map_find : Range → List (Range × V) → Option (Range × V)
  map_find key [] = none
  map_find key ((r, v) ∷ t) =
      if mod_cmp r key then map_find key t else if mod_cmp key r then none else some (r, v)

  -- `std::map::insert`; `none` where an equivalent key is present
  unfoldable pub map_insert : Range → V → List (Range × V) → Option (List (Range × V))
  map_insert key w [] = some ((key, w) ∷ [])
  map_insert key w ((r, v) ∷ t) =
      if mod_cmp r key
      then elim (map_insert key w t) [ none ↦ none | some t' ↦ some ((r, v) ∷ t') ]
      else if mod_cmp key r
      then some ((key, w) ∷ (r, v) ∷ t)
      else none

  -- `std::map::erase` of the entry that `find` returned for the key
  unfoldable pub map_erase : Range → List (Range × V) → List (Range × V)
  map_erase key [] = []
  map_erase key ((r, v) ∷ t) = if mod_cmp r key then (r, v) ∷ map_erase key t else t

  -- The new table and the status (0, or n for the return value -n).
  unfoldable pub ummu_insert_seg : V → List (Range × V) → ℕ → ℕ → List (Range × V) × ℕ
  ummu_insert_seg w table left size = elim (map_insert (range left size) w table) [
    | none ↦ (table, einval)
    | some t ↦ (t, 0)
  ]

  unfoldable pub ummu_find_seg : ℕ → ℕ → List (Range × V) → RangeCompareRet × Option V
  ummu_find_seg left size table = elim (map_find (range left size) table) [
    | none ↦ (range_not_exist, none)
    | some (r, v) ↦
        if (r.left == left) && (r.right == (left + size) % 2 ^ 64)
        then (range_match, some v)
        else (range_overlap, none)
  ]

  -- The key is `Range(left, left + size)`, whose end is `left + (left + size)`. The result also has
  -- the objects freed, as the cleaner left them.
  unfoldable pub ummu_delete_seg :
      (V → V) → ℕ → ℕ → List (Range × V) → List (Range × V) × List V × ℕ
  ummu_delete_seg cleaner left size table =
      let key = range left ((left + size) % 2 ^ 64) in
      elim (map_find key table) [
        | none ↦ (table, [], einval)
        | some (r, v) ↦
            if (r.left == left) && (r.right == (left + size) % 2 ^ 64)
            then (map_erase key table, cleaner v ∷ [], 0)
            else (table, [], einval)
      ]

  -- All objects are cleaned and freed.
  unfoldable pub ummu_destroy_seg_tree : (V → V) → List (Range × V) → List V
  ummu_destroy_seg_tree cleaner [] = []
  ummu_destroy_seg_tree cleaner ((r, v) ∷ t) = cleaner v ∷ ummu_destroy_seg_tree cleaner t
