-- ===== src/SegTree/RoundTrip.antt =====
-- `ummu_insert_seg` followed by `ummu_delete_seg` of the same segment.
use openeuler_ummu.Base.{
  ℕ, ◌+◌, ◌%◌, ◌^◌, ◌≤◌, ◌<◌, ◌≡◌, refl, ap, Option, none, some, List, [], ◌∷◌, arith, Bool-cases,
  Option-cases, inl, inr, true,
}
use mathlib.Core.Path.{subst}
use openeuler_ummu.SegTree.{
  Range, range, map_find, map_insert, map_erase, ummu_find_seg, ummu_insert_seg, ummu_delete_seg,
  mod_cmp, range_match,
}

module _ {V : Type 0} where
  -- The table `o`, if any, has the new entry where a search for `key'` stops, and is `t` without it.
  abbrev After : Range → Range → V → List (Range × V) → Option (List (Range × V)) → Type 0
  After key key' w t none = Unit {0}
  After key key' w t (some t') = (map_find key' t' ≡ some (key, w)) × (map_erase key' t' ≡ t)

  module _ (key key' : Range) (w : V) (left : key'.left ≡ key.left) (reach : key.left ≤ key'.right)
      (proper : key.left ≤ key.right) where
    After-cons :
        (r : Range) (v : V) (t : List (Range × V)) (o : Option (List (Range × V)))
        → mod_cmp r key ≡ true
        → After key key' w t o
        → After key key' w ((r, v) ∷ t) (elim o [ none ↦ none | some t' ↦ some ((r, v) ∷ t') ])
    unfolding map_find map_erase
    After-cons r v t none b h = tt
    After-cons r v t (some t') b h =
        let b' : mod_cmp r key' ≡ true = ground arith in
        (ground (arith, b', h.0), ground (arith, b', ap (λ x. (r, v) ∷ x) (h.1)))

    After-first : (t : List (Range × V)) → After key key' w t (some ((key, w) ∷ t))
    unfolding map_find map_erase
    After-first t = (ground arith, ground arith)

    After-map_insert : (t : List (Range × V)) → After key key' w t (map_insert key w t)
    unfolding map_insert
    After-map_insert [] = After-first []
    After-map_insert ((r, v) ∷ t) = elim (Bool-cases (mod_cmp r key)) [
      | inl before ↦ rw before (After-cons r v t (map_insert key w t) before (After-map_insert t))
      | inr reaches ↦ elim (Bool-cases (mod_cmp key r)) [
        | inl after ↦ rw (reaches, after) (After-first ((r, v) ∷ t))
        | inr meets ↦ rw (reaches, meets) tt
      ]
    ]

  module _ (w : V) (t : List (Range × V)) (l s : ℕ) (hl : l < 2 ^ 48) (hs : s < 2 ^ 48) where
    module _ (t' : List (Range × V)) (e : map_insert (range l s) w t ≡ some t') where
      after : (r : ℕ) → l ≤ r → After (range l s) (record { left = l; right = r }) w t (some t')
      after r h =
          subst (After (range l s) (record { left = l; right = r }) w t) e
            (After-map_insert (range l s) (record { left = l; right = r }) w refl h (omega arith) t)

      inserted : ummu_insert_seg w t l s ≡ (t', 0)
      unfolding ummu_insert_seg
      inserted = ground (arith, e)

      found_again : ummu_find_seg l s t' ≡ (range_match, some w)
      unfolding ummu_find_seg
      found_again = ground (arith, (after ((l + s) % 2 ^ 64) (omega arith)).0)

      deleted_again : (cleaner : V → V) → ummu_delete_seg cleaner l s t' ≡ (t, cleaner w ∷ [], 0)
      unfolding ummu_delete_seg
      deleted_again cleaner =
          let a = after (range l ((l + s) % 2 ^ 64)).right (omega arith) in ground (arith, a.0, a.1)

    refused : map_insert (range l s) w t ≡ none → (ummu_insert_seg w t l s).1 ≡ 0 → ⊥
    unfolding ummu_insert_seg
    refused e ok = ground (arith, e, ok)

    -- A segment of 48-bit addresses that `ummu_insert_seg` has inserted is found, with its object, and
    -- its deletion gives back the very table that was there before.
    pub insert-delete_seg :
        (cleaner : V → V)
        → (ummu_insert_seg w t l s).1 ≡ 0
        → let (t', _) = ummu_insert_seg w t l s in
          (ummu_find_seg l s t' ≡ (range_match, some w))
          × (ummu_delete_seg cleaner l s t' ≡ (t, cleaner w ∷ [], 0))
    insert-delete_seg cleaner ok = elim (Option-cases (map_insert (range l s) w t)) [
      | inl e ↦ absurd (refused e ok)
      | inr (t', e) ↦ rw (inserted t' e) (found_again t' e, deleted_again t' e cleaner)
    ]
