-- ===== src/SegTree/Insert.antt =====
-- `ummu_insert_seg`: it covers the new range if no address of it was covered, and else changes
-- nothing.
use openeuler_ummu.Base.{
  ℕ, suc, ◌+◌, ◌^◌, ◌≤◌, ◌<◌, ◌≡◌, ◌≢◌, refl, leb, ◌&&◌, if◌then◌else◌, none, some, List, [], ◌∷◌,
  arith, ◌⊎◌, inl, inr, Bool-cases, max, einval, sym,
}
use mathlib.Core.Path.{subst}
use openeuler_ummu.SegTree.{Range, range, map_insert, ummu_insert_seg, mod_cmp}
use openeuler_ummu.SegTree.Cover.{covers, Ordered, covers_below}
use openeuler_ummu.SegTree.Find.{Has}

module _ {V : Type 0} where
  -- `t'` is `t` with one more segment, none of whose addresses `t` covers
  pub record Inserted (lo : ℕ) (key : Range) (w : V) (t t' : List (Range × V)) : Type 0 where
    pub ordered : Ordered lo t'
    pub has : Has t' key.left key.right w
    pub free : (a : ℕ) → key.left ≤ a → a ≤ key.right → covers t a ≡ none
    pub covered :
        (a : ℕ) → covers t' a ≡ (if leb key.left a && leb a key.right then some w else covers t a)

  -- some address of the range is covered
  abbrev pub Clash : Range → List (Range × V) → Type 0
  Clash key t = (a : ℕ) × (key.left ≤ a) × (a ≤ key.right) × (covers t a ≢ none)

  module _ (key : Range) (w : V) (proper : key.left ≤ key.right) (small : key.right < 2 ^ 64) where
    map_insert_lem :
        (lo : ℕ) (t : List (Range × V))
        → lo ≤ key.left
        → Ordered lo t
        → ((t' : List (Range × V)) × (map_insert key w t ≡ some t') × Inserted lo key w t t')
          ⊎ ((map_insert key w t ≡ none) × Clash key t)
    unfolding map_insert
    map_insert_lem lo [] h o = inl (
      (key, w) ∷ [],
      refl,
      record {
        ordered = (h, proper, small, tt);
        has = inl (refl, refl);
        free = λ a p q. refl;
        covered = λ a. refl;
      },
    )
    map_insert_lem lo ((r, v) ∷ t) h o = elim (Bool-cases (mod_cmp r key)) [
      | inl before ↦ elim (map_insert_lem (suc r.right) t (ground arith) o.3) [
        | inl (t', e, i) ↦ inl (
          (r, v) ∷ t',
          ground (arith, e),
          record {
            ordered = (o.0, o.1, o.2, i.ordered);
            has = inr i.has;
            free = λ a p q. ground (arith, i.free a p q);
            covered = λ a. ground (arith, i.covered a);
          },
        )
        | inr (e, c) ↦ inr (ground (arith, e), (c.0, c.1, c.2, ground (arith, c.3)))
      ]
      | inr reaches ↦ elim (Bool-cases (mod_cmp key r)) [
        | inl after ↦ inl (
          (key, w) ∷ (r, v) ∷ t,
          ground arith,
          record {
            ordered = (h, proper, small, (ground arith, o.1, o.2, o.3));
            has = inl (refl, refl);
            free = λ a p q. ground (arith, covers_below t (suc r.right) a o.3);
            covered = λ a. refl;
          },
        )
        | inr meets ↦
            inr (ground arith, (max key.left r.left, omega arith, ground arith, ground arith))
      ]
    ]

  -- The insertion of a range either succeeds, and the table then covers the range besides what it
  -- covered, or fails on a clash and leaves the table as it was.
  pub ummu_insert_seg_lem :
      (w : V) (t : List (Range × V)) (lo l s : ℕ)
      → Ordered lo t
      → lo ≤ l
      → l + s < 2 ^ 64
      → let (t', status) = ummu_insert_seg w t l s in
        ((status ≡ 0) × Inserted lo (range l s) w t t')
        ⊎ ((status ≡ einval) × (t' ≡ t) × Clash (range l s) t)
  unfolding ummu_insert_seg
  ummu_insert_seg_lem w t lo l s o h fits =
      elim (map_insert_lem (range l s) w (omega arith) (omega arith) lo t h o) [
        | inl (t', e, i) ↦
            let q : ummu_insert_seg w t l s ≡ (t', 0) = ground (arith, e) in
            inl (ground (arith, e), subst (λ x. Inserted lo (range l s) w t x.0) (sym q) i)
        | inr (e, c) ↦ inr (ground (arith, e), ground (arith, e), c)
      ]
