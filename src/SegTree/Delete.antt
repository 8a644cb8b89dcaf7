-- ===== src/SegTree/Delete.antt =====
-- `ummu_delete_seg` and `ummu_destroy_seg_tree`.
use openeuler_ummu.Base.{
  ℕ, suc, ◌+◌, ◌%◌, ◌^◌, ◌≤◌, ◌<◌, ◌≡◌, ◌≢◌, refl, leb, ◌&&◌, if◌then◌else◌, none, some, List, [],
  ◌∷◌, arith, inl, inr, Option-cases, true, false, einval, ap, ◌∙◌,
}
use mathlib.Core.Path.{subst₂}
use openeuler_ummu.SegTree.{Range, range, map_find, map_erase, ummu_delete_seg, mod_cmp}
use openeuler_ummu.SegTree.Cover.{covers, Ordered, covers_below, Ordered-mono}
use openeuler_ummu.SegTree.Find.{Has, Has-ge, map_find-Has, Has-map_find}

module _ {V : Type 0} where
  -- `t'` is `t` without the segment `key`
  pub record Erased (lo : ℕ) (key : Range) (t t' : List (Range × V)) : Type 0 where
    pub ordered : Ordered lo t'
    pub covered :
        (a : ℕ) → covers t' a ≡ (if leb key.left a && leb a key.right then none else covers t a)

  map_erase-Erased :
      (t : List (Range × V)) (lo l e k : ℕ) (v : V)
      → Ordered lo t
      → l ≤ k
      → Has t l e v
      → Erased lo (record { left = l; right = e }) t (map_erase (record { left = l; right = k }) t)
  unfolding map_erase
  map_erase-Erased [] lo l e k v o hk h = absurd h
  map_erase-Erased ((r, w) ∷ t) lo l e k v o hk (inl (p, q)) =
      let c : mod_cmp r (record { left = l; right = k }) ≡ false = ground arith in
      rw c (record {
        ordered = Ordered-mono t lo (suc r.right) (omega arith) o.3;
        covered = λ a. ground (arith, covers_below t (suc r.right) a o.3);
      })
  map_erase-Erased ((r, w) ∷ t) lo l e k v o hk (inr h) =
      let g = Has-ge t (suc r.right) l e v o.3 h in
      let c : mod_cmp r (record { left = l; right = k }) ≡ true = ground arith in
      let rest = map_erase-Erased t (suc r.right) l e k v o.3 hk h in
      rw c (record {
        ordered = (o.0, o.1, o.2, rest.ordered);
        covered = λ a. ground (arith, rest.covered a);
      })

  module _ (cleaner : V → V) (t : List (Range × V)) (l s : ℕ) where
    deleted :
        (v : V)
        → map_find (range l ((l + s) % 2 ^ 64)) t ≡ some (range l s, v)
        → ummu_delete_seg cleaner l s t
          ≡ (map_erase (range l ((l + s) % 2 ^ 64)) t, cleaner v ∷ [], 0)
    unfolding ummu_delete_seg
    deleted v e = ground arith

    kept_absent :
        map_find (range l ((l + s) % 2 ^ 64)) t ≡ none
        → ummu_delete_seg cleaner l s t ≡ (t, [], einval)
    unfolding ummu_delete_seg
    kept_absent e = ground arith

    kept_other :
        (r : Range) (v : V)
        → map_find (range l ((l + s) % 2 ^ 64)) t ≡ some (r, v)
        → r ≢ range l s
        → ummu_delete_seg cleaner l s t ≡ (t, [], einval)
    unfolding ummu_delete_seg
    kept_other r v e h = ground arith

  -- Although the key that it searches reaches past the segment, the deletion of a segment of 48-bit
  -- addresses finds it where it is present: it erases exactly that segment, cleans and frees its
  -- object and returns 0.
  pub ummu_delete_seg-present :
      (cleaner : V → V) (t : List (Range × V)) (lo l s : ℕ) (v : V)
      → Ordered lo t
      → l < 2 ^ 48
      → s < 2 ^ 48
      → Has t l (l + s) v
      → let (t', freed, status) = ummu_delete_seg cleaner l s t in
        (status ≡ 0) × (freed ≡ cleaner v ∷ []) × Erased lo (range l s) t t'
  ummu_delete_seg-present cleaner t lo l s v o hl hs h =
      let fits : (l + s) % 2 ^ 64 ≡ l + s = omega arith in
      let r : range l s ≡ record { left = l; right = l + s } = ground arith in
      let found =
        map_find-Has t lo l (l + s) (range l ((l + s) % 2 ^ 64)).right v o (omega arith) h in
      rw (deleted cleaner t l s v (ground (arith, found)))
        (refl, refl, rw r (map_erase-Erased t lo l (l + s) _ v o (omega arith) h))

  -- Where the segment is not present, the deletion changes nothing and returns -EINVAL.
  pub ummu_delete_seg-absent :
      (cleaner : V → V) (t : List (Range × V)) (lo l s : ℕ)
      → Ordered lo t
      → l + s < 2 ^ 64
      → ((v : V) → ¬ Has t l (l + s) v)
      → ummu_delete_seg cleaner l s t ≡ (t, [], einval)
  ummu_delete_seg-absent cleaner t lo l s o fits h =
      elim (Option-cases (map_find (range l ((l + s) % 2 ^ 64)) t)) [
        | inl e ↦ kept_absent cleaner t l s e
        | inr (found, e) ↦ kept_other cleaner t l s found.0 found.1 e λ p. h found.1 (
            subst₂ (λ x y. Has t x y found.1) (ap (λ (x : Range). x.left) p)
              (ap (λ (x : Range). x.right) p ∙ omega arith)
              (Has-map_find t lo _ found.0 found.1 o e).0)
      ]
