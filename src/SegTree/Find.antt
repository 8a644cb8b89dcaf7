-- ===== src/SegTree/Find.antt =====
-- `ummu_find_seg` against the entries and the covered addresses.
use openeuler_ummu.Base.{
  ℕ, suc, ◌+◌, ◌%◌, ◌^◌, ◌≤◌, ◌<◌, ◌≡◌, ◌≢◌, refl, Option, none, some, List, [], ◌∷◌, arith, ◌⊎◌,
  inl, inr, Option-cases, Bool-cases, max, ap, sym,
}
use native.Mathlib.Decide.{ℕ_discrete}
use mathlib.Core.Path.{subst, subst₂}
use openeuler_ummu.SegTree.{
  Range, range, RangeCompareRet, range_match, range_overlap, range_not_exist, map_find,
  ummu_find_seg, mod_cmp,
}
use openeuler_ummu.SegTree.Cover.{covers, Ordered, covers_below}

Range-discrete : Discrete Range
Range-discrete = hlevel ℕ_discrete

abbrev span : ℕ → ℕ → Range
span l e = record { left = l; right = e }

module _ {V : Type 0} where
  -- the table has the segment from `l` to `e`, with value `v`
  abbrev pub Has : List (Range × V) → ℕ → ℕ → V → Type 0
  Has [] l e v = ⊥
  Has ((r, w) ∷ t) l e v = ((r ≡ record { left = l; right = e }) × (w ≡ v)) ⊎ Has t l e v

  pub Has-ge : (t : List (Range × V)) (lo l e : ℕ) (v : V) → Ordered lo t → Has t l e v → lo ≤ l
  Has-ge [] lo l e v o h = absurd h
  Has-ge ((r, w) ∷ t) lo l e v o (inl (p, q)) = ground arith
  Has-ge ((r, w) ∷ t) lo l e v o (inr h) = omega (arith, Has-ge t (suc r.right) l e v o.3 h)

  -- `find` meets an entry that is there, whatever the end of the key is.
  pub map_find-Has :
      (t : List (Range × V)) (lo l e k : ℕ) (v : V)
      → Ordered lo t
      → l ≤ k
      → Has t l e v
      → map_find (span l k) t ≡ some (span l e, v)
  unfolding map_find
  map_find-Has [] lo l e k v o hk h = absurd h
  map_find-Has ((r, w) ∷ t) lo l e k v o hk (inl (p, q)) = ground arith
  map_find-Has ((r, w) ∷ t) lo l e k v o hk (inr h) =
      ground
        (arith, map_find-Has t (suc r.right) l e k v o.3 hk h, Has-ge t (suc r.right) l e v o.3 h)

  -- What `find` returns is an entry, and meets the key.
  pub Has-map_find :
      (t : List (Range × V)) (lo : ℕ) (key r : Range) (v : V)
      → Ordered lo t
      → map_find key t ≡ some (r, v)
      → Has t r.left r.right v
        × (key.left ≤ r.right)
        × (r.left ≤ key.right)
        × (r.left ≤ r.right)
        × ((a : ℕ) → r.left ≤ a → a ≤ r.right → covers t a ≡ some v)
  unfolding map_find
  Has-map_find [] lo key r v o h = cc
  Has-map_find ((x, w) ∷ t) lo key r v o h = elim (Bool-cases (mod_cmp x key)) [
    | inl before ↦
        let (has, p, q, s, c) = Has-map_find t (suc x.right) key r v o.3 (ground arith) in
        let lo' = Has-ge t (suc x.right) r.left r.right v o.3 has in
        (inr has, p, q, s, λ a m n. ground (arith, c a m n))
    | inr reaches ↦
        let e : x ≡ r = ground arith in
        let f : w ≡ v = ground arith in
        (inl (e, f), ground arith, ground arith, ground arith, λ a m n. ground arith)
  ]

  -- A segment that is there covers its addresses.
  pub Has-covers :
      (t : List (Range × V)) (lo l e a : ℕ) (v : V)
      → Ordered lo t
      → Has t l e v
      → l ≤ a
      → a ≤ e
      → covers t a ≡ some v
  Has-covers t lo l e a v o h p q =
      (Has-map_find t lo (span l e) (span l e) v o (map_find-Has t lo l e e v o (omega arith) h)).4
        a p q

  -- No entry meets the key: nothing in it is covered.
  pub covers_of_not_found :
      (t : List (Range × V)) (lo : ℕ) (key : Range) (a : ℕ)
      → Ordered lo t
      → map_find key t ≡ none
      → key.left ≤ a
      → a ≤ key.right
      → covers t a ≡ none
  unfolding map_find
  covers_of_not_found [] lo key a o h p q = refl
  covers_of_not_found ((x, w) ∷ t) lo key a o h p q =
      ground
        (arith, covers_of_not_found t (suc x.right) key a o.3, covers_below t (suc x.right) a o.3)

  -- what each result of a search for the segment from `l` to `e` says of the table
  abbrev pub FindResult : List (Range × V) → ℕ → ℕ → RangeCompareRet × Option V → Type 0
  FindResult t l e (range_match, some v) = Has t l e v
  FindResult t l e (range_not_exist, none) = (a : ℕ) → l ≤ a → a ≤ e → covers t a ≡ none
  FindResult t l e (range_overlap, none) =
      ((a : ℕ) × (l ≤ a) × (a ≤ e) × (covers t a ≢ none)) × ((v : V) → ¬ Has t l e v)
  FindResult t l e _ = ⊥

  module _ (t : List (Range × V)) (l s : ℕ) where
    search_absent : map_find (range l s) t ≡ none → ummu_find_seg l s t ≡ (range_not_exist, none)
    unfolding ummu_find_seg
    search_absent e = ground arith

    module _ (r : Range) (v : V) (e : map_find (range l s) t ≡ some (r, v)) where
      search_exact : r ≡ range l s → ummu_find_seg l s t ≡ (range_match, some v)
      unfolding ummu_find_seg
      search_exact h = ground arith

      search_other : r ≢ range l s → ummu_find_seg l s t ≡ (range_overlap, none)
      unfolding ummu_find_seg
      search_other h = ground arith

  -- The search for a segment says whether exactly that segment is present, none of it is covered, or
  -- part of it is covered by another one.
  pub ummu_find_seg-FindResult :
      (t : List (Range × V)) (lo l s : ℕ)
      → Ordered lo t
      → l + s < 2 ^ 64
      → FindResult t l (l + s) (ummu_find_seg l s t)
  ummu_find_seg-FindResult t lo l s o fits = elim (Option-cases (map_find (range l s) t)) [
    | inl e ↦
        subst (FindResult t l (l + s)) (sym (search_absent t l s e))
          (λ a p q. covers_of_not_found t lo (range l s) a o e p (omega arith))
    | inr (found, e) ↦ met found.0 found.1 e (Has-map_find t lo (range l s) found.0 found.1 o e)
  ]
    where
      met :
          (r : Range) (v : V)
          → map_find (range l s) t ≡ some (r, v)
          → Has t r.left r.right v
            × (l ≤ r.right)
            × (r.left ≤ (l + s) % 2 ^ 64)
            × (r.left ≤ r.right)
            × ((a : ℕ) → r.left ≤ a → a ≤ r.right → covers t a ≡ some v)
          → FindResult t l (l + s) (ummu_find_seg l s t)
      met r v e (has, p, q, m, c) = elim (Range-discrete r (range l s)) [
        | yes h ↦
            subst (FindResult t l (l + s)) (sym (search_exact t l s r v e h))
              (subst₂ (λ x y. Has t x y v) (ap (λ (x : Range). x.left) h) (ground arith) has)
        | no h ↦ subst (FindResult t l (l + s)) (sym (search_other t l s r v e h)) (
          (
            max l r.left,
            omega arith,
            omega arith,
            ground (arith, c (max l r.left) (omega arith) (omega arith)),
          ),
          λ w has'. h (ground (arith, map_find-Has t lo l (l + s) (l + s) w o (omega arith) has')),
        )
      ]
