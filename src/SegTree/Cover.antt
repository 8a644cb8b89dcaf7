-- ===== src/SegTree/Cover.antt =====
-- The table as a partial map on addresses.
use openeuler_ummu.Base.{
  ℕ, suc, ◌^◌, ◌≤◌, ◌<◌, ◌≡◌, refl, leb, ◌&&◌, if◌then◌else◌, Option, none, some, List, [], ◌∷◌,
  arith,
}
use openeuler_ummu.SegTree.{Range}

module _ {V : Type 0} where
  -- what the segment that holds the address carries
  abbrev pub covers : List (Range × V) → ℕ → Option V
  covers [] a = none
  covers ((r, v) ∷ t) a = if leb r.left a && leb a r.right then some v else covers t a

  -- the entries are ranges of 64-bit addresses from `lo` on, in order and disjoint
  abbrev pub Ordered : ℕ → List (Range × V) → Type 0
  Ordered lo [] = Unit {0}
  Ordered lo ((r, v) ∷ t) =
      (lo ≤ r.left) × (r.left ≤ r.right) × (r.right < 2 ^ 64) × Ordered (suc r.right) t

  pub Ordered-mono : (t : List (Range × V)) (lo hi : ℕ) → lo ≤ hi → Ordered hi t → Ordered lo t
  Ordered-mono [] lo hi h o = tt
  Ordered-mono ((r, v) ∷ t) lo hi h o = (omega arith, o.1, o.2, o.3)

  -- nothing is covered below the first entry
  pub covers_below : (t : List (Range × V)) (lo a : ℕ) → Ordered lo t → a < lo → covers t a ≡ none
  covers_below [] lo a o h = refl
  covers_below ((r, v) ∷ t) lo a o h = ground (arith, covers_below t (suc r.right) a o.3)
