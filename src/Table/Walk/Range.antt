-- ===== src/Table/Walk/Range.antt =====
-- The part of a range that falls to a node of a level, in terms of the addresses of a walk.
use openeuler_ummu.Base.{
  ℕ, zero, suc, ◌+◌, ◌-◌, ◌/◌, ◌%◌, ◌^◌, ◌≤◌, ◌<◌, ◌≡◌, refl, ap, ◌∙◌, arith, Bool, Option, none,
  some, ltb, leb, ◌==◌, ◌&&◌, if◌then◌else◌, bit_and,
}
use mathlib.Core.Path.{ap₂}
use openeuler_ummu.Base.Bits.{bit_and_mask}
use openeuler_ummu.Table.Fill.{pass_of, node_base, node_limit}
use openeuler_ummu.Table.Level.{level_block_index, level_range_mask}
use openeuler_ummu.Table.Walk.{Reading, span}

-- the test of a range
abbrev pub within : ℕ → ℕ → ℕ → Bool
within base limit a = leb base a && leb a limit

-- What a walk finds once a range is granted: what it found before, or the grant.
abbrev pub or_granted : ℕ → ℕ → Reading → Option Reading → ℕ → Option Reading
or_granted base limit g (some w) a = some w
or_granted base limit g none a = if within base limit a then some g else none

-- the two ends of the part of a range that falls to node `i`, for nodes of `w` addresses
abbrev pub part_base : ℕ → ℕ → ℕ → ℕ
part_base w base i = if i == base / w then base % w else 0

abbrev pub part_limit : ℕ → ℕ → ℕ → ℕ
part_limit w limit i = if i == limit / w then limit % w else w - 1

-- `k` levels are left below level 3 - k.
pub index_span : (k a : ℕ) → k < 4 → level_block_index a (3 - k) ≡ a / span k % 512
unfolding level_block_index
index_span zero a h = bit_and_mask 9 (a / 2 ^ 12)
index_span (suc zero) a h = bit_and_mask 9 (a / 2 ^ 21)
index_span (suc (suc zero)) a h = bit_and_mask 9 (a / 2 ^ 30)
index_span (suc (suc (suc zero))) a h = bit_and_mask 9 (a / 2 ^ 39)
index_span (suc (suc (suc (suc k)))) a h = absurd (omega arith)

pub mask_span : (k a : ℕ) → k < 4 → bit_and a (level_range_mask (3 - k)) ≡ a % span k
unfolding level_range_mask
mask_span zero a h = bit_and_mask 12 a
mask_span (suc zero) a h = bit_and_mask 21 a
mask_span (suc (suc zero)) a h = bit_and_mask 30 a
mask_span (suc (suc (suc zero))) a h = bit_and_mask 39 a
mask_span (suc (suc (suc (suc k)))) a h = absurd (omega arith)

pub level_range_mask-span : (k : ℕ) → k < 4 → level_range_mask (3 - k) ≡ span k - 1
unfolding level_range_mask
level_range_mask-span zero h = refl
level_range_mask-span (suc zero) h = refl
level_range_mask-span (suc (suc zero)) h = refl
level_range_mask-span (suc (suc (suc zero))) h = refl
level_range_mask-span (suc (suc (suc (suc k)))) h = absurd (omega arith)

pub span_le : (k : ℕ) → k < 4 → span k ≤ 2 ^ 39
span_le zero h = omega arith
span_le (suc zero) h = omega arith
span_le (suc (suc zero)) h = omega arith
span_le (suc (suc (suc zero))) h = omega arith
span_le (suc (suc (suc (suc k)))) h = absurd (omega arith)

-- the part of a node is not empty, and lies within the node
pub part_le :
    (k base limit i : ℕ)
    → k < 4
    → base ≤ limit
    → base / span k ≤ i
    → i ≤ limit / span k
    → (part_base (span k) base i ≤ part_limit (span k) limit i)
      × (part_limit (span k) limit i < span k)
part_le zero base limit i h l p q = ground arith
part_le (suc zero) base limit i h l p q = ground arith
part_le (suc (suc zero)) base limit i h l p q = ground arith
part_le (suc (suc (suc zero))) base limit i h l p q = ground arith
part_le (suc (suc (suc (suc k)))) base limit i h l p q = absurd (omega arith)

pub index_mono : (k base limit : ℕ) → k < 4 → base ≤ limit → base / span k ≤ limit / span k
index_mono zero base limit h l = omega (arith, l)
index_mono (suc zero) base limit h l = omega (arith, l)
index_mono (suc (suc zero)) base limit h l = omega (arith, l)
index_mono (suc (suc (suc zero))) base limit h l = omega (arith, l)
index_mono (suc (suc (suc (suc k)))) base limit h l = absurd (omega arith)

-- The parts are the range.
abbrev PartsAt : ℕ → ℕ → ℕ → ℕ → Type 0
PartsAt w base limit a =
    (within (base / w) (limit / w) (a / w)
      && within (part_base w base (a / w)) (part_limit w limit (a / w)) (a % w))
    ≡ within base limit a

pub parts : (k base limit a : ℕ) → k < 4 → base ≤ limit → PartsAt (span k) base limit a
parts zero base limit a h l = ground arith
parts (suc zero) base limit a h l = ground arith
parts (suc (suc zero)) base limit a h l = ground arith
parts (suc (suc (suc zero))) base limit a h l = ground arith
parts (suc (suc (suc (suc k)))) base limit a h l = absurd (omega arith)

small_index : (x q : ℕ) → x ≡ q % 512 → q < 512 → x % 2 ^ 16 ≡ q
small_index x q e h = omega (arith, e, h)

module _ (k b o base limit i : ℕ) (h : k < 4) where
  pub base_idx-span :
      base / span k < 512 → (pass_of b o (3 - k) base limit).base_idx ≡ base / span k
  base_idx-span l = small_index _ (base / span k) (index_span k base h) l

  pub limit_idx-span :
      limit / span k < 512 → (pass_of b o (3 - k) base limit).limit_idx ≡ limit / span k
  limit_idx-span l = small_index _ (limit / span k) (index_span k limit h) l

  pub node_base-part :
      base / span k < 512 → node_base (pass_of b o (3 - k) base limit) i ≡ part_base (span k) base i
  node_base-part l = ap₂ (λ x y. if i == x then y else 0) (base_idx-span l) (mask_span k base h)

  pub node_limit-part :
      limit / span k < 512
      → node_limit (pass_of b o (3 - k) base limit) i ≡ part_limit (span k) limit i
  node_limit-part l =
      ap₂ (λ x y. if i == x then y else level_range_mask (3 - k)) (limit_idx-span l)
        (mask_span k limit h)
      ∙ ap (λ y. if i == limit / span k then limit % span k else y) (level_range_mask-span k h)

-- The parts taken together: what falls to a node is what of the range lies there.
pub or_granted-parts :
    (k base limit a : ℕ) (g : Reading) (old : Option Reading)
    → k < 4
    → base ≤ limit
    → let q = a / span k in
      (if leb (base / span k) q && ltb q (base / span k + (limit / span k + 1 - base / span k))
        then or_granted (part_base (span k) base q) (part_limit (span k) limit q) g old (a % span k)
        else old)
      ≡ or_granted base limit g old a
or_granted-parts k base limit a g (some w) h l = ground arith
or_granted-parts k base limit a g none h l = ground (arith, parts k base limit a h l)
