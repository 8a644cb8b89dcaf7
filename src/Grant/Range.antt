-- ===== src/Grant/Range.antt =====
-- The range that an ungrant invalidates.
use openeuler_ummu.Base.{
  ℕ, zero, suc, ◌+◌, ◌-◌, ◌*◌, ◌/◌, ◌%◌, ◌^◌, ◌≤◌, ◌<◌, ◌≡◌, ap, sym, ◌∙◌, arith, bit_and,
}
use openeuler_ummu.Base.Bits.{bit_and_mask, bit_and_high}
use mathlib.Core.Path.{subst₂}
use native.Mathlib.Nat.{div-add-mod, mod-lt, mul_comm, mul-mod_left}
use openeuler_ummu.Common.{not64}
use openeuler_ummu.Mapt.{DataInfo}
use openeuler_ummu.Table.Level.{range_bits_low, level_range_mask}
use openeuler_ummu.Grant.Call.{widen}

-- the size of what one entry of a level spans
abbrev pub span : ℕ → ℕ
span level = 2 ^ range_bits_low level

-- `x & mask` and `x & ~mask` for the mask of a level
masked : (level x : ℕ) → bit_and x (level_range_mask level) ≡ x % span level
unfolding level_range_mask
masked level x = bit_and_mask (range_bits_low level) x

round_down :
    (level x : ℕ)
    → level ≤ 3
    → x < 2 ^ 64
    → bit_and x (not64 (level_range_mask level)) ≡ x / span level * span level
unfolding level_range_mask range_bits_low
round_down zero x l h = omega (arith, bit_and_high 39 x (2 ^ 25 - 1), bit_and_mask 25 (x / 2 ^ 39))
round_down (suc zero) x l h =
    omega (arith, bit_and_high 30 x (2 ^ 34 - 1), bit_and_mask 34 (x / 2 ^ 30))
round_down (suc (suc zero)) x l h =
    omega (arith, bit_and_high 21 x (2 ^ 43 - 1), bit_and_mask 43 (x / 2 ^ 21))
round_down (suc (suc (suc zero))) x l h =
    omega (arith, bit_and_high 12 x (2 ^ 52 - 1), bit_and_mask 52 (x / 2 ^ 12))
round_down (suc (suc (suc (suc level)))) x l h = absurd (omega arith)

span-le : (level : ℕ) → (0 < span level) × (span level ≤ 2 ^ 39)
unfolding range_bits_low
span-le level = ground arith

-- `base` and `size`, of at most 48 bits, rounded out to a multiple of `p`.
pub record Rounded (p base size base' size' : ℕ) : Type 0 where
  pub covers_start : base' ≤ base
  pub covers_end : base + size ≤ base' + size'
  pub tight_start : base < base' + p
  pub tight_end : base' + size' < base + size + p
  pub start_aligned : base' % p ≡ 0
  pub size_aligned : size' % p ≡ 0

round_out :
    (p base size : ℕ)
    → 0 < p
    → 0 < size
    → Rounded p base size (base / p * p) ((size + base % p + (p - 1)) / p * p)
round_out p base size hp hs =
    let b : p * (base / p) + base % p ≡ base = div-add-mod base p in
    let e : p * ((size + base % p + (p - 1)) / p) + (size + base % p + (p - 1)) % p
        ≡ size + base % p + (p - 1) =
      div-add-mod (size + base % p + (p - 1)) p in
    let bc = mul_comm (base / p) p in
    let ec = mul_comm ((size + base % p + (p - 1)) / p) p in
    let bl : base % p < p = mod-lt base hp in
    let el : (size + base % p + (p - 1)) % p < p = mod-lt (size + base % p + (p - 1)) hp in
    record {
      covers_start = omega arith;
      covers_end = omega arith;
      tight_start = omega arith;
      tight_end = omega arith;
      start_aligned = mul-mod_left (base / p) p;
      size_aligned = mul-mod_left ((size + base % p + (p - 1)) / p) p;
    }

-- For a segment of at least one byte below 2^48 and a level of at most 3, the widened range covers the
-- range of the segment, up to less than one span of a level further at each end, and starts and ends at
-- a multiple of the span.
pub widen-Rounded :
    (d : DataInfo)
    → d.lvl ≤ 3
    → 0 < d.data_size
    → d.data_base + d.data_size ≤ 2 ^ 48
    → Rounded (span (widen d).lvl) d.data_base d.data_size (widen d).data_base (widen d).data_size
unfolding widen level_range_mask
widen-Rounded d hl hs hb =
    let l = (widen d).lvl in
    let hl' : l ≤ 3 = ground arith in
    let sp = span-le l in
    let rest : bit_and d.data_base (level_range_mask l) ≡ d.data_base % span l =
      masked l d.data_base in
    let rl : d.data_base % span l < span l = mod-lt d.data_base (sp.0) in
    let base : (widen d).data_base ≡ d.data_base / span l * span l =
      round_down l d.data_base hl' (omega arith) in
    let sum : ((d.data_size + bit_and d.data_base (level_range_mask l)) % 2 ^ 64
            + level_range_mask l)
          % 2 ^ 64
        ≡ d.data_size + d.data_base % span l + (span l - 1) =
      ground (arith, rest, rl, sp) in
    let size : (widen d).data_size
        ≡ (d.data_size + d.data_base % span l + (span l - 1)) / span l * span l =
      ap (λ (t : ℕ). bit_and t (not64 (level_range_mask l))) sum
      ∙ round_down l _ hl' (omega arith) in
    subst₂ (λ (b s : ℕ). Rounded (span l) d.data_base d.data_size b s) (sym base) (sym size)
      (round_out (span l) d.data_base d.data_size (sp.0) hs)
