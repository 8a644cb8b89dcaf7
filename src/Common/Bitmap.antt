-- ===== src/Common/Bitmap.antt =====
-- An array of words as a bitmap: what `ummu_set_bit` and `ummu_clear_bit` do to each bit.
use openeuler_ummu.Base.{
  ℕ, ◌/◌, ◌%◌, ◌^◌, ◌<◌, ◌≡◌, ap, arith, ◌==◌, if◌then◌else◌, List, length, get_or, set, length-set,
  get_or-set_self, get_or-set_ne, set-outside, bit_and, bit_or,
}
use native.Mathlib.Decide.{ℕ_discrete, dec_lt}
use openeuler_ummu.Base.Bits.{
  get_bit, get_bit-le-one, get_bit-bit_and, get_bit-bit_or, get_bit-pow_self, get_bit-pow_ne,
  get_bit-complement, bit_and_mask, bit_or-lt, bit_and-lt, pow-lt-pow,
}
use openeuler_ummu.Common.{not64, ummu_set_bit, ummu_clear_bit}

abbrev pub bit_at : List ℕ → ℕ → ℕ
bit_at ws k = get_bit (get_or ws (k / 64) 0) (k % 64)

-- Every word is an `unsigned long`.
abbrev pub IsWords : List ℕ → Type 0
IsWords ws = (i : ℕ) → get_or ws i 0 < 2 ^ 64

mask_six : (nr : ℕ) → bit_and nr 63 ≡ nr % 64
mask_six nr = bit_and_mask 6 nr

-- A word that differs at bit `m` alone.
abbrev DiffersAt : ℕ → ℕ → ℕ → ℕ → Type 0
DiffersAt w m b v = (j : ℕ) → j < 64 → get_bit v j ≡ (if j == m then b else get_bit w j)

set-DiffersAt : (w m : ℕ) → DiffersAt w m 1 (bit_or w (2 ^ m))
set-DiffersAt w m j h = elim (ℕ_discrete m j) [
  | yes e ↦ ground (arith, get_bit-bit_or w (2 ^ m) j, get_bit-pow_self m, get_bit-le-one w j)
  | no ne ↦ ground (arith, get_bit-bit_or w (2 ^ m) j, get_bit-pow_ne m j ne)
]

clear-DiffersAt : (w m : ℕ) → m < 64 → DiffersAt w m 0 (bit_and w (not64 (2 ^ m)))
clear-DiffersAt w m hm j h = elim (ℕ_discrete m j) [
  | yes e ↦ ground (
    arith,
    get_bit-bit_and w (not64 (2 ^ m)) j,
    get_bit-pow_self m,
    get_bit-complement 64 (2 ^ m) j (pow-lt-pow hm) h,
  )
  | no ne ↦ ground (
    arith,
    get_bit-bit_and w (not64 (2 ^ m)) j,
    get_bit-pow_ne m j ne,
    get_bit-le-one w j,
    get_bit-complement 64 (2 ^ m) j (pow-lt-pow hm) h,
  )
]

module _ (nr : ℕ) (ws : List ℕ) (inside : nr / 64 < length ws) where
  bit_at-set :
      (b v : ℕ)
      → DiffersAt (get_or ws (nr / 64) 0) (nr % 64) b v
      → (k : ℕ) → bit_at (set ws (nr / 64) v) k ≡ (if k == nr then b else bit_at ws k)
  bit_at-set b v d k = elim (ℕ_discrete (nr / 64) (k / 64)) [
    | yes e ↦ ground (arith, get_or-set_self ws (nr / 64) v 0 inside, d (k % 64) (omega arith))
    | no ne ↦ ground (arith, get_or-set_ne ws (nr / 64) (k / 64) v 0 ne)
  ]

  pub bit_at-set_bit :
      (k : ℕ) → bit_at (ummu_set_bit nr ws) k ≡ (if k == nr then 1 else bit_at ws k)
  unfolding ummu_set_bit
  bit_at-set_bit k = rw (mask_six nr) (bit_at-set 1 _ (set-DiffersAt _ (nr % 64)) k)

  pub bit_at-clear_bit :
      (k : ℕ) → bit_at (ummu_clear_bit nr ws) k ≡ (if k == nr then 0 else bit_at ws k)
  unfolding ummu_clear_bit
  bit_at-clear_bit k =
      rw (mask_six nr) (bit_at-set 0 _ (clear-DiffersAt _ (nr % 64) (omega arith)) k)

module _ (nr : ℕ) (ws : List ℕ) where
  IsWords-set : (v : ℕ) → v < 2 ^ 64 → IsWords ws → IsWords (set ws (nr / 64) v)
  IsWords-set v hv h i = elim (ℕ_discrete (nr / 64) i) [
    | yes e ↦ elim (dec_lt (nr / 64) (length ws)) [
      | yes l ↦ omega (
        arith,
        ap (λ (t : ℕ). get_or (set ws (nr / 64) v) t 0) e,
        get_or-set_self ws (nr / 64) v 0 l,
      )
      | no g ↦ rw (set-outside ws (nr / 64) v (omega arith)) (h i)
    ]
    | no ne ↦ rw (get_or-set_ne ws (nr / 64) i v 0 ne) (h i)
  ]

  pub set_bit-IsWords : IsWords ws → IsWords (ummu_set_bit nr ws)
  unfolding ummu_set_bit
  set_bit-IsWords h = rw (mask_six nr) (
      IsWords-set _
        (bit_or-lt 64 _ _ (h (nr / 64)) (pow-lt-pow {i = nr % 64} {j = 64} (omega arith))) h)

  pub clear_bit-IsWords : IsWords ws → IsWords (ummu_clear_bit nr ws)
  unfolding ummu_clear_bit
  clear_bit-IsWords h = rw (mask_six nr) (IsWords-set _ (bit_and-lt 64 _ _ (h (nr / 64))) h)

  pub length-set_bit : length (ummu_set_bit nr ws) ≡ length ws
  unfolding ummu_set_bit
  length-set_bit = length-set ws _ _

  pub length-clear_bit : length (ummu_clear_bit nr ws) ≡ length ws
  unfolding ummu_clear_bit
  length-clear_bit = length-set ws _ _
