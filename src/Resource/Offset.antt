-- ===== src/Resource/Offset.antt =====
-- The offsets as sums of their fields.
use openeuler_ummu.Base.{
  ℕ, zero, suc, ◌+◌, ◌*◌, ◌/◌, ◌%◌, ◌^◌, ◌≤◌, ◌<◌, ◌≡◌, ap, sym, ◌∙◌, arith, bit_or,
}
use openeuler_ummu.Base.Bits.{bit_or_digit, bit_or_fields, pow-add, pow-lt-pow}
use native.Mathlib.Nat.{
  pow-suc, one-le-pow, mod-eq_of_lt, mul-le-mul, pow-le-pow_right, le_refl, mul-div_cancel,
  mul-mod_left,
}
use openeuler_ummu.Resource.{ummu_offset_blk, ummu_offset_que}

bit_or_comm : (w a b : ℕ) → a < 2 ^ w → b < 2 ^ w → bit_or a b ≡ bit_or b a
bit_or_comm zero a b ha hb =
    let za : a ≡ 0 = omega arith in
    let zb : b ≡ 0 = omega arith in
    ap (λ (x : ℕ). bit_or x b) (za ∙ sym zb) ∙ ap (bit_or b) (zb ∙ sym za)
bit_or_comm (suc w) a b ha hb = omega (
  arith,
  bit_or_digit a b,
  bit_or_digit b a,
  bit_or_comm w (a / 2) (b / 2) (omega (arith, pow-suc 2 w)) (omega (arith, pow-suc 2 w)),
)

-- the two fields of an offset, one above the other
two_fields :
    (k q r : ℕ) → q * 2 ^ k < 2 ^ 64 → r < 2 ^ k → k < 64 → bit_or r (q * 2 ^ k) ≡ q * 2 ^ k + r
two_fields k q r hq hr hk =
    bit_or_comm 64 r (q * 2 ^ k) (omega (arith, hr, pow-lt-pow {i = k} {j = 64} hk)) hq
    ∙ bit_or_fields k q r hr

mul_bound : (n n' x x' : ℕ) → n ≤ n' → x ≤ x' → n * x ≤ n' * x'
mul_bound n n' x x' h k = mul-le-mul h k

que_fields : (tid p : ℕ) → tid * (p * 4) + 2 * p ≡ (tid * 4 + 2) * p
que_fields tid p = grind arith

blk_fields :
    (tid index p : ℕ)
    → tid * (p * 4 * 1024) + (index * (p * 4) + p) ≡ (tid * 4096 + index * 4 + 1) * p
blk_fields tid index p = grind arith

module _ (s : ℕ) (hs : s ≤ 20) where
  page : 2 ^ s ≤ 2 ^ 20
  page = pow-le-pow_right {n = 2} (omega arith) {i = s} {j = 20} hs

  que_sum : (tid : ℕ) → tid < 2 ^ 20 → ummu_offset_que s tid ≡ (tid * 4 + 2) * 2 ^ s
  unfolding ummu_offset_que
  que_sum tid ht =
      let low : 2 ^ (s + 2) ≡ 2 ^ s * 4 = pow-add s 2 in
      let bound : tid * 2 ^ (s + 2) ≤ 2 ^ 20 * 2 ^ 22 =
        mul_bound tid (2 ^ 20) (2 ^ (s + 2)) (2 ^ 22) (omega arith) (omega (arith, low, page)) in
      let type_bits : 2 * 2 ^ s % 2 ^ 64 ≡ 2 * 2 ^ s = mod-eq_of_lt (omega (arith, page)) in
      let tid_bits : tid * 2 ^ (s + 2) % 2 ^ 64 ≡ tid * 2 ^ (s + 2) =
        mod-eq_of_lt (omega (arith, bound)) in
      rw (type_bits, tid_bits)
        (two_fields (s + 2) tid (2 * 2 ^ s) (omega (arith, bound))
            (omega (arith, low, one-le-pow s 2)) (omega arith)
          ∙ ap (λ (x : ℕ). tid * x + 2 * 2 ^ s) low
          ∙ que_fields tid (2 ^ s))

  blk_sum :
      (index tid : ℕ)
      → index < 2 ^ 10
      → tid < 2 ^ 20
      → ummu_offset_blk s index tid ≡ (tid * 4096 + index * 4 + 1) * 2 ^ s
  unfolding ummu_offset_blk
  blk_sum index tid hi ht =
      let low : 2 ^ (s + 2) ≡ 2 ^ s * 4 = pow-add s 2 in
      let high : 2 ^ (s + 2 + 10) ≡ 2 ^ (s + 2) * 1024 = pow-add (s + 2) 10 in
      let ib : index * 2 ^ (s + 2) ≤ 2 ^ 10 * 2 ^ 22 =
        mul_bound index (2 ^ 10) (2 ^ (s + 2)) (2 ^ 22) (omega arith) (omega (arith, low, page)) in
      let tb : tid * 2 ^ (s + 2 + 10) ≤ 2 ^ 20 * 2 ^ 32 =
        mul_bound tid (2 ^ 20) (2 ^ (s + 2 + 10)) (2 ^ 32) (omega arith)
          (omega (arith, low, high, page)) in
      let fit : index * 2 ^ (s + 2) ≤ 1023 * 2 ^ (s + 2) =
        mul_bound index 1023 (2 ^ (s + 2)) (2 ^ (s + 2)) (omega arith) (le_refl (2 ^ (s + 2))) in
      let type_bits : 1 * 2 ^ s % 2 ^ 64 ≡ 2 ^ s = omega (arith, page) in
      let index_bits : index * 2 ^ (s + 2) % 2 ^ 64 ≡ index * 2 ^ (s + 2) =
        mod-eq_of_lt (omega (arith, ib)) in
      let tid_bits : tid * 2 ^ (s + 2 + 10) % 2 ^ 64 ≡ tid * 2 ^ (s + 2 + 10) =
        mod-eq_of_lt (omega (arith, tb)) in
      let inner : bit_or (2 ^ s) (index * 2 ^ (s + 2)) ≡ index * 2 ^ (s + 2) + 2 ^ s =
        two_fields (s + 2) index (2 ^ s) (omega (arith, ib)) (omega (arith, low, one-le-pow s 2))
          (omega arith) in
      rw (type_bits, index_bits, tid_bits, inner)
        (two_fields (s + 2 + 10) tid (index * 2 ^ (s + 2) + 2 ^ s) (omega (arith, tb))
            (omega (arith, fit, low, high, one-le-pow s 2)) (omega arith)
          ∙ ap (λ (x : ℕ). tid * x + (index * 2 ^ (s + 2) + 2 ^ s)) high
          ∙ ap (λ (x : ℕ). tid * (x * 1024) + (index * x + 2 ^ s)) low
          ∙ blk_fields tid index (2 ^ s))

  -- For pages of up to 1M, a tid of 20 bits and an index of ten, nothing overflows or overlaps: the offset
  -- of a block has, above the page's bits, the operation 1 in two bits, its index in ten and its tid above;
  -- that of the queues has the operation 2 in two bits and the tid right above it, without an index.
  pub offset_fields :
      (index tid : ℕ)
      → index < 2 ^ 10
      → tid < 2 ^ 20
      → let b = ummu_offset_blk s index tid in
        let q = ummu_offset_que s tid in
        (b % 2 ^ s ≡ 0)
        × (b / 2 ^ s % 4 ≡ 1)
        × (b / 2 ^ s / 4 % 1024 ≡ index)
        × (b / 2 ^ s / 4096 ≡ tid)
        × (q % 2 ^ s ≡ 0)
        × (q / 2 ^ s % 4 ≡ 2)
        × (q / 2 ^ s / 4 ≡ tid)
  offset_fields index tid hi ht =
      let positive : 0 < 2 ^ s = omega (arith, one-le-pow s 2) in
      let b : ummu_offset_blk s index tid / 2 ^ s ≡ tid * 4096 + index * 4 + 1 =
        ap (λ (x : ℕ). x / 2 ^ s) (blk_sum index tid hi ht)
        ∙ mul-div_cancel (tid * 4096 + index * 4 + 1) positive in
      let q : ummu_offset_que s tid / 2 ^ s ≡ tid * 4 + 2 =
        ap (λ (x : ℕ). x / 2 ^ s) (que_sum tid ht) ∙ mul-div_cancel (tid * 4 + 2) positive in
      (
        ap (λ (x : ℕ). x % 2 ^ s) (blk_sum index tid hi ht)
            ∙ mul-mod_left (tid * 4096 + index * 4 + 1) (2 ^ s),
        rw b (omega arith),
        rw b (omega arith),
        rw b (omega arith),
        ap (λ (x : ℕ). x % 2 ^ s) (que_sum tid ht) ∙ mul-mod_left (tid * 4 + 2) (2 ^ s),
        rw q (omega arith),
        rw q (omega arith),
      )
