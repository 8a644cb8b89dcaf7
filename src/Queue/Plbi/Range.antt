-- ===== src/Queue/Plbi/Range.antt =====
-- The range field of an invalidation command.
use openeuler_ummu.Base.{
  ℕ, zero, suc, ◌-◌, ◌*◌, ◌/◌, ◌^◌, ◌≤◌, ◌<◌, ◌≡◌, arith, ◌==◌, inl, inr, Bool-cases, ap,
}
use native.Mathlib.Nat.{pow-suc, pow-le-pow_right}
use native.Mathlib.Decide.{dec_lt}
use openeuler_ummu.Queue.Plbi.{log2size_loop, get_minist_log2size_range}

-- The loop counts the binary digits.
record Digits (n temp d : ℕ) : Type 0 where
  above : temp < 2 ^ d
  none_needed : temp ≡ 0 → d ≡ 0
  needed : 0 < temp → 2 ^ d ≤ 2 * temp
  rounds : d ≤ n

Digits-double :
    (n temp r d : ℕ) → d ≡ suc r → 0 < temp → Digits n (temp / 2) r → Digits (suc n) temp d
Digits-double n temp r d e p g = rw e (record {
  above = omega (arith, g.above, pow-suc 2 r);
  none_needed = λ z. absurd (omega arith);
  needed = λ _. elim (dec_lt 0 (temp / 2)) [
    | yes q ↦ omega (arith, g.needed q, pow-suc 2 r)
    | no z ↦ omega (arith, ap (λ (t : ℕ). 2 ^ t) (g.none_needed (omega arith)), pow-suc 2 r)
  ];
  rounds = omega (arith, g.rounds);
})

log2size_loop-Digits : (n temp : ℕ) → temp < 2 ^ n → Digits n temp (log2size_loop n temp)
unfolding log2size_loop
log2size_loop-Digits zero temp h = record {
  above = h;
  none_needed = λ _. omega arith;
  needed = λ p. omega arith;
  rounds = omega arith;
}
log2size_loop-Digits (suc n) temp h = elim (Bool-cases (temp == 0)) [
  | inl e ↦ rw e (record {
    above = ground arith;
    none_needed = λ _. omega arith;
    needed = λ p. ground arith;
    rounds = omega arith;
  })
  | inr e ↦ rw e (
      Digits-double n temp (log2size_loop n (temp / 2)) _ (omega arith) (ground arith)
        (log2size_loop-Digits n (temp / 2) (omega (arith, pow-suc 2 n))))
]

-- For a 64-bit size other than 0, the exponent is the smallest whose power of two reaches the size.
pub get_minist_log2size_range_lem :
    (size : ℕ)
    → 0 < size
    → size < 2 ^ 64
    → (size ≤ 2 ^ get_minist_log2size_range size)
      × ((r : ℕ) → size ≤ 2 ^ r → get_minist_log2size_range size ≤ r)
unfolding get_minist_log2size_range
get_minist_log2size_range_lem size h l =
    let d = log2size_loop-Digits 64 (size - 1) (omega arith) in
    (
      omega (arith, d.above),
      λ r reach. elim (dec_lt r (log2size_loop 64 (size - 1))) [
        | no g ↦ omega arith
        | yes more ↦ absurd (too_large r (log2size_loop 64 (size - 1)) d reach more)
      ],
    )
  where
    too_large : (r d : ℕ) → Digits 64 (size - 1) d → size ≤ 2 ^ r → r < d → ⊥
    too_large r d g reach more = elim (dec_lt 0 (size - 1)) [
      | yes p ↦ omega (
        arith,
        g.needed p,
        pow-suc 2 r,
        pow-le-pow_right {n = 2} (omega arith) {i = suc r} {j = d} more,
      )
      | no z ↦ omega (arith, g.none_needed (omega arith))
    ]
