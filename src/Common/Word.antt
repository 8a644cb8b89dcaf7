-- ===== src/Common/Word.antt =====
-- One word: what `ffsl` and `ffz` find.
use openeuler_ummu.Base.{
  ℕ, zero, suc, ◌/◌, ◌%◌, ◌^◌, ◌<◌, ◌≡◌, ◌≢◌, arith, ◌==◌, inl, inr, Bool-cases,
}
use native.Mathlib.Nat.{pow-suc}
use openeuler_ummu.Base.Bits.{get_bit}
use openeuler_ummu.Common.{not64, ffsl, ffz}

-- `j` is the index of the lowest one of `x`, which has `n` bits.
pub record IsLowest (n x j : ℕ) : Type 0 where
  pub inside : j < n
  pub hit : get_bit x j ≡ 1
  pub below : (i : ℕ) → i < j → get_bit x i ≡ 0

IsLowest-zero : {n x : ℕ} → x % 2 ≡ 1 → IsLowest (suc n) x 0
IsLowest-zero h = record { inside = omega arith; hit = h; below = λ i hi. elim hi [ ] }

IsLowest-suc : {n x j : ℕ} → x % 2 ≡ 0 → IsLowest n (x / 2) j → IsLowest (suc n) x (suc j)
IsLowest-suc {n} {x} {j} h l = record {
  inside = omega (arith, l.inside);
  hit = l.hit;
  below = below;
}
  where
    below : (i : ℕ) → i < suc j → get_bit x i ≡ 0
    below zero hi = h
    below (suc i) hi = l.below i (omega arith)

pub ffsl-IsLowest : (n x : ℕ) → x < 2 ^ n → x ≢ 0 → (j : ℕ) × (ffsl n x ≡ suc j) × IsLowest n x j
unfolding ffsl
ffsl-IsLowest zero x hx hne = absurd (omega arith)
ffsl-IsLowest (suc n) x hx hne = elim (Bool-cases (x % 2 == 1)) [
  | inl odd ↦ (0, ground arith, IsLowest-zero (ground arith))
  | inr even ↦
      let half : x / 2 ≢ 0 = ground arith in
      let (j, e, l) = ffsl-IsLowest n (x / 2) (omega (arith, pow-suc 2 n)) half in
      (suc j, ground (arith, e), IsLowest-suc (ground arith) l)
]

-- `ffz` is the lowest zero of a word that has one.
pub ffz-IsLowest : (w : ℕ) → w < 2 ^ 64 → not64 w ≢ 0 → IsLowest 64 (not64 w) (ffz w)
unfolding ffz
ffz-IsLowest w hw hne =
    let (j, e, l) = ffsl-IsLowest 64 (not64 w) (omega arith) hne in
    let q : ffz w ≡ j = omega (arith, e, l.inside) in rw q l

-- `ffz (~word)` is the lowest one of a word that is not 0.
pub ffz-not64-IsLowest : (w : ℕ) → w < 2 ^ 64 → w ≢ 0 → IsLowest 64 w (ffz (not64 w))
ffz-not64-IsLowest w hw hne =
    let twice : not64 (not64 w) ≡ w = omega arith in
    rw twice at (ffz-IsLowest (not64 w) (omega arith) (omega arith))
