-- ===== src/Queue/Index.antt =====
-- The queue indices against two counters that never wrap.
use openeuler_ummu.Base.{
  ℕ, zero, suc, ◌+◌, ◌-◌, ◌*◌, ◌/◌, ◌%◌, ◌^◌, ◌≤◌, ◌<◌, ◌≡◌, ap, sym, ◌∙◌, arith, bit_or, bit_xor,
  ◌==◌, leb, if◌then◌else◌, inl, inr, ◌⊎◌,
}
use native.Mathlib.Nat.{
  pow-suc, one-le-pow, mod-lt, mod-eq_of_lt, div-add-mod, div-add-mod', mod-add-mod,
  add-mul-mod_self_right, add-mul-div_right, div-eq_of_lt, add-div_right, pow-le-pow_right,
}
use native.Mathlib.Decide.{ℕ_discrete}
use openeuler_ummu.Base.Bits.{get_bit-eq-div, bit_and_mask, bit_and_pow, bit_or_fields, bit_or-zero}
use openeuler_ummu.Queue.{
  q_wrap, q_idx, max_cmd_que_index, queue_has_space, ummu_update_queue_index,
}

-- A counter as an index: entry and wrap bit.
abbrev pub index_of : ℕ → ℕ → ℕ
index_of size count = count % 2 ^ suc size

mod_unique : (m q r x : ℕ) → x ≡ r + q * m → r < m → x % m ≡ r
mod_unique m q r x e h = ap (λ t. t % m) e ∙ add-mul-mod_self_right r q m ∙ mod-eq_of_lt h

div_unique : (m q r x : ℕ) → x ≡ r + q * m → r < m → x / m ≡ q
div_unique m q r x e h =
    ap (λ t. t / m) e
    ∙ add-mul-div_right r q (omega arith)
    ∙ ap (λ t. t + q) (div-eq_of_lt h)
    ∙ omega arith

-- An index, by the counter's entry and its wrap bit.
module _ (size count : ℕ) where
  abbrev entry : ℕ
  entry = count % 2 ^ size

  abbrev wrap : ℕ
  wrap = count / 2 ^ size % 2

  entry_lt : entry < 2 ^ size
  entry_lt = mod-lt count (one-le-pow size 2 (omega arith))

  wrap_le : wrap ≤ 1
  wrap_le = omega arith

  index_split : index_of size count ≡ entry + wrap * 2 ^ size
  index_split =
      mod_unique (2 ^ suc size) (count / 2 ^ size / 2) (entry + wrap * 2 ^ size) count
        (omega (
          arith,
          div-add-mod count (2 ^ size),
          pow-suc 2 size,
          ap (λ (t : ℕ). 2 ^ size * t) halves,
          ap (λ (t : ℕ). count / 2 ^ size / 2 * t) (pow-suc 2 size),
        ))
        (grind (arith, pow-suc 2 size, entry_lt, wrap_le))
    where
      halves : count / 2 ^ size ≡ 2 * (count / 2 ^ size / 2) + wrap
      halves = omega arith

  index_entry : index_of size count % 2 ^ size ≡ entry
  index_entry = mod_unique (2 ^ size) wrap entry _ index_split entry_lt

  index_wrap : index_of size count / 2 ^ size ≡ wrap
  index_wrap = div_unique (2 ^ size) wrap entry _ index_split entry_lt

  pub q_idx-index : q_idx (index_of size count) size ≡ entry
  q_idx-index = bit_and_mask size _ ∙ index_entry

  q_wrap-index : q_wrap (index_of size count) size ≡ wrap * 2 ^ size
  q_wrap-index =
      bit_and_pow size _
      ∙ ap (λ t. t * 2 ^ size) (get_bit-eq-div _ size ∙ ap (λ t. t % 2) index_wrap ∙ omega arith)

-- Two counters at most `m` apart: their quotients by `m` differ by 0 or 1.
quotients : (m a b : ℕ) → 1 ≤ m → b ≤ a → a ≤ b + m → (a / m ≡ b / m) ⊎ (a / m ≡ b / m + 1)
quotients m a b hm h k =
    let q : b / m ≤ a / m = grind arith in
    let r : a / m ≤ (b + m) / m = grind arith in omega (arith, add-div_right b hm)

-- Two numbers less than `m` apart have different remainders.
pub mod-injective : (m a b : ℕ) → a ≤ b → b < a + m → b % m ≡ a % m → b ≡ a
mod-injective m a b h k e = elim (quotients m b a (omega arith) h (omega arith)) [
  | inl q ↦ omega (arith, div-add-mod a m, div-add-mod b m, e, ap (λ (t : ℕ). m * t) q)
  | inr q ↦
      absurd
        (omega (arith, div-add-mod a m, div-add-mod b m, e, ap (λ (t : ℕ). m * t) q, next_turn))
]
  where
    next_turn : m * (a / m + 1) ≡ m * (a / m) + m
    next_turn = grind arith

-- The space test once the indices are split: `a` and `b` count whole turns, `x` and `y` entries.
space_test :
    (s a b x y n : ℕ)
    → s ≤ 2 ^ 15
    → x < s
    → y < s
    → ((a ≡ b) × (y ≤ x)) ⊎ ((a ≡ b + 1) × (x ≤ y))
    → leb n (if a % 2 * s == b % 2 * s then (s + y - x) % 2 ^ 16 else (2 ^ 16 + y - x) % 2 ^ 16)
      ≡ leb (a * s + x - (b * s + y) + n) s
space_test s a b x y n hs hx hy (inl (e, h)) = rw e (ground arith)
space_test s a b x y n hs hx hy (inr (e, h)) = rw e (elim (ℕ_discrete (b % 2) 0) [
  | yes p ↦ let q : (b + 1) % 2 ≡ 1 = omega arith in rw (p, q) (ground arith)
  | no p ↦
      let q : (b + 1) % 2 ≡ 0 = omega arith in
      let r : b % 2 ≡ 1 = omega arith in rw (q, r) (ground arith)
])

-- The space test on the indices of two counters is the test on the counters: the queue holds
-- `made - used` of at most 2^size entries.
pub queue_has_space_lem :
    (size made used n : ℕ)
    → size < 16
    → used ≤ made
    → made ≤ used + 2 ^ size
    → queue_has_space (index_of size made) (index_of size used) size n
      ≡ leb (made - used + n) (2 ^ size)
unfolding queue_has_space
queue_has_space_lem size made used n hs hu hm =
    rw
      (q_idx-index size used, q_idx-index size made, q_wrap-index size used, q_wrap-index size made)
      (space_test (2 ^ size) (made / 2 ^ size) (used / 2 ^ size) (entry size made) (entry size used)
          n (pow-le-pow_right {n = 2} (omega arith) {i = size} {j = 15} (omega arith))
          (entry_lt size made) (entry_lt size used)
          (turns (quotients (2 ^ size) made used (one-le-pow size 2 (omega arith)) hu hm))
        ∙ ap (λ t. leb t (2 ^ size)) (omega (arith, whole made, whole used)))
  where
    whole : (c : ℕ) → c / 2 ^ size * 2 ^ size + c % 2 ^ size ≡ c
    whole c = div-add-mod' c (2 ^ size)

    turns :
        (made / 2 ^ size ≡ used / 2 ^ size) ⊎ (made / 2 ^ size ≡ used / 2 ^ size + 1)
        → ((made / 2 ^ size ≡ used / 2 ^ size) × (entry size used ≤ entry size made))
          ⊎ ((made / 2 ^ size ≡ used / 2 ^ size + 1) × (entry size made ≤ entry size used))
    turns (inl e) = inl (e, omega (arith, whole made, whole used, ap (λ (t : ℕ). t * 2 ^ size) e))
    turns (inr e) = inr (e, omega (arith, whole made, whole used, ap (λ (t : ℕ). t * 2 ^ size) e))

module _ (size count : ℕ) (small : size < 16) where
  entries_le : 2 ^ size ≤ 2 ^ 15
  entries_le = pow-le-pow_right {n = 2} (omega arith) {i = size} {j = 15} (omega arith)

  next_index :
      index_of size (count + 1) ≡ (entry size count + wrap size count * 2 ^ size + 1) % 2 ^ suc size
  next_index =
      sym (mod-add-mod count (2 ^ suc size) 1)
      ∙ ap (λ t. (t + 1) % 2 ^ suc size) (index_split size count)

  pub mask : max_cmd_que_index size % 2 ^ 16 ≡ 2 ^ size - 1
  mask = omega (arith, entries_le)

  -- the update on entry `x` and wrap bit `w`
  advance :
      (x w : ℕ)
      → x < 2 ^ size
      → w ≤ 1
      → (if x == 2 ^ size - 1
          then bit_or (bit_xor w 1 * 2 ^ size) 0 % 2 ^ 16
          else bit_or (w * 2 ^ size) (x + 1) % 2 ^ 16)
        ≡ (x + w * 2 ^ size + 1) % 2 ^ suc size
  advance x zero hx hw = ground (
    arith,
    bit_or-zero (1 * 2 ^ size),
    bit_or_fields size 0 (x + 1),
    entries_le,
    mod-eq_of_lt {n = x + 0 * 2 ^ size + 1} {m = 2 ^ suc size},
    pow-suc 2 size,
  )
  advance x (suc zero) hx hw = ground (
    arith,
    bit_or-zero (0 * 2 ^ size),
    bit_or_fields size 1 (x + 1),
    entries_le,
    pow-suc 2 size,
    mod-eq_of_lt {n = x + 1 * 2 ^ size + 1} {m = 2 ^ suc size},
    mod_unique (2 ^ suc size) 1 0 (x + 1 * 2 ^ size + 1),
  )
  advance x (suc (suc w)) hx hw = absurd (omega arith)

  -- Advancing an index of a queue with at most 2^15 entries is counting one further.
  pub ummu_update_queue_index_lem :
      ummu_update_queue_index (index_of size count) size ≡ index_of size (count + 1)
  unfolding ummu_update_queue_index
  ummu_update_queue_index_lem =
      rw (mask, q_idx-index size count, index_wrap size count, next_index)
        (advance (entry size count) (wrap size count) (entry_lt size count) (wrap_le size count))
