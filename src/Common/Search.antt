-- ===== src/Common/Search.antt =====
-- `find_first_zero_bit`, `find_first_bit` and `find_next_bit` find the first bit of their kind.
use openeuler_ummu.Base.{
  ℕ, zero, suc, ◌+◌, ◌-◌, ◌*◌, ◌/◌, ◌%◌, ◌^◌, ◌<◌, ◌≤◌, ◌≡◌, ◌≢◌, refl, ap, ◌∙◌, arith, ◌==◌, ◌||◌,
  leb, ltb, if◌then◌else◌, List, length, get_or, inl, inr, Bool-cases, false, bit_and, min,
}
use native.Mathlib.Decide.{dec_lt}
use native.Mathlib.Nat.{one-le-pow}
use openeuler_ummu.Base.Bits.{
  get_bit, get_bit-complement, get_bit-le-one, zero-get_bit, get_bit-bit_and, get_bit-mask,
  pow-lt-pow, bit_and-lt,
}
use openeuler_ummu.Common.{
  not64, ffz, bits_to_longs, first_zero_loop, find_first_zero_bit, first_one_loop, find_first_bit,
  ones_from, find_next_bit,
}
use openeuler_ummu.Common.Word.{IsLowest, ffz-IsLowest, ffz-not64-IsLowest}
use openeuler_ummu.Common.Bitmap.{bit_at, IsWords}

-- `r` is the first index from `start` on where the bitmap holds `b` (0 or 1), or `size` if there is
-- none below `size`.
pub record IsFirst (b : ℕ) (ws : List ℕ) (size start r : ℕ) : Type 0 where
  pub start_le : start ≤ r
  pub le_size : r ≤ size
  pub skipped : (k : ℕ) → start ≤ k → k < r → bit_at ws k ≢ b
  pub hit : r < size → bit_at ws r ≡ b

module _ (ws : List ℕ) (words : IsWords ws) (start : ℕ) where
  -- the bits from `start` to word `i` are all different from `b`
  abbrev Passed : ℕ → ℕ → Type 0
  Passed b i = (k : ℕ) → start ≤ k → k < i * 64 → bit_at ws k ≢ b

  module _ (b i : ℕ) (passed : Passed b i) where
    -- one more word without a hit
    Passed-suc :
        ((j : ℕ) → j < 64 → start ≤ i * 64 + j → get_bit (get_or ws i 0) j ≢ b) → Passed b (suc i)
    Passed-suc none_here k h hk = elim (dec_lt k (i * 64)) [
      | yes l ↦ passed k h l
      | no g ↦
          let e : k / 64 ≡ i = omega arith in rw e (none_here (k % 64) (omega arith) (omega arith))
    ]

    -- a word whose first hit is bit `j`
    IsFirst-word :
        (j : ℕ)
        → j < 64
        → i < length ws
        → start ≤ i * 64 + j
        → get_bit (get_or ws i 0) j ≡ b
        → ((m : ℕ) → m < j → start ≤ i * 64 + m → get_bit (get_or ws i 0) m ≢ b)
        → IsFirst b ws (length ws * 64) start (i * 64 + j)
    IsFirst-word j hj hi hs hit below = record {
      start_le = hs;
      le_size = omega arith;
      skipped = λ k h hk. elim (dec_lt k (i * 64)) [
        | yes l ↦ passed k h l
        | no g ↦
            let e : k / 64 ≡ i = omega arith in rw e (below (k % 64) (omega arith) (omega arith))
      ];
      hit = λ _.
          let e : (i * 64 + j) / 64 ≡ i = omega arith in
          let f : (i * 64 + j) % 64 ≡ j = omega arith in rw (e, f) hit;
    }

  IsFirst-end :
      (b : ℕ)
      → start ≤ length ws * 64
      → Passed b (length ws)
      → IsFirst b ws (length ws * 64) start (length ws * 64)
  IsFirst-end b h passed = record {
    start_le = h;
    le_size = omega arith;
    skipped = passed;
    hit = λ l. absurd (omega arith);
  }

  -- The loops, started at word `i` with all before it passed.
  first_zero_loop-IsFirst :
      (n i ret : ℕ)
      → i + n ≡ length ws
      → ret ≡ i * 64
      → start ≤ ret
      → Passed 0 i
      → IsFirst 0 ws (length ws * 64) start (first_zero_loop n ws (length ws * 64) i ret)
  unfolding first_zero_loop
  first_zero_loop-IsFirst zero i ret h hr hs passed =
      let e : i ≡ length ws = omega arith in
      IsFirst-end 0 (omega arith) λ k l m. passed k l (omega arith)
  first_zero_loop-IsFirst (suc n) i ret h hr hs passed =
      elim (Bool-cases (not64 (get_or ws i 0) == 0)) [
        | inl full ↦ rw full (
            first_zero_loop-IsFirst n (i + 1) (ret + 64) (omega arith) (omega arith) (omega arith)
              λ k l m.
                Passed-suc 0 i passed
                  (λ j hj _. omega (
                    arith,
                    get_bit-complement 64 (get_or ws i 0) j (words i) hj,
                    all_ones j (ground arith),
                  ))
                  k l (omega arith))
        | inr free ↦
            let low = ffz-IsLowest (get_or ws i 0) (words i) (ground arith) in
            rw (free, hr)
              (IsFirst-word 0 i passed (ffz (get_or ws i 0)) low.inside (omega arith) (omega arith)
                (omega (
                  arith,
                  low.hit,
                  get_bit-complement 64 (get_or ws i 0) (ffz (get_or ws i 0)) (words i) low.inside,
                ))
                λ m hm _. omega (
                  arith,
                  low.below m hm,
                  get_bit-complement 64 (get_or ws i 0) m (words i) (omega (arith, low.inside)),
                ))
      ]
    where
      all_ones : (j : ℕ) → not64 (get_or ws i 0) ≡ 0 → get_bit (not64 (get_or ws i 0)) j ≡ 0
      all_ones j e = rw e (zero-get_bit j)

  first_one_loop-IsFirst :
      (n i ret : ℕ)
      → i + n ≡ length ws
      → ret ≡ i * 64
      → start ≤ ret
      → Passed 1 i
      → IsFirst 1 ws (length ws * 64) start (first_one_loop n ws (length ws * 64) i ret)
  unfolding first_one_loop
  first_one_loop-IsFirst zero i ret h hr hs passed =
      IsFirst-end 1 (omega arith) λ k l m. passed k l (omega arith)
  first_one_loop-IsFirst (suc n) i ret h hr hs passed = elim (Bool-cases (get_or ws i 0 == 0)) [
    | inl empty ↦ rw empty (
        first_one_loop-IsFirst n (i + 1) (ret + 64) (omega arith) (omega arith) (omega arith)
          λ k l m.
            Passed-suc 1 i passed (λ j hj _. omega (arith, no_ones j (ground arith))) k l
              (omega arith))
    | inr used ↦
        let low = ffz-not64-IsLowest (get_or ws i 0) (words i) (ground arith) in
        rw (used, hr)
          (IsFirst-word 1 i passed (ffz (not64 (get_or ws i 0))) low.inside (omega arith)
            (omega arith) low.hit λ m hm _. omega (arith, low.below m hm))
  ]
    where
      no_ones : (j : ℕ) → get_or ws i 0 ≡ 0 → get_bit (get_or ws i 0) j ≡ 0
      no_ones j e = rw e (zero-get_bit j)

  longs : length ws < 2 ^ 32 → bits_to_longs (length ws * 64) ≡ length ws
  unfolding bits_to_longs
  longs h = omega arith

-- `find_first_zero_bit` over a whole array (of fewer than 2^32 words) returns the first zero bit, or
-- the size if all bits are ones.
pub find_first_zero_bit-IsFirst :
    (ws : List ℕ)
    → IsWords ws
    → length ws < 2 ^ 32
    → IsFirst 0 ws (length ws * 64) 0 (find_first_zero_bit ws (length ws * 64))
unfolding find_first_zero_bit
find_first_zero_bit-IsFirst ws words small =
    let run =
      first_zero_loop-IsFirst ws words 0 (length ws) 0 0 (omega arith) refl (omega arith)
        (λ k h l. absurd (omega arith)) in
    elim (Bool-cases (length ws * 64 == 0)) [
      | inl empty ↦
          let e : length ws ≡ 0 = ground arith in
          rw empty (IsFirst-end ws words 0 0 (omega arith) (λ k h l. absurd (omega arith)))
      | inr some_words ↦ rw (some_words, longs ws words 0 small) run
    ]

-- `find_first_bit` returns the first one bit, or the size if all bits are zeros.
pub find_first_bit-IsFirst :
    (ws : List ℕ)
    → IsWords ws
    → length ws < 2 ^ 32
    → IsFirst 1 ws (length ws * 64) 0 (find_first_bit ws (length ws * 64))
unfolding find_first_bit
find_first_bit-IsFirst ws words small =
    let run =
      first_one_loop-IsFirst ws words 0 (length ws) 0 0 (omega arith) refl (omega arith)
        (λ k h l. absurd (omega arith)) in
    elim (Bool-cases (length ws * 64 == 0)) [
      | inl empty ↦
          let e : length ws ≡ 0 = ground arith in
          rw empty (IsFirst-end ws words 0 1 (omega arith) (λ k h l. absurd (omega arith)))
      | inr some_words ↦ rw (some_words, longs ws words 0 small) run
    ]

-- Bit `j` of `~0UL << m`.
get_bit-ones_from :
    (m j : ℕ) → m < 64 → j < 64 → get_bit (ones_from m) j ≡ (if ltb j m then 0 else 1)
get_bit-ones_from m j hm hj =
    let p : 1 ≤ 2 ^ m = one-le-pow m 2 (omega arith) in
    let q : 2 ^ m < 2 ^ 64 = pow-lt-pow hm in
    let e : ones_from m ≡ 2 ^ 64 - 1 - (2 ^ m - 1) = omega arith in
    rw e (ground (arith, get_bit-complement 64 (2 ^ m - 1) j, get_bit-mask m j))

module _ (ws : List ℕ) (words : IsWords ws) (offset : ℕ) where
  abbrev first_word : ℕ
  first_word = bit_and (get_or ws (offset / 64) 0) (ones_from (offset % 64))

  masked :
      (j : ℕ)
      → j < 64
      → get_bit first_word j
        ≡ min (get_bit (get_or ws (offset / 64) 0) j) (if ltb j (offset % 64) then 0 else 1)
  masked j hj =
      get_bit-bit_and (get_or ws (offset / 64) 0) (ones_from (offset % 64)) j
      ∙ ap (min (get_bit (get_or ws (offset / 64) 0) j))
          (get_bit-ones_from (offset % 64) j (omega arith) hj)

  rest_of_first :
      first_word ≡ 0
      → (j : ℕ) → j < 64
      → offset ≤ offset / 64 * 64 + j
      → get_bit (get_or ws (offset / 64) 0) j ≢ 1
  rest_of_first e j hj ho = ground (arith, masked j hj, ap (λ t. get_bit t j) e, zero-get_bit j)

  lowest : first_word ≢ 0 → IsLowest 64 first_word (ffz (not64 first_word))
  lowest ne = ffz-not64-IsLowest first_word (bit_and-lt 64 _ _ (words (offset / 64))) ne

  in_word : first_word ≢ 0 → offset ≤ offset / 64 * 64 + ffz (not64 first_word)
  in_word ne =
      let low = lowest ne in ground (arith, masked (ffz (not64 first_word)) low.inside, low.hit)

  hit_word : first_word ≢ 0 → get_bit (get_or ws (offset / 64) 0) (ffz (not64 first_word)) ≡ 1
  hit_word ne =
      let low = lowest ne in
      ground (
        arith,
        masked (ffz (not64 first_word)) low.inside,
        low.hit,
        get_bit-le-one (get_or ws (offset / 64) 0) (ffz (not64 first_word)),
      )

  -- `find_next_bit` returns the first one bit at or after an offset inside the array, or the size if
  -- there is none.
  pub find_next_bit-IsFirst :
      length ws < 2 ^ 32
      → offset < length ws * 64
      → IsFirst 1 ws (length ws * 64) offset (find_next_bit ws (length ws * 64) offset)
  unfolding find_next_bit
  find_next_bit-IsFirst small inside = elim (Bool-cases (first_word == 0)) [
    | inl none_left ↦
        rw (guard, none_left, longs ws words 0 small)
          (first_one_loop-IsFirst ws words offset (length ws - (offset / 64 + 1)) (offset / 64 + 1)
            _ (omega arith) (omega arith) (omega arith)
            λ k h l.
              Passed-suc ws words offset 1 (offset / 64) (λ k h l. absurd (omega arith))
                (rest_of_first (ground arith)) k h (omega arith))
    | inr found ↦
        let low = lowest (ground arith) in
        rw (guard, found)
          (IsFirst-word ws words offset 1 (offset / 64) (λ k h l. absurd (omega arith))
            (ffz (not64 first_word)) low.inside (omega arith) (in_word (ground arith))
            (hit_word (ground arith))
            λ m hm ho. ground (arith, low.below m hm, masked m (omega (arith, low.inside))))
  ]
    where
      guard : (leb (length ws * 64) offset || (length ws * 64 == 0)) ≡ false
      guard = ground arith

-- past the end there is no bit
pub find_next_bit-past :
    (ws : List ℕ) (size offset : ℕ) → size ≤ offset → find_next_bit ws size offset ≡ size
unfolding find_next_bit
find_next_bit-past ws size offset h = ground arith
