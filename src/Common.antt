-- ===== src/Common.antt =====
-- ummu_common.h and ummu_common.c: bit operations on arrays of `unsigned long`, the bit searches,
-- and random tokens. A word is a number below 2 ^ 64, an array a list of words; a read behind the
-- end of an array yields 0, and no theorem is about such a read.
pub mod Word
pub mod Bitmap
pub mod Search
pub mod Random
mod Tests
use openeuler_ummu.Base.{
  ℕ, zero, suc, ◌+◌, ◌-◌, ◌*◌, ◌/◌, ◌%◌, ◌^◌, bit_and, bit_or, ◌==◌, ◌||◌, leb, if◌then◌else◌, List,
  get_or, set, wsub, Bool, true, false,
}

abbrev pub bits_per_long : ℕ
bits_per_long = 64

abbrev pub bits_per_long_shift : ℕ
bits_per_long_shift = 6

abbrev pub bits_per_long_mask : ℕ
bits_per_long_mask = bits_per_long - 1

-- `~word` of an `unsigned long`
abbrev pub not64 : ℕ → ℕ
not64 word = 2 ^ 64 - 1 - word

-- `addr[nr >> BITS_PER_LONG_SHIFT] |= 1UL << (nr & BITS_PER_LONG_MASK)`
unfoldable pub ummu_set_bit : ℕ → List ℕ → List ℕ
ummu_set_bit nr addr =
    let i = nr / 2 ^ bits_per_long_shift in
    set addr i (bit_or (get_or addr i 0) (2 ^ bit_and nr bits_per_long_mask))

unfoldable pub ummu_clear_bit : ℕ → List ℕ → List ℕ
ummu_clear_bit nr addr =
    let i = nr / 2 ^ bits_per_long_shift in
    set addr i (bit_and (get_or addr i 0) (not64 (2 ^ bit_and nr bits_per_long_mask)))

-- The compiler's `__builtin_ffsl` over the low `n` bits: one more than the index of the lowest one,
-- 0 if there is none.
pub ffsl : ℕ → ℕ → ℕ
ffsl zero word = 0
ffsl (suc n) word =
    let rest = ffsl n (word / 2) in if word % 2 == 1 then 1 else if rest == 0 then 0 else rest + 1

pub ffz : ℕ → ℕ
unfolding ffsl
ffz word = wsub 64 (ffsl 64 (not64 word)) 1

-- DIV_ROUND_UP over BITS_PER_LONG, in `unsigned long` arithmetic
pub bits_to_longs : ℕ → ℕ
bits_to_longs cnt = wsub 64 (cnt + bits_per_long) 1 / bits_per_long

-- The loop of `find_first_zero_bit` with `n` rounds to go.
pub first_zero_loop : ℕ → List ℕ → ℕ → ℕ → ℕ → ℕ
unfolding ffz
first_zero_loop zero array size i ret = size
first_zero_loop (suc n) array size i ret =
    let rest = first_zero_loop n array size (i + 1) (ret + bits_per_long) in
    if not64 (get_or array i 0) == 0 then rest else ret + ffz (get_or array i 0)

unfoldable pub find_first_zero_bit : List ℕ → ℕ → ℕ
unfolding first_zero_loop bits_to_longs
find_first_zero_bit array size =
    if size == 0 then size else first_zero_loop (bits_to_longs size) array size 0 0

-- The loop of `find_first_bit`, and the last one of `find_next_bit`.
pub first_one_loop : ℕ → List ℕ → ℕ → ℕ → ℕ → ℕ
first_one_loop zero array size i ret = size
first_one_loop (suc n) array size i ret =
    let rest = first_one_loop n array size (i + 1) (ret + bits_per_long) in
    if get_or array i 0 == 0 then rest else ret + ffz (not64 (get_or array i 0))

pub find_first_bit : List ℕ → ℕ → ℕ
find_first_bit array size =
    if size == 0 then size else first_one_loop (bits_to_longs size) array size 0 0

-- `~0UL << k`
abbrev pub ones_from : ℕ → ℕ
ones_from k = not64 0 * 2 ^ k % 2 ^ 64

pub find_next_bit : List ℕ → ℕ → ℕ → ℕ
find_next_bit array size offset =
    if leb size offset || (size == 0)
    then size
    else let i = offset / 2 ^ bits_per_long_shift in
      let ret = i * bits_per_long in
      let tmp = bit_and (get_or array i 0) (ones_from (offset % bits_per_long)) in
      if tmp == 0
      then first_one_loop (bits_to_longs size - (i + 1)) array size (i + 1) (ret + bits_per_long)
      else ret + ffz (not64 tmp)
