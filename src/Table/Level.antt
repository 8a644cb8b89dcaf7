-- ===== src/Table/Level.antt =====
-- The levels of the table: which address bits select a node, and which are left below it.
use openeuler_ummu.Base.{ℕ, ◌+◌, ◌-◌, ◌/◌, ◌^◌, bit_and, ◌==◌, if◌then◌else◌}

abbrev pub max_level_index : ℕ
max_level_index = 3

abbrev pub max_mapt_entry_index : ℕ
max_mapt_entry_index = 512

abbrev pub per_mapt_level_block_cnt : ℕ
per_mapt_level_block_cnt = 4

abbrev pub max_level_id_size : ℕ
max_level_id_size = 2048

-- `g_mapt_range_bits`: the highest and the lowest bit of a level's index. There is no row 4; a read of
-- it gives 0 here.
unfoldable pub range_bits_high : ℕ → ℕ
range_bits_high level =
    if level == 0
    then 47
    else if level == 1
    then 38
    else if level == 2
    then 29
    else if level == 3
    then 20
    else 0

unfoldable pub range_bits_low : ℕ → ℕ
range_bits_low level =
    if level == 0
    then 39
    else if level == 1
    then 30
    else if level == 2
    then 21
    else if level == 3
    then 12
    else 0

-- GET_LEVEL_BLOCK_INDEX and GET_LEVEL_RANGE_MASK
unfoldable pub level_block_index : ℕ → ℕ → ℕ
unfolding range_bits_high range_bits_low
level_block_index addr level =
    bit_and (addr / 2 ^ range_bits_low level)
      (2 ^ (range_bits_high level - range_bits_low level + 1) - 1)

unfoldable pub level_range_mask : ℕ → ℕ
unfolding range_bits_low
level_range_mask level = 2 ^ range_bits_low level - 1
