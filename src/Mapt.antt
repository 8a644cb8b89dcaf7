-- ===== src/Mapt.antt =====
-- ummu_mapt.h: the permission table's nodes, the segment records and the address macros.
-- A field narrower than its value is written `% 2 ^ width`.
pub mod Addr
use openeuler_ummu.Base.{
  ℕ, ◌+◌, ◌-◌, ◌*◌, ◌/◌, ◌%◌, ◌^◌, bit_and, bit_or, ◌==◌, Bool, Option, if◌then◌else◌,
}
use openeuler_ummu.Common.{not64}

-- `enum ummu_mapt_mode` (UMMU: MAPT_MODE_END ends the enumeration, so a mode is a number)
abbrev pub mapt_mode_table : ℕ
mapt_mode_table = 0

abbrev pub mapt_mode_entry : ℕ
mapt_mode_entry = 1

abbrev pub mapt_mode_end : ℕ
mapt_mode_end = 2

abbrev pub ummu_ebit_end : ℕ
ummu_ebit_end = 2

abbrev pub max_address_bits : ℕ
max_address_bits = 48

abbrev pub ummu_max_token_num : ℕ
ummu_max_token_num = 2

abbrev pub mapt_vpage_shift : ℕ
mapt_vpage_shift = 12

-- `enum ummu_grant_op_type`
pub data GrantOp : Type 0 where
  grant add_token remove_token ungrant op_end : GrantOp

-- The fields that `struct ummu_mapt_entry_node` and `struct ummu_mapt_table_node` lay out alike.
-- `ummu_add_token` and `ummu_remove_token` use no others, and are called with either node, cast.
pub record NodeWords : Type 0 where
  pub valid : ℕ
  pub e_bit : ℕ
  pub permission : ℕ
  pub token_check : ℕ
  pub nonce : ℕ
  pub token_val_0 : ℕ
  pub token_val_1 : ℕ

-- `struct ummu_mapt_entry_node`
pub record EntryNode : Type 0 where
  pub words : NodeWords
  pub open words use *
  pub base_low : ℕ
  pub base_high : ℕ
  pub limit_low : ℕ
  pub limit_high : ℕ

-- `struct ummu_seg_info`
pub record SegInfo : Type 0 where
  pub start_addr : ℕ
  pub grant_size : ℕ
  pub permission : ℕ
  pub e_bit : ℕ
  pub token_check : ℕ
  pub token_count : ℕ
  pub token_val_0 : ℕ
  pub token_val_1 : ℕ

-- `struct ummu_data_info`: the arguments of one request. `mapt_info` is passed beside it. `bytoken`
-- and `lvl` are set by an ungrant alone, `token_check` by a grant alone.
pub record DataInfo : Type 0 where
  pub data_base : ℕ
  pub data_size : ℕ
  pub data_limit : ℕ
  pub perm : ℕ
  pub e_bit : ℕ
  pub token_check : ℕ
  pub tokenval : ℕ
  pub bytoken : ℕ
  pub op : GrantOp
  pub lvl : ℕ

-- GENMASK_ULL
abbrev pub genmask_ull : ℕ → ℕ → ℕ
genmask_ull h l = bit_and (not64 0 - 2 ^ l + 1) (not64 0 / 2 ^ (64 - 1 - h))

-- ENTRY_ADDR_LOW, ENTRY_ADDR_HIGH, TABLE_ADDR_LOW, TABLE_ADDR_HIGH
unfoldable pub entry_addr_low : ℕ → ℕ
entry_addr_low addr = bit_and addr (genmask_ull 31 0) % 2 ^ 32

unfoldable pub entry_addr_high : ℕ → ℕ
entry_addr_high addr = bit_and addr (genmask_ull 47 32) / 2 ^ 32 % 2 ^ 32

unfoldable pub table_addr_low : ℕ → ℕ
table_addr_low addr = bit_and addr (genmask_ull 31 0) % 2 ^ 32

unfoldable pub table_addr_high : ℕ → ℕ
table_addr_high addr = bit_and addr (genmask_ull 38 32) / 2 ^ 32 % 2 ^ 32

-- LVL_OFFSET_LOW, LVL_OFFSET_HIGH
unfoldable pub lvl_offset_low : ℕ → ℕ
lvl_offset_low offset = bit_and offset (genmask_ull 19 0) % 2 ^ 32

unfoldable pub lvl_offset_high : ℕ → ℕ
lvl_offset_high offset = bit_and offset (genmask_ull 29 20) / 2 ^ 20 % 2 ^ 32

-- ADDR_FULL and TABLE_LVL_OFFSET
unfoldable pub addr_full : ℕ → ℕ → ℕ
addr_full low high = bit_or (high * 2 ^ 32 % 2 ^ 64) low

unfoldable pub table_lvl_offset : ℕ → ℕ → ℕ
table_lvl_offset low high = bit_or (high * 2 ^ 20 % 2 ^ 32) low

-- ALIGN_MAPT, at a 64-bit address
abbrev pub align_mapt : ℕ → ℕ → ℕ
align_mapt x a = bit_and x (not64 (a - 1))

-- ALIGN_VPAGE_SHIFT_CHECK
pub align_vpage_shift_check : ℕ → Bool
align_vpage_shift_check val = align_mapt val (2 ^ mapt_vpage_shift) == val
