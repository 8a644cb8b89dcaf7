-- ===== src/Mapt/Addr.antt =====
-- The address macros as arithmetic, and the round trips of split addresses and offsets.
use openeuler_ummu.Base.{
  ℕ, ◌+◌, ◌-◌, ◌*◌, ◌/◌, ◌%◌, ◌^◌, ◌<◌, ◌≡◌, ◌∙◌, ap, arith, bit_or, true, ◌↔◌,
}
use openeuler_ummu.Base.Bits.{bit_and_mask, bit_and_high, bit_or_fields}
use openeuler_ummu.Mapt.{
  entry_addr_low, entry_addr_high, table_addr_low, table_addr_high, lvl_offset_low, lvl_offset_high,
  addr_full, table_lvl_offset, align_vpage_shift_check, align_mapt,
}

pub entry_addr_low-mod : (a : ℕ) → entry_addr_low a ≡ a % 2 ^ 32
unfolding entry_addr_low
entry_addr_low-mod a = omega (arith, bit_and_mask 32 a)

pub entry_addr_high-div : (a : ℕ) → entry_addr_high a ≡ a / 2 ^ 32 % 2 ^ 16
unfolding entry_addr_high
entry_addr_high-div a = omega (arith, bit_and_high 32 a (2 ^ 16 - 1), bit_and_mask 16 (a / 2 ^ 32))

pub table_addr_low-mod : (a : ℕ) → table_addr_low a ≡ a % 2 ^ 32
unfolding table_addr_low
table_addr_low-mod a = omega (arith, bit_and_mask 32 a)

pub table_addr_high-div : (a : ℕ) → table_addr_high a ≡ a / 2 ^ 32 % 2 ^ 7
unfolding table_addr_high
table_addr_high-div a = omega (arith, bit_and_high 32 a (2 ^ 7 - 1), bit_and_mask 7 (a / 2 ^ 32))

pub lvl_offset_low-mod : (a : ℕ) → lvl_offset_low a ≡ a % 2 ^ 20
unfolding lvl_offset_low
lvl_offset_low-mod a = omega (arith, bit_and_mask 20 a)

pub lvl_offset_high-div : (a : ℕ) → lvl_offset_high a ≡ a / 2 ^ 20 % 2 ^ 10
unfolding lvl_offset_high
lvl_offset_high-div a = omega (arith, bit_and_high 20 a (2 ^ 10 - 1), bit_and_mask 10 (a / 2 ^ 20))

pub addr_full-add :
    (low high : ℕ) → low < 2 ^ 32 → high < 2 ^ 32 → addr_full low high ≡ high * 2 ^ 32 + low
unfolding addr_full
addr_full-add low high hl hh = ap (λ t. bit_or t low) (omega arith) ∙ bit_or_fields 32 high low hl

pub table_lvl_offset-add :
    (low high : ℕ) → low < 2 ^ 20 → high < 2 ^ 12 → table_lvl_offset low high ≡ high * 2 ^ 20 + low
unfolding table_lvl_offset
table_lvl_offset-add low high hl hh =
    ap (λ t. bit_or t low) (omega arith) ∙ bit_or_fields 20 high low hl

-- A 48-bit address survives the two fields of an entry node, a 39-bit offset those of a table node,
-- and a 30-bit node offset those of `next_lv_offset`.
pub split_round_trips :
    (a b c : ℕ)
    → a < 2 ^ 48
    → b < 2 ^ 39
    → c < 2 ^ 30
    → (addr_full (entry_addr_low a) (entry_addr_high a) ≡ a)
      × (addr_full (table_addr_low b) (table_addr_high b) ≡ b)
      × (table_lvl_offset (lvl_offset_low c) (lvl_offset_high c) ≡ c)
split_round_trips a b c ha hb hc =
    rw
      (
        entry_addr_low-mod, entry_addr_high-div, table_addr_low-mod, table_addr_high-div,
        lvl_offset_low-mod, lvl_offset_high-div,
      )
      (
        addr_full-add _ _ (omega arith) (omega arith) ∙ omega arith,
        addr_full-add _ _ (omega arith) (omega arith) ∙ omega arith,
        table_lvl_offset-add _ _ (omega arith) (omega arith) ∙ omega arith,
      )

pub align_mapt-page : (a : ℕ) → a < 2 ^ 64 → align_mapt a 4096 ≡ a / 4096 * 4096
align_mapt-page a h = omega (arith, bit_and_high 12 a (2 ^ 52 - 1), bit_and_mask 52 (a / 2 ^ 12))

-- The alignment test of table mode is "a multiple of 4096".
pub align_vpage_shift_check_lem :
    (a : ℕ) → a < 2 ^ 64 → (align_vpage_shift_check a ≡ true) ↔ (a % 4096 ≡ 0)
unfolding align_vpage_shift_check
align_vpage_shift_check_lem a h = ground (arith, align_mapt-page a h)
