-- ===== src/Check.antt =====
-- ummu_mapt.c: the checks of a request and its preparation.
pub mod Bounds
mod Tests
use openeuler_ummu.Base.{
  ℕ, ◌+◌, ◌-◌, ◌/◌, ◌%◌, ◌^◌, ltb, leb, ◌==◌, ◌&&◌, ◌||◌, not, if◌then◌else◌, Bool, Option, none,
  some, einval, wsub,
}
use openeuler_ummu.Common.Random.{Urandom}
use openeuler_ummu.Mapt.{
  op_end, DataInfo, mapt_mode_table, mapt_mode_end, ummu_ebit_end, max_address_bits,
  align_vpage_shift_check,
}
use openeuler_ummu.Token.{TokenInfo, ummu_get_token}

-- The enumerations are unsigned, so nothing is below their first member.
unfoldable pub ummu_check_mode : ℕ → ℕ
ummu_check_mode mode = if leb mapt_mode_end mode || ltb mode mapt_mode_table then einval else 0

unfoldable pub ummu_check_ebit : ℕ → ℕ
ummu_check_ebit e_bit = if leb ummu_ebit_end e_bit || ltb e_bit 0 then einval else 0

-- `enum ummu_mapt_perm`: W = 1, R = 2, RW = 3, ATOMIC_W = 5, ATOMIC_R = 6, ATOMIC_RW = 7
unfoldable pub ummu_check_perm : ℕ → ℕ
ummu_check_perm perm =
    if perm == 2 || perm == 1 || perm == 3 || perm == 6 || perm == 5 || perm == 7 then 0 else einval

-- The arguments of `ummu_grant`; `token` is `none` for a null pointer.
pub record GrantArgs : Type 0 where
  pub address : ℕ
  pub data_size : ℕ
  pub perm : ℕ
  pub token : Option TokenInfo
  pub e_bit : ℕ

-- "The address or memory size exceeds the upper limit"; sums are those of `uint64_t`.
unfoldable pub exceeds_limit : ℕ → ℕ → Bool
exceeds_limit address size =
    not (address / 2 ^ max_address_bits == 0)
    || not (wsub 64 size 1 / 2 ^ max_address_bits == 0)
    || not (wsub 64 (address + size) 1 / 2 ^ max_address_bits == 0)

unfoldable pub ummu_check_data : GrantArgs → ℕ → ℕ
ummu_check_data a mode =
    if a.data_size == 0
    then einval
    else if exceeds_limit a.address a.data_size
    then einval
    else if (mode == mapt_mode_table) && not (align_vpage_shift_check a.address)
    then einval
    else if not (ummu_check_perm a.perm == 0) || not (ummu_check_ebit a.e_bit == 0)
    then einval
    else 0

-- The prepared request, the status, and the caller's token. `old` is what the local variable's
-- `tokenval` held.
unfoldable pub ummu_perm_data_preproc : Urandom → ℕ → GrantArgs → DataInfo × ℕ × Option TokenInfo
ummu_perm_data_preproc u old a = elim a.token [
  | none ↦ (prepared 0 old, 0, none)
  | some t ↦ let (ret, value, t') = ummu_get_token u t old in (prepared 1 value, ret, some t')
]
  where
    prepared : ℕ → ℕ → DataInfo
    prepared check value = record {
      data_base = a.address;
      data_size = a.data_size;
      data_limit = wsub 64 (a.address + a.data_size) 1;
      perm = a.perm;
      e_bit = a.e_bit;
      token_check = check;
      tokenval = value;
      bytoken = 0;
      op = op_end;
      lvl = 0;
    }
