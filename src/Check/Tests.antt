-- ===== src/Check/Tests.antt =====
-- A request that ends at the last address below 2^48.
use openeuler_ummu.Base.{◌≡◌, ◌≢◌, ◌↔◌, ◌+◌, ◌%◌, ◌^◌, ◌≤◌, none, arith}
use openeuler_ummu.Mapt.{mapt_mode_table}
use openeuler_ummu.Check.{GrantArgs, ummu_check_data}
use openeuler_ummu.Check.Bounds.{IsPerm, ummu_check_data_iff}

abbrev last_page : GrantArgs
last_page = record {
  address = 0xffff_ffff_f000;
  data_size = 0x1000;
  perm = 7;
  token = none;
  e_bit = 1;
}

ummu_check_data_iff_example : (ummu_check_data last_page 0 ≡ 0) ↔ (
    (last_page.data_size ≢ 0)
    × (last_page.address + last_page.data_size ≤ 2 ^ 48)
    × (0 ≡ mapt_mode_table → last_page.address % 4096 ≡ 0)
    × IsPerm last_page.perm
    × (last_page.e_bit ≤ 1))
ummu_check_data_iff_example = ummu_check_data_iff last_page 0 (omega arith) (omega arith)
