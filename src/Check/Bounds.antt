-- ===== src/Check/Bounds.antt =====
-- What `ummu_check_data` accepts.
use openeuler_ummu.Base.{ℕ, ◌+◌, ◌%◌, ◌^◌, ◌≤◌, ◌<◌, ◌≡◌, ◌≢◌, ◌↔◌, arith, false}
use openeuler_ummu.Mapt.{mapt_mode_table}
use openeuler_ummu.Mapt.Addr.{align_vpage_shift_check_lem}
use openeuler_ummu.Check.{
  GrantArgs, exceeds_limit, ummu_check_data, ummu_check_perm, ummu_check_ebit,
}

-- one of the six permissions
abbrev pub IsPerm : ℕ → Type 0
IsPerm p = (1 ≤ p) × (p ≤ 7) × (p ≢ 4)

check_perm_iff : (p : ℕ) → (ummu_check_perm p ≡ 0) ↔ IsPerm p
unfolding ummu_check_perm
check_perm_iff p = ground arith

check_ebit_iff : (e : ℕ) → (ummu_check_ebit e ≡ 0) ↔ (e ≤ 1)
unfolding ummu_check_ebit
check_ebit_iff e = ground arith

exceeds_limit_iff :
    (a s : ℕ) → a < 2 ^ 64 → s < 2 ^ 64 → s ≢ 0 → (exceeds_limit a s ≡ false) ↔ (a + s ≤ 2 ^ 48)
unfolding exceeds_limit
exceeds_limit_iff a s ha hs hne = ground arith

-- A request passes the checks exactly if it is not empty, its last byte lies below 2^48, it starts at
-- a page in table mode, and its permission and e-bit are members of their enumerations. (The
-- arguments are 64-bit numbers.)
pub ummu_check_data_iff :
    (a : GrantArgs) (mode : ℕ)
    → a.address < 2 ^ 64
    → a.data_size < 2 ^ 64
    → (ummu_check_data a mode ≡ 0) ↔ (
        (a.data_size ≢ 0)
        × (a.address + a.data_size ≤ 2 ^ 48)
        × (mode ≡ mapt_mode_table → a.address % 4096 ≡ 0)
        × IsPerm a.perm
        × (a.e_bit ≤ 1))
unfolding ummu_check_data
ummu_check_data_iff a mode ha hs = ground (
  arith,
  check_perm_iff a.perm,
  check_ebit_iff a.e_bit,
  exceeds_limit_iff a.address a.data_size ha hs,
  align_vpage_shift_check_lem a.address ha,
)
