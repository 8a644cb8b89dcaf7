-- ===== src/Common/Random.antt =====
-- `ummu_gen_random` of ummu_common.c, over the results of its system calls.
use openeuler_ummu.Base.{ℕ, ◌==◌, if◌then◌else◌, Bool, Option, none, some}

-- What `open` and `read` return, and what they leave in `errno`.
pub record Urandom : Type 0 where
  pub opened : Bool
  pub open_errno : ℕ
  pub read_ret : ℕ
  pub read_errno : ℕ
  pub random_val : ℕ

-- The status, and what is stored through `value`, if anything is. `read_ret` is the number of bytes
-- read; any other value than 4 takes the error branch, which returns `-errno`.
unfoldable pub ummu_gen_random : Urandom → ℕ × Option ℕ
ummu_gen_random u =
    if u.opened
    then if u.read_ret == 4 then (0, some u.random_val) else (u.read_errno, none)
    else (u.open_errno, none)
