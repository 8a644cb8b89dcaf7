-- ===== src/Queue/Completion.antt =====
-- `ummu_get_cpl_psync` of ummu_queue.c: the completions that the device has written, up to the one of
-- a given command.
pub mod Progress
use openeuler_ummu.Base.{
  ℕ, zero, suc, ◌*◌, ◌%◌, ◌^◌, bit_and, ◌==◌, if◌then◌else◌, Bool, true, false, Option, none, some,
  einval, eagain,
}
use openeuler_ummu.Queue.{max_cmd_que_index, ummu_update_queue_index}

-- `struct ummu_mapt_cpl_entry`
pub record CplEntry : Type 0 where
  pub cpl_status : ℕ
  pub cmdq_ci : ℕ

-- The loop with at most `n` rounds; `none` if they do not suffice. The result says whether the expected
-- completion was met, and has the consumer index. The status of a completion is only logged.
unfoldable pub psync_loop : ℕ → (ℕ → CplEntry) → ℕ → ℕ → ℕ → ℕ → Option (Bool × ℕ)
psync_loop zero entries size pi pi_sync ci = if pi == ci then some (false, ci) else none
psync_loop (suc n) entries size pi pi_sync ci =
    let idx_mask = max_cmd_que_index size % 2 ^ 16 in
    let next = ummu_update_queue_index ci size in
    let rest = psync_loop n entries size pi pi_sync next in
    if pi == ci
    then some (false, ci)
    else if (entries (bit_and ci idx_mask)).cmdq_ci == pi_sync
    then some (true, next)
    else rest

-- The status and the new `ucplq_ci`. `pi` and `ci` are what the control page holds.
unfoldable pub ummu_get_cpl_psync : (ℕ → CplEntry) → ℕ → ℕ → ℕ → ℕ → Option (ℕ × ℕ)
unfolding psync_loop
ummu_get_cpl_psync entries cpl_que_size pi ci pi_sync =
    let run = psync_loop (2 * 2 ^ cpl_que_size) entries cpl_que_size pi pi_sync ci in
    if pi == ci
    then some (einval, ci)
    else elim run [ none ↦ none | some (found, ci') ↦ some (if found then 0 else eagain, ci') ]
