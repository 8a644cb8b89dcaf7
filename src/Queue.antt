-- ===== src/Queue.antt =====
-- ummu_queue.h and ummu_queue.c: the command queue and the completion queue of one UMMU.
-- An index of a queue with 2^size entries counts modulo 2^(size + 1): the entry, and a wrap bit.
pub mod Index
pub mod Completion
pub mod Command
pub mod Plbi
mod Tests
use openeuler_ummu.Base.{
  ℕ, zero, suc, ◌+◌, ◌-◌, ◌*◌, ◌/◌, ◌%◌, ◌^◌, bit_and, bit_or, bit_xor, ◌==◌, leb, if◌then◌else◌,
  Bool,
}

-- Q_WRAP and Q_IDX
abbrev pub q_wrap : ℕ → ℕ → ℕ
q_wrap idx size = bit_and idx (2 ^ size)

abbrev pub q_idx : ℕ → ℕ → ℕ
q_idx idx size = bit_and idx (2 ^ size - 1)

-- MAX_CMD_QUE_INDEX
abbrev pub max_cmd_que_index : ℕ → ℕ
max_cmd_que_index size = 2 ^ size - 1

-- The differences are computed in `int` and stored in a `uint16_t`.
pub queue_has_space : ℕ → ℕ → ℕ → ℕ → Bool
queue_has_space pi ci cmd_que_size n =
    let ci_rd = q_idx ci cmd_que_size in
    let pi_wr = q_idx pi cmd_que_size in
    let space =
      if q_wrap pi cmd_que_size == q_wrap ci cmd_que_size
      then (2 ^ cmd_que_size + ci_rd - pi_wr) % 2 ^ 16
      else (2 ^ 16 + ci_rd - pi_wr) % 2 ^ 16 in
    leb n space

pub ummu_update_queue_index : ℕ → ℕ → ℕ
ummu_update_queue_index index que_size =
    let max_que = max_cmd_que_index que_size % 2 ^ 16 in
    let idx = bit_and index max_que in
    let idx_wrap = index / 2 ^ que_size in
    if idx == max_que
    then bit_or (bit_xor idx_wrap 1 * 2 ^ que_size) 0 % 2 ^ 16
    else bit_or (idx_wrap * 2 ^ que_size) (idx + 1) % 2 ^ 16
