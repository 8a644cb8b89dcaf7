-- ===== src/Queue/Command.antt =====
-- `ummu_send_cmd` of ummu_queue.c: one invalidation command, each time with a synchronisation behind
-- it, into the ring that the device reads.
pub mod Ring
pub mod Wait
pub mod Send
pub mod Live
use openeuler_ummu.Base.{
  ℕ, zero, suc, ◌+◌, ◌-◌, ◌*◌, ◌%◌, ◌^◌, ◌==◌, if◌then◌else◌, Bool, true, false, not, Option, none,
  some, etimedout,
}
use openeuler_ummu.Queue.{q_idx, queue_has_space, ummu_update_queue_index}
use openeuler_ummu.Queue.Completion.{CplEntry, ummu_get_cpl_psync}

-- `struct ummu_mapt_cmd_entry`
pub record CmdEntry : Type 0 where
  pub opcode : ℕ
  pub cqe_en : ℕ
  pub range : ℕ
  pub addr : ℕ

abbrev pub psync_op : ℕ
psync_op = 0x01

abbrev pub cmd_num_per_plbi : ℕ
cmd_num_per_plbi = 2

abbrev pub max_wait_not_full_times : ℕ
max_wait_not_full_times = 300

abbrev pub wait_not_full_interval_us : ℕ
wait_not_full_interval_us = 25

abbrev pub wait_not_full_dividend : ℕ
wait_not_full_dividend = 5

abbrev pub wait_cplq_times : ℕ
wait_cplq_times = 4

abbrev pub wait_cplq_interval_us : ℕ
wait_cplq_interval_us = 2

-- What the device has put into the control page and the completion ring when it is looked at for the
-- n-th time.
pub record Device : Type 0 where
  pub ucmdq_ci : ℕ → ℕ
  pub ucplq_pi : ℕ → ℕ
  pub cpl_entry : ℕ → ℕ → CplEntry

-- What the library writes: its command ring, and its two indices of the control page. `looks` counts
-- the looks at what the device writes, `slept` the microseconds of `usleep`.
pub record Queue : Type 0 where
  pub cmd_entry : ℕ → CmdEntry
  pub ucmdq_pi : ℕ
  pub ucplq_ci : ℕ
  pub looks : ℕ
  pub slept : ℕ

-- The sizes in `struct ummu_mapt_queue_ctx`, as powers of two.
pub record Sizes : Type 0 where
  pub cmd_que_pi_size : ℕ
  pub cpl_que_size : ℕ

abbrev pub cmd_psync : CmdEntry
cmd_psync = record { opcode = psync_op; cqe_en = 1; range = 0; addr = 0 }

-- `usleep`
abbrev pub sleep : ℕ → Queue → Queue
sleep us q = record q { slept = q.slept + us }

abbrev pub looked : Queue → Queue
looked q = record q { looks = q.looks + 1 }

-- `ring[i] = e`
abbrev pub put : (ℕ → CmdEntry) → ℕ → CmdEntry → ℕ → CmdEntry
put ring i e j = if j == i then e else ring j

-- The loop that waits for space. The result says whether there is some; `times` rounds are left.
unfoldable pub wait_not_full : Device → ℕ → ℕ → ℕ → ℕ → Queue → Bool × Queue
wait_not_full dev size n zero wait_interval q =
    if queue_has_space q.ucmdq_pi (dev.ucmdq_ci q.looks) size n
    then (true, looked q)
    else (false, sleep wait_interval (looked q))
wait_not_full dev size n (suc times) wait_interval q =
    let interval =
      wait_not_full_interval_us * ((max_wait_not_full_times - times) % wait_not_full_dividend) in
    let rest = wait_not_full dev size n times interval (sleep wait_interval (looked q)) in
    if queue_has_space q.ucmdq_pi (dev.ucmdq_ci q.looks) size n then (true, looked q) else rest

-- The loop that writes the commands: `plbi_num` rounds are left. The result is `pi_sync`, `pi_wr` and
-- the ring.
unfoldable pub write_plbi : ℕ → CmdEntry → ℕ → ℕ → ℕ → (ℕ → CmdEntry) → ℕ × ℕ × (ℕ → CmdEntry)
write_plbi zero cmd_plbi size pi_sync pi_wr ring = (pi_sync, pi_wr, ring)
write_plbi (suc plbi_num) cmd_plbi size pi_sync pi_wr ring =
    let pi = ummu_update_queue_index pi_wr size in
    write_plbi plbi_num cmd_plbi size pi (ummu_update_queue_index pi size)
      (put (put ring (q_idx pi_wr size) cmd_plbi) (q_idx pi size) cmd_psync)

-- The loop that waits for the completion; its result is dropped. `none` is a loop that does not end.
unfoldable pub wait_psync : Device → ℕ → ℕ → ℕ → Queue → Option Queue
unfolding ummu_get_cpl_psync
wait_psync dev size pi_sync zero q = some q
wait_psync dev size pi_sync (suc times) q =
    let t = q.looks in
    elim (ummu_get_cpl_psync (dev.cpl_entry t) size (dev.ucplq_pi t) q.ucplq_ci pi_sync) [
      | none ↦ none
      | some (ret, ci) ↦
          let q' : Queue = record (looked q) { ucplq_ci = ci } in
          let waited = sleep (wait_cplq_interval_us * (wait_cplq_times - times)) q' in
          let rest = wait_psync dev size pi_sync times waited in
          if ret == 0 then some q' else if times == 0 then some q' else rest
    ]

-- The status, and the queue afterwards.
unfoldable pub ummu_send_cmd : Device → Sizes → ℕ → CmdEntry → Queue → Option (ℕ × Queue)
unfolding wait_not_full write_plbi wait_psync
ummu_send_cmd dev sizes plbi_num cmd_plbi q =
    let size = sizes.cmd_que_pi_size in
    let (space, q1) =
      wait_not_full dev size (cmd_num_per_plbi * plbi_num) max_wait_not_full_times
        wait_not_full_interval_us q in
    let (pi_sync, pi_wr, ring) = write_plbi plbi_num cmd_plbi size 0 q1.ucmdq_pi q1.cmd_entry in
    let q2 : Queue = record q1 { cmd_entry = ring; ucmdq_pi = pi_wr } in
    let done = wait_psync dev sizes.cpl_que_size pi_sync wait_cplq_times q2 in
    if space then (elim done [ none ↦ none | some q3 ↦ some (0, q3) ]) else some (etimedout, q1)
