-- ===== src/Queue/Command/Live.antt =====
-- A command is sent once the device makes room.
use openeuler_ummu.Base.{ℕ, ◌+◌, ◌*◌, ◌^◌, ◌≤◌, ◌<◌, ◌≡◌, ◌∙◌, ap, arith, inl, inr, some}
use openeuler_ummu.Queue.Index.{index_of}
use openeuler_ummu.Queue.Command.{CmdEntry, Device, Queue, Sizes, ummu_send_cmd}
use openeuler_ummu.Queue.Command.Send.{Shows, Sent, ummu_send_cmd-Sent}

-- With queues of at most 2^15 entries, of which the commands take no more than all, and a device that
-- keeps within its queues: if the device has consumed enough for the commands to fit at one of the 301
-- looks that a send may take, sending them succeeds, and the ring has them.
pub ummu_send_cmd-Sent_of_room :
    (dev : Device) (sizes : Sizes) (k made : ℕ) (cmd : CmdEntry) (q : Queue) (consumed : ℕ → ℕ)
    → sizes.cmd_que_pi_size < 16
    → sizes.cpl_que_size < 16
    → 2 * k ≤ 2 ^ sizes.cmd_que_pi_size
    → q.ucmdq_pi ≡ index_of sizes.cmd_que_pi_size made
    → q.ucplq_ci < 2 * 2 ^ sizes.cpl_que_size
    → Shows dev sizes made q.looks consumed
    → (t : ℕ) → q.looks ≤ t
    → t ≤ q.looks + 300
    → made + 2 * k ≤ consumed t + 2 ^ sizes.cmd_que_pi_size
    → (q' : Queue) × (ummu_send_cmd dev sizes k cmd q ≡ some (0, q'))
      × Sent dev sizes k made cmd q consumed q'
ummu_send_cmd-Sent_of_room dev sizes k made cmd q consumed small cpl_small fits pi ci shows t from
      to room =
    let (status, q', run, slept, outcome) =
      ummu_send_cmd-Sent dev sizes k made cmd q consumed small cpl_small fits pi ci shows in
    elim outcome [
      | inl (ok, sent) ↦ (q', run ∙ ap (λ (x : ℕ). some (x, q')) ok, sent)
      | inr (timed_out, given_up) ↦ absurd (omega (arith, given_up.full t from to, room))
    ]
