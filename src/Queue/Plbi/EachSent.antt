-- ===== src/Queue/Plbi/EachSent.antt =====
-- An invalidation over the queues of a tid (`ummu_send_plbi` and `ummu_plbi_va_cmd` of ummu_queue.c).
use openeuler_ummu.Base.{
  ℕ, ◌+◌, ◌*◌, ◌%◌, ◌^◌, ◌≤◌, ◌<◌, ◌≡◌, ◌⊎◌, inl, inr, refl, ◌==◌, if◌then◌else◌, true, Option,
  some, List, [], ◌∷◌,
}
use openeuler_ummu.Mapt.{DataInfo}
use openeuler_ummu.Queue.Index.{index_of}
use openeuler_ummu.Queue.Command.{CmdEntry, Device, Queue, Sizes}
use openeuler_ummu.Queue.Command.Send.{Shows, Sent, GivenUp, ummu_send_cmd-Sent}
use openeuler_ummu.Queue.Plbi.{
  QueueInfo, get_minist_log2size_range, send_to_all, ummu_send_plbi, ummu_plbi_va_cmd,
}

-- `made i` commands were made for device i, which has consumed `consumed i t` of them at look t.
module _ (devices : ℕ → Device) (made : ℕ → ℕ) (consumed : ℕ → ℕ → ℕ) (sizes : Sizes) (k : ℕ) where
  -- The indices of a queue are those of the counters, and its device keeps within them.
  pub record InStep (i : ℕ) (q : Queue) : Type 0 where
    pub producer : q.ucmdq_pi ≡ index_of sizes.cmd_que_pi_size (made i)
    pub ci_fits : q.ucplq_ci < 2 * 2 ^ sizes.cpl_que_size
    pub shows : Shows (devices i) sizes (made i) q.looks (consumed i)

  abbrev pub AllInStep : ℕ → List Queue → Type 0
  AllInStep i [] = Unit
  AllInStep i (q ∷ qs) = InStep i q × AllInStep (i + 1) qs

  -- Each queue has the command, `k` times, each with its synchronisation, or no look found room.
  abbrev pub EachSent : CmdEntry → ℕ → List Queue → List Queue → Type 0
  EachSent cmd i [] [] = Unit
  EachSent cmd i (q ∷ qs) (q' ∷ qs') =
      (Sent (devices i) sizes k (made i) cmd q (consumed i) q'
        ⊎ GivenUp (devices i) sizes k (made i) cmd q (consumed i) q')
      × EachSent cmd (i + 1) qs qs'
  EachSent cmd i _ _ = ⊥

  module _ (small : sizes.cmd_que_pi_size < 16) (cpl_small : sizes.cpl_que_size < 16)
      (fits : 2 * k ≤ 2 ^ sizes.cmd_que_pi_size) (cmd : CmdEntry) where
    pub send_to_all-EachSent :
        (i : ℕ) (qs : List Queue)
        → AllInStep i qs
        → (qs' : List Queue) × (send_to_all devices sizes k cmd i qs ≡ some qs')
          × EachSent cmd i qs qs'
    unfolding send_to_all
    send_to_all-EachSent i [] h = ([], refl, tt)
    send_to_all-EachSent i (q ∷ qs) (h, hs) =
        let (status, q', run, _, result) =
          ummu_send_cmd-Sent (devices i) sizes k (made i) cmd q (consumed i) small cpl_small fits
            h.producer h.ci_fits h.shows in
        let (qs', rest, each) = send_to_all-EachSent (i + 1) qs hs in
        (
          q' ∷ qs',
          rw (run, rest) refl,
          (elim result [ inl (_, sent) ↦ inl sent | inr (_, up) ↦ inr up ], each),
        )

-- the command for a range of addresses
abbrev pub va_command : DataInfo → CmdEntry
va_command d = record {
  opcode = 0x11;
  cqe_en = 0;
  range = get_minist_log2size_range d.data_size % 2 ^ 6;
  addr = d.data_base;
}

-- how often a command is put into a ring
abbrev pub times : QueueInfo → ℕ
times q = if q.double_plbi == 0 then 1 else 2

-- Where the library does the invalidations itself, with queues of at most 2^15 entries that have room for
-- the commands at all, and devices that keep within their queues: the invalidation of a range ends without
-- a request to the kernel and changes nothing of the tid but the memory of its queues. Each queue then has
-- the command for the base and the range behind the commands that its device had not yet consumed, which
-- are kept, once or (double_plbi) twice, each with its synchronisation; or 301 looks found no room in it,
-- and its ring is unchanged.
pub ummu_plbi_va_cmd-EachSent :
    (devices : ℕ → Device) (made : ℕ → ℕ) (consumed : ℕ → ℕ → ℕ) (fd : Option ℕ) (q : QueueInfo)
    (d : DataInfo)
    → (q.kcmd_plbi == 0) ≡ true
    → q.queue_ctx.sizes.cmd_que_pi_size < 16
    → q.queue_ctx.sizes.cpl_que_size < 16
    → 2 * times q ≤ 2 ^ q.queue_ctx.sizes.cmd_que_pi_size
    → AllInStep devices made consumed q.queue_ctx.sizes (times q) 0 q.queue_ctx.memory
    → (memory : List Queue) × (ummu_plbi_va_cmd devices fd q d
        ≡ some (record q { queue_ctx = record (q.queue_ctx) { memory = memory } }, []))
      × EachSent devices made consumed q.queue_ctx.sizes
          (times q)
          (va_command d)
          0
          q.queue_ctx.memory
          memory
unfolding ummu_plbi_va_cmd ummu_send_plbi
ummu_plbi_va_cmd-EachSent devices made consumed fd q d user small cpl_small fits h =
    let (memory, run, each) =
      send_to_all-EachSent devices made consumed q.queue_ctx.sizes (times q) small cpl_small fits
        (va_command d) 0 q.queue_ctx.memory h in
    (memory, rw (user, run) refl, each)
