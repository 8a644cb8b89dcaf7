-- ===== src/Queue/Command/Send.antt =====
-- What `ummu_send_cmd` does to the ring, and how long it may take.
use openeuler_ummu.Base.{
  ℕ, ◌+◌, ◌-◌, ◌*◌, ◌%◌, ◌^◌, ◌≤◌, ◌<◌, ◌≡◌, ◌⊎◌, inl, inr, refl, ap, sym, ◌∙◌, arith, leb, Bool,
  true, false, some, etimedout, Bool-cases,
}
use mathlib.Core.Path.{subst}
use openeuler_ummu.Queue.{queue_has_space}
use openeuler_ummu.Queue.Index.{index_of, queue_has_space_lem}
use openeuler_ummu.Queue.Command.{
  CmdEntry, cmd_psync, Device, Queue, Sizes, wait_not_full, write_plbi, ummu_send_cmd,
}
use openeuler_ummu.Queue.Command.Ring.{Outcome, write_plbi-Written}
use openeuler_ummu.Queue.Command.Wait.{Waited, wait_not_full-Waited, wait_psync-Synced}

-- What the control page shows from look `start` on: the device's consumer index is that of a counter
-- which is behind ours, by one ring at most, and its completion index fits the completion queue.
pub record Shows (dev : Device) (sizes : Sizes) (made start : ℕ) (consumed : ℕ → ℕ) : Type 0 where
  pub ci : (t : ℕ) → dev.ucmdq_ci t ≡ index_of sizes.cmd_que_pi_size (consumed t)
  pub behind : (t : ℕ) → t ≤ start + 300 → consumed t ≤ made
  pub near : (t : ℕ) → start ≤ t → made ≤ consumed t + 2 ^ sizes.cmd_que_pi_size
  pub pi_fits : (t : ℕ) → dev.ucplq_pi t < 2 * 2 ^ sizes.cpl_que_size

module _ (dev : Device) (sizes : Sizes) (k made : ℕ) (cmd : CmdEntry) (q : Queue)
    (consumed : ℕ → ℕ) where
  abbrev m : ℕ
  m = 2 ^ sizes.cmd_que_pi_size

  -- Sent after look `t`: the ring has the commands, behind those the device had not consumed by then,
  -- which stay.
  pub record Sent (q' : Queue) : Type 0 where
    pub t : ℕ
    pub space : made + 2 * k ≤ consumed t + m
    pub producer : q'.ucmdq_pi ≡ index_of sizes.cmd_que_pi_size (made + 2 * k)
    pub commands : (j : ℕ) → j < k → q'.cmd_entry ((made + 2 * j) % m) ≡ cmd
    pub syncs : (j : ℕ) → j < k → q'.cmd_entry ((made + 2 * j + 1) % m) ≡ cmd_psync
    pub others : (c : ℕ) → consumed t ≤ c → c < made → q'.cmd_entry (c % m) ≡ q.cmd_entry (c % m)

  -- Given up: no look found space, and the ring and its index are as before.
  pub record GivenUp (q' : Queue) : Type 0 where
    pub full : (t : ℕ) → q.looks ≤ t → t ≤ q.looks + 300 → consumed t + m < made + 2 * k
    pub same_ring : q'.cmd_entry ≡ q.cmd_entry
    pub same_pi : q'.ucmdq_pi ≡ q.ucmdq_pi

  module _ (small : sizes.cmd_que_pi_size < 16) (cpl_small : sizes.cpl_que_size < 16)
      (fits : 2 * k ≤ m) (pi : q.ucmdq_pi ≡ index_of sizes.cmd_que_pi_size made)
      (ci : q.ucplq_ci < 2 * 2 ^ sizes.cpl_que_size)
      (shows : Shows dev sizes made q.looks consumed) where
    -- the space test at a look
    space_at-counters :
        (t : ℕ)
        → q.looks ≤ t
        → t ≤ q.looks + 300
        → queue_has_space q.ucmdq_pi (dev.ucmdq_ci t) sizes.cmd_que_pi_size (2 * k)
          ≡ leb (made - consumed t + 2 * k) m
    space_at-counters t h l =
        ap (λ x. queue_has_space x (dev.ucmdq_ci t) sizes.cmd_que_pi_size (2 * k)) pi
        ∙ ap
            (λ x.
              queue_has_space (index_of sizes.cmd_que_pi_size made) x sizes.cmd_que_pi_size (2 * k))
            (shows.ci t)
        ∙ queue_has_space_lem sizes.cmd_que_pi_size made (consumed t) (2 * k) small
            (shows.behind t l) (shows.near t h)

    abbrev Ended : Bool → Queue → Type 0
    Ended space q1 = Waited dev sizes.cmd_que_pi_size (2 * k) 30100 300 q space q1

    -- space was found and the commands written
    Sent-written :
        (q1 q' : Queue) (w : ℕ × ℕ × (ℕ → CmdEntry))
        → Ended true q1
        → Outcome cmd sizes.cmd_que_pi_size small k made 0 q1.cmd_entry w
        → q'.cmd_entry ≡ w.2
        → q'.ucmdq_pi ≡ w.1
        → Sent q'
    Sent-written q1 q' w e o ring index =
        let t = q1.looks - 1 in
        let room : made + 2 * k ≤ consumed t + m = ground (
          arith,
          e.found refl,
          space_at-counters t (omega (arith, e.looked)) (omega (arith, e.looked_le, e.looked)),
          shows.behind t (omega (arith, e.looked_le)),
        ) in
        record {
          t = t;
          space = room;
          producer = index ∙ o.0;
          commands = λ j p. ap (λ r. r ((made + 2 * j) % m)) ring ∙ o.2.commands j p;
          syncs = λ j p. ap (λ r. r ((made + 2 * j + 1) % m)) ring ∙ o.2.syncs j p;
          others = λ c p l.
              ap (λ r. r (c % m)) ring
              ∙ o.2.others c l (omega (arith, room, p))
              ∙ ap (λ r. r (c % m)) e.same_ring;
        }

    GivenUp-full : (q1 : Queue) → Ended false q1 → GivenUp q1
    GivenUp-full q1 e = record {
      full =
          λ t h l. ground (arith, e.missed refl t h l, space_at-counters t h l, shows.behind t l);
      same_ring = e.same_ring;
      same_pi = e.same_pi;
    }

    -- With queues of at most 2^15 entries, of which the commands take no more than all, and a device
    -- that keeps within its queues, sending ends, after at most 30132 microseconds of sleep. Either
    -- the status is 0: the commands are in the ring behind those that the device had not yet consumed,
    -- which are kept, and the producer index points past them. Or it is -ETIMEDOUT: 301 looks found
    -- no room, and nothing was written.
    pub ummu_send_cmd-Sent :
        (status : ℕ) × (q' : Queue) × (ummu_send_cmd dev sizes k cmd q ≡ some (status, q'))
        × (q'.slept ≤ q.slept + 30132)
        × (((status ≡ 0) × Sent q') ⊎ ((status ≡ etimedout) × GivenUp q'))
    unfolding ummu_send_cmd
    ummu_send_cmd-Sent =
        let size = sizes.cmd_que_pi_size in
        let r = wait_not_full dev size (2 * k) 300 25 q in
        let w = wait_not_full-Waited dev size (2 * k) 300 25 q (omega arith) in
        let q1 = r.1 in
        let out = write_plbi k cmd size 0 q1.ucmdq_pi q1.cmd_entry in
        let o : Outcome cmd size small k made 0 q1.cmd_entry out =
          subst
            (λ x.
              Outcome cmd size small k made 0 q1.cmd_entry (write_plbi k cmd size 0 x q1.cmd_entry))
            (sym (w.same_pi ∙ pi)) (write_plbi-Written cmd size small k made 0 q1.cmd_entry fits) in
        let (q3, run, s) =
          wait_psync-Synced dev sizes.cpl_que_size (out.0) cpl_small shows.pi_fits 4
            (record q1 { cmd_entry = out.2; ucmdq_pi = out.1 }) (omega (arith, ci, w.same_ci)) in
        elim (Bool-cases (r.0)) [
          | inl e ↦ (
            0,
            q3,
            rw (e, run) refl,
            omega (arith, w.slept_le, s.slept_le),
            inl (
              refl,
              Sent-written q1 q3 out (subst (λ x. Ended x q1) e w) o s.same_ring s.same_pi,
            ),
          )
          | inr e ↦ (
            etimedout,
            q1,
            rw e refl,
            omega (arith, w.slept_le),
            inr (refl, GivenUp-full q1 (subst (λ x. Ended x q1) e w)),
          )
        ]
