-- ===== src/Queue/Plbi/Ends.antt =====
-- Invalidations end, and ask the kernel for nothing but invalidations.
use openeuler_ummu.Base.{
  ℕ, ◌+◌, ◌*◌, ◌^◌, ◌<◌, ◌≡◌, ◌⊎◌, inl, inr, refl, arith, ◌==◌, if◌then◌else◌, Bool, true, false,
  Bool-cases, Option, none, some, List, [], ◌∷◌, etimedout,
}
use openeuler_ummu.Queue.Command.{
  CmdEntry, Device, Queue, Sizes, wait_not_full, write_plbi, ummu_send_cmd,
}
use openeuler_ummu.Queue.Command.Wait.{wait_not_full-Waited, wait_psync-Synced}
use openeuler_ummu.Queue.Plbi.{
  TidInfo, zero_tid_info, plbi_all_op, QueueInfo, Request, alloc_tid, put_tid, plbi_va, plbi_all,
  ummu_kcmd_plbi, send_to_all, ummu_send_plbi, ummu_send_user_all, ummu_queue_destroy,
}

-- Whether tid `t` is allocated after some requests, if `held` says so before them.
unfoldable pub holds : List Request → ℕ → Bool → Bool
holds [] t held = held
holds (alloc_tid u ∷ rs) t held = holds rs t (if u == t then true else held)
holds (put_tid u ∷ rs) t held = holds rs t (if u == t then false else held)
holds (plbi_va u va size ∷ rs) t held = holds rs t held
holds (plbi_all u ∷ rs) t held = holds rs t held

-- Our indices of the completion queues fit them.
abbrev pub AllFit : Sizes → List Queue → Type 0
AllFit sizes [] = Unit
AllFit sizes (q ∷ qs) = (q.ucplq_ci < 2 * 2 ^ sizes.cpl_que_size) × AllFit sizes qs

-- The queues are in order: the kernel is asked instead, or their indices fit.
abbrev pub Ready : QueueInfo → Type 0
Ready q =
    ((q.kcmd_plbi == 0) ≡ false)
    ⊎ ((q.queue_ctx.sizes.cpl_que_size < 16) × AllFit (q.queue_ctx.sizes) (q.queue_ctx.memory))

-- The indices of the devices fit too, if there are queues.
abbrev pub DevicesFit : (ℕ → Device) → QueueInfo → Type 0
DevicesFit devices q =
    (q.kcmd_plbi == 0) ≡ true
    → (i t : ℕ) → (devices i).ucplq_pi t < 2 * 2 ^ q.queue_ctx.sizes.cpl_que_size

ummu_send_cmd-ends :
    (dev : Device) (sizes : Sizes) (k : ℕ) (cmd : CmdEntry) (q : Queue)
    → sizes.cpl_que_size < 16
    → ((t : ℕ) → dev.ucplq_pi t < 2 * 2 ^ sizes.cpl_que_size)
    → q.ucplq_ci < 2 * 2 ^ sizes.cpl_que_size
    → (status : ℕ) × (q' : Queue) × (ummu_send_cmd dev sizes k cmd q ≡ some (status, q'))
      × (q'.ucplq_ci < 2 * 2 ^ sizes.cpl_que_size)
unfolding ummu_send_cmd
ummu_send_cmd-ends dev sizes k cmd q small fits ci =
    let size = sizes.cmd_que_pi_size in
    let r = wait_not_full dev size (2 * k) 300 25 q in
    let w = wait_not_full-Waited dev size (2 * k) 300 25 q (omega arith) in
    let q1 = r.1 in
    let out = write_plbi k cmd size 0 q1.ucmdq_pi q1.cmd_entry in
    let (q3, run, s) =
      wait_psync-Synced dev sizes.cpl_que_size (out.0) small fits 4
        (record q1 { cmd_entry = out.2; ucmdq_pi = out.1 }) (omega (arith, ci, w.same_ci)) in
    elim (Bool-cases (r.0)) [
      | inl e ↦ (0, q3, rw (e, run) refl, s.ci_fits)
      | inr e ↦ (etimedout, q1, rw e refl, omega (arith, ci, w.same_ci))
    ]

send_to_all-ends :
    (devices : ℕ → Device) (sizes : Sizes) (k : ℕ) (cmd : CmdEntry) (i : ℕ) (qs : List Queue)
    → sizes.cpl_que_size < 16
    → ((i t : ℕ) → (devices i).ucplq_pi t < 2 * 2 ^ sizes.cpl_que_size)
    → AllFit sizes qs
    → (qs' : List Queue) × (send_to_all devices sizes k cmd i qs ≡ some qs') × AllFit sizes qs'
unfolding send_to_all
send_to_all-ends devices sizes k cmd i [] small fits all = ([], refl, tt)
send_to_all-ends devices sizes k cmd i (q ∷ qs) small fits (ci, all) =
    let (status, q', run, ci') = ummu_send_cmd-ends (devices i) sizes k cmd q small (fits i) ci in
    let (qs', rest, all') = send_to_all-ends devices sizes k cmd (i + 1) qs small fits all in
    (q' ∷ qs', rw (run, rest) refl, (ci', all'))

kcmd-holds :
    (fd : Option ℕ) (info : TidInfo) (op t : ℕ) (held : Bool)
    → holds (ummu_kcmd_plbi fd info op) t held ≡ held
unfolding ummu_kcmd_plbi holds
kcmd-holds none info op t held = refl
kcmd-holds (some f) info op t held = elim (Bool-cases (op == 0x11)) [
  | inl e ↦ rw e refl
  | inr e ↦ elim (Bool-cases (op == 0x10)) [ inl a ↦ rw (e, a) refl | inr a ↦ rw (e, a) refl ]
]

-- An invalidation ends, the queues are in order again, and no tid is asked for or given back.
abbrev pub Ended : QueueInfo → Option (QueueInfo × List Request) → Type 0
Ended q run =
    (q' : QueueInfo) × (rs : List Request) × (run ≡ some (q', rs))
    × Ready q'
    × ((t : ℕ) (held : Bool) → holds rs t held ≡ held)

module _ (devices : ℕ → Device) (fd : Option ℕ) (q : QueueInfo) (ready : Ready q)
    (fits : DevicesFit devices q) where
  pub ummu_send_plbi-ends :
      (cmd : CmdEntry) (info : TidInfo) → Ended q (ummu_send_plbi devices fd cmd q info)
  unfolding ummu_send_plbi holds
  ummu_send_plbi-ends cmd info = elim ready [
    | inl k ↦
        (q, ummu_kcmd_plbi fd info cmd.opcode, rw k refl, inl k, kcmd-holds fd info cmd.opcode)
    | inr (small, all) ↦ elim (Bool-cases (q.kcmd_plbi == 0)) [
      | inl u ↦
          let (memory, run, all') =
            send_to_all-ends devices q.queue_ctx.sizes (if q.double_plbi == 0 then 1 else 2) cmd 0
              q.queue_ctx.memory small (fits u) all in
          (
            record q { queue_ctx = record (q.queue_ctx) { memory = memory } },
            [],
            rw (u, run) refl,
            inr (small, all'),
            λ t held. refl,
          )
      | inr k ↦
          (q, ummu_kcmd_plbi fd info cmd.opcode, rw k refl, inl k, kcmd-holds fd info cmd.opcode)
    ]
  ]

  pub ummu_queue_destroy-ends : Ended q (ummu_queue_destroy devices fd q)
  unfolding ummu_queue_destroy ummu_send_user_all
  ummu_queue_destroy-ends =
      let (q', rs, run, ready', none_held) =
        ummu_send_plbi-ends (record { opcode = plbi_all_op; cqe_en = 0; range = 0; addr = 0 })
          (record zero_tid_info { tid = q.tid }) in
      elim (Bool-cases (q'.kcmd_plbi == 0)) [
        | inl u ↦ (
          record q' { queue_ctx = record (q'.queue_ctx) { queue = []; memory = [] } },
          rs,
          rw (run, u) refl,
          emptied q' ready',
          none_held,
        )
        | inr k ↦ (q', rs, rw (run, k) refl, inl k, none_held)
      ]
    where
      emptied :
          (q' : QueueInfo)
          → Ready q'
          → Ready (record q' { queue_ctx = record (q'.queue_ctx) { queue = []; memory = [] } })
      emptied q' (inl k) = inl k
      emptied q' (inr (small, all)) = inr (small, tt)
