-- ===== src/Grant/Invalidate.antt =====
-- The invalidation of a range ends, and which request to the kernel it is.
use openeuler_ummu.Base.{
  ℕ, ◌%◌, ◌^◌, ◌≡◌, ◌∙◌, ap, refl, sym, ◌==◌, if◌then◌else◌, true, false, Bool-cases, inl, inr,
  Option, none, some, List, [], ◌∷◌, After, After-some, After-bind, After-any,
}
use openeuler_ummu.Mapt.{DataInfo}
use openeuler_ummu.Queue.Command.{Queue}
use openeuler_ummu.Queue.Plbi.{
  QueueInfo, ummu_kcmd_plbi, Request, plbi_va, zero_tid_info, get_minist_log2size_range,
  send_to_all, ummu_plbi_va_cmd,
}
use openeuler_ummu.Queue.Plbi.Ends.{Ready, DevicesFit, ummu_send_plbi-ends}
use openeuler_ummu.Context.{World}

-- The request to the kernel that an invalidation is, where the kernel does it.
abbrev pub va_requests : Option ℕ → QueueInfo → ℕ → ℕ → List Request
va_requests none q base size = []
va_requests (some fd) q base size = if q.kcmd_plbi == 0 then [] else plbi_va q.tid base size ∷ []

va_requests-none :
    (fd : Option ℕ) (q : QueueInfo) (d : DataInfo)
    → (q.kcmd_plbi == 0) ≡ true
    → va_requests fd q d.data_base d.data_size ≡ []
va_requests-none none q d u = refl
va_requests-none (some f) q d u = rw u refl

va_requests-kcmd :
    (fd : Option ℕ) (q : QueueInfo) (d : DataInfo)
    → (q.kcmd_plbi == 0) ≡ false
    → ummu_kcmd_plbi fd
        (record zero_tid_info { tid = q.tid; va = d.data_base; size = d.data_size })
        0x11
      ≡ va_requests fd q d.data_base d.data_size
unfolding ummu_kcmd_plbi
va_requests-kcmd none q d k = refl
va_requests-kcmd (some f) q d k = rw k refl

module _ (w : World) (fd : Option ℕ) (q : QueueInfo) (ready : Ready q)
    (fits : DevicesFit w.devices q) where
  plbi_va-requests :
      (d : DataInfo)
      → After
          (ummu_plbi_va_cmd w.devices fd q d)
          (λ (r : QueueInfo × List Request). r.1 ≡ va_requests fd q d.data_base d.data_size)
  unfolding ummu_plbi_va_cmd
  plbi_va-requests d = elim (Bool-cases (q.kcmd_plbi == 0)) [
    | inl u ↦
        let none_sent : va_requests fd q d.data_base d.data_size ≡ [] = va_requests-none fd q d u in
        rw (none_sent, u)
          (After-bind {B = QueueInfo × List Request}
            (send_to_all w.devices q.queue_ctx.sizes (if q.double_plbi == 0 then 1 else 2)
              (record {
                opcode = 0x11;
                cqe_en = 0;
                range = get_minist_log2size_range d.data_size % 2 ^ 6;
                addr = d.data_base;
              })
              0 q.queue_ctx.memory)
            _ (λ (_ : List Queue). Unit) (λ (r : QueueInfo × List Request). r.1 ≡ []) (After-any _)
            (λ memory _. refl))
    | inr k ↦ let by_kernel = va_requests-kcmd fd q d k in rw (sym by_kernel, k) refl
  ]

  pub plbi_va-ends :
      (d : DataInfo)
      → (q' : QueueInfo) × (ummu_plbi_va_cmd w.devices fd q d
          ≡ some (q', va_requests fd q d.data_base d.data_size))
  unfolding ummu_plbi_va_cmd
  plbi_va-ends d =
      let (q', rs, run, ready', none_held) =
        ummu_send_plbi-ends w.devices fd q ready fits
          (record {
            opcode = 0x11;
            cqe_en = 0;
            range = get_minist_log2size_range d.data_size % 2 ^ 6;
            addr = d.data_base;
          })
          (record zero_tid_info { tid = q.tid; va = d.data_base; size = d.data_size }) in
      let same : rs ≡ va_requests fd q d.data_base d.data_size =
        After-some (ummu_plbi_va_cmd w.devices fd q d) _ (q', rs) (plbi_va-requests d) run in
      (q', run ∙ ap (λ (x : List Request). some (q', x)) same)
