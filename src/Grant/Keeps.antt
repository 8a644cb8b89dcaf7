-- ===== src/Grant/Keeps.antt =====
-- What a grant or an ungrant leaves alone: a structure in use stays in use, with its queues in order,
-- and the kernel is asked for no tid.
use openeuler_ummu.Base.{
  ◌&&◌, ℕ, ◌%◌, ◌^◌, ◌≡◌, ◌⊎◌, ◌∙◌, refl, sym, ◌==◌, ◌||◌, not, Bool, Bool-cases, inl, inr, Option,
  Option-cases, List, After, After-bind, After-any,
}
use mathlib.Core.Path.{subst}
use openeuler_ummu.Mapt.{EntryNode, DataInfo, GrantOp}
use openeuler_ummu.Table.{State, zero_node}
use openeuler_ummu.Table.Op.{ummu_table_op}
use openeuler_ummu.Queue.Plbi.{
  QueueInfo, Request, zero_tid_info, get_minist_log2size_range, ummu_plbi_va_cmd,
}
use openeuler_ummu.Queue.Plbi.Ends.{Ready, DevicesFit, holds, ummu_send_plbi-ends}
use openeuler_ummu.Context.{Base, no_base, entry_block, table_ctx, TableInfo, MaptInfo, World}
use openeuler_ummu.Grant.{
  is_add_token, is_mode, by_mode, mapt_op, ummu_grant_imp, ummu_grant_check, ummu_ungrant_check,
  ummu_update_info, record_op,
}
use openeuler_ummu.Grant.Call.{
  is_op_end, grant_op, grant_checked, ungrant_op, ungrant_checked, invalidated,
}

pub Base-cases :
    (b : Base)
    → (b ≡ no_base)
      ⊎ (((n : EntryNode) × (b ≡ entry_block n)) ⊎ ((t : TableInfo) × (b ≡ table_ctx t)))
Base-cases no_base = inl refl
Base-cases (entry_block n) = inr (inl (n, refl))
Base-cases (table_ctx t) = inr (inr (t, refl))

-- all but `block_base`
abbrev pub SameBut : MaptInfo → MaptInfo → Type 0
SameBut m m' = (m'.valid ≡ m.valid) × (m'.queue ≡ m.queue)

by_mode-keeps :
    (w : World) (m : MaptInfo) (d : DataInfo)
    → After (by_mode w m d) (λ (r : ℕ × MaptInfo × ℕ). SameBut m (r.1))
unfolding by_mode
by_mode-keeps w m d = elim (Base-cases m.block_base) [
  | inl e ↦ rw (by_mode, e) tt
  | inr (inl (n, e)) ↦ elim (Bool-cases (m.mode == 1)) [
    | inl b ↦ rw (by_mode, e, b) (refl, refl)
    | inr b ↦ rw (by_mode, e, b) tt
  ]
  | inr (inr (t, e)) ↦ elim (Bool-cases (m.mode == 1)) [
    | inl b ↦ rw (by_mode, e, b) tt
    | inr b ↦
        rw (by_mode, e, b)
          (After-bind
            (ummu_table_op w.table_kernel d
              (record { ctx = t.ctx; root = zero_node; lvl = d.lvl; calls = 0 }))
            _ (λ (_ : ℕ × State). Unit) _ (After-any _) (λ r _. (refl, refl)))
  ]
]

mapt_op-keeps :
    (w : World) (m : MaptInfo) (d : DataInfo)
    → After (mapt_op w m d) (λ (r : ℕ × MaptInfo × ℕ). SameBut m (r.1))
unfolding mapt_op
mapt_op-keeps w m d = elim (Bool-cases (is_mode m.mode)) [
  | inl k ↦ rw (mapt_op, k) (by_mode-keeps w m d)
  | inr k ↦ rw (mapt_op, k) (refl, refl)
]

ummu_update_info-keeps :
    (w : World) (op : GrantOp) (m : MaptInfo) (d : DataInfo)
    → After (ummu_update_info w op m d) (λ (r : ℕ × MaptInfo). SameBut m r.1)
unfolding ummu_update_info
ummu_update_info-keeps w op m d = elim (Bool-cases (m.mode == 0)) [
  | inl b ↦ elim (Base-cases m.block_base) [
    | inl e ↦ rw (ummu_update_info, e) tt
    | inr (inl (n, e)) ↦ rw (ummu_update_info, e, b) tt
    | inr (inr (t, e)) ↦ elim (Option-cases t.granted_addr_mng) [
      | inl g ↦ rw (ummu_update_info, e, g, b) tt
      | inr (segs, g) ↦ rw (ummu_update_info, e, g, b) (refl, refl)
    ]
  ]
  | inr b ↦ elim (Base-cases m.block_base) [
    | inl e ↦ rw (ummu_update_info, e) tt
    | inr (inl (n, e)) ↦ rw (ummu_update_info, e, b) (refl, refl)
    | inr (inr (t, e)) ↦ elim (Option-cases t.granted_addr_mng) [
      | inl g ↦ rw (ummu_update_info, e, g, b) (refl, refl)
      | inr (segs, g) ↦ rw (ummu_update_info, e, g, b) (refl, refl)
    ]
  ]
]

record_op-keeps :
    (w : World) (op : GrantOp) (ret : ℕ) (m : MaptInfo) (d : DataInfo)
    → After (record_op w op ret m d) (λ (r : ℕ × MaptInfo). SameBut m r.1)
unfolding record_op
record_op-keeps w op ret m d = elim (Bool-cases (ret == 0)) [
  | inl b ↦ rw b (ummu_update_info-keeps w op m d)
  | inr b ↦ rw b (refl, refl)
]

module _ (w : World) (fd : Option ℕ) (m : MaptInfo) (ready : Ready m.queue)
    (fits : DevicesFit w.devices m.queue) where
  -- The structure is in use if it was, its queues are in order, and no request is about a tid.
  abbrev pub Safe : ℕ × MaptInfo × List Request → Type 0
  Safe (ret, m', rs) =
      (m'.valid ≡ m.valid) × Ready m'.queue × ((t : ℕ) (held : Bool) → holds rs t held ≡ held)

  plbi-safe :
      (m' : MaptInfo) (d : DataInfo)
      → m'.queue ≡ m.queue
      → After (ummu_plbi_va_cmd w.devices fd m'.queue d) (λ (r : QueueInfo × List Request).
        Ready r.0 × ((t : ℕ) (held : Bool) → holds r.1 t held ≡ held))
  unfolding ummu_plbi_va_cmd
  plbi-safe m' d e =
      let (q', rs, run, ready', none_held) =
        ummu_send_plbi-ends w.devices fd m.queue ready fits
          (record {
            opcode = 0x11;
            cqe_en = 0;
            range = get_minist_log2size_range d.data_size % 2 ^ 6;
            addr = d.data_base;
          })
          (record zero_tid_info { tid = m.queue.tid; va = d.data_base; size = d.data_size }) in
      rw (e, run) (ready', none_held)

  ummu_grant_imp-Safe : (d : DataInfo) → After (ummu_grant_imp w fd m d) Safe
  unfolding ummu_grant_imp holds
  ummu_grant_imp-Safe d =
      After-bind (mapt_op w m d) _ (λ (r : ℕ × MaptInfo × ℕ). SameBut m r.1) Safe
        (mapt_op-keeps w m d)
        (λ r same. elim (Bool-cases (is_mode m.mode && (is_add_token d.op || not (r.0 == 0)))) [
          | inl b ↦ rw b (
              After-bind (ummu_plbi_va_cmd w.devices fd (r.1.queue) d) _
                (λ (s : QueueInfo × List Request).
                  Ready s.0 × ((t : ℕ) (held : Bool) → holds s.1 t held ≡ held))
                Safe (plbi-safe r.1 d same.1) (λ s p. (same.0, p.0, p.1)))
          | inr b ↦ rw b (same.0, subst Ready (sym same.1) ready, λ t held. refl)
        ])

  Safe-then :
      (r : ℕ × MaptInfo × List Request) (ret : ℕ) (m'' : MaptInfo)
      → Safe r
      → SameBut r.1 m''
      → Safe (ret, m'', r.2)
  Safe-then r ret m'' (valid, ready', held) (v, q) = (v ∙ valid, subst Ready (sym q) ready', held)

  grant_op-Safe : (d : DataInfo) → After (grant_op w fd m d) Safe
  unfolding grant_op
  grant_op-Safe d =
      After-bind (ummu_grant_imp w fd m d) _ Safe Safe (ummu_grant_imp-Safe d) (λ r safe.
        After-bind (record_op w d.op r.0 r.1 d) _ (λ (s : ℕ × MaptInfo). SameBut r.1 s.1) Safe
          (record_op-keeps w d.op r.0 r.1 d) (λ s same. Safe-then r s.0 s.1 safe same))

  pub grant_checked-Safe : (d : DataInfo) → After (grant_checked w fd m d) Safe
  unfolding grant_checked holds
  grant_checked-Safe d =
      After-bind (ummu_grant_check m d) _ (λ (_ : GrantOp). Unit) Safe (After-any _)
        (λ op _. elim (Bool-cases (is_op_end op)) [
          | inl e ↦ rw e (refl, ready, λ t held. refl)
          | inr e ↦ rw e (grant_op-Safe (record d { op = op }))
        ])

  ungrant_op-Safe : (d : DataInfo) → After (ungrant_op w fd m d) Safe
  unfolding ungrant_op
  ungrant_op-Safe d =
      After-bind (mapt_op w m d) _ (λ (r : ℕ × MaptInfo × ℕ). SameBut m r.1) Safe
        (mapt_op-keeps w m d)
        (λ r same.
          After-bind (record_op w d.op r.0 r.1 d) _ (λ (s : ℕ × MaptInfo). SameBut r.1 s.1) Safe
            (record_op-keeps w d.op r.0 r.1 d)
            (λ s same'.
              After-bind
                (ummu_plbi_va_cmd w.devices fd (s.1.queue)
                  (invalidated d.op (record d { lvl = r.2 })))
                _
                (λ (x : QueueInfo × List Request).
                  Ready x.0 × ((t : ℕ) (held : Bool) → holds x.1 t held ≡ held))
                Safe (plbi-safe s.1 (invalidated d.op (record d { lvl = r.2 })) (same'.1 ∙ same.1))
                (λ x p. (same'.0 ∙ same.0, p.0, p.1))))

  pub ungrant_checked-Safe : (d : DataInfo) → After (ungrant_checked w fd m d) Safe
  unfolding ungrant_checked holds
  ungrant_checked-Safe d =
      After-bind (ummu_ungrant_check m d) _ (λ (_ : GrantOp). Unit) Safe (After-any _)
        (λ op _. elim (Bool-cases (is_op_end op)) [
          | inl e ↦ rw e (refl, ready, λ t held. refl)
          | inr e ↦ rw e (ungrant_op-Safe (record d { op = op }))
        ])
