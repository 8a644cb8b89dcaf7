-- ===== src/Grant/EntryMode.antt =====
-- A whole request in entry mode, against the operations on the entry.
use openeuler_ummu.Base.{
  ℕ, ◌≡◌, ◌∙◌, ap, refl, sym, ◌==◌, ==_iff, ◌||◌, not, if◌then◌else◌, true, false, Bool-cases, inl,
  inr, Option, some, List, [], einval,
}
use openeuler_ummu.Mapt.{
  DataInfo, GrantOp, grant, add_token, remove_token, ungrant, op_end, EntryNode,
}
use openeuler_ummu.Entry.{
  run_op, entry_grant, entry_ungrant, ummu_entry_op, ummu_entry_param_check,
  ummu_entry_ungrant_param_check,
}
use openeuler_ummu.Queue.Plbi.{QueueInfo, Request, ummu_plbi_va_cmd}
use openeuler_ummu.Queue.Plbi.Ends.{Ready, DevicesFit}
use openeuler_ummu.Context.{entry_block, MaptInfo, World}
use openeuler_ummu.Grant.{
  is_add_token, is_mode, by_mode, mapt_op, ummu_grant_check, ummu_ungrant_check, ummu_grant_imp,
  ummu_update_info, record_op,
}
use openeuler_ummu.Grant.Call.{
  grant_op, grant_checked, ungrant_op, ungrant_checked, is_op_end, invalidated, widen,
}
use openeuler_ummu.Grant.Invalidate.{va_requests, plbi_va-ends}

-- A structure in entry mode, with `node` as its entry.
abbrev pub IsEntry : EntryNode → MaptInfo → Type 0
IsEntry node m = (m.mode ≡ 1) × (m.block_base ≡ entry_block node)

mapt_op-entry :
    (w : World) (m : MaptInfo) (d : DataInfo) (node : EntryNode)
    → IsEntry node m
    → let (node', ret) = ummu_entry_op node d in
      mapt_op w m d ≡ some (ret, record m { block_base = entry_block node' }, d.lvl)
unfolding mapt_op by_mode
mapt_op-entry w m d node (mode, e) =
    let entry : (m.mode == 1) ≡ true = rw mode refl in
    let known : is_mode m.mode ≡ true = rw mode refl in rw (mapt_op, known, by_mode, e, entry) refl

record_op-entry :
    (w : World) (op : GrantOp) (ret : ℕ) (m : MaptInfo) (d : DataInfo) (node : EntryNode)
    → IsEntry node m
    → record_op w op ret m d ≡ some (ret, m)
unfolding record_op ummu_update_info
record_op-entry w op ret m d node (mode, e) =
    let entry : (m.mode == 0) ≡ false = rw mode refl in
    elim (Bool-cases (ret == 0)) [
      | inl z ↦
          let zero_ret : ret ≡ 0 = (==_iff ret 0).0 z in
          let recorded : ummu_update_info w op m d ≡ some (0, m) =
            simp (ummu_update_info, e, entry) in
          rw (record_op, z) (recorded ∙ ap (λ (r : ℕ). some (r, m)) (sym zero_ret))
      | inr nz ↦ rw (record_op, nz) refl
    ]

module _ (w : World) (fd : Option ℕ) (m : MaptInfo) (node : EntryNode) (entry : IsEntry node m)
    (ready : Ready m.queue) (fits : DevicesFit w.devices m.queue) where
  -- The run ends with the status and the entry of `result`, with these requests, and with the queues that
  -- the invalidation leaves.
  abbrev pub EndsAs :
      EntryNode × ℕ
      → List Request
      → Option (QueueInfo × List Request)
      → Option (ℕ × MaptInfo × List Request)
      → Type 0
  EndsAs result rs invalidation run =
      (m' : MaptInfo) × (run ≡ some (result.1, m', rs))
      × IsEntry result.0 m'
      × (invalidation ≡ some (m'.queue, rs))

  -- no invalidation
  abbrev pub untouched : Option (QueueInfo × List Request)
  untouched = some (m.queue, [])

  grant_op-entry :
      (d : DataInfo)
      → EndsAs
          (ummu_entry_op node d)
          (if is_add_token d.op || not ((ummu_entry_op node d).1 == 0)
            then va_requests fd m.queue d.data_base d.data_size
            else [])
          (if is_add_token d.op || not ((ummu_entry_op node d).1 == 0)
            then ummu_plbi_va_cmd w.devices fd m.queue d
            else untouched)
          (grant_op w fd m d)
  unfolding grant_op ummu_grant_imp
  grant_op-entry d =
      let result = ummu_entry_op node d in
      let m' : MaptInfo = record m { block_base = entry_block (result.0) } in
      let run = mapt_op-entry w m d node entry in
      let known : is_mode m.mode ≡ true = rw entry.0 refl in
      let (q', sent) = plbi_va-ends w fd m.queue ready fits d in
      elim (Bool-cases (is_add_token d.op || not (result.1 == 0))) [
        | inl b ↦ (
          record m' { queue = q' },
          rw (grant_op, ummu_grant_imp, run, known, b, sent)
              (rw
                (record_op-entry w d.op result.1 (record m' { queue = q' }) d result.0
                  (entry.0, refl))
                refl),
          (entry.0, refl),
          rw b sent,
        )
        | inr b ↦ (
          m',
          rw (grant_op, ummu_grant_imp, run, known, b)
              (rw (record_op-entry w d.op result.1 m' d result.0 (entry.0, refl)) refl),
          (entry.0, refl),
          rw b refl,
        )
      ]

  ungrant_op-entry :
      (d : DataInfo)
      → EndsAs
          (ummu_entry_op node d)
          (va_requests fd m.queue (invalidated d.op d).data_base (invalidated d.op d).data_size)
          (ummu_plbi_va_cmd w.devices fd m.queue (invalidated d.op d))
          (ungrant_op w fd m d)
  unfolding ungrant_op
  ungrant_op-entry d =
      let result = ummu_entry_op node d in
      let m' : MaptInfo = record m { block_base = entry_block (result.0) } in
      let run = mapt_op-entry w m d node entry in
      let (q', sent) = plbi_va-ends w fd m.queue ready fits (invalidated d.op d) in
      (
        record m' { queue = q' },
        rw (ungrant_op, run)
            (rw (record_op-entry w d.op result.1 m' d result.0 (entry.0, refl), sent) refl),
        (entry.0, refl),
        sent,
      )

  -- The invalidation behind a grant: of a token added, or of an operation that failed.
  abbrev pub grant_requests : DataInfo → GrantOp → List Request
  grant_requests d op =
      if is_op_end op
      then []
      else if is_add_token op || not ((run_op node d op).1 == 0)
      then va_requests fd m.queue d.data_base d.data_size
      else []

  abbrev pub grant_invalidation : DataInfo → GrantOp → Option (QueueInfo × List Request)
  grant_invalidation d op =
      if is_op_end op
      then untouched
      else if is_add_token op || not ((run_op node d op).1 == 0)
      then ummu_plbi_va_cmd w.devices fd m.queue (record d { op = op })
      else untouched

  grant_by_op :
      (d : DataInfo) (op : GrantOp)
      → EndsAs
          (run_op node d op)
          (grant_requests d op)
          (grant_invalidation d op)
          (if is_op_end op then some (einval, m, []) else grant_op w fd m (record d { op = op }))
  grant_by_op d grant = grant_op-entry (record d { op = grant })
  grant_by_op d add_token = grant_op-entry (record d { op = add_token })
  grant_by_op d remove_token = grant_op-entry (record d { op = remove_token })
  grant_by_op d ungrant = grant_op-entry (record d { op = ungrant })
  grant_by_op d op_end = (m, refl, entry, refl)

  -- In entry mode, with queues in order and devices that keep within them, a checked grant ends, with
  -- the status and the entry that the check and the operation on the entry give. It makes a request to
  -- the kernel exactly if the kernel does the invalidations, the device file is open, the check did not
  -- refuse, and a token was added or the operation failed: one to invalidate the range of the grant. The
  -- queues are then as ummu_plbi_va_cmd leaves them for the request, and as before if there is no
  -- invalidation.
  pub grant_checked-entry :
      (d : DataInfo)
      → EndsAs
          (entry_grant node d)
          (grant_requests d (ummu_entry_param_check node d))
          (grant_invalidation d (ummu_entry_param_check node d))
          (grant_checked w fd m d)
  unfolding grant_checked entry_grant ummu_grant_check
  grant_checked-entry d =
      let mode : (m.mode == 1) ≡ true = rw entry.0 refl in
      let checked : ummu_grant_check m d ≡ some (ummu_entry_param_check node d) =
        rw (ummu_grant_check, entry.1, mode) refl in
      rw (grant_checked, checked) (grant_by_op d (ummu_entry_param_check node d))

  -- The invalidation behind an ungrant: whenever the check allows one.
  abbrev pub ungrant_requests : DataInfo → GrantOp → List Request
  ungrant_requests d op =
      if is_op_end op
      then []
      else va_requests fd m.queue (invalidated op d).data_base (invalidated op d).data_size

  abbrev pub ungrant_invalidation : DataInfo → GrantOp → Option (QueueInfo × List Request)
  ungrant_invalidation d op =
      if is_op_end op
      then untouched
      else ummu_plbi_va_cmd w.devices fd m.queue (invalidated op (record d { op = op }))

  ungrant_by_op :
      (d : DataInfo) (op : GrantOp)
      → EndsAs
          (run_op node d op)
          (ungrant_requests d op)
          (ungrant_invalidation d op)
          (if is_op_end op then some (einval, m, []) else ungrant_op w fd m (record d { op = op }))
  unfolding invalidated widen
  ungrant_by_op d grant = ungrant_op-entry (record d { op = grant })
  ungrant_by_op d add_token = ungrant_op-entry (record d { op = add_token })
  ungrant_by_op d remove_token = ungrant_op-entry (record d { op = remove_token })
  ungrant_by_op d ungrant = ungrant_op-entry (record d { op = ungrant })
  ungrant_by_op d op_end = (m, refl, entry, refl)

  -- In entry mode, with queues in order and devices that keep within them, a checked ungrant ends, with
  -- the status and the entry that the check and the operation on the entry give. Unless the check
  -- refuses it, and where the kernel does the invalidations and the device file is open, it makes one
  -- request to the kernel: to invalidate the range, widened if the entry went. Unless the check refuses
  -- it, the queues are as ummu_plbi_va_cmd leaves them for that range.
  pub ungrant_checked-entry :
      (d : DataInfo)
      → EndsAs
          (entry_ungrant node d)
          (ungrant_requests d (ummu_entry_ungrant_param_check node d))
          (ungrant_invalidation d (ummu_entry_ungrant_param_check node d))
          (ungrant_checked w fd m d)
  unfolding ungrant_checked entry_ungrant ummu_ungrant_check
  ungrant_checked-entry d =
      let mode : (m.mode == 1) ≡ true = rw entry.0 refl in
      let checked : ummu_ungrant_check m d ≡ some (ummu_entry_ungrant_param_check node d) =
        rw (ummu_ungrant_check, entry.1, mode) refl in
      rw (ungrant_checked, checked) (ungrant_by_op d (ummu_entry_ungrant_param_check node d))
