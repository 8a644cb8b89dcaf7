-- ===== src/Grant/Unrecorded.antt =====
-- A grant in table mode for whose record `calloc` has no memory.
use openeuler_ummu.Base.{
  ◌&&◌, ℕ, ◌≡◌, ◌∙◌, ap, refl, sym, ◌==◌, ◌||◌, not, Bool, true, false, Bool-cases, inl, inr,
  Option, none, some, List, After, After-some, After-bind, After-any, enomem,
}
use mathlib.Core.Option.{some-injective}
use openeuler_ummu.Mapt.{DataInfo, GrantOp, grant, op_end}
use openeuler_ummu.SegMng.{
  SegTable, ummu_grant_check_table, ummu_ungrant_check_table, ummu_insert_new_addr,
}
use openeuler_ummu.SegMng.Refused.{grant_check-refused, insert-no_memory}
use openeuler_ummu.Table.{State, TableCtx, zero_node}
use openeuler_ummu.Table.Op.{ummu_table_op}
use openeuler_ummu.Queue.Plbi.{QueueInfo, Request, ummu_plbi_va_cmd}
use openeuler_ummu.Context.{Base, table_ctx, TableInfo, MaptInfo, World}
use openeuler_ummu.Grant.{
  is_add_token, is_mode, by_mode, mapt_op, ummu_grant_check, ummu_ungrant_check, ummu_grant_imp,
  ummu_update_info, update_segs, record_op,
}
use openeuler_ummu.Grant.Call.{grant_checked}

-- A table with the segments `segs`
abbrev pub Records : SegTable → MaptInfo → Type 0
Records segs m =
    (m.mode ≡ 0) × (t : TableInfo) × (m.block_base ≡ table_ctx t) × (t.granted_addr_mng ≡ some segs)

mapt_op-Records :
    (w : World) (m : MaptInfo) (d : DataInfo) (segs : SegTable)
    → Records segs m
    → After (mapt_op w m d) (λ (r : ℕ × MaptInfo × ℕ). Records segs r.1)
unfolding mapt_op by_mode
mapt_op-Records w m d segs (mode, t, e, g) =
    let table : (m.mode == 1) ≡ false = rw mode refl in
    let known : is_mode m.mode ≡ true = rw mode refl in
    rw (mapt_op, known, by_mode, e, table)
      (After-bind
        (ummu_table_op w.table_kernel d
          (record { ctx = t.ctx; root = zero_node; lvl = d.lvl; calls = 0 }))
        _ (λ (_ : ℕ × State). Unit) _ (After-any _)
        (λ r _. (mode, record t { ctx = r.1.ctx }, refl, g)))

ummu_grant_imp-Records :
    (w : World) (fd : Option ℕ) (m : MaptInfo) (d : DataInfo) (segs : SegTable)
    → Records segs m
    → After (ummu_grant_imp w fd m d) (λ (r : ℕ × MaptInfo × List Request). Records segs r.1)
unfolding ummu_grant_imp
ummu_grant_imp-Records w fd m d segs records =
    After-bind (mapt_op w m d) _ (λ (r : ℕ × MaptInfo × ℕ). Records segs r.1) _
      (mapt_op-Records w m d segs records)
      (λ r kept. elim (Bool-cases (is_mode m.mode && (is_add_token d.op || not (r.0 == 0)))) [
        | inl b ↦ rw b (
            After-bind (ummu_plbi_va_cmd w.devices fd (r.1.queue) d) _
              (λ (_ : QueueInfo × List Request). Unit) _ (After-any _) (λ s _. kept))
        | inr b ↦ rw b kept
      ])

-- the permission table
abbrev pub table_of : Base → Option TableCtx
table_of (table_ctx t) = some t.ctx
table_of _ = none

no_record :
    (w : World) (segs : SegTable) (d : DataInfo)
    → w.calloc_seg ≡ false
    → update_segs w segs d grant ≡ (segs, enomem)
unfolding update_segs
no_record w segs d memory =
    ap (λ (b : Bool). ummu_insert_new_addr b segs d) memory ∙ insert-no_memory segs d

record_op-no_memory :
    (w : World) (segs : SegTable) (m : MaptInfo) (d : DataInfo)
    → w.calloc_seg ≡ false
    → (records : Records segs m)
    → record_op w grant 0 m d
      ≡ some (
        enomem,
        record m { block_base = table_ctx (record (records.1) { granted_addr_mng = some segs }) },
      )
unfolding record_op ummu_update_info
record_op-no_memory w segs m d memory (mode, t, e, g) =
    let table : (m.mode == 0) ≡ true = rw mode refl in
    rw (record_op, ummu_update_info, e, g, table, no_record w segs d memory) refl

ungrant_check-table :
    (segs : SegTable) (m : MaptInfo) (d : DataInfo)
    → Records segs m
    → ummu_ungrant_check m d ≡ some (ummu_ungrant_check_table (some segs) d)
unfolding ummu_ungrant_check
ungrant_check-table segs m d (mode, t, e, g) =
    let table : (m.mode == 1) ≡ false = rw mode refl in rw (ummu_ungrant_check, e, table, g) refl

pub grant_check-table :
    (segs : SegTable) (m : MaptInfo) (d : DataInfo)
    → Records segs m
    → ummu_grant_check m d ≡ some (ummu_grant_check_table (some segs) d)
unfolding ummu_grant_check
grant_check-table segs m d (mode, t, e, g) =
    let table : (m.mode == 1) ≡ false = rw mode refl in rw (ummu_grant_check, e, table, g) refl

-- In table mode, where the check says UMMU_GRANT, the operation on the table succeeds and there is no
-- memory for the record: the status is -ENOMEM, the table stays as the operation left it, the recorded
-- segments stay as they were, and every ungrant of the range is refused.
pub unrecorded_grant :
    (w : World) (fd : Option ℕ) (m : MaptInfo) (d : DataInfo) (segs : SegTable) (m' : MaptInfo)
    (rs : List Request)
    → Records segs m
    → w.calloc_seg ≡ false
    → ummu_grant_check m d ≡ some grant
    → ummu_grant_imp w fd m (record d { op = grant }) ≡ some (0, m', rs)
    → (m'' : MaptInfo) × (grant_checked w fd m d ≡ some (enomem, m'', rs))
      × (table_of m''.block_base ≡ table_of m'.block_base)
      × Records segs m''
      × ((d' : DataInfo)
          → d'.data_base ≡ d.data_base
          → d'.data_size ≡ d.data_size
          → ummu_ungrant_check m'' d' ≡ some op_end)
unfolding grant_checked
unrecorded_grant w fd m d segs m' rs records memory checked run =
    let kept : Records segs m' =
      After-some (ummu_grant_imp w fd m (record d { op = grant })) _ (0, m', rs)
        (ummu_grant_imp-Records w fd m (record d { op = grant }) segs records) run in
    let (mode, t, e, g) = kept in
    let m'' : MaptInfo = record m' {
      block_base = table_ctx (record t { granted_addr_mng = some segs });
    } in
    let recorded : record_op w grant 0 m' (record d { op = grant }) ≡ some (enomem, m'') =
      record_op-no_memory w segs m' (record d { op = grant }) memory kept in
    (
      m'',
      rw (checked, run, recorded) refl,
      ap table_of (sym e),
      (mode, record t { granted_addr_mng = some segs }, refl, refl),
      λ d' base size.
          ungrant_check-table segs m'' d'
            (mode, record t { granted_addr_mng = some segs }, refl, refl)
          ∙ ap (λ (op : GrantOp). some op)
              (grant_check-refused segs d d' base size
                (some-injective _ _ (sym (grant_check-table segs m d records) ∙ checked))),
    )
