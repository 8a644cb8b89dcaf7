-- ===== src/Grant.antt =====
-- What `ummu_grant` and `ummu_ungrant` of ummu_mapt.c call, for both modes: the checks, the operation
-- and its record.
pub mod Call
pub mod Keeps
pub mod Runs
pub mod Unrecorded
pub mod Invalidate
pub mod EntryMode
pub mod TableMode
mod Tests
pub mod Range
use openeuler_ummu.Base.{
  ℕ, ◌+◌, ◌-◌, ◌*◌, ◌/◌, ◌%◌, ◌^◌, ◌==◌, ◌||◌, ◌&&◌, if◌then◌else◌, Bool, true, false, not, Option,
  none, some, List, [], ◌∷◌, ◌++◌, ◌>>=◌, einval, enomem, bit_and, wsub,
}
use openeuler_ummu.Common.{not64}
use openeuler_ummu.Mapt.{
  GrantOp, grant, add_token, remove_token, ungrant, op_end, DataInfo, mapt_mode_entry,
  mapt_mode_table, align_vpage_shift_check,
}
use openeuler_ummu.Token.{TokenInfo}
use openeuler_ummu.Check.{GrantArgs, ummu_check_mode, ummu_check_data, ummu_perm_data_preproc}
use openeuler_ummu.Entry.{ummu_entry_op, ummu_entry_param_check, ummu_entry_ungrant_param_check}
use openeuler_ummu.SegMng.{
  SegTable, ummu_grant_check_table, ummu_ungrant_check_table, ummu_insert_new_addr,
  ummu_token_update, ummu_delete_addr,
}
use openeuler_ummu.Table.{zero_node}
use openeuler_ummu.Table.Level.{level_range_mask, max_level_index}
use openeuler_ummu.Table.Op.{ummu_table_op}
use openeuler_ummu.Queue.Plbi.{Request, QueueInfo, ummu_plbi_va_cmd}
use openeuler_ummu.TidMap.{ummu_map_get, hashmap_get, hashmap_write}
use openeuler_ummu.Context.{no_base, entry_block, table_ctx, MaptInfo, CtxInfo, World}

unfoldable pub get_mapt_info_by_tid : CtxInfo → ℕ → Option MaptInfo
unfolding hashmap_get
get_mapt_info_by_tid ctx tid = elim (ummu_map_get ctx.mapt_map tid) [
  | none ↦ none
  | some m ↦ if (m.valid == 0) || not (ummu_check_mode m.mode == 0) then none else some m
]

-- A structure whose `block_base` is not that of its mode is a fault, here and below.
unfoldable pub ummu_grant_check : MaptInfo → DataInfo → Option GrantOp
ummu_grant_check m d = elim m.block_base [
  | no_base ↦ none
  | entry_block node ↦
      if m.mode == mapt_mode_entry then some (ummu_entry_param_check node d) else none
  | table_ctx t ↦
      if m.mode == mapt_mode_entry then none else some (ummu_grant_check_table t.granted_addr_mng d)
]

unfoldable pub ummu_ungrant_check : MaptInfo → DataInfo → Option GrantOp
ummu_ungrant_check m d = elim m.block_base [
  | no_base ↦ none
  | entry_block node ↦
      if m.mode == mapt_mode_entry then some (ummu_entry_ungrant_param_check node d) else none
  | table_ctx t ↦
      if m.mode == mapt_mode_entry
      then none
      else some (ummu_ungrant_check_table t.granted_addr_mng d)
]

-- `ummu_entry_op` or `ummu_table_op`, by the mode: the status, the structure, and `lvl` of the request.
unfoldable pub by_mode : World → MaptInfo → DataInfo → Option (ℕ × MaptInfo × ℕ)
unfolding ummu_entry_op ummu_table_op
by_mode w m d = elim m.block_base [
  | no_base ↦ none
  | entry_block node ↦
      let (node', ret) = ummu_entry_op node d in
      if m.mode == mapt_mode_entry
      then some (ret, record m { block_base = entry_block node' }, d.lvl)
      else none
  | table_ctx t ↦
      let run =
        ummu_table_op w.table_kernel d
          (record { ctx = t.ctx; root = zero_node; lvl = d.lvl; calls = 0 }) in
      if m.mode == mapt_mode_entry then none else (do
        (ret, s) ← run
        some (ret, record m { block_base = table_ctx (record t { ctx = s.ctx }) }, s.lvl))
]

abbrev pub is_mode : ℕ → Bool
is_mode mode = (mode == mapt_mode_entry) || (mode == mapt_mode_table)

-- Another mode is refused.
unfoldable pub mapt_op : World → MaptInfo → DataInfo → Option (ℕ × MaptInfo × ℕ)
unfolding by_mode
mapt_op w m d = let run = by_mode w m d in if is_mode m.mode then run else some (einval, m, d.lvl)

abbrev pub is_add_token : GrantOp → Bool
is_add_token add_token = true
is_add_token _ = false

abbrev pub ummu_ungrant_imp : World → MaptInfo → DataInfo → Option (ℕ × MaptInfo × ℕ)
ummu_ungrant_imp w m d = mapt_op w m d

-- The requests are those of the invalidation, if there is one.
unfoldable pub ummu_grant_imp :
    World → Option ℕ → MaptInfo → DataInfo → Option (ℕ × MaptInfo × List Request)
unfolding mapt_op ummu_plbi_va_cmd
ummu_grant_imp w fd m d = do
  (ret, m', lvl) ← mapt_op w m d
  let send = ummu_plbi_va_cmd w.devices fd m'.queue d in
      if is_mode m.mode && (is_add_token d.op || not (ret == 0))
      then (do (q, requests) ← send; some (ret, record m' { queue = q }, requests))
      else some (ret, m', [])

-- The segment table behind an operation, and the status.
unfoldable pub update_segs : World → SegTable → DataInfo → GrantOp → SegTable × ℕ
update_segs w t d grant = ummu_insert_new_addr w.calloc_seg t d
update_segs w t d add_token = ummu_token_update t d add_token
update_segs w t d remove_token = ummu_token_update t d remove_token
update_segs w t d ungrant = let (t', freed, ret) = ummu_delete_addr t d in (t', ret)
update_segs w t d op_end = (t, einval)

unfoldable pub ummu_update_info : World → GrantOp → MaptInfo → DataInfo → Option (ℕ × MaptInfo)
unfolding update_segs
ummu_update_info w op m d = elim m.block_base [
  | no_base ↦ none
  | entry_block node ↦ if m.mode == mapt_mode_table then none else some (0, m)
  | table_ctx t ↦ elim t.granted_addr_mng [
    | none ↦ if m.mode == mapt_mode_table then none else some (0, m)
    | some segs ↦
        let (segs', ret) = update_segs w segs d op in
        if m.mode == mapt_mode_table
        then some
            (ret, record m { block_base = table_ctx (record t { granted_addr_mng = some segs' }) })
        else some (0, m)
  ]
]

-- Where the operation succeeded, it is recorded.
unfoldable pub record_op : World → GrantOp → ℕ → MaptInfo → DataInfo → Option (ℕ × MaptInfo)
unfolding ummu_update_info
record_op w op ret m d =
    let recorded = ummu_update_info w op m d in if ret == 0 then recorded else some (ret, m)
