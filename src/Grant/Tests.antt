-- ===== src/Grant/Tests.antt =====
-- An ungrant of three pages, where level 2 was the highest that changed.
use openeuler_ummu.Base.{arith, ◌≡◌, refl, true, false, none, some, [], ◌∷◌, enomem, inl}
use openeuler_ummu.Mapt.{DataInfo, ungrant, grant, op_end}
use openeuler_ummu.Table.{zero_node}
use openeuler_ummu.Queue.Plbi.{TidInfo, zero_tid_info}
use openeuler_ummu.Context.{TableInfo, entry_block, table_ctx, MaptInfo, World}
use openeuler_ummu.Context.Create.{mapt_mem}
use openeuler_ummu.Common.{find_first_zero_bit}
use openeuler_ummu.Table.Level.{level_block_index}
use openeuler_ummu.Table.Op.{init_table}
use openeuler_ummu.Table.Create.{empty_ctx}
use openeuler_ummu.SegMng.{ummu_grant_check_table}
use openeuler_ummu.SegTree.{ummu_find_seg, map_find}
use openeuler_ummu.Grant.Call.{grant_checked, ungrant_checked}
use openeuler_ummu.Grant.{ummu_grant_check, ummu_ungrant_check, ummu_grant_imp}
use openeuler_ummu.Entry.{
  zero_entry_node, entry_grant, entry_ungrant, ummu_entry_param_check,
  ummu_entry_ungrant_param_check,
}
use openeuler_ummu.Queue.Plbi.Ends.{DevicesFit}
use openeuler_ummu.Grant.EntryMode.{
  EndsAs, grant_requests, grant_invalidation, ungrant_invalidation, ungrant_requests,
  grant_checked-entry, ungrant_checked-entry,
}
use openeuler_ummu.Grant.Unrecorded.{Records, table_of, unrecorded_grant}
use openeuler_ummu.Queue.Plbi.{plbi_va, ummu_kcmd_plbi}
use openeuler_ummu.Table.Level.{level_range_mask}
use openeuler_ummu.Grant.{mapt_op}
use openeuler_ummu.Mapt.{EntryNode, addr_full, entry_addr_high, entry_addr_low}
use openeuler_ummu.Entry.{ummu_entry_op}
use openeuler_ummu.Mapt.{table_lvl_offset}
use openeuler_ummu.SegMng.Agree.{opened}
use openeuler_ummu.Grant.Call.{widen}
use openeuler_ummu.Grant.Range.{Rounded, span, widen-Rounded}

abbrev request : DataInfo
request = record {
  data_base = 0x3fe000;
  data_size = 0x3000;
  data_limit = 0x400fff;
  perm = 0;
  e_bit = 0;
  token_check = 0;
  tokenval = 0;
  bytoken = 0;
  op = ungrant;
  lvl = 3;
}

widen-Rounded_example :
    Rounded
      (span (widen request).lvl)
      0x3fe000
      0x3000
      (widen request).data_base
      (widen request).data_size
widen-Rounded_example = widen-Rounded request (omega arith) (omega arith) (omega arith)

-- A kernel that maps zeroed blocks, and no memory for a segment.
abbrev world : World
world = record {
  alloc_tid = λ info. (0, info);
  queue_kernel = record { page_size = 4096; malloc = true; mmap = λ size. none };
  table_kernel = record { calloc = λ n. true; mmap = λ n size i. some (λ k. zero_node) };
  devices = λ i. record {
    ucmdq_ci = λ t. 0;
    ucplq_pi = λ t. 0;
    cpl_entry = λ t k. record { cpl_status = 0; cmdq_ci = 0 };
  };
  urandom = record { opened = true; open_errno = 0; read_ret = 4; read_errno = 0; random_val = 9 };
  mmap_entry = none;
  malloc_mapt = true;
  malloc_table_ctx = true;
  new_seg_tree = true;
  calloc_seg = false;
  blank_node = zero_node;
}

abbrev info : TidInfo
info = record zero_tid_info { tid = 7; hw_cap = 5; blk_exp_size = 0x1_0000 }

-- a tid in table mode, as it is created
abbrev new_table : TableInfo
new_table = record {
  granted_addr_mng = some [];
  ctx = elim (init_table world.table_kernel zero_node true 0x1_0000 0) [
    | none ↦ empty_ctx true 0x1_0000
    | some (root, s) ↦ s.ctx
  ];
}

abbrev new_tid : MaptInfo
new_tid = record (mapt_mem info) { block_base = table_ctx new_table }

abbrev page_request : DataInfo
page_request = record request {
  data_base = 0x1000;
  data_size = 0x2000;
  data_limit = 0x2fff;
  perm = 3;
}

-- and after a grant of two pages
abbrev granted_tid : MaptInfo
granted_tid = elim (ummu_grant_imp world none new_tid (record page_request { op = grant })) [
  | none ↦ new_tid
  | some (ret, m, rs) ↦ m
]

new_tid-Records : Records [] new_tid
new_tid-Records = (refl, new_table, refl, refl)

new_tid-grants : ummu_grant_check new_tid page_request ≡ some grant
unfolding ummu_grant_check ummu_grant_check_table ummu_find_seg map_find
new_tid-grants = refl

grants :
    ummu_grant_imp world none new_tid (record page_request { op = grant })
    ≡ some (0, granted_tid, [])
unfolding init_table ummu_grant_imp find_first_zero_bit level_block_index table_lvl_offset
grants = refl

unrecorded_grant_example :
    (m'' : MaptInfo) × (grant_checked world none new_tid page_request ≡ some (enomem, m'', []))
    × (table_of m''.block_base ≡ table_of granted_tid.block_base)
    × Records [] m''
    × ((d' : DataInfo)
        → d'.data_base ≡ 0x1000
        → d'.data_size ≡ 0x2000
        → ummu_ungrant_check m'' d' ≡ some op_end)
unrecorded_grant_example =
    unrecorded_grant world none new_tid page_request [] granted_tid [] new_tid-Records refl
      new_tid-grants grants

-- the same tid, with memory for the record
abbrev rich_world : World
rich_world = record world { calloc_seg = true }

-- a tid in entry mode, where nothing is granted
abbrev entry_tid : MaptInfo
entry_tid = record (mapt_mem info) { mode = 1; block_base = entry_block zero_entry_node }

entry_tid-DevicesFit : DevicesFit world.devices entry_tid.queue
entry_tid-DevicesFit u i t = omega arith

-- the same tid, once two pages are granted
abbrev granted_node : EntryNode
granted_node = (entry_grant zero_entry_node page_request).0

abbrev held_tid : MaptInfo
held_tid = record entry_tid { block_base = entry_block granted_node }

held_tid-DevicesFit : DevicesFit world.devices held_tid.queue
held_tid-DevicesFit u i t = omega arith

-- The ungrant of the two pages makes one request, to invalidate the 2M around them.
ungrant_invalidates :
    ungrant_checked world (some 3) held_tid page_request
    ≡ some (
      0,
      record held_tid { block_base = entry_block zero_entry_node },
      plbi_va 7 0 0x20_0000 ∷ [],
    )
unfolding ungrant_checked entry_grant ummu_entry_ungrant_param_check ummu_entry_param_check
    ummu_entry_op addr_full entry_addr_high entry_addr_low mapt_op ummu_kcmd_plbi level_range_mask
ungrant_invalidates = refl

grant_checked-entry_example :
    EndsAs world
      (some 3)
      entry_tid
      zero_entry_node
      (refl, refl)
      (inl refl)
      entry_tid-DevicesFit
      (entry_grant zero_entry_node page_request)
      (grant_requests world
        (some 3)
        entry_tid
        zero_entry_node
        (refl, refl)
        (inl refl)
        entry_tid-DevicesFit
        page_request
        (ummu_entry_param_check zero_entry_node page_request))
      (grant_invalidation world
        (some 3)
        entry_tid
        zero_entry_node
        (refl, refl)
        (inl refl)
        entry_tid-DevicesFit
        page_request
        (ummu_entry_param_check zero_entry_node page_request))
      (grant_checked world (some 3) entry_tid page_request)
grant_checked-entry_example =
    grant_checked-entry world (some 3) entry_tid zero_entry_node (refl, refl) (inl refl)
      entry_tid-DevicesFit page_request

ungrant_checked-entry_example :
    EndsAs world
      (some 3)
      held_tid
      granted_node
      (refl, refl)
      (inl refl)
      held_tid-DevicesFit
      (entry_ungrant granted_node page_request)
      (ungrant_requests world
        (some 3)
        held_tid
        granted_node
        (refl, refl)
        (inl refl)
        held_tid-DevicesFit
        page_request
        (ummu_entry_ungrant_param_check granted_node page_request))
      (ungrant_invalidation world
        (some 3)
        held_tid
        granted_node
        (refl, refl)
        (inl refl)
        held_tid-DevicesFit
        page_request
        (ummu_entry_ungrant_param_check granted_node page_request))
      (ungrant_checked world (some 3) held_tid page_request)
ungrant_checked-entry_example =
    ungrant_checked-entry world (some 3) held_tid granted_node (refl, refl) (inl refl)
      held_tid-DevicesFit page_request
