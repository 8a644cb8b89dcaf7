-- ===== src/Grant/TableMode.antt =====
-- A grant in table mode: the table and the recorded segments agree on every address.
use openeuler_ummu.Base.{ℕ, ◌≡◌, true, Option, some}
use openeuler_ummu.Mapt.{DataInfo, grant}
use openeuler_ummu.SegMng.{SegTable, ummu_insert_new_addr}
use openeuler_ummu.Table.{State}
use openeuler_ummu.Table.LevelBlock.Cells.{IsBlank}
use openeuler_ummu.Table.Op.{ummu_table_op}
use openeuler_ummu.SegMng.Agree.{Agrees, IsChecked, opened}
use openeuler_ummu.Context.{table_ctx, TableInfo, MaptInfo, World}
use openeuler_ummu.Grant.{ummu_grant_check, update_segs}

-- A structure in table mode, with a table and the segments recorded for it.
pub record Keeps (segs : SegTable) (m : MaptInfo) : Type 0 where
  pub mode : m.mode ≡ 0
  pub table : TableInfo
  pub base : m.block_base ≡ table_ctx table
  pub recorded : table.granted_addr_mng ≡ some segs
  pub both : Agrees segs (table.ctx)

-- What the step into the table leaves.
module _ (w : World) (fd : Option ℕ) (m : MaptInfo) (d : DataInfo) (segs segs' : SegTable)
    (t : TableInfo) (s' : State) (mode : m.mode ≡ 0) (base : m.block_base ≡ table_ctx t)
    (recorded : t.granted_addr_mng ≡ some segs)
    (run : ummu_table_op w.table_kernel (record d { op = grant }) (opened (t.ctx) (d.lvl))
      ≡ some (0, s'))
    (update : update_segs w segs (record d { op = grant }) grant ≡ (segs', 0))
    (checked : ummu_grant_check m d ≡ some grant) where
  abbrev moved : MaptInfo
  moved = record m { block_base = table_ctx (record t { ctx = s'.ctx }) }

  abbrev ended : MaptInfo
  ended = record m {
    block_base = table_ctx (record t { ctx = s'.ctx; granted_addr_mng = some segs' });
  }

module _ (w : World) (fd : Option ℕ) (m : MaptInfo) (d : DataInfo) (segs : SegTable)
    (k : Keeps segs m) (blank : IsBlank w.table_kernel) (memory : w.calloc_seg ≡ true)
    (chk : IsChecked d) (checked : ummu_grant_check m d ≡ some grant) where
  abbrev request : DataInfo
  request = record d { op = grant }

  abbrev segs' : SegTable
  segs' = (ummu_insert_new_addr true segs request).0

  abbrev start : State
  start = opened (k.table.ctx) (d.lvl)
