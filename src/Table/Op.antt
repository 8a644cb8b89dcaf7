-- ===== src/Table/Op.antt =====
-- `ummu_table_op` of ummu_mapt.c, and `ummu_mapt_table_ctx_init` up to the first level block.
use openeuler_ummu.Base.{ℕ, ◌==◌, if◌then◌else◌, Bool, replicate, none, einval, Option, some}
use openeuler_ummu.Mapt.{grant, add_token, remove_token, ungrant, op_end, DataInfo}
use openeuler_ummu.Table.{Kernel, TableNode, State, zero_node, local, M, pure, ◌>>=◌, ◌>>◌}
use openeuler_ummu.Table.Level.{max_level_index}
use openeuler_ummu.Table.LevelBlock.{LevelPtr, ummu_alloc_level_block}
use openeuler_ummu.Table.Fill.{ummu_table_fill_node_by_level}
use openeuler_ummu.Table.Clear.{ummu_table_clear_node_by_level}
use openeuler_ummu.Table.Update.{ummu_table_update_token_by_level}

-- `struct ummu_mapt_table_node node = {0}`
abbrev pub reset_local : M (Unit {0})
reset_local s = some (tt, record s { root = zero_node })

-- The four levels are left at level 0. A fill that fails is followed by a clear, whose status is
-- dropped.
unfoldable pub ummu_table_op : Kernel → DataInfo → M ℕ
unfolding ummu_table_fill_node_by_level ummu_table_clear_node_by_level
    ummu_table_update_token_by_level
ummu_table_op kernel d = do
  reset_local
  elim d.op [
    | grant ↦ do
      ret ← ummu_table_fill_node_by_level kernel d 4 local d.data_base d.data_limit
      if ret == 0
          then pure 0
          else (do _ ← ummu_table_clear_node_by_level 4 local d.data_base d.data_limit; pure ret)
    | add_token ↦ ummu_table_update_token_by_level d 4 local d.data_base d.data_limit
    | remove_token ↦ ummu_table_update_token_by_level d 4 local d.data_base d.data_limit
    | ungrant ↦ ummu_table_clear_node_by_level 4 local d.data_base d.data_limit
    | op_end ↦ pure einval
  ]

-- The part of `ummu_mapt_table_ctx_init` behind the allocations of the context and of the segment
-- manager: the zeroed context is given its size and capability and its first level block, level block
-- 0 of block 0. `blank` is the local `pre_node`, which the code leaves uninitialised.
unfoldable pub init_table : Kernel → TableNode → Bool → ℕ → ℕ → Option (LevelPtr × State)
unfolding ummu_alloc_level_block
init_table kernel blank expan blk_exp_size calls =
    ummu_alloc_level_block kernel local none (record {
      ctx = record {
        expan = expan;
        block_cnt = 0;
        blk_exp_size = blk_exp_size;
        level_block_bitmap = replicate 32 0;
        mapt_block_array = λ _. none;
      };
      root = blank;
      lvl = max_level_index;
      calls = calls;
    })
