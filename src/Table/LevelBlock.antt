-- ===== src/Table/LevelBlock.antt =====
-- ummu_level_block.c and the table-block case of `ummu_get_core_buf` (ummu_resource.c): allocation and
-- release of level blocks, four to a block of memory.
pub mod Inv
mod Ready
pub mod Alloc
pub mod Free
pub mod Cells
pub mod Room
use openeuler_ummu.Base.{
  ℕ, ◌+◌, ◌*◌, ◌/◌, ◌%◌, ◌^◌, ltb, leb, ◌==◌, ◌&&◌, ◌||◌, not, if◌then◌else◌, Bool, Option, none,
  some, enomem, erange, wsub,
}
use openeuler_ummu.Common.{ummu_set_bit, ummu_clear_bit, find_first_zero_bit}
use openeuler_ummu.Mapt.{lvl_offset_low, lvl_offset_high}
use openeuler_ummu.Table.{
  TableNode, Block, TableCtx, Kernel, NodeRef, M, pure, ◌>>=◌, ◌>>◌, update, block_of, put_ctx,
  load, store, lvl_offset_of,
}
use openeuler_ummu.Table.Level.{max_mapt_entry_index, per_mapt_level_block_cnt, max_level_id_size}

-- A pointer to the first node of a level block (block and offset), or a null pointer and `errno`.
pub data LevelPtr : Type 0 where
  level_at : ℕ → ℕ → LevelPtr
  failed : ℕ → LevelPtr

module _ (kernel : Kernel) where
  -- `ummu_get_core_buf` for BASE_MODE_TABLE_BLOCK; MAP_FAILED and NULL are both `none`.
  pub get_table_buf : ℕ → ℕ → M (Option (ℕ → TableNode))
  get_table_buf size idx s =
      if size == 0
      then some (none, s)
      else if ltb size 0x4000 || ltb 0x20_0000 size
      then some (none, s)
      else some (kernel.mmap s.calls size idx, record s { calls = s.calls + 1 })

  calloc : M Bool
  calloc s = some (kernel.calloc s.calls, record s { calls = s.calls + 1 })

  pub add_block : ℕ → Block → M (Unit {0})
  add_block i block s = some (
    tt,
    record s {
      ctx = record (s.ctx) {
        mapt_block_array = update (s.mapt_block_array) i (some block);
        block_cnt = (s.block_cnt + 1) % 2 ^ 16;
      };
    },
  )

  -- The result is 0 or `errno`. The new block is entry `block_index` of the array.
  pub ummu_alloc_new_mapt_block : ℕ → ℕ → M ℕ
  unfolding get_table_buf calloc add_block
  ummu_alloc_new_mapt_block block_size block_index s =
      if not (s.expan) && not (block_index == 0)
      then some (erange, s)
      else (do
        memory ← calloc
        if not memory then pure enomem else do
          buf ← get_table_buf block_size block_index
          elim buf [
            | none ↦ pure enomem
            | some nodes ↦ do
              add_block block_index (record {
                nodes = nodes;
                blk_size = block_size;
                block_id = block_index;
                level_cnt = 0;
                level_entry_cnt = λ _. 0;
              })
              pure 0
          ])
          s

  -- The block of a new level block: the one in the array, or a new one. The result is `errno` and the
  -- value of `next_block`.
  pub block_for_level : ℕ → Option ℕ → M (ℕ × ℕ)
  unfolding ummu_alloc_new_mapt_block
  block_for_level index pre_block s = elim (s.mapt_block_array index) [
    | none ↦ (do ret ← ummu_alloc_new_mapt_block (s.blk_exp_size) index; pure (ret, 1)) s
    | some block ↦ some ((0, elim pre_block [ none ↦ 1 | some p ↦ if p == index then 0 else 1 ]), s)
  ]

  pub take_level : ℕ → ℕ → M (Unit {0})
  unfolding ummu_set_bit
  take_level level_id index s = elim (s.mapt_block_array index) [
    | none ↦ none
    | some b ↦ some (
      tt,
      record s {
        ctx = record (s.ctx) {
          level_block_bitmap = ummu_set_bit level_id (s.level_block_bitmap);
          mapt_block_array =
              update (s.mapt_block_array) index
                (some (record b { level_cnt = (b.level_cnt + 1) % 2 ^ 16 }));
        };
      },
    )
  ]

  -- The second argument is the index of the block that holds the node, `none` for a null pointer.
  unfoldable pub ummu_alloc_level_block : NodeRef → Option ℕ → M LevelPtr
  unfolding block_for_level take_level
  ummu_alloc_level_block pre pre_block s =
      let level_id = find_first_zero_bit (s.level_block_bitmap) max_level_id_size in
      let index = level_id / per_mapt_level_block_cnt in
      let offset = max_mapt_entry_index * (level_id % per_mapt_level_block_cnt) in
      if leb max_level_id_size level_id
      then some (failed erange, s)
      else (do
        node ← load pre
        store pre (record node { next_block = 0 })
        (ret, next_block) ← block_for_level index pre_block
        if not (ret == 0) then pure (failed ret) else do
          node ← load pre
          store pre (record node {
            next_block = next_block;
            next_lv_index = index;
            next_lv_offset_low = lvl_offset_low offset % 2 ^ 20;
            next_lv_offset_high = lvl_offset_high offset % 2 ^ 10;
          })
          take_level level_id index
          pure (level_at index offset))
          s

-- `level_cnt--` and the bit, unless it is level block 0
release_level : ℕ → ℕ → Block → TableCtx → TableCtx
unfolding ummu_clear_bit
release_level lv_index level_id b c = if level_id == 0 then c else record c {
  level_block_bitmap = ummu_clear_bit level_id c.level_block_bitmap;
  mapt_block_array =
      update c.mapt_block_array lv_index (some (record b { level_cnt = wsub 16 b.level_cnt 1 }));
}

-- the block itself, once it has no level block and is not the only one
release_block : ℕ → ℕ → TableCtx → TableCtx
release_block level_cnt block_id c =
    if (level_cnt == 0) && ltb 1 c.block_cnt
    then record c {
      mapt_block_array = update c.mapt_block_array block_id none;
      block_cnt = wsub 16 c.block_cnt 1;
    }
    else c

unfoldable pub ummu_free_level_block : NodeRef → M (Unit {0})
unfolding release_level release_block
ummu_free_level_block prev = do
  node ← load prev
  found ← block_of node.next_lv_index
  elim found [
    | none ↦ λ _. none
    | some b ↦ λ s.
        let level_id =
          (b.block_id * per_mapt_level_block_cnt + lvl_offset_of node / max_mapt_entry_index)
          % 2 ^ 32 in
        let level_cnt = if level_id == 0 then b.level_cnt else wsub 16 b.level_cnt 1 in
        put_ctx
          (release_block level_cnt b.block_id (release_level node.next_lv_index level_id b (s.ctx)))
          s
  ]
