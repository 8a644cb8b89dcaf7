-- ===== src/Table/Tests.antt =====
-- Runs of the table on a few requests.
use openeuler_ummu.Base.{ℕ, Option, none, some, true, List, [], ◌∷◌, ◌+◌, ◌≡◌, ◌∙◌, refl, arith}
use openeuler_ummu.Common.{ummu_set_bit, find_first_zero_bit}
use openeuler_ummu.Common.Bitmap.{bit_at-set_bit, set_bit-IsWords, length-set_bit}
use openeuler_ummu.Mapt.{
  GrantOp, grant, ungrant, DataInfo, table_lvl_offset, lvl_offset_low, lvl_offset_high, addr_full,
  table_addr_low, table_addr_high,
}
use openeuler_ummu.Mapt.Addr.{table_lvl_offset-add}
use openeuler_ummu.Table.{
  Kernel, zero_node, Block, TableCtx, State, node_at, update, M, pure, ◌>>=◌,
}
use openeuler_ummu.Table.Run.{Runs}
use openeuler_ummu.Table.Access.{Kept}
use openeuler_ummu.Table.LevelBlock.{ummu_alloc_level_block, ummu_free_level_block}
use openeuler_ummu.Table.LevelBlock.Inv.{LevelInv, LevelInv-change, BitSet}
use openeuler_ummu.Table.LevelBlock.Alloc.{Allocated, ummu_alloc_level_block-Allocated}
use openeuler_ummu.Table.LevelBlock.Free.{ummu_free_level_block-Released}
use openeuler_ummu.Table.Create.{
  no_levels, empty_ctx, empty_ctx-Inv, undo, Restored, alloc-free_level_block,
}
use openeuler_ummu.Table.Level.{level_block_index, level_range_mask}
use openeuler_ummu.Base.{if◌then◌else◌, ◌==◌}
use openeuler_ummu.Common.Bitmap.{bit_at}
use openeuler_ummu.Table.Uninit.{ummu_mapt_table_ctx_uninit, ummu_mapt_table_ctx_uninit_lem}
use openeuler_ummu.Table.{TableNode}
use openeuler_ummu.Table.Op.{ummu_table_op, init_table}

abbrev zeroing : Kernel
zeroing = record { calloc = λ _. true; mmap = λ _ _ _. some (λ _. zero_node) }

abbrev request : GrantOp → ℕ → ℕ → DataInfo
request op base limit = record {
  data_base = base;
  data_size = limit + 1;
  data_limit = limit;
  perm = 3;
  e_bit = 0;
  token_check = 0;
  tokenval = 0;
  bytoken = 0;
  op = op;
  lvl = 3;
}

run : List DataInfo → M (List ℕ)
unfolding ummu_table_op
run [] = pure []
run (d ∷ ds) = do ret ← ummu_table_op zeroing d; rets ← run ds; pure (ret ∷ rets)

start : List DataInfo → Option (List ℕ × ℕ)
unfolding init_table run
start ds = elim (init_table zeroing zero_node true 0x1_0000 0) [
  | none ↦ none
  | some (_, s) ↦ elim (run ds s) [ none ↦ none | some (rets, s') ↦ some (rets, s'.block_cnt) ]
]

-- grants of two pages, of a range that needs new level blocks, and an ungrant
four_requests :
    start (
      request grant 0x1000 0x1fff
      ∷ request grant 0x2000 0x2fff
      ∷ request grant 0x5000_0000 0x1500_0000_0fff
      ∷ request ungrant 0x1000 0x1fff
      ∷ [])
    ≡ some (0 ∷ 0 ∷ 0 ∷ 0 ∷ [], 1)
unfolding start find_first_zero_bit table_lvl_offset lvl_offset_low lvl_offset_high addr_full
    table_addr_low table_addr_high level_block_index level_range_mask
four_requests = refl

abbrev block_zero : ℕ → Block
block_zero cnt = record {
  nodes = update (λ _. zero_node) 5 (record zero_node { next_lv_offset_low = 512 });
  blk_size = 0x1_0000;
  block_id = 0;
  level_cnt = cnt;
  level_entry_cnt = λ _. 0;
}

-- level block 0 alone, then with level block 1, to which node 5 links
abbrev one_level : TableCtx
one_level = record (empty_ctx true 0x1_0000) {
  level_block_bitmap = ummu_set_bit 0 no_levels;
  mapt_block_array = update (λ _. none) 0 (some (block_zero 1));
  block_cnt = 1;
}

abbrev two_levels : TableCtx
two_levels = record one_level {
  level_block_bitmap = ummu_set_bit 1 (ummu_set_bit 0 no_levels);
  mapt_block_array = update one_level.mapt_block_array 0 (some (block_zero 2));
  block_cnt = 1;
}

abbrev state_of : TableCtx → State
state_of c = record { ctx = c; root = zero_node; lvl = 3; calls = 0 }

one_level-bits : BitSet 0 1 no_levels (ummu_set_bit 0 no_levels)
one_level-bits = bit_at-set_bit 0 no_levels (omega arith)

one_level-Inv : LevelInv 512 one_level
unfolding ummu_set_bit
one_level-Inv =
    LevelInv-change 512 512 (empty_ctx true 0x1_0000) 0 1 0 1 _ (some (block_zero 1))
      (empty_ctx-Inv true 0x1_0000) refl (omega arith) (length-set_bit 0 no_levels)
      (set_bit-IsWords 0 no_levels (empty_ctx-Inv true 0x1_0000).words) one_level-bits
      (λ i p q r. r) (refl, refl, λ _. omega arith) refl

two_levels-bits : BitSet 1 1 (ummu_set_bit 0 no_levels) (ummu_set_bit 1 (ummu_set_bit 0 no_levels))
two_levels-bits = bit_at-set_bit 1 _ (omega (arith, length-set_bit 0 no_levels))

two_levels-Inv : LevelInv 512 two_levels
unfolding ummu_set_bit
two_levels-Inv =
    LevelInv-change 512 512 one_level 1 1 0 1 _ (some (block_zero 2)) one_level-Inv refl
      (omega arith) (length-set_bit 1 one_level.level_block_bitmap ∙ one_level-Inv.bitmap_length)
      (set_bit-IsWords 1 one_level.level_block_bitmap one_level-Inv.words) two_levels-bits
      (λ i p q r. r) (refl, refl, λ _. omega arith) refl

ummu_alloc_level_block-Allocated_example :
    Runs
      (ummu_alloc_level_block zeroing (node_at 0 7) (some 0))
      (state_of one_level)
      (Allocated (node_at 0 7) zero_node (ummu_set_bit 0 no_levels))
ummu_alloc_level_block-Allocated_example =
    ummu_alloc_level_block-Allocated zeroing (node_at 0 7) (some 0) zero_node
      (ummu_set_bit 0 no_levels) (state_of one_level) (one_level-Inv, refl)
      (omega arith, (block_zero 1, refl, refl, refl))

ummu_free_level_block-Released_example :
    Runs
      (ummu_free_level_block (node_at 0 5))
      (state_of two_levels)
      λ _ s. (ws : List ℕ) × Kept 512 ws s × BitSet 1 0 two_levels.level_block_bitmap ws
ummu_free_level_block-Released_example =
    ummu_free_level_block-Released (node_at 0 5) (record zero_node { next_lv_offset_low = 512 })
      two_levels.level_block_bitmap (state_of two_levels) 1 (two_levels-Inv, refl)
      (omega arith, (block_zero 2, refl, refl, refl)) (omega arith) refl
      (table_lvl_offset-add 512 0 (omega arith) (omega arith)) (two_levels-bits 1)
      (two_levels-bits 0 ∙ one_level-bits 0)

alloc-free_level_block_example :
    Runs
      (ummu_alloc_level_block zeroing (node_at 0 7) (some 0) >>= undo (node_at 0 7))
      (state_of one_level)
      (Restored (ummu_set_bit 0 no_levels))
alloc-free_level_block_example =
    alloc-free_level_block zeroing (node_at 0 7) (some 0) zero_node (ummu_set_bit 0 no_levels)
      (state_of one_level) (one_level-Inv, refl) (omega arith, (block_zero 1, refl, refl, refl))
      (one_level-bits 0)

ummu_mapt_table_ctx_uninit_lem_example :
    ummu_mapt_table_ctx_uninit (ummu_set_bit 5 no_levels) (λ _. some (block_zero 1)) 1
    ≡ (if bit_at (ummu_set_bit 5 no_levels) 4 == 1 then none else some (block_zero 1))
ummu_mapt_table_ctx_uninit_lem_example =
    ummu_mapt_table_ctx_uninit_lem (ummu_set_bit 5 no_levels) (length-set_bit 5 no_levels)
      (set_bit-IsWords 5 no_levels (empty_ctx-Inv true 0x1_0000).words) 1 (omega arith)
      (λ _. some (block_zero 1))

-- a node with all fields zero, and one with some at their largest
abbrev full_node : TableNode
full_node = record zero_node {
  words = record (zero_node.words) { permission = 63; nonce = 3; token_val_1 = 0xffff_ffff };
  next_lv_index = 0xffff;
  base_high = 0x7f;
}
