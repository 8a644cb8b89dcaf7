-- ===== src/Table/Fill.antt =====
-- `ummu_table_fill_node_by_level` of ummu_mapt.c.
use openeuler_ummu.Base.{
  ℕ, zero, suc, ◌+◌, ◌-◌, ltb, ◌==◌, ◌&&◌, not, if◌then◌else◌, none, some, Bool, einval, bit_and,
  ◌%◌, ◌^◌,
}
use openeuler_ummu.Mapt.{DataInfo}
use openeuler_ummu.Table.{
  Kernel, NodeRef, node_at, M, pure, ◌>>=◌, ◌>>◌, block_of, load, store, lvl_offset_of,
}
use openeuler_ummu.Table.Level.{max_level_index, level_block_index, level_range_mask}
use openeuler_ummu.Table.LevelBlock.{level_at, failed, ummu_alloc_level_block}
use openeuler_ummu.Table.Node.{ummu_table_fill_node, add_entry_cnt, modify_block}

-- One pass over a level block: block and offset, the level, the range and its two indices.
pub record Pass : Type 0 where
  pub block : ℕ
  pub offset : ℕ
  pub level : ℕ
  pub base : ℕ
  pub limit : ℕ
  pub base_idx : ℕ
  pub limit_idx : ℕ

abbrev pub pass_of : ℕ → ℕ → ℕ → ℕ → ℕ → Pass
pass_of block offset level base limit = record {
  block = block;
  offset = offset;
  level = level;
  base = base;
  limit = limit;
  base_idx = level_block_index base level % 2 ^ 16;
  limit_idx = level_block_index limit level % 2 ^ 16;
}

-- the part of the range that falls to node `i`
abbrev pub node_base : Pass → ℕ → ℕ
node_base p i = if i == p.base_idx then bit_and p.base (level_range_mask p.level) else 0

abbrev pub node_limit : Pass → ℕ → ℕ
node_limit p i =
    if i == p.limit_idx
    then bit_and p.limit (level_range_mask p.level)
    else level_range_mask p.level

abbrev pub is_middle : Pass → ℕ → Bool
is_middle p i = ltb p.base_idx i && ltb i p.limit_idx

-- `for (i = base_idx; i <= limit_idx; i++)`: the body returns a status other than 0 to leave.
unfoldable pub each_node : (ℕ → M ℕ) → ℕ → ℕ → M ℕ
each_node body zero i = pure 0
each_node body (suc n) i = do
  ret ← body i
  if not (ret == 0) then pure ret else each_node body n (i + 1)

abbrev pub run_pass : (ℕ → M ℕ) → Pass → M ℕ
run_pass body p = each_node body (p.limit_idx + 1 - p.base_idx) p.base_idx

module _ (kernel : Kernel) (d : DataInfo) where
  -- a node that is not in use takes its part of the range
  unfoldable pub take_node : Pass → ℕ → M ℕ
  unfolding ummu_table_fill_node modify_block load store
  take_node p i = do
    let ref = node_at p.block (p.offset + i)
    cur ← load ref
    store ref (ummu_table_fill_node cur (node_base p i) (node_limit p i) d)
    modify_block add_entry_cnt p.offset p.block
    pure 0

  -- the level block below a node in use, allocated if there is none; the result is `errno`
  unfoldable pub descend : Pass → ℕ → M ℕ
  unfolding load store ummu_alloc_level_block
  descend p i = do
    let ref = node_at p.block (p.offset + i)
    cur ← load ref
    if not (cur.type_bit == 1) then pure 0 else do
      next ← ummu_alloc_level_block kernel ref (some p.block)
      elim next [
        | failed errno ↦ pure errno
        | level_at _ _ ↦ do cur ← load ref; store ref (record cur { type_bit = 0 }); pure 0
      ]

  -- The loop's body; `next` is the recursive call.
  unfoldable pub fill_at : (NodeRef → ℕ → ℕ → M ℕ) → Pass → ℕ → M ℕ
  unfolding take_node descend load
  fill_at next p i = do
    let ref = node_at p.block (p.offset + i)
    cur ← load ref
    if not (cur.valid == 1) then take_node p i else if is_middle p i then pure einval else do
      ret ← descend p i
      if not (ret == 0) then pure ret else next ref (node_base p i) (node_limit p i)

  -- The argument counts the levels left: `suc k` is level 3 - k, and 0 is a level past the last.
  unfoldable pub ummu_table_fill_node_by_level : ℕ → NodeRef → ℕ → ℕ → M ℕ
  unfolding fill_at each_node load
  ummu_table_fill_node_by_level zero pre base limit = pure einval
  ummu_table_fill_node_by_level (suc k) pre base limit = do
    pre_node ← load pre
    found ← block_of pre_node.next_lv_index
    elim found [
      | none ↦ pure einval
      | some _ ↦
          let p =
            pass_of pre_node.next_lv_index (lvl_offset_of pre_node) (max_level_index - k) base
              limit in
          run_pass (fill_at (ummu_table_fill_node_by_level k) p) p
    ]
