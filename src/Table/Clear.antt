-- ===== src/Table/Clear.antt =====
-- `ummu_table_clear_node_by_level` and `ummu_table_clear_head_node` of ummu_mapt.c.
use openeuler_ummu.Base.{
  ℕ, zero, suc, ◌+◌, ◌-◌, ◌*◌, ◌%◌, ◌^◌, ltb, leb, ◌==◌, ◌&&◌, not, if◌then◌else◌, none, some,
  einval,
}
use openeuler_ummu.Table.{
  NodeRef, node_at, M, pure, ◌>>=◌, ◌>>◌, block_of, load, lvl_offset_of, node_base_of,
  node_limit_of,
}
use openeuler_ummu.Table.Level.{max_level_index, max_mapt_entry_index}
use openeuler_ummu.Table.Node.{ummu_table_clear_node}
use openeuler_ummu.Table.Fill.{Pass, pass_of, node_base, node_limit, is_middle, each_node, run_pass}

abbrev pub max_loop : ℕ
max_loop = max_mapt_entry_index * 2 ^ max_level_index

-- `data_info->lvl = MIN(level, data_info->lvl)`
abbrev pub lower_lvl : ℕ → M (Unit {0})
lower_lvl level s = some (tt, record s { lvl = if ltb level s.lvl then level else s.lvl })

-- The `do … while` loop, with `n` rounds before the "unexpected" count. It clears the node, which
-- moves the next entry of the level below into its place, as long as that entry continues the range.
-- The result is the status and `rest_node_base`.
unfoldable pub clear_loop : ℕ → ℕ → NodeRef → NodeRef → ℕ → ℕ → M (ℕ × ℕ)
unfolding ummu_table_clear_node load
clear_loop zero k pre cur cur_limit limit = pure (einval, 0)
clear_loop (suc n) k pre cur cur_limit limit = do
  let rest = (cur_limit + 1) % 2 ^ 64
  ummu_table_clear_node cur (suc k) pre
  if n == 0 then pure (einval, rest) else do
    pre_node ← load pre
    if not (pre_node.type_bit == 0) then pure (0, rest) else do
      node ← load cur
      if not (node.valid == 1)
          then pure (0, rest)
          else if (rest == node_base_of node) && leb (node_limit_of node) limit
          then clear_loop n k pre cur (node_limit_of node) limit
          else pure (0, rest)

-- `suc k` counts the levels left; `next` clears a range in the level below the current node.
unfoldable pub ummu_table_clear_head_node :
    (NodeRef → ℕ → ℕ → M ℕ) → ℕ → NodeRef → NodeRef → ℕ → ℕ → M ℕ
unfolding clear_loop load
ummu_table_clear_head_node next k pre cur base limit = do
  node ← load cur
  if node_base_of node == base
      then (do
        lower_lvl (max_level_index - k)
        (ret, rest) ← clear_loop max_loop k pre cur (node_limit_of node) limit
        if not (ret == 0) then pure ret else do
          pre_node ← load pre
          if not ((pre_node.type_bit == 0) && leb rest limit) then pure 0 else do
            node ← load cur
            if (node.valid == 1) && (node.type_bit == 0) then next cur rest limit else pure 0)
      else if node.type_bit == 0
      then next cur base limit
      else pure einval

unfoldable pub clear_at : (NodeRef → ℕ → ℕ → M ℕ) → ℕ → NodeRef → Pass → ℕ → M ℕ
unfolding ummu_table_clear_head_node ummu_table_clear_node load
clear_at next k pre p i = do
  let cur = node_at p.block (p.offset + i)
  node ← load cur
  if node.valid == 0
      then pure einval
      else if is_middle p i
      then (do ummu_table_clear_node cur (suc k) pre; pure 0)
      else ummu_table_clear_head_node next k pre cur (node_base p i) (node_limit p i)

unfoldable pub ummu_table_clear_node_by_level : ℕ → NodeRef → ℕ → ℕ → M ℕ
unfolding clear_at each_node load
ummu_table_clear_node_by_level zero pre base limit = pure einval
ummu_table_clear_node_by_level (suc k) pre base limit = do
  pre_node ← load pre
  found ← block_of pre_node.next_lv_index
  elim found [
    | none ↦ pure einval
    | some _ ↦
        let p =
          pass_of pre_node.next_lv_index (lvl_offset_of pre_node) (max_level_index - k) base
            limit in
        run_pass (clear_at (ummu_table_clear_node_by_level k) k pre p) p
  ]
