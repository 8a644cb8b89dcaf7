-- ===== src/Table/Update.antt =====
-- `ummu_table_update_token_by_level` of ummu_mapt.c.
use openeuler_ummu.Base.{
  ℕ, zero, suc, ◌+◌, ◌-◌, ◌%◌, ◌^◌, ltb, leb, ◌==◌, ◌&&◌, not, if◌then◌else◌, none, some, einval,
}
use openeuler_ummu.Mapt.{DataInfo}
use openeuler_ummu.Token.{ummu_update_token}
use openeuler_ummu.Table.{
  NodeRef, node_at, M, pure, ◌>>=◌, ◌>>◌, block_of, load, store, lvl_offset_of, node_base_of,
  node_limit_of,
}
use openeuler_ummu.Table.Level.{max_level_index}
use openeuler_ummu.Table.Fill.{Pass, pass_of, node_base, node_limit, is_middle, each_node, run_pass}

module _ (d : DataInfo) where
  unfoldable pub update_node : NodeRef → M ℕ
  unfolding load store
  update_node ref = do
    node ← load ref
    let (words, ret) = ummu_update_token node.words d
    store ref (record node { words = words })
    pure ret

  -- the first or last node; `next` updates a range in the level below it
  unfoldable pub update_head : (NodeRef → ℕ → ℕ → M ℕ) → NodeRef → ℕ → ℕ → M ℕ
  unfolding update_node load
  update_head next cur base limit = do
    node ← load cur
    if (node_base_of node == base) && leb (node_limit_of node) limit
        then (do
          ret ← update_node cur
          if not (ret == 0)
              then pure ret
              else if (node.type_bit == 0) && ltb (node_limit_of node) limit
              then next cur ((node_limit_of node + 1) % 2 ^ 64) limit
              else pure 0)
        else if node.type_bit == 0
        then next cur base limit
        else pure einval

  unfoldable pub update_at : (NodeRef → ℕ → ℕ → M ℕ) → Pass → ℕ → M ℕ
  unfolding update_node update_head load
  update_at next p i = do
    let cur = node_at p.block (p.offset + i)
    node ← load cur
    if node.valid == 0
        then pure einval
        else if is_middle p i
        then update_node cur
        else update_head next cur (node_base p i) (node_limit p i)

  unfoldable pub ummu_table_update_token_by_level : ℕ → NodeRef → ℕ → ℕ → M ℕ
  unfolding update_at each_node load
  ummu_table_update_token_by_level zero pre base limit = pure einval
  ummu_table_update_token_by_level (suc k) pre base limit = do
    pre_node ← load pre
    found ← block_of pre_node.next_lv_index
    elim found [
      | none ↦ pure einval
      | some _ ↦
          let p =
            pass_of pre_node.next_lv_index (lvl_offset_of pre_node) (max_level_index - k) base
              limit in
          run_pass (update_at (ummu_table_update_token_by_level k) p) p
    ]
