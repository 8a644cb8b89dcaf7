-- ===== src/Table/Node.antt =====
-- ummu_mapt.c: one node of the table. Filling it, and clearing it, which moves an entry of the next
-- level up into its place.
use openeuler_ummu.Base.{
  ℕ, zero, suc, ◌+◌, ◌-◌, ◌*◌, ◌/◌, ◌%◌, ◌^◌, bit_or, ltb, ◌==◌, not, if◌then◌else◌, Option, none,
  some, wsub,
}
use openeuler_ummu.Mapt.{DataInfo, table_addr_low, table_addr_high}
use openeuler_ummu.Entry.{fill_words}
use openeuler_ummu.Table.{
  in_block, TableNode, zero_node, Block, NodeRef, node_at, M, pure, ◌>>=◌, ◌>>◌, update, block_of,
  put_block, load, store, lvl_offset_of, node_base_of, node_limit_of,
}
use openeuler_ummu.Table.Level.{
  max_level_index, max_mapt_entry_index, per_mapt_level_block_cnt, range_bits_low,
}
use openeuler_ummu.Table.LevelBlock.{ummu_free_level_block}

abbrev pub set_range : ℕ → ℕ → TableNode → TableNode
set_range base limit node = record node {
  base_low = table_addr_low base;
  base_high = table_addr_high base % 2 ^ 7;
  limit_low = table_addr_low limit;
  limit_high = table_addr_high limit % 2 ^ 7;
}

unfoldable pub ummu_table_fill_node : TableNode → ℕ → ℕ → DataInfo → TableNode
unfolding fill_words
ummu_table_fill_node node base limit d = record (set_range base limit node) {
  words = fill_words node.words d;
  type_bit = 1;
}

-- `valid` of the node stays; range, permission and tokens become those of entry `idx` one level down.
unfoldable pub ummu_swap_node_info : TableNode → TableNode → ℕ → ℕ → TableNode
unfolding range_bits_low
ummu_swap_node_info node next idx level =
    let shifted = idx * 2 ^ range_bits_low (level + 1) % 2 ^ 64 in
    let limit = bit_or (node_limit_of next) shifted in
    let base = bit_or (node_base_of next) shifted in
    record (set_range base limit node) {
      words = record (node.words) {
        nonce = next.nonce;
        token_val_0 = next.token_val_0;
        token_val_1 = next.token_val_1;
        permission = next.permission;
        e_bit = next.e_bit;
        token_check = next.token_check;
      };
    }

-- what a node becomes when its next level has been released
abbrev pub unlink : TableNode → TableNode
unlink node = record node {
  type_bit = 1;
  next_block = 0;
  next_lv_offset_low = 0;
  next_lv_offset_high = 0;
  next_lv_index = 0;
}

-- `block->level_entry_cnt[idx] += cnt`, a `uint16_t`
abbrev pub add_entry_cnt : ℕ → Block → Block
add_entry_cnt idx b = record b {
  level_entry_cnt = update b.level_entry_cnt idx ((b.level_entry_cnt idx + 1) % 2 ^ 16);
}

abbrev pub sub_entry_cnt : ℕ → Block → Block
sub_entry_cnt idx b = record b {
  level_entry_cnt = update b.level_entry_cnt idx (wsub 16 (b.level_entry_cnt idx) 1);
}

-- `idx`, a `uint8_t`
abbrev pub entry_index : ℕ → ℕ
entry_index lv_offset = lv_offset % 2 ^ 32 / max_mapt_entry_index % 2 ^ 8

-- `ummu_modify_entry_cnt` for 1 and -1, on the block at an index of the array. A block has four counters.
unfoldable pub modify_block : (ℕ → Block → Block) → ℕ → ℕ → M (Unit {0})
modify_block f lv_offset i = do
  found ← block_of i
  elim found [
    | none ↦ λ _. none
    | some b ↦
        if ltb (entry_index lv_offset) per_mapt_level_block_cnt
        then put_block i (some (f (entry_index lv_offset) b))
        else λ _. none
  ]

-- After an entry of the level block behind `pre` is gone: if it was the last, the level block is
-- released and `pre` unlinked from it.
unfoldable pub release_if_empty : NodeRef → ℕ → ℕ → M (Unit {0})
unfolding ummu_free_level_block
release_if_empty pre index lv_offset = do
  found ← block_of index
  elim found [
    | none ↦ λ _. none
    | some b ↦
        if b.level_entry_cnt (lv_offset / max_mapt_entry_index) == 0
        then (do ummu_free_level_block pre; n ← load pre; store pre (unlink n))
        else pure tt
  ]

-- The index of the first valid node among `n` from `i` on, in the level block at `offset`.
unfoldable pub first_valid : ℕ → Block → ℕ → ℕ → Option ℕ
first_valid zero b offset i = none
first_valid (suc n) b offset i =
    let rest = first_valid n b offset (i + 1) in
    if (b.nodes (offset + i)).valid == 0 then rest else some i

-- The argument counts the levels left: `suc k` is level 3 - k, and 0 is past the last level.
unfoldable pub ummu_swap_next_level_node : ℕ → NodeRef → M (Unit {0})
unfolding ummu_swap_node_info modify_block release_if_empty first_valid load store
ummu_swap_next_level_node zero ref = pure tt
ummu_swap_next_level_node (suc k) ref = do
  node ← load ref
  found ← block_of node.next_lv_index
  -- the nodes that the search reads are mapped if the last of them is: 511, or the one loaded next
  elim found [
    | none ↦ pure tt
    | some b ↦
        let offset = lvl_offset_of node in
        elim (first_valid max_mapt_entry_index b offset 0) [
          | none ↦ if in_block b (offset + 511) then pure tt else λ _. none
          | some i ↦ do
            let next_ref = node_at node.next_lv_index (offset + i)
            next ← load next_ref
            store ref (ummu_swap_node_info node next i (max_level_index - k))
            if next.type_bit == 0 then ummu_swap_next_level_node k next_ref else do
              next ← load next_ref
              store next_ref (record next { words = record (next.words) { valid = 0; nonce = 0 } })
              modify_block sub_entry_cnt offset node.next_lv_index
              release_if_empty ref node.next_lv_index offset
        ]
  ]

-- `k` counts the levels left as above; `pre` is the node that links to the level block of `ref`.
unfoldable pub ummu_table_clear_node : NodeRef → ℕ → NodeRef → M (Unit {0})
unfolding ummu_swap_next_level_node modify_block release_if_empty load store
ummu_table_clear_node ref k pre = do
  pre_node ← load pre
  found ← block_of pre_node.next_lv_index
  elim found [
    | none ↦ pure tt
    | some b ↦ do
      node ← load ref
      if not (node.type_bit == 1) then ummu_swap_next_level_node k ref else do
        store ref zero_node
        modify_block sub_entry_cnt (lvl_offset_of pre_node) pre_node.next_lv_index
        release_if_empty pre pre_node.next_lv_index (lvl_offset_of pre_node)
  ]
