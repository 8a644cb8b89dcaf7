-- ===== src/Entry.antt =====
-- Entry mode: one permission entry for each tid. `ummu_entry_op` and `ummu_entry_fill_node` of
-- ummu_mapt.c, and the entry-mode checks of ummu_seg_mng.c.
pub mod Spec
pub mod Refine
mod Tests
use openeuler_ummu.Base.{ℕ, ◌%◌, ◌^◌, ◌==◌, ◌&&◌, ◌||◌, not, if◌then◌else◌, einval}
use openeuler_ummu.Mapt.{
  GrantOp, grant, add_token, remove_token, ungrant, op_end, NodeWords, EntryNode, DataInfo,
  ummu_max_token_num, entry_addr_low, entry_addr_high, addr_full,
}
use openeuler_ummu.Token.{ummu_update_token}

abbrev pub zero_words : NodeWords
zero_words = record {
  valid = 0;
  e_bit = 0;
  permission = 0;
  token_check = 0;
  nonce = 0;
  token_val_0 = 0;
  token_val_1 = 0;
}

abbrev pub zero_entry_node : EntryNode
zero_entry_node = record {
  words = zero_words;
  base_low = 0;
  base_high = 0;
  limit_low = 0;
  limit_high = 0;
}

-- The words that a grant writes: those of `ummu_entry_fill_node`, and the same of
-- `ummu_table_fill_node`. Without a token the token fields keep what they held.
unfoldable pub fill_words : NodeWords → DataInfo → NodeWords
fill_words w d =
    let checked = d.token_check == 1 in
    record {
      valid = 1;
      e_bit = d.e_bit % 2;
      permission = d.perm % 2 ^ 6;
      token_check = d.token_check % 2;
      nonce = if checked then 1 else w.nonce;
      token_val_0 = if checked then d.tokenval else w.token_val_0;
      token_val_1 = if checked then d.tokenval else w.token_val_1;
    }

unfoldable pub ummu_entry_fill_node : EntryNode → DataInfo → EntryNode
unfolding fill_words
ummu_entry_fill_node node d = record {
  words = fill_words node.words d;
  base_low = entry_addr_low d.data_base;
  base_high = entry_addr_high d.data_base % 2 ^ 16;
  limit_low = entry_addr_low d.data_limit;
  limit_high = entry_addr_high d.data_limit % 2 ^ 16;
}

abbrev pub entry_base : EntryNode → ℕ
entry_base node = addr_full node.base_low node.base_high

abbrev pub entry_limit : EntryNode → ℕ
entry_limit node = addr_full node.limit_low node.limit_high

unfoldable pub ummu_entry_param_check : EntryNode → DataInfo → GrantOp
ummu_entry_param_check node g =
    if node.valid == 0
    then grant
    else if (entry_base node == g.data_base)
        && (entry_limit node == g.data_limit)
        && ((node.token_check == 1) && (g.token_check == 1))
        && (node.permission == g.perm)
        && (node.e_bit == g.e_bit)
        && (node.nonce == 1)
    then add_token
    else op_end

unfoldable pub ummu_entry_ungrant_param_check : EntryNode → DataInfo → GrantOp
ummu_entry_ungrant_param_check node g =
    if node.valid == 0
    then op_end
    else if not (entry_base node == g.data_base) || not (entry_limit node == g.data_limit)
    then op_end
    else if g.bytoken == 0
    then ungrant
    else if node.token_check == 1
    then if not (node.token_val_0 == g.tokenval) && not (node.token_val_1 == g.tokenval)
      then op_end
      else if node.nonce == 1
      then ungrant
      else if node.nonce == ummu_max_token_num
      then remove_token
      else op_end
    else op_end

-- The new entry and the status.
unfoldable pub ummu_entry_op : EntryNode → DataInfo → EntryNode × ℕ
unfolding ummu_entry_fill_node
ummu_entry_op node d =
    let (words, ret) = ummu_update_token node.words d in
    let updated : EntryNode × ℕ = (record node { words = words }, ret) in
    elim d.op [
      | grant ↦ (ummu_entry_fill_node node d, 0)
      | add_token ↦ updated
      | remove_token ↦ updated
      | ungrant ↦ (zero_entry_node, 0)
      | op_end ↦ (node, einval)
    ]

-- What `ummu_grant` and `ummu_ungrant_data` do with an entry between the checks of the arguments and
-- the invalidation commands: decide on the operation, reject UMMU_OP_END, run it.
abbrev pub run_op : EntryNode → DataInfo → GrantOp → EntryNode × ℕ
run_op node d op_end = (node, einval)
run_op node d op = ummu_entry_op node (record d { op = op })

unfoldable pub entry_grant : EntryNode → DataInfo → EntryNode × ℕ
entry_grant node d = run_op node d (ummu_entry_param_check node d)

unfoldable pub entry_ungrant : EntryNode → DataInfo → EntryNode × ℕ
entry_ungrant node d = run_op node d (ummu_entry_ungrant_param_check node d)
