-- ===== src/SegMng/Sync.antt =====
-- The segment record and the table node take the same tokens.
use openeuler_ummu.Base.{◌≡◌, arith}
use openeuler_ummu.Mapt.{SegInfo, NodeWords, DataInfo, add_token, remove_token}
use openeuler_ummu.Token.{ummu_add_token, ummu_remove_token}
use openeuler_ummu.SegMng.{
  ummu_table_param_check, ummu_ungrant_param_check, ummu_remove_tokenval, add_tokenval,
}

-- The record of a segment and a node that maps part of it agree.
pub record Synced (s : SegInfo) (n : NodeWords) : Type 0 where
  pub valid : n.valid ≡ 1
  pub permission : s.permission ≡ n.permission
  pub e_bit : s.e_bit ≡ n.e_bit
  pub token_check : s.token_check ≡ n.token_check
  pub count : s.token_count ≡ n.nonce
  pub first : s.token_val_0 ≡ n.token_val_0
  pub second : s.token_val_1 ≡ n.token_val_1

-- Where the check of a grant request decides to add a token, the update of the node succeeds, and the
-- update of the record keeps record and node in agreement.
pub add_token-Synced :
    (s : SegInfo) (n : NodeWords) (d : DataInfo)
    → Synced s n
    → ummu_table_param_check s d ≡ add_token
    → let (n', status) = ummu_add_token n d in (status ≡ 0) × Synced (add_tokenval d.tokenval s) n'
unfolding ummu_table_param_check ummu_add_token
add_token-Synced s n d y h = ground arith

-- Where the check of an ungrant request decides to remove a token, the update of the node succeeds, and
-- the update of the record keeps record and node in agreement.
pub remove_token-Synced :
    (s : SegInfo) (n : NodeWords) (d : DataInfo)
    → Synced s n
    → ummu_ungrant_param_check s d ≡ remove_token
    → let (n', status) = ummu_remove_token n d in
      (status ≡ 0) × Synced (ummu_remove_tokenval d.tokenval s) n'
unfolding ummu_ungrant_param_check ummu_remove_token ummu_remove_tokenval
remove_token-Synced s n d y h = ground arith
