-- ===== src/SegMng/Tests.antt =====
-- A segment record and a node in agreement, with one token and with two.
use openeuler_ummu.Base.{some, true, [], ◌∷◌, ◌↔◌}
use openeuler_ummu.Mapt.{grant, ungrant}
use openeuler_ummu.SegTree.{range, ummu_find_seg, map_find}
use openeuler_ummu.SegTree.Cover.{Ordered}
use openeuler_ummu.SegMng.{
  SegTable, ummu_grant_check_table, ummu_ungrant_check_table, ummu_insert_new_addr,
  ummu_delete_addr, new_seg_info, clear_seg_info,
}
use openeuler_ummu.SegMng.Session.{
  Fits, Uncovered, ummu_grant_check_table-grant, grant-then_ungrant,
}
use openeuler_ummu.Base.{◌≡◌, refl, arith}
use openeuler_ummu.Mapt.{SegInfo, NodeWords, DataInfo, op_end}
use openeuler_ummu.Token.{ummu_add_token, ummu_remove_token}
use openeuler_ummu.SegMng.{
  ummu_table_param_check, ummu_ungrant_param_check, ummu_remove_tokenval, add_tokenval,
}
use openeuler_ummu.SegMng.Sync.{Synced, add_token-Synced, remove_token-Synced}

abbrev one_seg : SegInfo
one_seg = record {
  start_addr = 0x1000;
  grant_size = 0x1000;
  permission = 3;
  e_bit = 0;
  token_check = 1;
  token_count = 1;
  token_val_0 = 7;
  token_val_1 = 7;
}

abbrev two_seg : SegInfo
two_seg = record one_seg { token_count = 2; token_val_1 = 9 }

abbrev words_of : SegInfo → NodeWords
words_of s = record {
  valid = 1;
  e_bit = s.e_bit;
  permission = s.permission;
  token_check = s.token_check;
  nonce = s.token_count;
  token_val_0 = s.token_val_0;
  token_val_1 = s.token_val_1;
}

abbrev request : DataInfo
request = record {
  data_base = 0x1000;
  data_size = 0x1000;
  data_limit = 0x1fff;
  perm = 3;
  e_bit = 0;
  token_check = 1;
  tokenval = 9;
  bytoken = 1;
  op = op_end;
  lvl = 3;
}

one_seg-Synced : Synced one_seg (words_of one_seg)
one_seg-Synced = ground arith

two_seg-Synced : Synced two_seg (words_of two_seg)
two_seg-Synced = ground arith

add_token-Synced_example :
    let (n, status) = ummu_add_token (words_of one_seg) request in
    (status ≡ 0) × Synced (add_tokenval 9 one_seg) n
unfolding ummu_table_param_check
add_token-Synced_example = add_token-Synced one_seg (words_of one_seg) request one_seg-Synced refl

remove_token-Synced_example :
    let (n, status) = ummu_remove_token (words_of two_seg) request in
    (status ≡ 0) × Synced (ummu_remove_tokenval 9 two_seg) n
unfolding ummu_ungrant_param_check
remove_token-Synced_example =
    remove_token-Synced two_seg (words_of two_seg) request two_seg-Synced refl

-- another segment, behind the request's
abbrev other_seg_table : SegTable
other_seg_table = (range 0x5000 0xfff, one_seg) ∷ []

other_seg_table-Ordered : Ordered 0 other_seg_table
other_seg_table-Ordered = (omega arith, omega arith, omega arith, tt)

request-Fits : Fits request
request-Fits = (omega arith, omega arith)

ummu_grant_check_table-grant_example :
    (ummu_grant_check_table (some other_seg_table) request ≡ grant)
    ↔ Uncovered other_seg_table request
ummu_grant_check_table-grant_example =
    ummu_grant_check_table-grant other_seg_table request other_seg_table-Ordered request-Fits

grant-then_ungrant_example :
    let (t, status) = ummu_insert_new_addr true other_seg_table request in
    (status ≡ 0)
    × (ummu_ungrant_check_table (some t) (record request { bytoken = 0 }) ≡ ungrant)
    × (ummu_delete_addr t request
        ≡ (other_seg_table, clear_seg_info (new_seg_info request) ∷ [], 0))
unfolding ummu_grant_check_table ummu_find_seg map_find
grant-then_ungrant_example =
    grant-then_ungrant other_seg_table request other_seg_table-Ordered request-Fits refl
