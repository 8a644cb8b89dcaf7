-- ===== src/SegMng.antt =====
-- ummu_seg_mng.c, table mode: the segments granted under one tid, and what a request may do.
-- (The entry-mode checks of that file are in `Entry`.)
pub mod Sync
pub mod Session
pub mod Refused
pub mod Agree
mod Tests
use openeuler_ummu.Base.{
  ℕ, ◌-◌, ◌+◌, ◌%◌, ◌^◌, ◌==◌, ◌&&◌, ◌||◌, if◌then◌else◌, Bool, Option, none, some, List, [], ◌∷◌,
  einval, enomem, wsub,
}
use openeuler_ummu.Mapt.{
  GrantOp, grant, add_token, remove_token, ungrant, op_end, SegInfo, DataInfo, ummu_max_token_num,
}
use openeuler_ummu.SegTree.{
  Range, range, RangeCompareRet, range_match, range_overlap, range_not_exist, map_find,
  ummu_insert_seg, ummu_find_seg, ummu_delete_seg, ummu_destroy_seg_tree, mod_cmp,
}

abbrev pub SegTable : Type 0
SegTable = List (Range × SegInfo)

pub ummu_table_param_check : SegInfo → DataInfo → GrantOp
ummu_table_param_check exist g =
    if ((exist.token_check == 1) && (g.token_check == 1))
      && (exist.permission == g.perm)
      && (exist.e_bit == g.e_bit)
      && (exist.token_count == 1)
    then add_token
    else op_end

pub ummu_ungrant_param_check : SegInfo → DataInfo → GrantOp
ummu_ungrant_param_check exist g =
    if g.bytoken == 0
    then ungrant
    else if exist.token_check == 0
    then op_end
    else if (exist.token_val_0 == g.tokenval) || (exist.token_val_1 == g.tokenval)
    then if exist.token_count == 1
      then ungrant
      else if exist.token_count == ummu_max_token_num
      then remove_token
      else op_end
    else op_end

pub ummu_remove_tokenval : ℕ → SegInfo → SegInfo
ummu_remove_tokenval tokenval s =
    if s.token_val_0 == tokenval
    then record s { token_val_0 = s.token_val_1; token_count = 1 }
    else if s.token_val_1 == tokenval
    then record s { token_val_1 = s.token_val_0; token_count = 1 }
    else record s { token_count = 1 }

-- The switch on the result of the search. A match comes with its record.
pub grant_switch : RangeCompareRet → Option SegInfo → DataInfo → GrantOp
grant_switch range_match none g = op_end
grant_switch range_match (some s) g = ummu_table_param_check s g
grant_switch range_overlap found g = op_end
grant_switch range_not_exist found g = grant

-- The table-mode part of `ummu_grant_check`; `none` is a manager that was never created.
unfoldable pub ummu_grant_check_table : Option SegTable → DataInfo → GrantOp
unfolding grant_switch
ummu_grant_check_table none g = op_end
ummu_grant_check_table (some t) g =
    let (comp_ret, found) = ummu_find_seg g.data_base (wsub 64 g.data_size 1) t in
    grant_switch comp_ret found g

pub ungrant_switch : RangeCompareRet → Option SegInfo → DataInfo → GrantOp
ungrant_switch range_match none g = op_end
ungrant_switch range_match (some s) g = ummu_ungrant_param_check s g
ungrant_switch range_overlap found g = op_end
ungrant_switch range_not_exist found g = op_end

-- The table-mode part of `ummu_ungrant_check`.
pub ummu_ungrant_check_table : Option SegTable → DataInfo → GrantOp
unfolding ungrant_switch
ummu_ungrant_check_table none g = op_end
ummu_ungrant_check_table (some t) g =
    let (comp_ret, found) = ummu_find_seg g.data_base (wsub 64 g.data_size 1) t in
    ungrant_switch comp_ret found g

pub clear_seg_info : SegInfo → SegInfo
clear_seg_info s = record s { token_val_0 = 0; token_val_1 = 0 }

pub ummu_destroy_seg_mng : SegTable → List SegInfo
ummu_destroy_seg_mng t = ummu_destroy_seg_tree clear_seg_info t

-- The record that `ummu_insert_new_addr` fills in the zeroed memory of `calloc`.
pub new_seg_info : DataInfo → SegInfo
new_seg_info g =
    let token : ℕ = if g.token_check == 0 then 0 else g.tokenval in
    record {
      start_addr = g.data_base;
      grant_size = g.data_size;
      permission = g.perm;
      e_bit = g.e_bit;
      token_check = g.token_check;
      token_count = if g.token_check == 0 then 0 else 1;
      token_val_0 = token;
      token_val_1 = token;
    }

-- `memory` says whether `calloc` succeeds.
pub ummu_insert_new_addr : Bool → SegTable → DataInfo → SegTable × ℕ
ummu_insert_new_addr memory t g =
    if memory
    then ummu_insert_seg (new_seg_info g) t g.data_base (wsub 64 g.data_size 1)
    else (t, enomem)

pub ummu_delete_addr : SegTable → DataInfo → SegTable × List SegInfo × ℕ
ummu_delete_addr t g = ummu_delete_seg clear_seg_info g.data_base (wsub 64 g.data_size 1) t

-- A write through the pointer that `ummu_find_seg` returned for the key.
pub modify_seg : (SegInfo → SegInfo) → Range → SegTable → SegTable
modify_seg f key [] = []
modify_seg f key ((r, s) ∷ t) = if mod_cmp r key then (r, s) ∷ modify_seg f key t else (r, f s) ∷ t

abbrev pub add_tokenval : ℕ → SegInfo → SegInfo
add_tokenval tokenval s = record s { token_val_1 = tokenval; token_count = ummu_max_token_num }

pub ummu_token_update : SegTable → DataInfo → GrantOp → SegTable × ℕ
ummu_token_update t g op =
    let size = wsub 64 g.data_size 1 in
    let found = ummu_find_seg g.data_base size t in
    let write = λ (f : SegInfo → SegInfo). modify_seg f (range g.data_base size) t in
    elim (found.1) [
      | none ↦ (t, einval)
      | some s ↦ elim op [
        | remove_token ↦ (write (ummu_remove_tokenval g.tokenval), 0)
        | _ ↦ (write (add_tokenval g.tokenval), 0)
      ]
    ]
