-- ===== src/SegMng/Refused.antt =====
-- What can be granted cannot be ungranted, and a record for which there is no memory is not made.
use openeuler_ummu.Base.{ℕ, ◌≡◌, ◌∙◌, ap, refl, arith, wsub, false, Option, some, enomem}
use openeuler_ummu.Mapt.{DataInfo, grant, op_end, SegInfo}
use openeuler_ummu.SegTree.{
  RangeCompareRet, range_match, range_overlap, range_not_exist, ummu_find_seg,
}
use openeuler_ummu.SegMng.{
  SegTable, ummu_grant_check_table, ummu_ungrant_check_table, ungrant_switch, ummu_insert_new_addr,
}
use openeuler_ummu.SegMng.Session.{grant_switch-not_exist}

refused_switch :
    (ret : RangeCompareRet) (found : Option SegInfo) (d : DataInfo)
    → ret ≡ range_not_exist
    → ungrant_switch ret found d ≡ op_end
unfolding ungrant_switch
refused_switch range_match found d h = ground arith
refused_switch range_overlap found d h = refl
refused_switch range_not_exist found d h = refl

-- A range for which the check of a grant says UMMU_GRANT is refused by the check of an ungrant.
pub grant_check-refused :
    (t : SegTable) (d d' : DataInfo)
    → d'.data_base ≡ d.data_base
    → d'.data_size ≡ d.data_size
    → ummu_grant_check_table (some t) d ≡ grant
    → ummu_ungrant_check_table (some t) d' ≡ op_end
unfolding ummu_grant_check_table ummu_ungrant_check_table
grant_check-refused t d d' base size h =
    let found = ummu_find_seg d.data_base (wsub 64 d.data_size 1) t in
    let absent : found.0 ≡ range_not_exist = grant_switch-not_exist found.0 found.1 d h in
    let same : ummu_find_seg d'.data_base (wsub 64 d'.data_size 1) t ≡ found =
      ap (λ (b : ℕ). ummu_find_seg b (wsub 64 d'.data_size 1) t) base
      ∙ ap (λ (s : ℕ). ummu_find_seg d.data_base (wsub 64 s 1) t) size in
    ap (λ (x : RangeCompareRet × Option SegInfo). ungrant_switch x.0 x.1 d') same
    ∙ refused_switch found.0 found.1 d' absent

pub insert-no_memory : (t : SegTable) (d : DataInfo) → ummu_insert_new_addr false t d ≡ (t, enomem)
unfolding ummu_insert_new_addr
insert-no_memory t d = refl
