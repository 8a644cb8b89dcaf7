-- ===== src/SegMng/Session.antt =====
-- A grant followed by an ungrant, in the segment manager.
use openeuler_ummu.Base.{
  ℕ, ◌+◌, ◌^◌, ◌≤◌, ◌<◌, ◌≡◌, ◌≢◌, ◌↔◌, refl, sym, ◌∙◌, Option, none, some, [], ◌∷◌, arith, inl,
  inr, true, wsub,
}
use mathlib.Core.Option.{none-ne-some}
use openeuler_ummu.Mapt.{grant, ungrant, SegInfo, DataInfo}
use openeuler_ummu.SegTree.{
  RangeCompareRet, range_match, range_overlap, range_not_exist, ummu_find_seg,
}
use openeuler_ummu.SegTree.Cover.{covers, Ordered}
use openeuler_ummu.SegTree.Find.{Has-covers, FindResult, ummu_find_seg-FindResult}
use openeuler_ummu.SegTree.Insert.{ummu_insert_seg_lem}
use openeuler_ummu.SegTree.RoundTrip.{insert-delete_seg}
use openeuler_ummu.SegMng.{
  SegTable, ummu_grant_check_table, grant_switch, ummu_ungrant_check_table, ungrant_switch,
  ummu_ungrant_param_check, ummu_table_param_check, ummu_insert_new_addr, new_seg_info,
  ummu_delete_addr, clear_seg_info,
}

-- The range of a request is a non-empty range of 48-bit addresses.
abbrev pub Fits : DataInfo → Type 0
Fits g = (0 < g.data_size) × (g.data_base + g.data_size ≤ 2 ^ 48)

-- no address of the request's range is covered
abbrev pub Uncovered : SegTable → DataInfo → Type 0
Uncovered t g = (a : ℕ) → g.data_base ≤ a → a < g.data_base + g.data_size → covers t a ≡ none

param_check-not_grant : (s : SegInfo) (g : DataInfo) → ummu_table_param_check s g ≢ grant
unfolding ummu_table_param_check
param_check-not_grant s g = ground arith

pub grant_switch-not_exist :
    (r : RangeCompareRet) (o : Option SegInfo) (g : DataInfo)
    → grant_switch r o g ≡ grant
    → r ≡ range_not_exist
unfolding grant_switch
grant_switch-not_exist range_match none g h = ground arith
grant_switch-not_exist range_match (some s) g h = absurd (param_check-not_grant s g h)
grant_switch-not_exist range_overlap o g h = ground arith
grant_switch-not_exist range_not_exist o g h = refl

-- what the result of the search says of the request's range
FindResult-Uncovered :
    (t : SegTable) (l e : ℕ) (x : RangeCompareRet × Option SegInfo)
    → FindResult t l e x
    → x.0 ≡ range_not_exist
    → (a : ℕ) → l ≤ a
    → a ≤ e
    → covers t a ≡ none
FindResult-Uncovered t l e (range_match, some v) f h = ground arith
FindResult-Uncovered t l e (range_match, none) f h = absurd f
FindResult-Uncovered t l e (range_not_exist, none) f h = f
FindResult-Uncovered t l e (range_not_exist, some v) f h = absurd f
FindResult-Uncovered t l e (range_overlap, none) f h = ground arith
FindResult-Uncovered t l e (range_overlap, some v) f h = absurd f

Uncovered-grant :
    (t : SegTable) (l e : ℕ) (g : DataInfo) (x : RangeCompareRet × Option SegInfo)
    → Ordered 0 t
    → l ≤ e
    → FindResult t l e x
    → ((a : ℕ) → l ≤ a → a ≤ e → covers t a ≡ none)
    → grant_switch (x.0) (x.1) g ≡ grant
unfolding grant_switch
Uncovered-grant t l e g (range_match, some v) o p f h =
    absurd (none-ne-some v (sym (h l (omega arith) p) ∙ Has-covers t 0 l e l v o f (omega arith) p))
Uncovered-grant t l e g (range_match, none) o p f h = absurd f
Uncovered-grant t l e g (range_not_exist, none) o p f h = refl
Uncovered-grant t l e g (range_not_exist, some v) o p f h = absurd f
Uncovered-grant t l e g (range_overlap, none) o p f h = absurd (f.0.3 (h f.0.0 f.0.1 f.0.2))
Uncovered-grant t l e g (range_overlap, some v) o p f h = absurd f

module _ (t : SegTable) (g : DataInfo) (o : Ordered 0 t) (fits : Fits g) where
  abbrev size : ℕ
  size = wsub 64 g.data_size 1

  search : FindResult t g.data_base (g.data_base + size) (ummu_find_seg g.data_base size t)
  search = ummu_find_seg-FindResult t 0 g.data_base size o (omega (arith, fits.0, fits.1))

  -- For a non-empty range of 48-bit addresses, the check of a grant request answers UMMU_GRANT exactly
  -- if no address of the range is covered by a segment.
  pub ummu_grant_check_table-grant : (ummu_grant_check_table (some t) g ≡ grant) ↔ Uncovered t g
  unfolding ummu_grant_check_table
  ummu_grant_check_table-grant = (
    λ h a p q.
        FindResult-Uncovered t g.data_base (g.data_base + size) _ search
          (grant_switch-not_exist _ _ g h) a p (omega (arith, q, fits.0, fits.1)),
    λ h.
        Uncovered-grant t g.data_base (g.data_base + size) g _ o (omega arith) search
          (λ a p q. h a p (omega (arith, q, fits.0, fits.1))),
  )

  inserted-ok : Uncovered t g → (ummu_insert_new_addr true t g).1 ≡ 0
  unfolding ummu_insert_new_addr
  inserted-ok h =
      elim (ummu_insert_seg_lem (new_seg_info g) t 0 g.data_base size o (omega arith)
        (omega (arith, fits.0, fits.1))) [
          | inl i ↦ i.0
          | inr c ↦ absurd (c.2.3 (h c.2.0 c.2.1 (omega (arith, c.2.2, fits.0, fits.1))))
        ]

  -- For a non-empty range of 48-bit addresses: where the check of a grant request answers UMMU_GRANT
  -- and there is memory, the segment is recorded; the check of an ungrant request for the range then
  -- answers UMMU_UNGRANT, and the deletion frees the record, its tokens zeroed, and gives back the
  -- table that was there before.
  pub grant-then_ungrant :
      ummu_grant_check_table (some t) g ≡ grant
      → let (t', status) = ummu_insert_new_addr true t g in
        (status ≡ 0)
        × (ummu_ungrant_check_table (some t') (record g { bytoken = 0 }) ≡ ungrant)
        × (ummu_delete_addr t' g ≡ (t, clear_seg_info (new_seg_info g) ∷ [], 0))
  unfolding ummu_ungrant_check_table ungrant_switch ummu_ungrant_param_check ummu_insert_new_addr
      ummu_delete_addr
  grant-then_ungrant h =
      let ok = inserted-ok (ummu_grant_check_table-grant.0 h) in
      let back =
        insert-delete_seg (new_seg_info g) t g.data_base size (omega (arith, fits.0, fits.1))
          (omega (arith, fits.0, fits.1)) clear_seg_info ok in
      (ok, rw (back.0) refl, back.1)
