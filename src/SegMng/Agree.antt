-- ===== src/SegMng/Agree.antt =====
-- The recorded segments and the permission table, read as maps from addresses.
use openeuler_ummu.Base.{
  ℕ, ◌+◌, ◌-◌, ◌^◌, ◌<◌, ◌≡◌, inl, inr, refl, sym, ap, ◌∙◌, arith, ◌==◌, if◌then◌else◌, true, false,
  Bool-cases, Option, none, some, List, [], ◌∷◌, wsub,
}
use mathlib.Core.Path.{subst}
use openeuler_ummu.Mapt.{DataInfo, SegInfo}
use openeuler_ummu.SegTree.{range}
use openeuler_ummu.SegTree.Cover.{covers, Ordered}
use openeuler_ummu.SegTree.Insert.{Inserted, ummu_insert_seg_lem}
use openeuler_ummu.SegMng.{SegTable, ummu_insert_new_addr, new_seg_info}
use openeuler_ummu.SegMng.Session.{Fits, Uncovered}
use openeuler_ummu.Table.{State, TableCtx, zero_node}
use openeuler_ummu.Table.Walk.{Reading}
use openeuler_ummu.Table.Walk.Range.{within, or_granted}
use openeuler_ummu.Table.Walk.Node.{granted}
use openeuler_ummu.Table.Walk.Grant.{IsTable, lookup}

-- what the record of a segment says of its addresses
abbrev pub seg_tokens : SegInfo → List ℕ
seg_tokens s =
    if s.token_count == 0
    then []
    else if s.token_count == 1
    then s.token_val_0 ∷ []
    else s.token_val_0 ∷ s.token_val_1 ∷ []

abbrev pub seg_reading : Option SegInfo → Option Reading
seg_reading none = none
seg_reading (some s) = some (record {
  permission = s.permission;
  e_bit = s.e_bit;
  token_check = s.token_check;
  held = if s.token_check == 1 then seg_tokens s else [];
})

-- the state in which an operation on the table starts
abbrev pub opened : TableCtx → ℕ → State
opened c lvl = record { ctx = c; root = zero_node; lvl = lvl; calls = 0 }

-- The table is in shape and says of each address what the recorded segments say.
pub record Agrees (segs : SegTable) (c : TableCtx) : Type 0 where
  pub ordered : Ordered 0 segs
  pub shape : IsTable (opened c 3)
  pub agrees : (a : ℕ) → a < 2 ^ 48 → lookup (opened c 3) a ≡ seg_reading (covers segs a)

-- What the checks of a request ensure.
pub record IsChecked (d : DataInfo) : Type 0 where
  pub fits : Fits d
  pub limit : d.data_limit ≡ d.data_base + d.data_size - 1
  pub perm : d.perm < 2 ^ 6
  pub e_bit : d.e_bit < 2
  pub flag : d.token_check < 2

new_seg-granted :
    (d : DataInfo) → IsChecked d → seg_reading (some (new_seg_info d)) ≡ some (granted d)
unfolding new_seg_info
new_seg-granted d c = ground (arith, c.perm, c.e_bit, c.flag)

or_granted-outside :
    (base limit : ℕ) (g : Reading) (o : Option Reading) (a : ℕ)
    → within base limit a ≡ false
    → or_granted base limit g o a ≡ o
or_granted-outside base limit g none a e = rw e refl
or_granted-outside base limit g (some r) a e = refl

module _ (segs : SegTable) (d : DataInfo) (c c' : TableCtx) (chk : IsChecked d)
    (free : Uncovered segs d) (old : Agrees segs c) (table : IsTable (opened c' 3))
    (reads : (a : ℕ)
      → a < 2 ^ 48
      → lookup (opened c' 3) a
        ≡ or_granted d.data_base d.data_limit (granted d) (lookup (opened c 3) a) a) where
  abbrev inserted : SegTable × ℕ
  inserted = ummu_insert_new_addr true segs d

  -- one address, by what the old segments say of it
  agrees_at :
      (t' : SegTable) (a : ℕ)
      → a < 2 ^ 48
      → covers t' a
        ≡ (if within d.data_base d.data_limit a then some (new_seg_info d) else covers segs a)
      → lookup (opened c' 3) a ≡ seg_reading (covers t' a)
  agrees_at t' a l e = elim (Bool-cases (within d.data_base d.data_limit a)) [
    | inl w ↦
        let found : covers t' a ≡ some (new_seg_info d) = e ∙ rw w refl in
        let absent : covers segs a ≡ none =
          free a (ground arith) (ground (arith, chk.limit, chk.fits)) in
        let new : or_granted d.data_base d.data_limit (granted d) none a ≡ some (granted d) =
          rw w refl in
        reads a l
        ∙ ap (λ o. or_granted d.data_base d.data_limit (granted d) o a)
            (old.agrees a l ∙ ap seg_reading absent)
        ∙ new
        ∙ sym (new_seg-granted d chk)
        ∙ sym (ap seg_reading found)
    | inr w ↦
        let found : covers t' a ≡ covers segs a = e ∙ rw w refl in
        reads a l
        ∙ or_granted-outside d.data_base d.data_limit (granted d) (lookup (opened c 3) a) a w
        ∙ old.agrees a l
        ∙ sym (ap seg_reading found)
  ]

  Inserted-Agrees :
      (t' : SegTable)
      → Inserted 0 (range d.data_base (wsub 64 d.data_size 1)) (new_seg_info d) segs t'
      → Agrees t' c'
  Inserted-Agrees t' i = record {
    ordered = i.ordered;
    shape = table;
    agrees = λ a l. agrees_at t' a l (
        subst
          (λ y.
            covers t' a ≡ (if within d.data_base y a then some (new_seg_info d) else covers segs a))
          (omega (arith, chk.limit, chk.fits)) (i.covered a));
  }

  pub insert-Agrees : (inserted.1 ≡ 0) × Agrees (inserted.0) c'
  unfolding ummu_insert_new_addr
  insert-Agrees =
      elim (ummu_insert_seg_lem (new_seg_info d) segs 0 d.data_base (wsub 64 d.data_size 1)
        (old.ordered) (omega arith) (omega (arith, chk.fits.0, chk.fits.1))) [
          | inl i ↦ (i.0, Inserted-Agrees (inserted.0) (i.1))
          | inr c ↦
              absurd (c.2.3 (free (c.2.0) (c.2.1) (omega (arith, c.2.2, chk.fits.0, chk.fits.1))))
        ]
