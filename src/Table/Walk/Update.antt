-- ===== src/Table/Walk/Update.antt =====
-- Token updates of the table (`ummu_table_update_token_by_level` of ummu_mapt.c) and what walks find.
use openeuler_ummu.Base.{
  ℕ, zero, suc, ◌+◌, ◌-◌, ◌*◌, ◌/◌, ◌%◌, ◌^◌, ◌≤◌, ◌<◌, ◌≡◌, ◌⊎◌, inl, inr, refl, sym, ap, ◌∙◌,
  arith, none, some, ◌==◌, not, einval, Bool-cases,
}
use mathlib.Core.Path.{subst}
use openeuler_ummu.Mapt.{DataInfo, add_token, remove_token, table_lvl_offset}
use openeuler_ummu.Common.Bitmap.{bit_at}
use openeuler_ummu.Table.{
  Kernel, State, zero_node, NodeRef, local, M, pure, ◌>>=◌, block_of, lvl_offset_of,
}
use openeuler_ummu.Table.Run.{Runs, Runs-bind, Ends-weaken}
use openeuler_ummu.Table.Access.{Runs-load, Runs-block_of}
use openeuler_ummu.Table.Fill.{Pass, pass_of, node_base, node_limit, is_middle, each_node, run_pass}
use openeuler_ummu.Table.Update.{update_at, ummu_table_update_token_by_level}
use openeuler_ummu.Table.Op.{ummu_table_op}
use openeuler_ummu.Table.Walk.{cell, span}
use openeuler_ummu.Table.Walk.Write.{load-cell}
use openeuler_ummu.Table.Walk.Shape.{used, node_of, Shape, index_lt, rest_lt, span_pos}
use openeuler_ummu.Table.Walk.Range.{part_limit, limit_idx-span, node_limit-part}
use openeuler_ummu.Table.Walk.Node.{used-Mapped}
use openeuler_ummu.Table.Walk.Take.{pass_at}
use openeuler_ummu.Table.Walk.Grant.{IsTable, lookup, again, Shape-again}
use openeuler_ummu.Table.Walk.Retoken.{rights, rights-walk}
use openeuler_ummu.Table.Walk.UpdateNode.{
  Updated, Updated-refl, Updated-trans, UpdatesBelow, update_node-Updated, update_head-Updated,
}

part_limit_lt : (k limit i : ℕ) → part_limit (span k) limit i < span k
part_limit_lt k limit i = ground (arith, rest_lt k limit, span_pos k)

module _ (d : DataInfo) (k : ℕ) (hk : k < 4) (next : NodeRef → ℕ → ℕ → M ℕ)
    (ih : UpdatesBelow k next) (key : ℕ → ℕ) (nr base limit : ℕ) (l : nr < 2048)
    (small : limit < span (suc k)) where
  abbrev p : Pass
  p = pass_at k nr base limit

  node_limit_lt : (i : ℕ) → node_limit p i < span k
  node_limit_lt i =
      subst (λ x. x < span k)
        (sym (node_limit-part k (nr / 4) (512 * (nr % 4)) base limit i hk (index_lt k limit small)))
        (part_limit_lt k limit i)

  update_at-Updated :
      (i : ℕ) (s : State)
      → i < 512
      → Shape key s
      → used s nr ≡ 1
      → Runs (update_at d next p i) s (λ _ s'. Updated key s s')
  unfolding update_at
  update_at-Updated i s li sh u =
      rw
        (
          load-cell (nr / 4) (512 * (nr % 4) + i) s (used-Mapped key s nr sh l u) (omega arith),
          ◌>>=◌,
        )
        (elim (Bool-cases ((node_of s nr i).valid == 0)) [
          | inl e ↦ rw e (Updated-refl key s sh)
          | inr e ↦ elim (Bool-cases (is_middle p i)) [
            | inl m ↦ rw (e, m) (update_node-Updated d key nr i l li s sh u)
            | inr m ↦
                rw (e, m)
                  (update_head-Updated d key nr i l li s sh u k next ih (ground arith)
                    (node_base p i) (node_limit p i) (node_limit_lt i))
          ]
        ])

  rounds-Updated :
      (n i : ℕ) (s : State)
      → n ≤ 512 - i
      → Shape key s
      → used s nr ≡ 1
      → Runs (each_node (update_at d next p) n i) s (λ _ s'. Updated key s s')
  unfolding each_node
  rounds-Updated zero i s h sh u = Updated-refl key s sh
  rounds-Updated (suc n) i s h sh u =
      Runs-bind (λ _ s1. Updated key s s1) _ (update_at d next p i) _ s
        (update_at-Updated i s (omega (arith, h)) sh u)
        λ ret s1 a. elim (Bool-cases (not (ret == 0))) [
          | inl e ↦ rw e a
          | inr e ↦ rw e (
              Ends-weaken _ _ (each_node (update_at d next p) n (i + 1) s1)
                (rounds-Updated n (i + 1) s1 (omega (arith, h)) a.shape
                  (ap (λ b. bit_at b nr) a.bitmap ∙ u))
                (λ _ s2 b. Updated-trans key s s1 s2 a b))
        ]

  level_at : ℕ → ℕ → M ℕ
  level_at index offset = do
    found ← block_of index
    elim found [
      | none ↦ pure einval
      | some _ ↦ let q = pass_of index offset (3 - k) base limit in run_pass (update_at d next q) q
    ]

  level-Updated :
      (index offset : ℕ) (s : State)
      → Shape key s
      → used s nr ≡ 1
      → index ≡ nr / 4
      → offset ≡ 512 * (nr % 4)
      → Runs (level_at index offset) s (λ _ s'. Updated key s s')
  unfolding level_at
  level-Updated index offset s sh u ei eo =
      let (b, e, _) = used-Mapped key s nr sh l u in
      let last : p.limit_idx < 512 =
        subst (λ x. x < 512)
          (sym
            (limit_idx-span k (nr / 4) (512 * (nr % 4)) base limit 0 hk (index_lt k limit small)))
          (index_lt k limit small) in
      subst (λ x. Runs (level_at x offset) s (λ _ s'. Updated key s s')) (sym ei)
        (subst (λ y. Runs (level_at (nr / 4) y) s (λ _ s'. Updated key s s')) (sym eo)
          (Runs-block_of (nr / 4) _ s _ (omega arith) (
            rw e (
              rounds-Updated (p.limit_idx + 1 - p.base_idx) p.base_idx s (omega (arith, last)) sh
                u))))

update_by_level-UpdatesBelow :
    (d : DataInfo) (k : ℕ) → k ≤ 4 → UpdatesBelow k (ummu_table_update_token_by_level d k)
unfolding ummu_table_update_token_by_level level_at
update_by_level-UpdatesBelow d zero h key pre n nr base limit s sh there ei eo l u small =
    Updated-refl key s sh
update_by_level-UpdatesBelow d (suc k) h key pre n nr base limit s sh there ei eo l u small =
    Runs-load pre n s _ _ there (
      level-Updated d k (omega (arith, h)) (ummu_table_update_token_by_level d k)
        (update_by_level-UpdatesBelow d k (omega (arith, h))) key nr base limit l small
        n.next_lv_index (lvl_offset_of n) s sh u ei eo)

-- For a table in shape, with blocks of 64K or more, and a range that ends below 2^48: adding or removing a
-- token makes no access outside of the memory mapped, whether it succeeds or not. Afterwards the table is in
-- shape, and a walk for any address below 2^48 finds a grant exactly if it did before, with the permission,
-- the e_bit and the token_check of before.
pub ummu_table_op-rights :
    (kernel : Kernel) (d : DataInfo) (s : State) (a : ℕ)
    → (d.op ≡ add_token) ⊎ (d.op ≡ remove_token)
    → d.data_limit < 2 ^ 48
    → IsTable s
    → Runs
        (ummu_table_op kernel d)
        s
        λ _ s'. IsTable s' × (rights (lookup s' a) ≡ rights (lookup s a))
unfolding ummu_table_op table_lvl_offset cell
ummu_table_op-rights kernel d s a op small (key, sh, u) =
    let start = again s zero_node (s.lvl) (s.calls) in
    let done =
      Ends-weaken _ (λ _ s'. IsTable s' × (rights (lookup s' a) ≡ rights (lookup s a)))
        (ummu_table_update_token_by_level d 4 local d.data_base d.data_limit start)
        (update_by_level-UpdatesBelow d 4 (omega arith) key local zero_node 0 d.data_base
          d.data_limit start (Shape-again s zero_node (s.lvl) (s.calls) key sh) refl refl refl
          (omega arith) u small)
        (λ _ s' b.
          ((key, b.shape, ap (λ w. bit_at w 0) b.bitmap ∙ u), rights-walk s s' b.cells 4 0 0 a)) in
    elim op [ inl e ↦ rw e done | inr e ↦ rw e done ]
