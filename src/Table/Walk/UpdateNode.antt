-- ===== src/Table/Walk/UpdateNode.antt =====
-- The token update of one node of the table and of what is below it (`ummu_table_update_token_by_level` of
-- ummu_mapt.c).
use openeuler_ummu.Base.{
  ℕ, ◌+◌, ◌*◌, ◌/◌, ◌%◌, ◌^◌, ◌<◌, ◌≡◌, ◌≢◌, inl, inr, refl, sym, ap, ◌∙◌, arith, leb, ltb, ◌==◌,
  ◌&&◌, if◌then◌else◌, not, Bool-cases,
}
use mathlib.Core.Path.{subst}
use native.Mathlib.Decide.{ℕ_discrete}
use openeuler_ummu.Mapt.{DataInfo}
use openeuler_ummu.Common.Bitmap.{bit_at}
use openeuler_ummu.Token.{ummu_update_token}
use openeuler_ummu.Table.{
  State, TableNode, NodeRef, node_at, M, pure, ◌>>=◌, store, lvl_offset_of, node_base_of,
  node_limit_of,
}
use openeuler_ummu.Table.Run.{Runs, Runs-bind, Ends-weaken}
use openeuler_ummu.Table.Access.{Holds}
use openeuler_ummu.Table.Update.{update_node, update_head}
use openeuler_ummu.Table.Walk.{cell, span}
use openeuler_ummu.Table.Walk.Write.{Writes, Steady, load-cell, cell-Holds, store-Writes}
use openeuler_ummu.Table.Walk.Shape.{used, node_of, IsLinked, Shape}
use openeuler_ummu.Table.Walk.Step.{Shape-written}
use openeuler_ummu.Table.Walk.Node.{used-Mapped}
use openeuler_ummu.Table.Walk.Retoken.{
  ummu_update_token-SameRights, Retokened, Retokened-refl, Retokened-trans,
}

-- The table keeps its shape, and nodes change at most in their tokens.
pub record Updated (key : ℕ → ℕ) (s s' : State) : Type 0 where
  pub shape : Shape key s'
  pub bitmap : s'.level_block_bitmap ≡ s.level_block_bitmap
  pub cells : (c j : ℕ) → Retokened (cell s c j) (cell s' c j)

pub Updated-refl : (key : ℕ → ℕ) (s : State) → Shape key s → Updated key s s
Updated-refl key s sh = record {
  shape = sh;
  bitmap = refl;
  cells = λ c j. Retokened-refl (cell s c j);
}

pub Updated-trans :
    (key : ℕ → ℕ) (s s1 s2 : State) → Updated key s s1 → Updated key s1 s2 → Updated key s s2
Updated-trans key s s1 s2 a b = record {
  shape = b.shape;
  bitmap = b.bitmap ∙ a.bitmap;
  cells =
      λ c j. Retokened-trans (cell s c j) (cell s1 c j) (cell s2 c j) (a.cells c j) (b.cells c j);
}

-- what is to be shown of the recursive call
abbrev pub UpdatesBelow : ℕ → (NodeRef → ℕ → ℕ → M ℕ) → Type 0
UpdatesBelow k next =
    (key : ℕ → ℕ) (pre : NodeRef) (n : TableNode) (nr base limit : ℕ) (s : State)
    → Shape key s
    → Holds pre n s
    → n.next_lv_index ≡ nr / 4
    → lvl_offset_of n ≡ 512 * (nr % 4)
    → nr < 2048
    → used s nr ≡ 1
    → limit < span k
    → Runs (next pre base limit) s (λ _ s'. Updated key s s')

module _ (d : DataInfo) (key : ℕ → ℕ) (nr i : ℕ) (l : nr < 2048) (li : i < 512) where
  abbrev ref : NodeRef
  ref = node_at (nr / 4) (512 * (nr % 4) + i)

  module _ (s : State) (sh : Shape key s) (u : used s nr ≡ 1) where
    abbrev renewed : TableNode
    renewed = record (node_of s nr i) { words = (ummu_update_token (node_of s nr i).words d).0 }

    renewed-Retokened : Retokened (node_of s nr i) renewed
    renewed-Retokened = (_, refl, ummu_update_token-SameRights (node_of s nr i).words d)

    renewed-IsLinked : IsLinked key (s.level_block_bitmap) nr i renewed
    renewed-IsLinked v =
        sh.links nr i l li u
          (λ z. v ((ummu_update_token-SameRights (node_of s nr i).words d).0 ∙ z))

    written-Updated :
        (s' : State)
        → Steady s s'
        → Writes (nr / 4) (512 * (nr % 4) + i) renewed s s'
        → Updated key s s'
    written-Updated s' st w = record {
      shape = Shape-written key s s' sh st nr i renewed l li u w renewed-IsLinked;
      bitmap = st.1;
      cells = λ c j. elim (ℕ_discrete c (nr / 4)) [
        | no ne ↦
            subst (Retokened (cell s c j)) (sym (w.other c j (inl ne)))
              (Retokened-refl (cell s c j))
        | yes e ↦ elim (ℕ_discrete j (512 * (nr % 4) + i)) [
          | no ne ↦
              subst (Retokened (cell s c j)) (sym (w.other c j (inr ne)))
                (Retokened-refl (cell s c j))
          | yes q ↦
              subst (λ y. Retokened (cell s c y) (cell s' c y)) (sym q)
                (subst
                  (λ x. Retokened (cell s x (512 * (nr % 4) + i)) (cell s' x (512 * (nr % 4) + i)))
                  (sym e) (subst (Retokened (node_of s nr i)) (sym (w.here)) renewed-Retokened))
        ]
      ];
    }

    pub update_node-Updated : Runs (update_node d ref) s (λ _ s'. Updated key s s')
    unfolding update_node
    update_node-Updated =
        let there = used-Mapped key s nr sh l u in
        rw (load-cell (nr / 4) (512 * (nr % 4) + i) s there (omega arith), ◌>>=◌)
          (Runs-bind _ _ (store ref renewed) _ s
            (store-Writes (nr / 4) (512 * (nr % 4) + i) renewed s sh.inv (omega arith) there
              (omega arith))
            (λ _ s' (st, w). written-Updated s' st w))

    -- the level block below the node
    below-Updated :
        (k base limit : ℕ) (next : NodeRef → ℕ → ℕ → M ℕ)
        → UpdatesBelow k next
        → limit < span k
        → (node_of s nr i).valid ≢ 0
        → (node_of s nr i).type_bit ≡ 0
        → Runs (next ref base limit) s (λ _ s'. Updated key s s')
    below-Updated k base limit next ih small v ty =
        let (t, lt, ut, ei, eo, _) = (sh.links nr i l li u v).1 ty in
        ih key ref (node_of s nr i) t base limit s sh
          (cell-Holds (nr / 4) (512 * (nr % 4) + i) s (omega arith) (used-Mapped key s nr sh l u)
            (omega arith))
          ei eo lt ut small

  module _ (s : State) (sh : Shape key s) (u : used s nr ≡ 1) (k : ℕ) (next : NodeRef → ℕ → ℕ → M ℕ)
      (ih : UpdatesBelow k next) (v : (node_of s nr i).valid ≢ 0) where
    abbrev node : TableNode
    node = node_of s nr i

    -- behind the update of the node itself
    rest-Updated :
        (limit : ℕ) (s1 : State) (ret : ℕ)
        → limit < span k
        → Updated key s s1
        → Runs
            (if not (ret == 0)
              then pure ret
              else if (node.type_bit == 0) && ltb (node_limit_of node) limit
              then next ref ((node_limit_of node + 1) % 2 ^ 64) limit
              else pure 0)
            s1
            (λ _ s'. Updated key s s')
    rest-Updated limit s1 ret small a = elim (Bool-cases (not (ret == 0))) [
      | inl e ↦ rw e a
      | inr e ↦ elim (Bool-cases ((node.type_bit == 0) && ltb (node_limit_of node) limit)) [
        | inr t ↦ rw (e, t) a
        | inl t ↦
            let (w, same, kept) = a.cells (nr / 4) (512 * (nr % 4) + i) in
            let valid1 : (node_of s1 nr i).valid ≡ node.valid =
              ap (λ (x : TableNode). x.valid) same ∙ kept.0 in
            let type1 : (node_of s1 nr i).type_bit ≡ node.type_bit =
              ap (λ (x : TableNode). x.type_bit) same in
            let used1 : used s1 nr ≡ 1 = ap (λ b. bit_at b nr) a.bitmap ∙ u in
            rw (e, t)
              (Ends-weaken _ _ (next ref ((node_limit_of node + 1) % 2 ^ 64) limit s1)
                (below-Updated s1 a.shape used1 k ((node_limit_of node + 1) % 2 ^ 64) limit next ih
                  small (λ z. v (sym valid1 ∙ z)) (type1 ∙ ground arith))
                (λ _ s2 b. Updated-trans key s s1 s2 a b))
      ]
    ]

    pub update_head-Updated :
        (base limit : ℕ)
        → limit < span k
        → Runs (update_head d next ref base limit) s (λ _ s'. Updated key s s')
    unfolding update_head
    update_head-Updated base limit small =
        rw
          (
            load-cell (nr / 4) (512 * (nr % 4) + i) s (used-Mapped key s nr sh l u) (omega arith),
            ◌>>=◌,
          )
          (elim (Bool-cases ((node_base_of node == base) && leb (node_limit_of node) limit)) [
            | inl e ↦ rw e (
                Runs-bind (λ _ s1. Updated key s s1) _ (update_node d ref) _ s
                  (update_node-Updated s sh u) (λ ret s1 a. rest-Updated limit s1 ret small a))
            | inr e ↦ elim (Bool-cases (node.type_bit == 0)) [
              | inl t ↦ rw (e, t) (below-Updated s sh u k base limit next ih small v (ground arith))
              | inr t ↦ rw (e, t) (Updated-refl key s sh)
            ]
          ])
