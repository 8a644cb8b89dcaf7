-- ===== src/Table/Walk/Fill.antt =====
-- Granting a range: a walk then finds the grant at each of its addresses where it found none, and
-- everywhere else what it found before.
use openeuler_ummu.Base.{
  ℕ, zero, suc, ◌+◌, ◌-◌, ◌*◌, ◌/◌, ◌%◌, ◌≤◌, ◌<◌, ◌≡◌, sym, ◌∙◌, arith, none, some, einval,
}
use mathlib.Core.Path.{subst}
use openeuler_ummu.Mapt.{DataInfo}
use openeuler_ummu.Table.{Kernel, State, NodeRef, M, pure, ◌>>=◌, block_of, lvl_offset_of}
use openeuler_ummu.Table.Run.{Runs, Ends-weaken}
use openeuler_ummu.Table.Access.{Runs-load, Runs-block_of}
use openeuler_ummu.Table.LevelBlock.Cells.{IsBlank}
use openeuler_ummu.Table.Fill.{
  Pass, pass_of, node_base, each_node, run_pass, fill_at, ummu_table_fill_node_by_level,
}
use openeuler_ummu.Table.Walk.{span}
use openeuler_ummu.Table.Walk.Shape.{used, walk_from, Shape, index_lt}
use openeuler_ummu.Table.Walk.Range.{
  part_base, part_limit, base_idx-span, limit_idx-span, node_base-part, node_limit-part,
  or_granted-parts, index_mono,
}
use openeuler_ummu.Table.Walk.Node.{granted, used-Mapped, NodeStep}
use openeuler_ummu.Table.Walk.Take.{pass_at}
use openeuler_ummu.Table.Walk.FillAt.{Filled, FillsBelow, fill_at-NodeStep}
use openeuler_ummu.Table.Walk.Loop.{Looped, loop_done}

module _ (kernel : Kernel) (blank : IsBlank kernel) (d : DataInfo) (tok : d.token_check < 2) where
  -- One level: the pass over the level block.
  module _ (k : ℕ) (hk : k < 4) (next : NodeRef → ℕ → ℕ → M ℕ) (ih : FillsBelow d k next)
      (key : ℕ → ℕ) (nr base limit : ℕ) (s : State) (sh : Shape key s) (l : nr < 2048)
      (u : used s nr ≡ 1) (ordered : base ≤ limit) (small : limit < span (suc k)) where
    first_lt : base / span k < 512
    first_lt = index_lt k base (omega (arith, ordered, small))

    last_lt : limit / span k < 512
    last_lt = index_lt k limit small

    abbrev pass : Pass
    pass = pass_at k nr base limit

    abbrev nb : ℕ → ℕ
    nb = part_base (span k) base

    abbrev nl : ℕ → ℕ
    nl = part_limit (span k) limit

    one_node :
        (key : ℕ → ℕ) (i : ℕ) (s : State)
        → Shape key s
        → used s nr ≡ 1
        → base / span k ≤ i
        → i ≤ limit / span k
        → Runs
            (fill_at kernel d next pass i)
            s
            (λ ret s'. ret ≡ 0 → NodeStep d key k nr i (nb i) (nl i) s s')
    one_node key i s sh u from to =
        Ends-weaken _ _ (fill_at kernel d next pass i s)
          (fill_at-NodeStep kernel blank d tok key k nr i s sh l (omega (arith, to, last_lt)) u base
            limit hk ordered small from to next ih)
          (λ ret s' h z.
            subst (λ x. NodeStep d key k nr i x (nl i) s s')
              (node_base-part k (nr / 4) (512 * (nr % 4)) base limit i hk first_lt)
              (subst (λ y. NodeStep d key k nr i (node_base pass i) y s s')
                (node_limit-part k (nr / 4) (512 * (nr % 4)) base limit i hk last_lt) (h z)))

    abbrev Round : ℕ → State → Type 0
    Round ret s' =
        ret ≡ 0
        → Looped d k nr l (base / span k) (limit / span k) last_lt nb nl
            (fill_at kernel d next pass) one_node key (limit / span k + 1 - base / span k)
            (base / span k) s s'

    rounds : Runs (run_pass (fill_at kernel d next pass) pass) s Round
    rounds =
        let body = fill_at kernel d next pass in
        subst (λ x. Runs (each_node body (pass.limit_idx + 1 - x) x) s Round)
          (sym (base_idx-span k (nr / 4) (512 * (nr % 4)) base limit 0 hk first_lt))
          (subst (λ y. Runs (each_node body (y + 1 - base / span k) (base / span k)) s Round)
            (sym (limit_idx-span k (nr / 4) (512 * (nr % 4)) base limit 0 hk last_lt))
            (loop_done d k nr l (base / span k) (limit / span k) last_lt nb nl body one_node key
              (limit / span k + 1 - base / span k) (base / span k) s sh u (omega arith)
              (omega (arith, index_mono k base limit hk ordered))))

    abbrev FilledIf : ℕ → State → Type 0
    FilledIf ret s' = ret ≡ 0 → Filled d key (suc k) nr base limit s s'

    pass_done : Runs (run_pass (fill_at kernel d next pass) pass) s FilledIf
    pass_done =
        Ends-weaken Round FilledIf (run_pass (fill_at kernel d next pass) pass s) rounds
          (λ ret s' h z. record {
            step = (h z).step;
            reads = λ a la.
                (h z).reads a la
                ∙ or_granted-parts k base limit a (granted d) (walk_from s (suc k) nr a) hk ordered;
          })

    abbrev level_at : ℕ → ℕ → M ℕ
    level_at index offset = do
      found ← block_of index
      elim found [
        | none ↦ pure einval
        | some _ ↦
            let p = pass_of index offset (3 - k) base limit in run_pass (fill_at kernel d next p) p
      ]

    level_done :
        (index offset : ℕ)
        → index ≡ nr / 4
        → offset ≡ 512 * (nr % 4)
        → Runs (level_at index offset) s FilledIf
    level_done index offset ei eo =
        let (b, e, _) = used-Mapped key s nr sh l u in
        subst (λ x. Runs (level_at x offset) s FilledIf) (sym ei)
          (subst (λ y. Runs (level_at (nr / 4) y) s FilledIf) (sym eo)
            (Runs-block_of (nr / 4) _ s FilledIf (omega arith) (rw e pass_done)))

  -- `k` levels are left.
  pub fill_by_level-FillsBelow :
      (k : ℕ) → k ≤ 4 → FillsBelow d k (ummu_table_fill_node_by_level kernel d k)
  unfolding ummu_table_fill_node_by_level
  fill_by_level-FillsBelow zero h key pre n nr base limit s sh there ei eo l u o small =
      λ z. absurd (omega (arith, z))
  fill_by_level-FillsBelow (suc k) h key pre n nr base limit s sh there ei eo l u o small =
      Runs-load pre n s _ _ there (
        level_done k (omega (arith, h)) (ummu_table_fill_node_by_level kernel d k)
          (fill_by_level-FillsBelow k (omega (arith, h))) key nr base limit s sh l u o small
          n.next_lv_index (lvl_offset_of n) ei eo)
