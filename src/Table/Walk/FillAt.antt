-- ===== src/Table/Walk/FillAt.antt =====
-- Granting a range at one node of a level block, whether it is in use or not.
use openeuler_ummu.Base.{
  ℕ, suc, ◌+◌, ◌*◌, ◌/◌, ◌%◌, ◌≤◌, ◌<◌, ◌≡◌, inl, inr, sym, ap, ◌∙◌, arith, Option, ◌==◌,
  if◌then◌else◌, not, Bool-cases,
}
use mathlib.Core.Path.{subst, ap₂}
use openeuler_ummu.Mapt.{DataInfo}
use openeuler_ummu.Table.{Kernel, State, TableNode, NodeRef, node_at, M, pure, ◌>>=◌, lvl_offset_of}
use openeuler_ummu.Table.Run.{Runs, Runs-bind, Ends-weaken}
use openeuler_ummu.Table.Access.{Holds}
use openeuler_ummu.Table.LevelBlock.Cells.{IsBlank, Alike, Alike-trans}
use openeuler_ummu.Table.Fill.{Pass, node_base, node_limit, is_middle, take_node, descend, fill_at}
use openeuler_ummu.Table.Walk.{Reading, span, read_node, walk}
use openeuler_ummu.Table.Walk.Write.{load-cell, cell-Holds}
use openeuler_ummu.Table.Walk.Shape.{used, node_of, walk_from, Shape, Under, Under-le, index_lt}
use openeuler_ummu.Table.Walk.Step.{Step, step_trans, step_weaken}
use openeuler_ummu.Table.Walk.Range.{
  or_granted, part_base, part_le, span_le, node_base-part, node_limit-part,
}
use openeuler_ummu.Table.Walk.Node.{granted, used-Mapped, Touched, NodeStep}
use openeuler_ummu.Table.Walk.Take.{pass_at, take_node-NodeStep}
use openeuler_ummu.Table.Walk.Descend.{Descended, descend-Descended}

-- The walks over a level block find the range granted besides what they found; what does not lie below
-- the level block is alike, and the table keeps its shape.
pub record Filled (d : DataInfo) (key : ℕ → ℕ) (k nr base limit : ℕ) (s s' : State) : Type 0 where
  pub step : Step key (Under (key nr)) s s'
  pub reads :
      (a : ℕ)
      → a < span k
      → walk_from s' k nr a ≡ or_granted base limit (granted d) (walk_from s k nr a) a

-- what is to be shown of the recursive call
abbrev pub FillsBelow : DataInfo → ℕ → (NodeRef → ℕ → ℕ → M ℕ) → Type 0
FillsBelow d k next =
    (key : ℕ → ℕ) (pre : NodeRef) (n : TableNode) (nr base limit : ℕ) (s : State)
    → Shape key s
    → Holds pre n s
    → n.next_lv_index ≡ nr / 4
    → lvl_offset_of n ≡ 512 * (nr % 4)
    → nr < 2048
    → used s nr ≡ 1
    → base ≤ limit
    → limit < span k
    → Runs (next pre base limit) s (λ ret s'. ret ≡ 0 → Filled d key k nr base limit s s')

-- The node links, and the walks below it find the range granted.
read_granted :
    (f g : ℕ → ℕ → ℕ → Option Reading) (n : TableNode) (base limit r : ℕ) (new : Reading)
    → n.valid ≡ 1
    → n.type_bit ≡ 0
    → f n.next_lv_index (lvl_offset_of n) r
      ≡ or_granted base limit new (g n.next_lv_index (lvl_offset_of n) r) r
    → read_node f n r ≡ or_granted base limit new (read_node g n r) r
read_granted f g n base limit r new v t h = ground (arith, h)

Alike-valid : (n n' : TableNode) → n.valid ≡ 1 → Alike n n' → n' ≡ n
Alike-valid n n' h (inl e) = e
Alike-valid n n' h (inr (x, y)) = absurd (omega (arith, x, h))

module _ (kernel : Kernel) (blank : IsBlank kernel) (d : DataInfo) (tok : d.token_check < 2) where
  module _ (key : ℕ → ℕ) (k nr i : ℕ) (s : State) (sh : Shape key s) (l : nr < 2048) (li : i < 512)
      (u : used s nr ≡ 1) where
    -- The level block below the node, filled.
    Filled-below :
        (base limit : ℕ) (s1 s2 : State) (dn : Descended key k nr i s s1)
        → Filled d (dn.step.key') k (dn.child) base limit s1 s2
        → NodeStep d key k nr i base limit s s2
    Filled-below base limit s1 s2 dn f =
        let κ1 = dn.step.key' in
        let same_key = dn.step.same_key nr l u in
        let away : (j : ℕ) → j < 512 → Alike (node_of s1 nr j) (node_of s2 nr j) = λ j lj.
          f.step.away nr j l lj (dn.step.grown nr l u) (λ m.
            omega (
              arith,
              Under-le (κ1 (dn.child)) (κ1 nr) m,
              dn.child_key,
              same_key,
              sh.keyed nr l u,
            )) in
        let stays : node_of s2 nr i ≡ node_of s1 nr i = Alike-valid _ _ (dn.valid) (away i li) in
        record {
          step = step_trans key (Touched (key nr) i) s s1 s2 (dn.step) (
              step_weaken κ1 (Under (κ1 (dn.child))) (Touched (key nr) i) s1 s2
                (λ y m. inr (subst (λ t. Under t y) (dn.child_key) m)) (f.step));
          others = λ j lj ne. Alike-trans _ _ _ (dn.others j lj ne) (away j lj);
          result = λ r lr.
              ap (λ n. read_node (walk s2 k) n r) stays
              ∙ read_granted (walk s2 k) (walk s1 k) (node_of s1 nr i) base limit r (granted d)
                  (dn.valid) (dn.links)
                  (ap₂ (λ x y. walk s2 k x y r) (dn.index) (dn.offset)
                    ∙ f.reads r lr
                    ∙ sym (
                        ap₂ (λ x y. or_granted base limit (granted d) (walk s1 k x y r) r)
                          (dn.index) (dn.offset)))
              ∙ ap (λ o. or_granted base limit (granted d) o r) (dn.same r lr);
        }

    module _ (base limit : ℕ) (hk : k < 4) (ordered : base ≤ limit) (small : limit < span (suc k))
        (from : base / span k ≤ i) (to : i ≤ limit / span k) (next : NodeRef → ℕ → ℕ → M ℕ)
        (ih : FillsBelow d k next) where
      abbrev p : Pass
      p = pass_at k nr base limit

      abbrev ref : NodeRef
      ref = node_at (nr / 4) (512 * (nr % 4) + i)

      parts_small : (node_base p i ≤ node_limit p i) × (node_limit p i < span k)
      parts_small =
          subst (λ x. (x ≤ node_limit p i) × (node_limit p i < span k))
            (sym (
              node_base-part k (nr / 4) (512 * (nr % 4)) base limit i hk
                (index_lt k base (omega (arith, ordered, small)))))
            (subst (λ y. (part_base (span k) base i ≤ y) × (y < span k))
              (sym (
                node_limit-part k (nr / 4) (512 * (nr % 4)) base limit i hk
                  (index_lt k limit small)))
              (part_le k base limit i hk ordered from to))

      abbrev Done : ℕ → State → Type 0
      Done ret s' = ret ≡ 0 → NodeStep d key k nr i (node_base p i) (node_limit p i) s s'

      -- behind `descend`
      below-Done :
          (ret : ℕ) (s1 : State)
          → (ret ≡ 0 → Descended key k nr i s s1)
          → Runs
              (if not (ret == 0) then pure ret else next ref (node_base p i) (node_limit p i))
              s1
              Done
      below-Done ret s1 h = elim (Bool-cases (not (ret == 0))) [
        | inl e ↦ rw e (λ z. absurd (ground (arith, z)))
        | inr e ↦
            let dn = h (ground arith) in
            let there = used-Mapped (dn.step.key') s1 nr (dn.step.shape) l (dn.step.grown nr l u) in
            rw e (
              Ends-weaken _ _ (next ref (node_base p i) (node_limit p i) s1)
                (ih (dn.step.key') ref (node_of s1 nr i) (dn.child) (node_base p i) (node_limit p i)
                  s1 (dn.step.shape)
                  (cell-Holds (nr / 4) (512 * (nr % 4) + i) s1 (omega arith) there (omega arith))
                  (dn.index) (dn.offset) (dn.inside) (dn.taken) (parts_small.0) (parts_small.1))
                (λ r s2 f z. Filled-below (node_base p i) (node_limit p i) s1 s2 dn (f z)))
      ]

      pub fill_at-NodeStep : Runs (fill_at kernel d next p i) s Done
      unfolding fill_at
      fill_at-NodeStep =
          rw
            (
              load-cell (nr / 4) (512 * (nr % 4) + i) s (used-Mapped key s nr sh l u) (omega arith),
              ◌>>=◌,
            )
            (elim (Bool-cases (not ((node_of s nr i).valid == 1))) [
              | inl e ↦ rw e (
                  Ends-weaken _ _ (take_node kernel d p i s)
                    (take_node-NodeStep kernel d tok key k nr base limit i s sh l li u
                      (omega (arith, parts_small, span_le k hk))
                      (omega (arith, parts_small, span_le k hk)) (ground arith))
                    (λ r s' n _. n))
              | inr e ↦ elim (Bool-cases (is_middle p i)) [
                | inl m ↦ rw (e, m) (λ z. absurd (omega (arith, z)))
                | inr m ↦
                    rw (e, m)
                      (Runs-bind (λ ret s1. ret ≡ 0 → Descended key k nr i s s1) _
                        (descend kernel d p i) _ s
                        (descend-Descended kernel blank key k nr i s sh l li u (ground arith) d base
                          limit)
                        below-Done)
              ]
            ])
