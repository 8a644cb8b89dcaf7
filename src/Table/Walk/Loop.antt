-- ===== src/Table/Walk/Loop.antt =====
-- The loop over the nodes of a level block.
use openeuler_ummu.Base.{
  ℕ, zero, suc, ◌+◌, ◌/◌, ◌%◌, ◌≤◌, ◌<◌, ◌≡◌, ◌≢◌, inl, inr, ap, ◌∙◌, arith, Option, ◌==◌, ◌&&◌,
  leb, ltb, if◌then◌else◌, not, Bool-cases,
}
use mathlib.Core.Path.{subst}
use native.Mathlib.Decide.{ℕ_discrete}
use openeuler_ummu.Mapt.{DataInfo}
use openeuler_ummu.Table.{State, M}
use openeuler_ummu.Table.Run.{Runs, Runs-bind, Ends-weaken}
use openeuler_ummu.Table.Fill.{each_node}
use openeuler_ummu.Table.Walk.{Reading, span}
use openeuler_ummu.Table.Walk.Shape.{used, walk_from, Shape, Under, here, Under-child}
use openeuler_ummu.Table.Walk.Step.{Step, step_refl, step_trans, step_weaken}
use openeuler_ummu.Table.Walk.Range.{or_granted}
use openeuler_ummu.Table.Walk.Node.{granted, Touched, NodeStep, reads_here, reads_beside}

module _ (d : DataInfo) where
  module _ (k nr : ℕ) (l : nr < 2048) (lo hi : ℕ) (few : hi < 512) (nb nl : ℕ → ℕ) (body : ℕ → M ℕ)
      (one : (key : ℕ → ℕ) (i : ℕ) (s : State)
        → Shape key s
        → used s nr ≡ 1
        → lo ≤ i
        → i ≤ hi
        → Runs (body i) s (λ ret s'. ret ≡ 0 → NodeStep d key k nr i (nb i) (nl i) s s')) where
    -- the walk for an address, after the rounds from `i` on
    abbrev pub expected : ℕ → ℕ → State → ℕ → Option Reading
    expected n i s a =
        let q = a / span k in
        let old = walk_from s (suc k) nr a in
        if leb i q && ltb q (i + n)
        then or_granted (nb q) (nl q) (granted d) old (a % span k)
        else old

    pub record Looped (key : ℕ → ℕ) (n i : ℕ) (s s' : State) : Type 0 where
      pub step : Step key (Under (key nr)) s s'
      pub reads : (a : ℕ) → a < span (suc k) → walk_from s' (suc k) nr a ≡ expected n i s a

    expected_next :
        (n i a : ℕ) (s s1 : State)
        → (a / span k ≡ i
            → walk_from s1 (suc k) nr a
              ≡ or_granted (nb i) (nl i) (granted d) (walk_from s (suc k) nr a) (a % span k))
        → (a / span k ≢ i → walk_from s1 (suc k) nr a ≡ walk_from s (suc k) nr a)
        → expected n (i + 1) s1 a ≡ expected (suc n) i s a
    expected_next n i a s s1 here_ beside = elim (ℕ_discrete (a / span k) i) [
      | yes e ↦ ground (arith, here_ e, ap nb e, ap nl e)
      | no ne ↦ ground (arith, beside ne)
    ]

    Looped-next :
        (key : ℕ → ℕ) (n i : ℕ) (s s1 s2 : State)
        → Shape key s
        → used s nr ≡ 1
        → i < 512
        → (a : NodeStep d key k nr i (nb i) (nl i) s s1) → Looped (a.step.key') n (i + 1) s1 s2
        → Looped key (suc n) i s s2
    unfolding step_weaken
    Looped-next key n i s s1 s2 sh u li a b = record {
      step =
          step_trans key (Under (key nr)) s s1 s2
            (step_weaken key (Touched (key nr) i) (Under (key nr)) s s1 touched_under (a.step))
            (step_weaken (a.step.key') (Under (a.step.key' nr)) (Under (key nr)) s1 s2
              (λ y. subst (λ t. Under t y) (a.step.same_key nr l u)) (b.step));
      reads = λ x lx.
          b.reads x lx
          ∙ expected_next n i x s s1 (reads_here d key k nr i (nb i) (nl i) s s1 sh l li u a x lx)
              (reads_beside d key k nr i (nb i) (nl i) s s1 sh l li u a x lx);
    }
      where
        touched_under : (y : ℕ) → Touched (key nr) i y → Under (key nr) y
        touched_under y (inl e) = here y e
        touched_under y (inr m) = Under-child (key nr) i y li m

    pub loop_done :
        (key : ℕ → ℕ) (n i : ℕ) (s : State)
        → Shape key s
        → used s nr ≡ 1
        → lo ≤ i
        → i + n ≤ suc hi
        → Runs (each_node body n i) s (λ ret s'. ret ≡ 0 → Looped key n i s s')
    unfolding each_node
    loop_done key zero i s sh u a b =
        λ _. record { step = step_refl key (Under (key nr)) s sh; reads = λ x lx. ground arith }
    loop_done key (suc n) i s sh u a b =
        Runs-bind (λ ret s1. ret ≡ 0 → NodeStep d key k nr i (nb i) (nl i) s s1) _ (body i) _ s
          (one key i s sh u a (omega (arith, b)))
          λ ret s1 h. elim (Bool-cases (not (ret == 0))) [
            | inl e ↦ rw e (λ z. absurd (ground (arith, z)))
            | inr e ↦
                let m = h (ground arith) in
                rw e (
                  Ends-weaken _ _ (each_node body n (i + 1) s1)
                    (loop_done (m.step.key') n (i + 1) s1 (m.step.shape) (m.step.grown nr l u)
                      (omega (arith, a)) (omega (arith, b)))
                    (λ r s2 f z. Looped-next key n i s s1 s2 sh u (omega (arith, b, few)) m (f z)))
          ]
