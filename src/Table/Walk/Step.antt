-- ===== src/Table/Walk/Step.antt =====
-- Steps that keep the shape of the table.
use openeuler_ummu.Base.{
  ℕ, ◌+◌, ◌*◌, ◌/◌, ◌%◌, ◌<◌, ◌≡◌, ◌≢◌, ◌⊎◌, inl, inr, refl, sym, ap, ◌∙◌, arith,
}
use mathlib.Core.Path.{subst}
use native.Mathlib.Decide.{ℕ_discrete}
use openeuler_ummu.Common.Bitmap.{bit_at}
use openeuler_ummu.Table.{State, TableNode}
use openeuler_ummu.Table.LevelBlock.Cells.{Alike-trans}
use openeuler_ummu.Table.Walk.Write.{Writes, Steady, Same}
use openeuler_ummu.Table.Walk.Shape.{used, node_of, IsLinked, Shape, Away}

-- The table keeps its shape, with keys for the level blocks taken; nodes that are not touched are alike.
pub record Step (key : ℕ → ℕ) (touched : ℕ → Type 0) (s s' : State) : Type 0 where
  pub key' : ℕ → ℕ
  pub shape : Shape key' s'
  pub grown : (nr : ℕ) → nr < 2048 → used s nr ≡ 1 → used s' nr ≡ 1
  pub same_key : (nr : ℕ) → nr < 2048 → used s nr ≡ 1 → key' nr ≡ key nr
  pub away : Away key touched s s'

unfoldable pub step_refl :
    (key : ℕ → ℕ) (touched : ℕ → Type 0) (s : State) → Shape key s → Step key touched s s
step_refl key touched s sh = record {
  key' = key;
  shape = sh;
  grown = λ nr l u. u;
  same_key = λ nr l u. refl;
  away = λ nr i l li u n. inl refl;
}

unfoldable pub step_trans :
    (key : ℕ → ℕ) (touched : ℕ → Type 0) (s s1 s2 : State) (a : Step key touched s s1)
    → Step a.key' touched s1 s2
    → Step key touched s s2
step_trans key touched s s1 s2 a b = record {
  key' = b.key';
  shape = b.shape;
  grown = λ nr l u. b.grown nr l (a.grown nr l u);
  same_key = λ nr l u. b.same_key nr l (a.grown nr l u) ∙ a.same_key nr l u;
  away = λ nr i l li u n.
      Alike-trans _ _ _ (a.away nr i l li u n)
        (b.away nr i l li (a.grown nr l u) (λ m. n (subst touched (a.same_key nr l u) m)));
}

unfoldable pub step_weaken :
    (key : ℕ → ℕ) (p q : ℕ → Type 0) (s s1 : State)
    → ((y : ℕ) → p y → q y)
    → Step key p s s1
    → Step key q s s1
step_weaken key p q s s1 h a = record {
  key' = a.key';
  shape = a.shape;
  grown = a.grown;
  same_key = a.same_key;
  away = λ nr i l li u n. a.away nr i l li u (λ m. n (h (key nr) m));
}

-- Two nodes that differ in level block or index do not share memory.
pub apart_of :
    (nr i nr' i' : ℕ)
    → i < 512
    → i' < 512
    → (nr' ≢ nr) ⊎ (i' ≢ i)
    → (nr' / 4 ≢ nr / 4) ⊎ (512 * (nr' % 4) + i' ≢ 512 * (nr % 4) + i)
apart_of nr i nr' i' l l' h = elim (ℕ_discrete (nr' / 4) (nr / 4)) [
  | no ne ↦ inl ne
  | yes e ↦ inr λ q. elim h [
    | inl ne ↦ ne (omega (arith, e, q, l, l'))
    | inr ne ↦ ne (omega (arith, e, q, l, l'))
  ]
]

module _ (key : ℕ → ℕ) (s s' : State) (sh : Shape key s) (st : Steady s s') where
  pub used_same : (x : ℕ) → used s' x ≡ used s x
  used_same x = ap (λ w. bit_at w x) (st.1)

  Shape-cells :
      ((nr i : ℕ)
        → nr < 2048
        → i < 512
        → used s nr ≡ 1
        → IsLinked key (s.level_block_bitmap) nr i (node_of s' nr i))
      → ((nr i : ℕ) → nr < 2048 → i < 512 → used s nr ≡ 0 → (node_of s' nr i).valid ≡ 0)
      → Shape key s'
  Shape-cells links blank = record {
    inv = st.0;
    room = st.2 (sh.room);
    links = λ nr i l li u.
        subst (λ w. IsLinked key w nr i (node_of s' nr i)) (sym (st.1))
          (links nr i l li (sym (used_same nr) ∙ u));
    blank = λ nr i l li u. blank nr i l li (sym (used_same nr) ∙ u);
    keyed = λ nr l u. sh.keyed nr l (sym (used_same nr) ∙ u);
  }

  -- The write of one node of a level block in use.
  module _ (nr i : ℕ) (n : TableNode) (l : nr < 2048) (li : i < 512) (u : used s nr ≡ 1)
      (w : Writes (nr / 4) (512 * (nr % 4) + i) n s s')
      (linked : IsLinked key (s.level_block_bitmap) nr i n) where
    pub written_other :
        (nr' i' : ℕ) → i' < 512 → (nr' ≢ nr) ⊎ (i' ≢ i) → node_of s' nr' i' ≡ node_of s nr' i'
    written_other nr' i' l' h =
        w.other (nr' / 4) (512 * (nr' % 4) + i') (apart_of nr i nr' i' li l' h)

    IsLinked-at :
        (x j : ℕ) → x ≡ nr → j ≡ i → IsLinked key (s.level_block_bitmap) x j (node_of s' x j)
    IsLinked-at x j e q =
        let ws = s.level_block_bitmap in
        subst (λ y. IsLinked key ws x y (node_of s' x y)) (sym q)
          (subst (λ y. IsLinked key ws y i (node_of s' y i)) (sym e)
            (subst (IsLinked key ws nr i) (sym (w.here)) linked))

    pub Shape-written : Shape key s'
    Shape-written =
        Shape-cells
          (λ x j lx lj ux. elim (ℕ_discrete x nr) [
            | no ne ↦
                subst (IsLinked key (s.level_block_bitmap) x j)
                  (sym (written_other x j lj (inl ne))) (sh.links x j lx lj ux)
            | yes e ↦ elim (ℕ_discrete j i) [
              | no ne ↦
                  subst (IsLinked key (s.level_block_bitmap) x j)
                    (sym (written_other x j lj (inr ne))) (sh.links x j lx lj ux)
              | yes q ↦ IsLinked-at x j e q
            ]
          ])
          (λ x j lx lj ux.
            ap (λ (t : TableNode). t.valid)
              (written_other x j lj (inl (λ e. omega (arith, ux, u, ap (used s) e))))
            ∙ sh.blank x j lx lj ux)

    unfoldable pub step_written : (touched : ℕ → Type 0) → touched (key nr) → Step key touched s s'
    step_written touched m = record {
      key' = key;
      shape = Shape-written;
      grown = λ x lx ux. used_same x ∙ ux;
      same_key = λ x lx ux. refl;
      away = λ x j lx lj ux n.
          inl (written_other x j lj (inl (λ e. n (subst (λ y. touched (key y)) (sym e) m))));
    }

  pub Step-same : Same s s' → (touched : ℕ → Type 0) → Step key touched s s'
  Step-same c touched = record {
    key' = key;
    shape =
        Shape-cells
          (λ x j lx lj ux.
            subst (IsLinked key (s.level_block_bitmap) x j) (sym (c.cells _ _))
              (sh.links x j lx lj ux))
          (λ x j lx lj ux. ap (λ (t : TableNode). t.valid) (c.cells _ _) ∙ sh.blank x j lx lj ux);
    grown = λ x lx ux. used_same x ∙ ux;
    same_key = λ x lx ux. refl;
    away = λ x j lx lj ux n. inl (c.cells _ _);
  }
