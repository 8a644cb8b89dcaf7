-- ===== src/Table/LevelBlock/Cells/Node.antt =====
-- An allocation of a level block for a node of the table (ummu_level_block.c).
use openeuler_ummu.Base.{
  ℕ, ◌*◌, ◌/◌, ◌%◌, ◌^◌, ◌≡◌, inl, inr, ap, ◌∙◌, arith, Option, if◌then◌else◌, Bool-cases, leb, not,
  ◌==◌,
}
use openeuler_ummu.Table.{State, TableNode, Kernel, node_at, M, pure, ◌>>=◌, ◌>>◌, load, store}
use openeuler_ummu.Table.Run.{Yields, Yields-bind}
use openeuler_ummu.Table.LevelBlock.{
  LevelPtr, level_at, failed, block_for_level, take_level, ummu_alloc_level_block,
}
use openeuler_ummu.Mapt.{lvl_offset_low, lvl_offset_high}
use openeuler_ummu.Common.{find_first_zero_bit}
use openeuler_ummu.Table.Walk.{cell}
use openeuler_ummu.Table.Walk.Write.{Writes, store-yields, Yields-load}
use openeuler_ummu.Table.LevelBlock.Cells.{
  IsBlank, Alike, Alike-trans, AllAlike, Linked, block_for_level-AllAlike, take_level-cells,
}

module _ (kernel : Kernel) (blank : IsBlank kernel) where
  module _ (b i : ℕ) (pre_block : Option ℕ) where
    abbrev pub LinkedIf : State → LevelPtr → State → Type 0
    LinkedIf s (failed e) s' = Unit
    LinkedIf s (level_at x o) s' = Linked b i s s'

    Alike-used : (n n' : TableNode) → n.valid ≡ 1 → Alike n n' → n' ≡ n
    Alike-used n n' h (inl e) = e
    Alike-used n n' h (inr (x, y)) = absurd (omega (arith, x, h))

    -- the part of the code behind `block_for_level`
    abbrev link_level : ℕ → ℕ → ℕ → M LevelPtr
    link_level nr ret next_block = if not (ret == 0) then pure (failed ret) else do
      node ← load (node_at b i)
      let offset = 512 * (nr % 4)
      store (node_at b i) (record node {
        next_block = next_block;
        next_lv_index = nr / 4;
        next_lv_offset_low = lvl_offset_low offset % 2 ^ 20;
        next_lv_offset_high = lvl_offset_high offset % 2 ^ 10;
      })
      take_level kernel nr (nr / 4)
      pure (level_at (nr / 4) offset)

    link_level-Linked :
        (nr ret next_block : ℕ) (s s2 : State)
        → Linked b i s s2
        → Yields (link_level nr ret next_block s2) (LinkedIf s)
    link_level-Linked nr ret next_block s s2 l = elim (Bool-cases (not (ret == 0))) [
      | inl e ↦ rw e tt
      | inr e ↦ rw e (
          Yields-load b i s2 _ _ (
            Yields-bind (λ _ s3. Writes b i _ s2 s3) _ (store (node_at b i) _) _ s2
              (store-yields b i _ s2)
              λ _ s3 w.
                Yields-bind (λ _ s4. (c j : ℕ) → cell s4 c j ≡ cell s3 c j) _
                  (take_level kernel nr (nr / 4)) _ s3
                  (take_level-cells kernel blank nr (nr / 4) s3)
                  λ _ s4 same. record {
                    relinked =
                        let (_, _, _, _, e) = l.relinked in
                        (
                          _,
                          _,
                          _,
                          _,
                          same b i
                              ∙ w.here
                              ∙ ap
                                  (λ (t : TableNode). record t {
                                    next_block = next_block;
                                    next_lv_index = nr / 4;
                                    next_lv_offset_low = lvl_offset_low (512 * (nr % 4)) % 2 ^ 20;
                                    next_lv_offset_high = lvl_offset_high (512 * (nr % 4)) % 2 ^ 10;
                                  })
                                  e,
                        );
                    other = λ c j apart.
                        Alike-trans _ _ _ (l.other c j apart) (inl (same c j ∙ w.other c j apart));
                  }))
    ]

    -- An allocation for a node in use: the node keeps all but its link, and the others are alike.
    pub ummu_alloc_level_block-Linked :
        (s : State)
        → (cell s b i).valid ≡ 1
        → Yields (ummu_alloc_level_block kernel (node_at b i) pre_block s) (LinkedIf s)
    unfolding ummu_alloc_level_block
    ummu_alloc_level_block-Linked s used =
        let nr = find_first_zero_bit (s.level_block_bitmap) 2048 in
        elim (Bool-cases (leb 2048 nr)) [
          | inl e ↦ rw e tt
          | inr e ↦ rw e (
              Yields-load b i s _ _ (
                Yields-bind (λ _ s1. Writes b i (record (cell s b i) { next_block = 0 }) s s1) _
                  (store (node_at b i) _) _ s (store-yields b i _ s)
                  λ _ s1 w1.
                    Yields-bind (λ _ s2. AllAlike s1 s2) _
                      (block_for_level kernel (nr / 4) pre_block) _ s1
                      (block_for_level-AllAlike kernel blank (nr / 4) pre_block s1)
                      λ r s2 a. link_level-Linked nr (r.0) (r.1) s s2 (record {
                        relinked = (
                          _,
                          _,
                          _,
                          _,
                          Alike-used _ _ (ap (λ (t : TableNode). t.valid) (w1.here) ∙ used) (a b i)
                              ∙ w1.here,
                        );
                        other = λ c j apart. Alike-trans _ _ _ (inl (w1.other c j apart)) (a c j);
                      })))
        ]
