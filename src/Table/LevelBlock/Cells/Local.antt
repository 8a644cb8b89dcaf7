-- ===== src/Table/LevelBlock/Cells/Local.antt =====
-- An allocation of a level block for a node outside the table (ummu_level_block.c).
use openeuler_ummu.Base.{
  ℕ, ◌*◌, ◌/◌, ◌%◌, ◌^◌, ◌≡◌, inl, inr, refl, Option, if◌then◌else◌, Bool-cases, leb, not, ◌==◌,
}
use openeuler_ummu.Table.{State, TableNode, Kernel, local, M, pure, ◌>>=◌, ◌>>◌, load, store}
use openeuler_ummu.Table.Run.{Yields, Yields-bind, Yields-weaken}
use openeuler_ummu.Table.LevelBlock.{
  LevelPtr, level_at, failed, block_for_level, take_level, ummu_alloc_level_block,
}
use openeuler_ummu.Mapt.{lvl_offset_low, lvl_offset_high}
use openeuler_ummu.Common.{find_first_zero_bit}
use openeuler_ummu.Table.Walk.{cell}
use openeuler_ummu.Table.LevelBlock.Cells.{
  IsBlank, Alike-trans, AllAlike, block_for_level-AllAlike, take_level-cells,
}

module _ (kernel : Kernel) (blank : IsBlank kernel) where
  -- For the local node: every node of the table is alike.
  module _ (pre_block : Option ℕ) where
    store_local-AllAlike :
        (n : TableNode) (s : State) → Yields (store local n s) (λ _ s'. AllAlike s s')
    unfolding store cell
    store_local-AllAlike n s c j = inl refl

    AllAlike-trans : (s s1 s2 : State) → AllAlike s s1 → AllAlike s1 s2 → AllAlike s s2
    AllAlike-trans s s1 s2 a b c j =
        Alike-trans (cell s c j) (cell s1 c j) (cell s2 c j) (a c j) (b c j)

    -- the part of the code behind `block_for_level`
    abbrev link_local : ℕ → ℕ → ℕ → M LevelPtr
    link_local nr ret next_block = if not (ret == 0) then pure (failed ret) else do
      node ← load local
      let offset = 512 * (nr % 4)
      store local (record node {
        next_block = next_block;
        next_lv_index = nr / 4;
        next_lv_offset_low = lvl_offset_low offset % 2 ^ 20;
        next_lv_offset_high = lvl_offset_high offset % 2 ^ 10;
      })
      take_level kernel nr (nr / 4)
      pure (level_at (nr / 4) offset)

    link_local-AllAlike :
        (nr ret next_block : ℕ) (s : State)
        → Yields (link_local nr ret next_block s) (λ _ s'. AllAlike s s')
    unfolding load
    link_local-AllAlike nr ret next_block s = elim (Bool-cases (not (ret == 0))) [
      | inl e ↦ rw e (λ c j. inl refl)
      | inr e ↦ rw e (
          Yields-bind (λ _ s1. AllAlike s s1) _ (store local _) _ s (store_local-AllAlike _ s)
            λ _ s1 a.
              Yields-bind (λ _ s2. (c j : ℕ) → cell s2 c j ≡ cell s1 c j) _
                (take_level kernel nr (nr / 4)) _ s1 (take_level-cells kernel blank nr (nr / 4) s1)
                λ _ s2 same. AllAlike-trans s s1 s2 a (λ c j. inl (same c j)))
    ]

    pub ummu_alloc_level_block-AllAlike :
        (s : State)
        → Yields (ummu_alloc_level_block kernel local pre_block s) (λ _ s'. AllAlike s s')
    unfolding ummu_alloc_level_block load
    ummu_alloc_level_block-AllAlike s =
        let nr = find_first_zero_bit (s.level_block_bitmap) 2048 in
        elim (Bool-cases (leb 2048 nr)) [
          | inl e ↦ rw e (λ c j. inl refl)
          | inr e ↦ rw e (
              Yields-bind (λ _ s1. AllAlike s s1) _ (store local _) _ s (store_local-AllAlike _ s)
                λ _ s1 a.
                  Yields-bind (λ _ s2. AllAlike s1 s2) _ (block_for_level kernel (nr / 4) pre_block)
                    _ s1 (block_for_level-AllAlike kernel blank (nr / 4) pre_block s1)
                    λ r s2 b.
                      Yields-weaken (λ _ s3. AllAlike s2 s3) (λ _ s3. AllAlike s s3)
                        (link_local nr (r.0) (r.1) s2) (link_local-AllAlike nr (r.0) (r.1) s2)
                        (λ _ s3 c. AllAlike-trans s s2 s3 (AllAlike-trans s s1 s2 a b) c))
        ]
