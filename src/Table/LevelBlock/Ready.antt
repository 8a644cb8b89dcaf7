-- ===== src/Table/LevelBlock/Ready.antt =====
-- Inside an allocation: the block for the new level block, and taking the level block.
use openeuler_ummu.Base.{
  ℕ, zero, suc, ◌+◌, ◌*◌, ◌/◌, ◌≤◌, ◌<◌, ◌≡◌, inl, inr, refl, sym, ap, ◌∙◌, arith, ltb, ◌==◌, ◌&&◌,
  ◌||◌, not, Option, none, some, List, length, enomem, Bool-cases, Option-cases,
}
use mathlib.Core.Path.{subst}
use openeuler_ummu.Common.{ummu_set_bit}
use openeuler_ummu.Common.Bitmap.{bit_at, bit_at-set_bit, set_bit-IsWords, length-set_bit}
use openeuler_ummu.Table.{
  TableNode, Block, State, Kernel, NodeRef, M, pure, ◌>>=◌, ◌>>◌, update_same,
}
use openeuler_ummu.Table.Run.{Runs, Runs-bind}
use openeuler_ummu.Table.Access.{Present, Holds, Holds-calls, Holds-entry, Holds-same_nodes, Kept}
use openeuler_ummu.Table.LevelBlock.{
  get_table_buf, calloc, add_block, ummu_alloc_new_mapt_block, block_for_level, take_level,
}
use openeuler_ummu.Table.LevelBlock.Inv.{
  used_levels, used_levels-le, count-le, BitSet-same, BlockInv, is_mapped, LevelInv-change,
  LevelInv-spare, BitSet, used_levels-at,
}

module _ (kernel : Kernel) (pre : NodeRef) (n : TableNode) (ws : List ℕ) (index : ℕ) where
  -- The block at `index` is there, possibly without any level block; or nothing happened to the table.
  unfoldable pub BlockReady : ℕ → State → Type 0
  BlockReady zero s = Kept index ws s × Holds pre n s × Present index s
  BlockReady (suc e) s = Kept 512 ws s × Holds pre n s

  add_block-Ready :
      (s : State) (b : Block)
      → index < 512
      → Kept 512 ws s
      → Holds pre n s
      → s.mapt_block_array index ≡ none
      → b.block_id ≡ index
      → b.level_cnt ≡ 0
      → Runs (add_block kernel index b) s λ _ s'. BlockReady 0 s'
  unfolding add_block BlockReady
  add_block-Ready s b l v h free id cnt =
      let none_used : used_levels ws index ≡ 0 =
        subst (λ x. used_levels x index ≡ 0) v.1
          (subst (BlockInv 512 (s.level_block_bitmap) index) free (v.0.blocks index l)) in
      let small = count-le 512 (s.ctx) v.0 in
      (
        (
          LevelInv-change 512 index (s.ctx) (4 * index) _ index _ _ (some b) v.0 (omega arith) l
              v.0.bitmap_length v.0.words (BitSet-same _ (4 * index)) (λ i p q r. omega arith)
              (
                id,
                omega (arith, cnt, none_used, ap (λ x. used_levels x index) v.1),
                λ ne. absurd (ne refl),
              )
              (omega (arith, ap is_mapped free, small)),
          v.1,
        ),
        Holds-entry pre n s index _ _ (some b) h free,
        (b, update_same (s.mapt_block_array) index (some b)),
      )

  -- the part of `ummu_alloc_new_mapt_block` behind `calloc`
  abbrev map_block : ℕ → M ℕ
  map_block size = do
    buf ← get_table_buf kernel size index
    elim buf [
      | none ↦ pure enomem
      | some nodes ↦ do
        add_block kernel index (record {
          nodes = nodes;
          blk_size = size;
          block_id = index;
          level_cnt = 0;
          level_entry_cnt = λ _. 0;
        })
        pure 0
    ]

  got_buf :
      (s : State) (size : ℕ)
      → index < 512
      → Kept 512 ws s
      → Holds pre n s
      → s.mapt_block_array index ≡ none
      → Runs (map_block size) s BlockReady
  unfolding get_table_buf BlockReady
  got_buf s size l v h free = elim (Bool-cases (size == 0)) [
    | inl e ↦ rw (e, get_table_buf) (v, h)
    | inr e ↦ elim (Bool-cases (ltb size 0x4000 || ltb 0x20_0000 size)) [
      | inl f ↦ rw (e, f, get_table_buf) (v, h)
      | inr f ↦ elim (Option-cases (kernel.mmap s.calls size index)) [
        | inl g ↦ rw (e, f, g, get_table_buf) (v, Holds-calls pre n s _ h)
        | inr (nodes, g) ↦
            rw (e, f, g, get_table_buf)
              (Runs-bind (λ _ s'. BlockReady 0 s') BlockReady (add_block kernel index _)
                (λ _. pure 0) _ (add_block-Ready _ _ l v (Holds-calls pre n s _ h) free refl refl)
                (λ _ _ r. r))
      ]
    ]
  ]

  ummu_alloc_new_mapt_block-Ready :
      (s : State) (size : ℕ)
      → index < 512
      → Kept 512 ws s
      → Holds pre n s
      → s.mapt_block_array index ≡ none
      → Runs (ummu_alloc_new_mapt_block kernel size index) s BlockReady
  unfolding ummu_alloc_new_mapt_block calloc BlockReady
  ummu_alloc_new_mapt_block-Ready s size l v h free =
      elim (Bool-cases (not (s.expan) && not (index == 0))) [
        | inl e ↦ rw e (v, h)
        | inr e ↦ elim (Bool-cases (kernel.calloc s.calls)) [
          | inl m ↦
              rw (e, m)
                (got_buf (record s { calls = s.calls + 1 }) size l v (Holds-calls pre n s _ h) free)
          | inr m ↦ rw (e, m) (v, Holds-calls pre n s _ h)
        ]
      ]

  pub block_for_level-Ready :
      (pre_block : Option ℕ) (s : State)
      → index < 512
      → Kept 512 ws s
      → Holds pre n s
      → Runs (block_for_level kernel index pre_block) s λ r s'. BlockReady (r.0) s'
  unfolding block_for_level BlockReady
  block_for_level-Ready pre_block s l v h = elim (Option-cases (s.mapt_block_array index)) [
    | inl e ↦
        rw (e, block_for_level)
          (Runs-bind BlockReady (λ r s'. BlockReady (r.0) s')
            (ummu_alloc_new_mapt_block kernel (s.blk_exp_size) index) (λ ret. pure (ret, 1)) s
            (ummu_alloc_new_mapt_block-Ready s (s.blk_exp_size) l v h e) (λ _ _ r. r))
    | inr (b, e) ↦ rw (e, block_for_level) ((LevelInv-spare index (s.ctx) v.0, v.1), h, (b, e))
  ]

module _ (kernel : Kernel) (pre : NodeRef) (ws : List ℕ) (nr index : ℕ) where
  pub take_level-Taken :
      (n : TableNode) (s : State) (b : Block)
      → index < 512
      → nr / 4 ≡ index
      → bit_at ws nr ≡ 0
      → Kept index ws s
      → Holds pre n s
      → s.mapt_block_array index ≡ some b
      → Runs
          (take_level kernel nr index)
          s
          λ _ s'. Kept 512 (ummu_set_bit nr ws) s' × Holds pre n s'
  unfolding take_level
  take_level-Taken n s b l which free v h e =
      let bm = s.level_block_bitmap in
      let free' : bit_at bm nr ≡ 0 = subst (λ x. bit_at x nr ≡ 0) (sym v.1) free in
      let room : nr / 64 < length bm = omega (arith, v.0.bitmap_length) in
      let set : BitSet nr 1 bm (ummu_set_bit nr bm) = bit_at-set_bit nr bm room in
      let used : used_levels (ummu_set_bit nr bm) index ≡ used_levels bm index + 1 = omega (
        arith,
        free',
        subst (λ i. used_levels (ummu_set_bit nr bm) i + bit_at bm nr ≡ used_levels bm i + 1) which
            (used_levels-at nr bm _ 1 set),
      ) in
      let old : BlockInv index bm index (some b) =
        subst (BlockInv index bm index) e (v.0.blocks index l) in
      let small : used_levels bm index ≤ 4 = used_levels-le bm index in
      rw (e, take_level)
        (
          (
            LevelInv-change index 512 (s.ctx) nr 1 index _ _ _ v.0 which l
                (length-set_bit nr bm ∙ v.0.bitmap_length) (set_bit-IsWords nr bm v.0.words) set
                (λ i p q r. q) (old.0, omega (arith, old.1, used, small), λ _. omega (arith, used))
                (omega (arith, ap is_mapped e)),
            ap (ummu_set_bit nr) v.1,
          ),
          Holds-same_nodes pre n s index _ b _ h e refl refl,
        )
