-- ===== src/Table/Uninit.antt =====
-- `ummu_mapt_table_ctx_uninit` of ummu_mapt.c: which blocks of memory are released with a table. The
-- segment manager's part is `ummu_destroy_seg_mng` in `SegMng`.
use openeuler_ummu.Base.{
  ℕ, zero, suc, ◌+◌, ◌*◌, ◌/◌, ◌%◌, ◌≤◌, ◌<◌, ◌≡◌, ◌∙◌, ap, arith, leb, ◌==◌, ◌&&◌, if◌then◌else◌,
  false, Option, none, List, length,
}
use mathlib.Core.Path.{subst}
use native.Mathlib.Decide.{ℕ_discrete, dec_lt}
use openeuler_ummu.Common.{find_first_bit, find_next_bit}
use openeuler_ummu.Common.Bitmap.{bit_at, IsWords}
use openeuler_ummu.Common.Search.{
  IsFirst, find_first_bit-IsFirst, find_next_bit-IsFirst, find_next_bit-past,
}
use openeuler_ummu.Table.{Block, update}
use openeuler_ummu.Table.Level.{per_mapt_level_block_cnt, max_level_id_size}

-- The loop's body: the block of `idx` leaves the array if `idx` is its first level block.
pub uninit_at : ℕ → (ℕ → Option Block) → ℕ → Option Block
uninit_at idx blocks =
    if idx % per_mapt_level_block_cnt == 0
    then update blocks (idx / per_mapt_level_block_cnt) none
    else blocks

-- FOR_EACH_SET_BIT with at most `n` rounds to go
pub uninit_loop : ℕ → List ℕ → ℕ → (ℕ → Option Block) → ℕ → Option Block
uninit_loop zero bitmap idx blocks = blocks
uninit_loop (suc n) bitmap idx blocks =
    let rest =
      uninit_loop n bitmap (find_next_bit bitmap max_level_id_size (idx + 1))
        (uninit_at idx blocks) in
    if leb max_level_id_size idx then blocks else rest

-- The array of blocks as it is left; a block that is no longer in it has been unmapped and freed.
unfoldable pub ummu_mapt_table_ctx_uninit : List ℕ → (ℕ → Option Block) → ℕ → Option Block
ummu_mapt_table_ctx_uninit bitmap blocks =
    uninit_loop max_level_id_size bitmap (find_first_bit bitmap max_level_id_size) blocks

module _ (ws : List ℕ) (l : length ws ≡ 32) (words : IsWords ws) where
  -- the next set bit, at the end of the array too
  next_bit : (offset : ℕ) → offset ≤ 2048 → IsFirst 1 ws 2048 offset (find_next_bit ws 2048 offset)
  next_bit offset h = elim (dec_lt offset 2048) [
    | yes inside ↦
        subst (λ z. IsFirst 1 ws z offset (find_next_bit ws z offset)) (omega (arith, l))
          (find_next_bit-IsFirst ws words offset (omega (arith, l)) (omega (arith, l)))
    | no past ↦
        let at_end : offset ≡ 2048 = omega arith in
        rw (at_end, find_next_bit-past ws 2048 2048 (omega arith))
          (record {
            start_le = omega arith;
            le_size = omega arith;
            skipped = λ k p q. absurd (omega arith);
            hit = λ q. absurd (omega arith);
          })
  ]

  module _ (i : ℕ) (inside : i < 512) where
    one_round :
        (start idx : ℕ) (blocks : ℕ → Option Block)
        → IsFirst 1 ws 2048 start idx
        → idx < 2048
        → (if (bit_at ws (4 * i) == 1) && leb (idx + 1) (4 * i)
            then none
            else uninit_at idx blocks i)
          ≡ (if (bit_at ws (4 * i) == 1) && leb start (4 * i) then none else blocks i)
    unfolding uninit_at
    one_round start idx blocks f more = elim (ℕ_discrete (4 * i) idx) [
      | yes e ↦ ground (arith, ap (bit_at ws) e, f.hit more, f.start_le)
      | no ne ↦ ground (arith, f.skipped (4 * i), f.start_le)
    ]

    -- The blocks whose first level block is a set bit from `start` on are released.
    uninit_loop_lem :
        (n start idx : ℕ) (blocks : ℕ → Option Block)
        → IsFirst 1 ws 2048 start idx
        → 2048 ≤ n + idx
        → uninit_loop n ws idx blocks i
          ≡ (if (bit_at ws (4 * i) == 1) && leb start (4 * i) then none else blocks i)
    unfolding uninit_loop uninit_at
    uninit_loop_lem zero start idx blocks f h = ground (arith, f.skipped (4 * i), f.le_size)
    uninit_loop_lem (suc n) start idx blocks f h = elim (dec_lt idx 2048) [
      | yes more ↦
          let rest =
            uninit_loop_lem n (idx + 1) (find_next_bit ws 2048 (idx + 1)) (uninit_at idx blocks)
              (next_bit (idx + 1) (omega arith))
              (omega (arith, h, (next_bit (idx + 1) (omega arith)).start_le)) in
          let not_done : leb 2048 idx ≡ false = ground arith in
          rw not_done (rest ∙ one_round start idx blocks f more)
      | no done ↦ ground (arith, f.skipped (4 * i), f.le_size)
    ]

    -- `ummu_mapt_table_ctx_uninit` over a bitmap of 32 words releases exactly the blocks of memory whose
    -- first level block is in use: a block kept by another of its level blocks alone stays as it was.
    pub ummu_mapt_table_ctx_uninit_lem :
        (blocks : ℕ → Option Block)
        → ummu_mapt_table_ctx_uninit ws blocks i
          ≡ (if bit_at ws (4 * i) == 1 then none else blocks i)
    unfolding ummu_mapt_table_ctx_uninit
    ummu_mapt_table_ctx_uninit_lem blocks =
        let first : IsFirst 1 ws 2048 0 (find_first_bit ws 2048) =
          subst (λ z. IsFirst 1 ws z 0 (find_first_bit ws z)) (omega (arith, l))
            (find_first_bit-IsFirst ws words (omega (arith, l))) in
        uninit_loop_lem 2048 0 (find_first_bit ws 2048) blocks first (omega arith) ∙ ground arith
