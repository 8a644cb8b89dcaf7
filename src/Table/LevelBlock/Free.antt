-- ===== src/Table/LevelBlock/Free.antt =====
-- What the release of a level block guarantees.
use openeuler_ummu.Base.{
  ℕ, ◌+◌, ◌*◌, ◌/◌, ◌%◌, ◌^◌, ◌≤◌, ◌<◌, ◌≡◌, ◌≢◌, ◌⊎◌, inl, inr, refl, sym, ap, ◌∙◌, arith, ltb,
  ◌==◌, ◌&&◌, if◌then◌else◌, true, false, none, some, List, length, Bool-cases, Option-cases,
  two-le-sum_below, wsub,
}
use mathlib.Core.Path.{subst}
use native.Mathlib.Decide.{ℕ_discrete}
use openeuler_ummu.Common.{ummu_clear_bit}
use openeuler_ummu.Common.Bitmap.{bit_at, bit_at-clear_bit, clear_bit-IsWords, length-clear_bit}
use openeuler_ummu.Table.{TableNode, Block, TableCtx, State, NodeRef, lvl_offset_of}
use openeuler_ummu.Table.Run.{Runs}
use openeuler_ummu.Table.Access.{Runs-load, Runs-block_of, Holds, Kept}
use openeuler_ummu.Table.LevelBlock.{release_level, release_block, ummu_free_level_block}
use openeuler_ummu.Table.LevelBlock.Inv.{
  used_levels, used_levels-le, count-le, BitSet-same, BlockInv, BlockInv-same, is_mapped, LevelInv,
  LevelInv-change, LevelInv-spare, BitSet, used_levels-at, used_levels-positive,
}

module _ (c : TableCtx) (index : ℕ) (b : Block) (l : index < 512)
    (e : c.mapt_block_array index ≡ some b) where
  release_level-Inv :
      (nr : ℕ)
      → nr / 4 ≡ index
      → nr ≢ 0
      → bit_at c.level_block_bitmap nr ≡ 1
      → LevelInv 512 c
      → LevelInv index (release_level index nr b c)
  unfolding release_level
  release_level-Inv nr which ne taken v =
      let bm = c.level_block_bitmap in
      let room : nr / 64 < length bm = omega (arith, v.bitmap_length) in
      let set : BitSet nr 0 bm (ummu_clear_bit nr bm) = bit_at-clear_bit nr bm room in
      let used : used_levels (ummu_clear_bit nr bm) index + 1 ≡ used_levels bm index = omega (
        arith,
        taken,
        subst (λ i. used_levels (ummu_clear_bit nr bm) i + bit_at bm nr ≡ used_levels bm i + 0)
            which (used_levels-at nr bm _ 0 set),
      ) in
      let old : BlockInv 512 bm index (some b) =
        subst (BlockInv 512 bm index) e (v.blocks index l) in
      let small : used_levels bm index ≤ 4 = used_levels-le bm index in
      let nonzero : (nr == 0) ≡ false = ground arith in
      rw nonzero (
        LevelInv-change 512 index c nr 0 index _ _ _ v which l
          (length-clear_bit nr bm ∙ v.bitmap_length) (clear_bit-IsWords nr bm v.words) set
          (λ i p q r. omega arith) (old.0, ground (arith, old.1, used, small), λ q. absurd (q refl))
          (omega (arith, ap is_mapped e)))

  -- Where block `index` has a level block in use, no block is spare.
  not_spare : LevelInv index c → 0 < used_levels c.level_block_bitmap index → LevelInv 512 c
  not_spare v used = record {
    bitmap_length = v.bitmap_length;
    words = v.words;
    blocks = λ i h. elim (ℕ_discrete i index) [
      | yes q ↦
          let old : BlockInv index c.level_block_bitmap index (some b) =
            subst (BlockInv index c.level_block_bitmap index) e (v.blocks index l) in
          rw (q, e) (old.0, old.1, λ _. used)
      | no ne ↦
          BlockInv-same index 512 c.level_block_bitmap c.level_block_bitmap i (c.mapt_block_array i)
            refl (λ _. ne) (v.blocks i h)
    ];
    outside = v.outside;
    count = v.count;
  }

  -- The only block holds level block 0.
  only_block :
      bit_at c.level_block_bitmap 0 ≡ 1
      → LevelInv index c
      → (0 < used_levels c.level_block_bitmap index) ⊎ (1 < c.block_cnt)
  only_block root v = elim (ℕ_discrete index 0) [
    | yes q ↦ inl (rw q (omega (arith, root)))
    | no ne ↦ elim (Option-cases (c.mapt_block_array 0)) [
      | inl f ↦ absurd (
          omega (
            arith,
            root,
            subst (BlockInv index c.level_block_bitmap 0) f (v.blocks 0 (omega arith)),
          ))
      | inr (b0, f) ↦ inr (
          omega (
            arith,
            v.count,
            ap is_mapped e,
            ap is_mapped f,
            two-le-sum_below 512 (λ i. is_mapped (c.mapt_block_array i)) 0 index (omega arith) l,
          ))
    ]
  ]

  release_block-Inv :
      (level_cnt id : ℕ)
      → id ≡ index
      → level_cnt ≡ b.level_cnt
      → bit_at c.level_block_bitmap 0 ≡ 1
      → LevelInv index c
      → LevelInv 512 (release_block level_cnt id c)
  unfolding release_block
  release_block-Inv level_cnt id same cnt root v =
      let old : BlockInv index c.level_block_bitmap index (some b) =
        subst (BlockInv index c.level_block_bitmap index) e (v.blocks index l) in
      let small = count-le index c v in
      elim (Bool-cases ((level_cnt == 0) && ltb 1 c.block_cnt)) [
        | inl h ↦
            let empty : used_levels c.level_block_bitmap index ≡ 0 = ground (arith, old.1) in
            rw (same, h)
              (LevelInv-change index 512 c (4 * index) _ index _ _ none v (omega arith) l
                v.bitmap_length v.words (BitSet-same c.level_block_bitmap (4 * index))
                (λ i p q r. q) empty (ground (arith, ap is_mapped e, small)))
        | inr h ↦ rw h (not_spare v (ground (arith, old.1, only_block root v)))
      ]

-- a release of memory keeps the bitmap
release_block-bitmap :
    (level_cnt i : ℕ) (c : TableCtx)
    → (release_block level_cnt i c).level_block_bitmap ≡ c.level_block_bitmap
unfolding release_block
release_block-bitmap level_cnt i c = elim (Bool-cases ((level_cnt == 0) && ltb 1 c.block_cnt)) [
  | inl h ↦ rw h refl
  | inr h ↦ rw h refl
]

-- level block 0 stays
release_level-root :
    (c : TableCtx) (nr index : ℕ) (b : Block) → nr ≡ 0 → release_level index nr b c ≡ c
unfolding release_level
release_level-root c nr index b z = ground arith

module _ (c : TableCtx) (nr index : ℕ) (b : Block) (ne : nr ≢ 0) where
  release_level-other :
      length c.level_block_bitmap ≡ 32
      → nr < 2048
      → (k : ℕ)
      → bit_at (release_level index nr b c).level_block_bitmap k
        ≡ (if k == nr then 0 else bit_at c.level_block_bitmap k)
  unfolding release_level
  release_level-other l inside k =
      ground (arith, bit_at-clear_bit nr c.level_block_bitmap (omega (arith, l, inside)) k)

  release_level-entry :
      (release_level index nr b c).mapt_block_array index
      ≡ some (record b { level_cnt = wsub 16 b.level_cnt 1 })
  unfolding release_level
  release_level-entry = ground arith

module _ (c : TableCtx) (nr index id : ℕ) (b : Block) (which : nr / 4 ≡ index) (same : id ≡ index)
    (e : c.mapt_block_array index ≡ some b) where
  -- the context after the release
  abbrev released : TableCtx
  released =
      release_block (if nr == 0 then b.level_cnt else wsub 16 b.level_cnt 1) id
        (release_level index nr b c)

  module _ (inside : nr < 2048) (v : LevelInv 512 c) (root : bit_at c.level_block_bitmap 0 ≡ 1)
      (taken : bit_at c.level_block_bitmap nr ≡ 1) where
    released-bitmap :
        BitSet nr (if nr == 0 then 1 else 0) c.level_block_bitmap released.level_block_bitmap
    unfolding release_level
    released-bitmap k =
        ap (λ x. bit_at x k) (release_block-bitmap _ id (release_level index nr b c))
        ∙ elim (ℕ_discrete nr 0) [
          | yes z ↦ ground (arith, BitSet-same c.level_block_bitmap nr k)
          | no ne ↦
              ground
                (arith, bit_at-clear_bit nr c.level_block_bitmap (omega (arith, v.bitmap_length)) k)
        ]

    released-Inv : LevelInv 512 released
    released-Inv = elim (ℕ_discrete nr 0) [
      | yes z ↦
          let zero_test : (nr == 0) ≡ true = ground arith in
          rw (zero_test, release_level-root c nr index b z)
            (release_block-Inv c index b (omega arith) e _ id same refl root
              (LevelInv-spare index c v))
      | no ne ↦
          let zero_test : (nr == 0) ≡ false = ground arith in
          rw zero_test (
            release_block-Inv (release_level index nr b c) index
              (record b { level_cnt = wsub 16 b.level_cnt 1 }) (omega arith)
              (release_level-entry c nr index b ne) _ id same refl
              (ground (arith, release_level-other c nr index b ne v.bitmap_length inside 0))
              (release_level-Inv c index b (omega arith) e nr which ne taken v))
    ]

module _ (pre : NodeRef) (n : TableNode) (ws : List ℕ) where
  -- Where bitmap, counters and array of blocks agree, level block 0 is in use, and the node links to a
  -- level block in use, the release does not fault: it frees that level block and no other (level block
  -- 0 stays), unmaps the block of memory if it was the last in it, and bitmap, counters and array agree
  -- again.
  pub ummu_free_level_block-Released :
      (s : State) (nr : ℕ)
      → Kept 512 ws s
      → Holds pre n s
      → nr < 2048
      → n.next_lv_index ≡ nr / 4
      → lvl_offset_of n ≡ 512 * (nr % 4)
      → bit_at ws nr ≡ 1
      → bit_at ws 0 ≡ 1
      → Runs
          (ummu_free_level_block pre)
          s
          λ _ s'. (ws' : List ℕ) × Kept 512 ws' s' × BitSet nr (if nr == 0 then 1 else 0) ws ws'
  unfolding ummu_free_level_block release_level release_block
  ummu_free_level_block-Released s nr v h inside index offset taken root =
      let bm = s.level_block_bitmap in
      let taken' : bit_at bm nr ≡ 1 = subst (λ x. bit_at x nr ≡ 1) (sym v.1) taken in
      let root' : bit_at bm 0 ≡ 1 = subst (λ x. bit_at x 0 ≡ 1) (sym v.1) root in
      let i = n.next_lv_index in
      let used : 0 < used_levels bm i =
        subst (λ j. 0 < used_levels bm j) (sym index) (used_levels-positive bm nr taken') in
      elim (Option-cases (s.mapt_block_array i)) [
        | inl e ↦
            absurd (omega (arith, used, subst (BlockInv 512 bm i) e (v.0.blocks i (omega arith))))
        | inr (b, e) ↦
            let old : BlockInv 512 bm i (some b) =
              subst (BlockInv 512 bm i) e (v.0.blocks i (omega arith)) in
            let number : (b.block_id * 4 + lvl_offset_of n / 512) % 2 ^ 32 ≡ nr =
              omega (arith, old.0, offset) in
            let c' = released (s.ctx) nr i b.block_id b (sym index) (old.0) e in
            Runs-load pre n s _ _ h (
              Runs-block_of i _ s _ (omega (arith, index, inside)) (
                rw (e, number)
                  (
                    c'.level_block_bitmap,
                    (
                      released-Inv (s.ctx) nr i b.block_id b (sym index) (old.0) e inside v.0 root'
                          taken',
                      refl,
                    ),
                    subst (λ x. BitSet nr (if nr == 0 then 1 else 0) x c'.level_block_bitmap) v.1
                        (released-bitmap (s.ctx) nr i b.block_id b (sym index) (old.0) e inside v.0
                          root' taken'),
                  )))
      ]
