-- ===== src/Table/LevelBlock/Alloc.antt =====
-- What an allocation of a level block guarantees.
use openeuler_ummu.Base.{
  ℕ, zero, suc, ◌*◌, ◌/◌, ◌%◌, ◌^◌, ◌<◌, ◌≡◌, ◌≢◌, inl, inr, refl, ap, arith, leb, ◌==◌, not,
  if◌then◌else◌, false, Option, List, length, Bool-cases,
}
use mathlib.Core.Path.{subst}
use openeuler_ummu.Common.{ummu_set_bit, find_first_zero_bit}
use openeuler_ummu.Common.Bitmap.{bit_at, bit_at-set_bit}
use openeuler_ummu.Common.Search.{IsFirst, find_first_zero_bit-IsFirst}
use openeuler_ummu.Mapt.{table_lvl_offset, lvl_offset_low, lvl_offset_high}
use openeuler_ummu.Mapt.Addr.{lvl_offset_low-mod, lvl_offset_high-div, split_round_trips}
use openeuler_ummu.Table.{
  TableNode, State, Kernel, NodeRef, M, pure, ◌>>=◌, ◌>>◌, load, store, lvl_offset_of,
}
use openeuler_ummu.Table.Run.{Runs, Runs-bind}
use openeuler_ummu.Table.Access.{Runs-load, Runs-store, Holds, Kept}
use openeuler_ummu.Table.LevelBlock.{
  LevelPtr, level_at, failed, block_for_level, take_level, ummu_alloc_level_block,
}
use openeuler_ummu.Table.LevelBlock.Ready.{BlockReady, block_for_level-Ready, take_level-Taken}
use openeuler_ummu.Table.LevelBlock.Inv.{BitSet}

-- The level block with this number was the first free one; it is now in use, and the node, whose words
-- are kept, links to it.
pub record Taken (pre : NodeRef) (n : TableNode) (ws : List ℕ) (nr : ℕ) (s : State) : Type 0 where
  pub inside : nr < 2048
  pub free : bit_at ws nr ≡ 0
  pub skipped : (k : ℕ) → k < nr → bit_at ws k ≢ 0
  pub bitmap : List ℕ
  pub taken : BitSet nr 1 ws bitmap
  pub kept : Kept 512 bitmap s
  pub node : TableNode
  pub there : Holds pre node s
  pub same_words : node.words ≡ n.words
  pub link_index : node.next_lv_index ≡ nr / 4
  pub link_offset : lvl_offset_of node ≡ 512 * (nr % 4)

-- What an allocation may answer.
abbrev pub Allocated : NodeRef → TableNode → List ℕ → LevelPtr → State → Type 0
Allocated pre n ws (failed e) s =
    (0 < e)
    × Kept 512 ws s
    × ((n' : TableNode) × Holds pre n' s × (n'.words ≡ n.words) × (n'.type_bit ≡ n.type_bit))
Allocated pre n ws (level_at index offset) s =
    (nr : ℕ) × (index ≡ nr / 4) × (offset ≡ 512 * (nr % 4)) × Taken pre n ws nr s

module _ (kernel : Kernel) (pre : NodeRef) (pre_block : Option ℕ) (n : TableNode)
    (ws : List ℕ) where
  link_offset :
      (o : ℕ)
      → o < 2 ^ 30
      → table_lvl_offset (lvl_offset_low o % 2 ^ 20) (lvl_offset_high o % 2 ^ 10) ≡ o
  link_offset o h =
      let low : lvl_offset_low o % 2 ^ 20 ≡ lvl_offset_low o =
        omega (arith, lvl_offset_low-mod o) in
      let high : lvl_offset_high o % 2 ^ 10 ≡ lvl_offset_high o =
        omega (arith, lvl_offset_high-div o) in
      rw (low, high) ((split_round_trips 0 0 o (omega arith) (omega arith) h).2)

  abbrev cleared : TableNode
  cleared = record n { next_block = 0 }

  module _ (nr : ℕ) where
    abbrev link_node : ℕ → TableNode → TableNode
    link_node next_block node =
        let offset = 512 * (nr % 4) in
        record node {
          next_block = next_block;
          next_lv_index = nr / 4;
          next_lv_offset_low = lvl_offset_low offset % 2 ^ 20;
          next_lv_offset_high = lvl_offset_high offset % 2 ^ 10;
        }

    link_node-offset :
        (next_block : ℕ) → lvl_offset_of (link_node next_block cleared) ≡ 512 * (nr % 4)
    link_node-offset next_block = link_offset (512 * (nr % 4)) (omega arith)

    -- the part of the code behind `block_for_level`
    abbrev link_level : ℕ → ℕ → M LevelPtr
    link_level ret next_block = if not (ret == 0) then pure (failed ret) else do
      node ← load pre
      store pre (link_node next_block node)
      take_level kernel nr (nr / 4)
      pure (level_at (nr / 4) (512 * (nr % 4)))

    module _ (inside : nr < 2048) (free : bit_at ws nr ≡ 0)
        (skipped : (k : ℕ) → k < nr → bit_at ws k ≢ 0) where
      link_level-Allocated :
          (ret next_block : ℕ) (s : State)
          → BlockReady kernel pre cleared ws (nr / 4) ret s
          → Runs (link_level ret next_block) s (Allocated pre n ws)
      unfolding BlockReady
      link_level-Allocated zero next_block s (v, h, there) = Runs-load pre cleared s _ _ h (
          Runs-store pre cleared s _ (link_node next_block cleared) _ (nr / 4) ws h v
            λ s' v' h' keep.
              let there' = keep (nr / 4) there in
              Runs-bind _ _ (take_level kernel nr (nr / 4)) _ s'
                (take_level-Taken kernel pre ws nr (nr / 4) _ s' (there'.0) (omega arith) refl free
                  v' h' (there'.1))
                (λ _ s'' r. (
                  nr,
                  refl,
                  refl,
                  record {
                    inside = inside;
                    free = free;
                    skipped = skipped;
                    bitmap = ummu_set_bit nr ws;
                    taken = bit_at-set_bit nr ws (omega (arith, v.0.bitmap_length, ap length v.1));
                    kept = r.0;
                    node = link_node next_block cleared;
                    there = r.1;
                    same_words = refl;
                    link_index = refl;
                    link_offset = link_node-offset next_block;
                  },
                )))
      link_level-Allocated (suc e) next_block s (v, h) =
          let fails : (suc e == 0) ≡ false = ground arith in
          rw fails (omega arith, v, (cleared, h, refl, refl))

  -- Where bitmap, counters and array of blocks agree (a block of memory is mapped exactly if one of its
  -- level blocks is in use) and the node is there, an allocation does not fault. It answers the first
  -- free level block, which alone is then taken and which the node links to, or it fails with an error
  -- and takes nothing; bitmap, counters and array agree again.
  pub ummu_alloc_level_block-Allocated :
      (s : State)
      → Kept 512 ws s
      → Holds pre n s
      → Runs (ummu_alloc_level_block kernel pre pre_block) s (Allocated pre n ws)
  unfolding ummu_alloc_level_block
  ummu_alloc_level_block-Allocated s v h =
      let bm = s.level_block_bitmap in
      let nr = find_first_zero_bit bm 2048 in
      let first : IsFirst 0 bm 2048 0 nr =
        subst (λ z. IsFirst 0 bm z 0 (find_first_zero_bit bm z)) (omega (arith, v.0.bitmap_length))
          (find_first_zero_bit-IsFirst bm v.0.words (omega (arith, v.0.bitmap_length))) in
      elim (Bool-cases (leb 2048 nr)) [
        | inl e ↦ rw e (omega arith, v, (n, h, refl, refl))
        | inr e ↦ rw e (
            Runs-load pre n s _ _ h (
              Runs-store pre n s _ cleared _ 512 ws h v λ s1 v1 h1 _.
                Runs-bind (λ r s2. BlockReady kernel pre cleared ws (nr / 4) (r.0) s2) _
                  (block_for_level kernel (nr / 4) pre_block) _ s1
                  (block_for_level-Ready kernel pre cleared ws (nr / 4) pre_block s1 (ground arith)
                    v1 h1)
                  (λ r s2 ready.
                    link_level-Allocated nr (ground arith)
                      (subst (λ x. bit_at x nr ≡ 0) v.1 (first.hit (ground arith)))
                      (λ k l. subst (λ x. bit_at x k ≢ 0) v.1 (first.skipped k (omega arith) l))
                      (r.0) (r.1) s2 ready)))
      ]
