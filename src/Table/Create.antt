-- ===== src/Table/Create.antt =====
-- The table as it is created, and an allocation that is undone.
use openeuler_ummu.Base.{
  ℕ, ◌+◌, ◌*◌, ◌/◌, ◌%◌, ◌<◌, ◌≡◌, refl, sym, ap, arith, ◌==◌, if◌then◌else◌, Bool, Option, none,
  List, replicate, get_or-replicate, sum_below-zero,
}
use native.Mathlib.Decide.{ℕ_discrete}
use openeuler_ummu.Base.Bits.{zero-get_bit}
use openeuler_ummu.Common.Bitmap.{bit_at}
use openeuler_ummu.Table.{
  Kernel, TableNode, TableCtx, State, NodeRef, local, M, pure, ◌>>=◌, lvl_offset_of,
}
use openeuler_ummu.Table.Run.{Runs, Ends, Runs-bind, Ends-weaken}
use openeuler_ummu.Table.Access.{Holds, Kept}
use openeuler_ummu.Table.LevelBlock.{
  LevelPtr, level_at, failed, ummu_alloc_level_block, ummu_free_level_block,
}
use openeuler_ummu.Table.LevelBlock.Inv.{LevelInv, BitSet}
use openeuler_ummu.Table.LevelBlock.Alloc.{Taken, Allocated, ummu_alloc_level_block-Allocated}
use openeuler_ummu.Table.LevelBlock.Free.{ummu_free_level_block-Released}
use openeuler_ummu.Table.Op.{init_table}

abbrev pub no_levels : List ℕ
no_levels = replicate 32 0

pub no_levels-zero : (k : ℕ) → bit_at no_levels k ≡ 0
no_levels-zero k = rw (get_or-replicate {A = ℕ} 32 (k / 64) 0) (zero-get_bit (k % 64))

-- the zeroed context
abbrev pub empty_ctx : Bool → ℕ → TableCtx
empty_ctx expan size = record {
  expan = expan;
  block_cnt = 0;
  blk_exp_size = size;
  level_block_bitmap = no_levels;
  mapt_block_array = λ _. none;
}

pub empty_ctx-Inv : (expan : Bool) (size : ℕ) → LevelInv 512 (empty_ctx expan size)
empty_ctx-Inv expan size = record {
  bitmap_length = refl;
  words = λ i. rw (get_or-replicate {A = ℕ} 32 i 0) (omega arith);
  blocks = λ i h. omega (
    arith,
    no_levels-zero (4 * i),
    no_levels-zero (4 * i + 1),
    no_levels-zero (4 * i + 2),
    no_levels-zero (4 * i + 3),
  );
  outside = λ i h. refl;
  count = sym (sum_below-zero 512);
}

-- The first level block is level block 0 of block 0, and is alone in use.
abbrev pub Created : LevelPtr → State → Type 0
Created (failed e) s = (0 < e) × LevelInv 512 (s.ctx)
Created (level_at index offset) s =
    (index ≡ 0)
    × (offset ≡ 0)
    × ((ws : List ℕ) × Kept 512 ws s × ((k : ℕ) → bit_at ws k ≡ (if k == 0 then 1 else 0)))
    × (s.root.next_lv_index ≡ 0)
    × (lvl_offset_of (s.root) ≡ 0)

Allocated-Created :
    (n : TableNode) (r : LevelPtr) (s : State) → Allocated local n no_levels r s → Created r s
Allocated-Created n (failed e) s (p, v, m) = (p, v.0)
Allocated-Created n (level_at index offset) s (nr, i, o, t) = elim (ℕ_discrete nr 0) [
  | yes z ↦ (
    omega arith,
    omega arith,
    (t.bitmap, t.kept, λ k. ground (arith, t.taken k, no_levels-zero k)),
    omega (arith, ap (λ (x : TableNode). x.next_lv_index) t.there, t.link_index),
    omega (arith, ap lvl_offset_of t.there, t.link_offset),
  )
  | no ne ↦ absurd (t.skipped 0 (omega arith) (no_levels-zero 0))
]

-- The creation of the table does not fault. Either it fails with an error, or level block 0 of block 0
-- is allocated, is the only one in use, and is where the node given links to, with next_lv_index and
-- offset 0. Bitmap, counters and array of blocks agree in both cases.
pub init_table-Created :
    (kernel : Kernel) (blank : TableNode) (expan : Bool) (size calls : ℕ)
    → Ends (init_table kernel blank expan size calls) Created
unfolding init_table
init_table-Created kernel blank expan size calls =
    Ends-weaken _ _ _
      (ummu_alloc_level_block-Allocated kernel local none blank no_levels _
        (empty_ctx-Inv expan size, refl) refl)
      (Allocated-Created blank)

-- `ummu_free_level_block` where an allocation has succeeded
abbrev pub undo : NodeRef → LevelPtr → M (Unit {0})
undo pre (failed e) = pure tt
undo pre (level_at index offset) = ummu_free_level_block pre

released-bitmap_back :
    (pre : NodeRef) (n : TableNode) (ws ws' : List ℕ) (s : State) (nr : ℕ) (t : Taken pre n ws nr s)
    → bit_at ws 0 ≡ 1
    → BitSet nr (if nr == 0 then 1 else 0) t.bitmap ws'
    → (k : ℕ) → bit_at ws' k ≡ bit_at ws k
released-bitmap_back pre n ws ws' s nr t root h k = elim (ℕ_discrete k nr) [
  | yes e ↦ ground (arith, h k, t.free, ap (bit_at ws) e, root)
  | no ne ↦ ground (arith, h k, t.taken k)
]

-- The bookkeeping is right, with the level blocks of `ws` in use.
abbrev pub Restored : List ℕ → Unit {0} → State → Type 0
Restored ws done s = (ws' : List ℕ) × Kept 512 ws' s × ((k : ℕ) → bit_at ws' k ≡ bit_at ws k)

undo-Allocated :
    (pre : NodeRef) (n : TableNode) (ws : List ℕ) (r : LevelPtr) (s : State)
    → bit_at ws 0 ≡ 1
    → Allocated pre n ws r s
    → Runs (undo pre r) s (Restored ws)
undo-Allocated pre n ws (failed e) s root (p, v, m) = (ws, v, λ k. refl)
undo-Allocated pre n ws (level_at index offset) s root (nr, i, o, t) =
    Ends-weaken _ (Restored ws) _
      (ummu_free_level_block-Released pre t.node t.bitmap s nr t.kept t.there t.inside t.link_index
        t.link_offset (ground (arith, t.taken nr)) (ground (arith, root, t.taken 0)))
      λ _ s' w. (w.0, w.1, λ k. released-bitmap_back pre n ws (w.0) s nr t root (w.2) k)

-- Where bitmap, counters and array of blocks agree and level block 0 is in use, an allocation followed,
-- if it succeeded, by the release of what it allocated does not fault, every level block is in use or
-- free as before, and bitmap, counters and array agree.
pub alloc-free_level_block :
    (kernel : Kernel) (pre : NodeRef) (pre_block : Option ℕ) (n : TableNode) (ws : List ℕ)
    (s : State)
    → Kept 512 ws s
    → Holds pre n s
    → bit_at ws 0 ≡ 1
    → Runs (ummu_alloc_level_block kernel pre pre_block >>= undo pre) s (Restored ws)
alloc-free_level_block kernel pre pre_block n ws s v h root =
    Runs-bind (Allocated pre n ws) _ (ummu_alloc_level_block kernel pre pre_block) (undo pre) s
      (ummu_alloc_level_block-Allocated kernel pre pre_block n ws s v h)
      (λ r s' a. undo-Allocated pre n ws r s' root a)
