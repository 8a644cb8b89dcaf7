-- ===== src/Table/LevelBlock/Inv.antt =====
-- The bookkeeping of level blocks: the bitmap, the counters and the array of blocks agree.
use openeuler_ummu.Base.{
  ℕ, ◌+◌, ◌*◌, ◌/◌, ◌%◌, ◌≤◌, ◌<◌, ◌≡◌, ◌≢◌, ◌⊎◌, inl, inr, refl, sym, ◌∙◌, ap, arith, ◌==◌,
  if◌then◌else◌, Option, none, some, List, length, get_or, sum_below, sum_below-ext,
  sum_below-change, sum_below-le,
}
use openeuler_ummu.Base.Bits.{get_bit-le-one}
use openeuler_ummu.Common.Bitmap.{bit_at, IsWords}
use mathlib.Core.Path.{subst}
use native.Mathlib.Decide.{ℕ_discrete}
use openeuler_ummu.Table.{Block, TableCtx, update, update_same, update_other}

-- How many of the four level blocks of block `i` are in use.
abbrev pub used_levels : List ℕ → ℕ → ℕ
used_levels ws i =
    bit_at ws (4 * i) + bit_at ws (4 * i + 1) + bit_at ws (4 * i + 2) + bit_at ws (4 * i + 3)

-- An entry of the array: a block knows its index and how many of its level blocks are in use, and,
-- unless it is block `spare`, one is. Where there is no block, none is.
abbrev pub BlockInv : ℕ → List ℕ → ℕ → Option Block → Type 0
BlockInv spare ws i none = used_levels ws i ≡ 0
BlockInv spare ws i (some b) =
    (b.block_id ≡ i) × (b.level_cnt ≡ used_levels ws i) × (i ≢ spare → 0 < used_levels ws i)

abbrev pub is_mapped : Option Block → ℕ
is_mapped none = 0
is_mapped (some b) = 1

pub is_mapped-le-one : (o : Option Block) → is_mapped o ≤ 1
is_mapped-le-one none = omega arith
is_mapped-le-one (some b) = omega arith

pub used_levels-le : (ws : List ℕ) (i : ℕ) → used_levels ws i ≤ 4
used_levels-le ws i =
    let at_most : (k : ℕ) → bit_at ws k ≤ 1 = λ k. get_bit-le-one (get_or ws (k / 64) 0) (k % 64) in
    omega (arith, at_most (4 * i), at_most (4 * i + 1), at_most (4 * i + 2), at_most (4 * i + 3))

module _ (ws : List ℕ) (nr : ℕ) where
  -- which of its block's four level blocks `nr` is
  remainder :
      (nr ≡ 4 * (nr / 4))
      ⊎ (nr ≡ 4 * (nr / 4) + 1)
      ⊎ (nr ≡ 4 * (nr / 4) + 2)
      ⊎ (nr ≡ 4 * (nr / 4) + 3)
  remainder = ground arith

  -- A level block in use counts.
  pub used_levels-positive : bit_at ws nr ≡ 1 → 0 < used_levels ws (nr / 4)
  used_levels-positive taken = elim remainder [
    | inl e ↦ omega (arith, taken, ap (bit_at ws) e)
    | inr (inl e) ↦ omega (arith, taken, ap (bit_at ws) e)
    | inr (inr (inl e)) ↦ omega (arith, taken, ap (bit_at ws) e)
    | inr (inr (inr e)) ↦ omega (arith, taken, ap (bit_at ws) e)
  ]

-- `spare` is 512 between operations: a block is mapped exactly if one of its level blocks is in use.
-- Inside an operation, it is a block just mapped or about to be released.
pub record LevelInv (spare : ℕ) (c : TableCtx) : Type 0 where
  pub bitmap_length : length c.level_block_bitmap ≡ 32
  pub words : IsWords c.level_block_bitmap
  pub blocks : (i : ℕ) → i < 512 → BlockInv spare c.level_block_bitmap i (c.mapt_block_array i)
  pub outside : (i : ℕ) → 512 ≤ i → c.mapt_block_array i ≡ none
  pub count : c.block_cnt ≡ sum_below 512 (λ i. is_mapped (c.mapt_block_array i))

-- Bit `nr` of the bitmap became `b`.
abbrev pub BitSet : ℕ → ℕ → List ℕ → List ℕ → Type 0
BitSet nr b ws ws' = (k : ℕ) → bit_at ws' k ≡ (if k == nr then b else bit_at ws k)

module _ (nr : ℕ) (ws ws' : List ℕ) where
  pub used_levels-other :
      (b i : ℕ) → BitSet nr b ws ws' → i ≢ nr / 4 → used_levels ws' i ≡ used_levels ws i
  used_levels-other b i h ne =
      ground (arith, h (4 * i), h (4 * i + 1), h (4 * i + 2), h (4 * i + 3))

  pub used_levels-at :
      (b : ℕ)
      → BitSet nr b ws ws'
      → used_levels ws' (nr / 4) + bit_at ws nr ≡ used_levels ws (nr / 4) + b
  used_levels-at b h =
      let i = nr / 4 in
      let h0 = h (4 * i) in
      let h1 = h (4 * i + 1) in
      let h2 = h (4 * i + 2) in
      let h3 = h (4 * i + 3) in
      elim (remainder ws nr) [
        | inl e ↦ ground (arith, ap (bit_at ws) e)
        | inr (inl e) ↦ ground (arith, ap (bit_at ws) e)
        | inr (inr (inl e)) ↦ ground (arith, ap (bit_at ws) e)
        | inr (inr (inr e)) ↦ ground (arith, ap (bit_at ws) e)
      ]

pub BlockInv-same :
    (spare spare' : ℕ) (ws ws' : List ℕ) (i : ℕ) (o : Option Block)
    → used_levels ws' i ≡ used_levels ws i
    → (i ≢ spare' → i ≢ spare)
    → BlockInv spare ws i o
    → BlockInv spare' ws' i o
BlockInv-same spare spare' ws ws' i none e k h = omega (arith, e, h)
BlockInv-same spare spare' ws ws' i (some b) e k h =
    (h.0, omega (arith, e, h.1), λ ne. omega (arith, e, h.2 (k ne)))

-- Nothing changes at a bit that is set to what it is.
pub BitSet-same : (ws : List ℕ) (nr : ℕ) → BitSet nr (bit_at ws nr) ws ws
BitSet-same ws nr k = elim (ℕ_discrete k nr) [ yes e ↦ rw e (ground arith) | no ne ↦ ground arith ]

pub count-le : (spare : ℕ) (c : TableCtx) → LevelInv spare c → c.block_cnt ≤ 512
count-le spare c v = omega (
  arith,
  v.count,
  sum_below-le 512 (λ i. is_mapped (c.mapt_block_array i))
      (λ i. is_mapped-le-one (c.mapt_block_array i)),
)

-- One entry of the array and at most one bit of that block change.
pub LevelInv-change :
    (spare spare' : ℕ) (c : TableCtx) (nr b j cnt : ℕ) (ws' : List ℕ) (o : Option Block)
    → LevelInv spare c
    → nr / 4 ≡ j
    → j < 512
    → length ws' ≡ 32
    → IsWords ws'
    → BitSet nr b c.level_block_bitmap ws'
    → ((i : ℕ) → i < 512 → i ≢ j → i ≢ spare' → i ≢ spare)
    → BlockInv spare' ws' j o
    → cnt + is_mapped (c.mapt_block_array j) ≡ c.block_cnt + is_mapped o
    → LevelInv spare' (record c {
      level_block_bitmap = ws';
      mapt_block_array = update c.mapt_block_array j o;
      block_cnt = cnt;
    })
LevelInv-change spare spare' c nr b j cnt ws' o v which inside l w set k entry balance = record {
  bitmap_length = l;
  words = w;
  blocks = λ i h. elim (ℕ_discrete i j) [
    | yes e ↦ rw (e, update_same c.mapt_block_array j o) entry
    | no ne ↦ rw (update_other c.mapt_block_array j i o ne) (
        BlockInv-same spare spare' c.level_block_bitmap ws' i (c.mapt_block_array i)
          (used_levels-other nr _ ws' b i set (λ q. ne (q ∙ which))) (k i h ne) (v.blocks i h))
  ];
  outside = λ i h.
      update_other c.mapt_block_array j i o (λ q. omega (arith, q, h, inside)) ∙ v.outside i h;
  count = omega (
    arith,
    v.count,
    sum_below-change 512 (λ i. is_mapped (c.mapt_block_array i))
        (λ i. is_mapped (update c.mapt_block_array j o i)) j inside
        (λ i ne. sym (ap is_mapped (update_other c.mapt_block_array j i o ne))),
    ap is_mapped (update_same c.mapt_block_array j o),
    balance,
  );
}

-- A block changes in fields that the bookkeeping does not read.
pub LevelInv-block :
    (spare : ℕ) (c : TableCtx) (i : ℕ) (b b' : Block)
    → LevelInv spare c
    → i < 512
    → c.mapt_block_array i ≡ some b
    → b'.block_id ≡ b.block_id
    → b'.level_cnt ≡ b.level_cnt
    → LevelInv spare (record c { mapt_block_array = update c.mapt_block_array i (some b') })
LevelInv-block spare c i b b' v h e id cnt = record {
  bitmap_length = v.bitmap_length;
  words = v.words;
  blocks = λ j hj. elim (ℕ_discrete j i) [
    | yes q ↦
        let old : BlockInv spare c.level_block_bitmap i (some b) =
          subst (BlockInv spare c.level_block_bitmap i) e (v.blocks i h) in
        rw (q, update_same c.mapt_block_array i (some b'))
          (omega (arith, id, old.0), omega (arith, cnt, old.1), old.2)
    | no ne ↦ rw (update_other c.mapt_block_array i j (some b') ne) (v.blocks j hj)
  ];
  outside = λ j hj.
      update_other c.mapt_block_array i j (some b') (λ q. omega (arith, q, h, hj)) ∙ v.outside j hj;
  count = omega (
    arith,
    v.count,
    sum_below-ext 512 (λ j. is_mapped (update c.mapt_block_array i (some b') j))
        (λ j. is_mapped (c.mapt_block_array j))
        λ j hj. elim (ℕ_discrete j i) [
          | yes q ↦ rw (q, update_same c.mapt_block_array i (some b'), e) refl
          | no ne ↦ ap is_mapped (update_other c.mapt_block_array i j (some b') ne)
        ],
  );
}

-- Any block may be the spare one.
pub LevelInv-spare : (spare : ℕ) (c : TableCtx) → LevelInv 512 c → LevelInv spare c
LevelInv-spare spare c v = record {
  bitmap_length = v.bitmap_length;
  words = v.words;
  blocks = λ i h.
      BlockInv-same 512 spare c.level_block_bitmap c.level_block_bitmap i (c.mapt_block_array i)
        refl (λ _ q. omega (arith, q, h)) (v.blocks i h);
  outside = v.outside;
  count = v.count;
}
