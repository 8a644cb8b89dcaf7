-- ===== src/Table.antt =====
-- Table mode: the permission table of a tid, a radix tree of level blocks with 512 nodes each in the
-- memory that the kernel maps, and the state that ummu_mapt.c and ummu_level_block.c keep of it.
pub mod Level
pub mod LevelBlock
pub mod Run
pub mod Access
pub mod Node
pub mod Fill
pub mod Clear
pub mod Update
pub mod Op
pub mod Create
pub mod Uninit
pub mod Walk
mod Tests
use openeuler_ummu.Base.{
  ℕ, ◌+◌, ◌/◌, ltb, ◌==◌, ◌&&◌, ◌≡◌, ◌≢◌, arith, if◌then◌else◌, Bool, Option, none, some, List,
}
use openeuler_ummu.Mapt.{NodeWords, table_lvl_offset, addr_full}
use openeuler_ummu.Entry.{zero_words}

-- `struct ummu_mapt_table_node`; `type_bit` is its field `type`
pub record TableNode : Type 0 where
  pub words : NodeWords
  pub open words use *
  pub type_bit : ℕ
  pub next_block : ℕ
  pub next_lv_offset_low : ℕ
  pub next_lv_offset_high : ℕ
  pub next_lv_index : ℕ
  pub base_low : ℕ
  pub base_high : ℕ
  pub limit_low : ℕ
  pub limit_high : ℕ

abbrev pub zero_node : TableNode
zero_node = record {
  words = zero_words;
  type_bit = 0;
  next_block = 0;
  next_lv_offset_low = 0;
  next_lv_offset_high = 0;
  next_lv_index = 0;
  base_low = 0;
  base_high = 0;
  limit_low = 0;
  limit_high = 0;
}

-- `struct ummu_mapt_block`. The memory at `block_addr` is a function from a node's offset, of which the
-- mapping has those below `blk_size / 32` (`in_block`): a node has 32 bytes.
pub record Block : Type 0 where
  pub nodes : ℕ → TableNode
  pub blk_size : ℕ
  pub block_id : ℕ
  pub level_cnt : ℕ
  pub level_entry_cnt : ℕ → ℕ

-- `struct ummu_mapt_table_ctx`, less `granted_addr_mng` (`SegMng`) and `mapt_block_base`, which is
-- never read. `none` in the array is a null pointer.
pub record TableCtx : Type 0 where
  pub expan : Bool
  pub block_cnt : ℕ
  pub blk_exp_size : ℕ
  pub level_block_bitmap : List ℕ
  pub mapt_block_array : ℕ → Option Block

-- whether the mapping has a node at this offset
abbrev pub in_block : Block → ℕ → Bool
in_block k i = ltb i (k.blk_size / 32)

-- The state of one operation: the table, the local node with which it starts, `lvl` of the request,
-- and the number of calls made to the allocators.
pub record State : Type 0 where
  pub ctx : TableCtx
  pub open ctx use *
  pub root : TableNode
  pub lvl : ℕ
  pub calls : ℕ

-- What the allocators answer to call number n: whether `calloc` succeeds, and what `mmap` maps for a
-- block of a size and index.
pub record Kernel : Type 0 where
  pub calloc : ℕ → Bool
  pub mmap : ℕ → ℕ → ℕ → Option (ℕ → TableNode)

-- A pointer to a node: the local one, or a node of a block of the array.
pub data NodeRef : Type 0 where
  local : NodeRef
  node_at : ℕ → ℕ → NodeRef

abbrev pub update {ℓ} : {A : Type ℓ} → (ℕ → A) → ℕ → A → ℕ → A
update f i a j = if j == i then a else f j

module _ {ℓ} {A : Type ℓ} (f : ℕ → A) (i : ℕ) where
  pub update_same : (a : A) → update f i a i ≡ a
  update_same a = ground arith

  pub update_other : (j : ℕ) (a : A) → j ≢ i → update f i a j ≡ f j
  update_other j a ne = ground arith

-- A step of the code; `none` is an access through a null pointer, past the end of the array of blocks, or
-- outside of what is mapped.
abbrev pub M : Type 0 → Type 0
M A = State → Option (A × State)

abbrev pub pure : {A : Type 0} → A → M A
pure a s = some (a, s)

infixl 5 ◌>>=◌ ◌>>◌
-- A fault ends the run.
abbrev pub ◌>>=◌ : {X : Type 0} {Y : Type 0} → M X → (X → M Y) → M Y
◌>>=◌ first then_with s = elim (first s) [ none ↦ none | some (x, s') ↦ then_with x s' ]

abbrev pub ◌>>◌ : {Y : Type 0} → M (Unit {0}) → M Y → M Y
first >> next = first >>= λ (_ : Unit). next

-- The array has INDEX_MAX_SIZE entries.
abbrev pub block_of : ℕ → M (Option Block)
block_of i s = if ltb i 512 then some (s.mapt_block_array i, s) else none

abbrev pub put_ctx : TableCtx → M (Unit {0})
put_ctx c s = some (tt, record s { ctx = c })

abbrev pub put_block : ℕ → Option Block → M (Unit {0})
put_block i b s =
    some
      (tt, record s { ctx = record (s.ctx) { mapt_block_array = update (s.mapt_block_array) i b } })

-- `*p`
unfoldable pub load : NodeRef → M TableNode
load local s = some (s.root, s)
load (node_at b i) s = elim (s.mapt_block_array b) [
  | none ↦ none
  | some k ↦ if in_block k i then some (k.nodes i, s) else none
]

-- `*p = n`
unfoldable pub store : NodeRef → TableNode → M (Unit {0})
store local n s = some (tt, record s { root = n })
store (node_at b i) n s = elim (s.mapt_block_array b) [
  | none ↦ none
  | some k ↦
      if in_block k i then put_block b (some (record k { nodes = update k.nodes i n })) s else none
]

abbrev pub lvl_offset_of : TableNode → ℕ
lvl_offset_of n = table_lvl_offset n.next_lv_offset_low n.next_lv_offset_high

abbrev pub node_base_of : TableNode → ℕ
node_base_of n = addr_full n.base_low n.base_high

abbrev pub node_limit_of : TableNode → ℕ
node_limit_of n = addr_full n.limit_low n.limit_high
