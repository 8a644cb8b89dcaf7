-- ===== src/Table/Walk.antt =====
-- What the permission table says about an address. A device walks it from level to level: a node in use
-- answers for the range it holds itself, and one that links to a level block leaves the rest to it.
pub mod Write
pub mod Shape
pub mod Step
pub mod Taken
pub mod Range
pub mod Node
pub mod Take
pub mod Descend
pub mod FillAt
pub mod Loop
pub mod Fill
pub mod Grant
pub mod History
pub mod Retoken
pub mod UpdateNode
pub mod Update
mod Tests
use openeuler_ummu.Base.{
  ℕ, zero, suc, ◌+◌, ◌*◌, ◌/◌, ◌%◌, leb, ◌==◌, ◌&&◌, if◌then◌else◌, Option, none, some, List, [],
}
use openeuler_ummu.Mapt.{NodeWords}
use openeuler_ummu.Token.View.{tokens}
use openeuler_ummu.Table.{
  State, Block, TableNode, zero_node, lvl_offset_of, node_base_of, node_limit_of,
}

-- the node at an offset of a block of memory; a zeroed one where there is no block
abbrev pub of_entry : Option Block → ℕ → TableNode
of_entry none i = zero_node
of_entry (some k) i = k.nodes i

unfoldable pub cell : State → ℕ → ℕ → TableNode
cell s b i = of_entry (s.mapt_block_array b) i

-- What a device learns of an address that is granted.
pub record Reading : Type 0 where
  pub permission : ℕ
  pub e_bit : ℕ
  pub token_check : ℕ
  pub held : List ℕ

abbrev pub reading : NodeWords → Reading
reading w = record {
  permission = w.permission;
  e_bit = w.e_bit;
  token_check = w.token_check;
  held = if w.token_check == 1 then tokens w else [];
}

-- How many addresses belong to one node with `k` levels below it.
abbrev pub span : ℕ → ℕ
span zero = 4096
span (suc k) = 512 * span k

-- A node, at an address relative to its part; `next` reads the level block at a block and an offset.
abbrev pub read_node : (ℕ → ℕ → ℕ → Option Reading) → TableNode → ℕ → Option Reading
read_node next n r =
    let below = next n.next_lv_index (lvl_offset_of n) r in
    if n.valid == 1
    then if leb (node_base_of n) r && leb r (node_limit_of n)
      then some (reading n.words)
      else if n.type_bit == 0
      then below
      else none
    else none

-- The walk over `k` levels from the level block at a block and an offset.
unfoldable pub walk : State → ℕ → ℕ → ℕ → ℕ → Option Reading
unfolding cell
walk s zero b offset a = none
walk s (suc k) b offset a = read_node (walk s k) (cell s b (offset + a / span k)) (a % span k)
