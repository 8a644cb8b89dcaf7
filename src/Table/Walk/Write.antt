-- ===== src/Table/Walk/Write.antt =====
-- Steps that write one node of the table, or none.
use mathlib.Core.Path.{subst}
use openeuler_ummu.Base.{
  ℕ, ◌≤◌, arith, ltb, true, Bool-cases, ◌<◌, ◌≡◌, ◌≢◌, ◌⊎◌, inl, inr, refl, sym, ap, ◌∙◌, some,
  Option-cases,
}
use native.Mathlib.Decide.{ℕ_discrete}
use openeuler_ummu.Table.{
  State, Block, in_block, TableNode, node_at, M, ◌>>=◌, update, update_same, update_other, load,
  store,
}
use openeuler_ummu.Table.Run.{Runs, Yields}
use openeuler_ummu.Table.Access.{Holds, Runs-block_of}
use openeuler_ummu.Table.LevelBlock.Room.{Roomy, HasRoom-in_block, HasRoom-update}
use openeuler_ummu.Table.LevelBlock.Inv.{LevelInv, LevelInv-block}
use openeuler_ummu.Table.Node.{modify_block, entry_index}
use openeuler_ummu.Table.Walk.{of_entry, cell}

-- The node at `b`, `i` is `n`, and other nodes are as before.
pub record Writes (b i : ℕ) (n : TableNode) (s s' : State) : Type 0 where
  pub here : cell s' b i ≡ n
  pub other : (c j : ℕ) → (c ≢ b) ⊎ (j ≢ i) → cell s' c j ≡ cell s c j

-- The bookkeeping is right, the bitmap as before, and blocks keep their size.
abbrev pub Steady : State → State → Type 0
Steady s s' =
    LevelInv 512 (s'.ctx) × (s'.level_block_bitmap ≡ s.level_block_bitmap) × (Roomy s → Roomy s')

-- There is a block at this index, with room for four level blocks.
abbrev pub Mapped : ℕ → State → Type 0
Mapped b s = (k : Block) × (s.mapt_block_array b ≡ some k) × (0x1_0000 ≤ k.blk_size)

-- Nothing that a walk reads changed, and the bookkeeping is right.
pub record Same (s s' : State) : Type 0 where
  pub steady : Steady s s'
  pub cells : (c j : ℕ) → cell s' c j ≡ cell s c j

pub cell-some :
    (s : State) (b i : ℕ) (k : Block) → s.mapt_block_array b ≡ some k → cell s b i ≡ k.nodes i
unfolding cell
cell-some s b i k e = ap (λ o. of_entry o i) e

pub load-cell :
    (b i : ℕ) (s : State) → Mapped b s → i < 2048 → load (node_at b i) s ≡ some (cell s b i, s)
unfolding load cell
load-cell b i s (k, e, room) l = rw (e, HasRoom-in_block k i room l, load, cell) refl

-- the pointer to a node of such a block
pub cell-Holds :
    (b i : ℕ) (s : State) → b < 512 → Mapped b s → i < 2048 → Holds (node_at b i) (cell s b i) s
cell-Holds b i s l (k, e, room) li =
    (l, (k, e, sym (cell-some s b i k e), HasRoom-in_block k i room li))

-- a block of the array is replaced
module _ (s : State) (b : ℕ) (k : Block) where
  abbrev changed : State
  changed = record s {
    ctx = record (s.ctx) { mapt_block_array = update (s.mapt_block_array) b (some k) };
  }

  cell-changed_same : (i : ℕ) → cell changed b i ≡ k.nodes i
  unfolding cell
  cell-changed_same i = ap (λ o. of_entry o i) (update_same (s.mapt_block_array) b (some k))

  cell-changed_other : (c j : ℕ) → c ≢ b → cell changed c j ≡ cell s c j
  unfolding cell
  cell-changed_other c j ne =
      ap (λ o. of_entry o j) (update_other (s.mapt_block_array) b c (some k) ne)

-- the write of a node
module _ (s : State) (b i : ℕ) (n : TableNode) (k : Block) (e : s.mapt_block_array b ≡ some k) where
  abbrev written : Block
  written = record k { nodes = update k.nodes i n }

  written-Writes : Writes b i n s (changed s b written)
  written-Writes = record {
    here = cell-changed_same s b written i ∙ update_same k.nodes i n;
    other = λ c j apart. elim (ℕ_discrete c b) [
      | yes q ↦ elim apart [
        | inl ne ↦ absurd (ne q)
        | inr ne ↦
            ap (λ t. cell (changed s b written) t j) q
            ∙ cell-changed_same s b written j
            ∙ update_other k.nodes i j n ne
            ∙ sym (cell-some s b j k e)
            ∙ ap (λ t. cell s t j) (sym q)
      ]
      | no nq ↦ cell-changed_other s b written c j nq
    ];
  }

pub store-Writes :
    (b i : ℕ) (n : TableNode) (s : State)
    → LevelInv 512 (s.ctx)
    → b < 512
    → Mapped b s
    → i < 2048
    → Runs (store (node_at b i) n) s (λ _ s'. Steady s s' × Writes b i n s s')
unfolding store
store-Writes b i n s v l (k, e, room) li =
    rw (e, HasRoom-in_block k i room li, store)
      (
        (
          LevelInv-block 512 (s.ctx) b k (written s b i n k e) v l e refl refl,
          refl,
          λ r. (r.0, HasRoom-update (s.mapt_block_array) b (some (written s b i n k e)) room (r.1)),
        ),
        written-Writes s b i n k e,
      )

pub store-yields :
    (b i : ℕ) (n : TableNode) (s : State)
    → Yields (store (node_at b i) n s) (λ _ s'. Writes b i n s s')
unfolding store
store-yields b i n s = elim (Option-cases (s.mapt_block_array b)) [
  | inl e ↦ rw (e, store) tt
  | inr (k, e) ↦ elim (Bool-cases (in_block k i)) [
    | inl m ↦ rw (e, m, store) (written-Writes s b i n k e)
    | inr m ↦ rw (e, m, store) tt
  ]
]

module _ {B : Type 0} (b i : ℕ) (s : State) (q : B → State → Type 0) where
  pub Yields-load :
      (f : TableNode → M B) → Yields (f (cell s b i) s) q → Yields ((load (node_at b i) >>= f) s) q
  unfolding load cell
  Yields-load f h = elim (Option-cases (s.mapt_block_array b)) [
    | inl e ↦ rw (e, load, ◌>>=◌) tt
    | inr (k, e) ↦ elim (Bool-cases (in_block k i)) [
      | inl m ↦ rw (e, m, load, ◌>>=◌) (subst (λ n. Yields (f n s) q) (cell-some s b i k e) h)
      | inr m ↦ rw (e, m, load, ◌>>=◌) tt
    ]
  ]

pub modify_block-Same :
    (g : ℕ → Block → Block) (offset b : ℕ) (s : State)
    → ((j : ℕ) (k : Block) → (g j k).block_id ≡ k.block_id)
    → ((j : ℕ) (k : Block) → (g j k).level_cnt ≡ k.level_cnt)
    → ((j : ℕ) (k : Block) → (g j k).blk_size ≡ k.blk_size)
    → ((j : ℕ) (k : Block) (i : ℕ) → (g j k).nodes i ≡ k.nodes i)
    → LevelInv 512 (s.ctx)
    → b < 512
    → Mapped b s
    → offset < 2048
    → Runs (modify_block g offset b) s (λ _ s'. Same s s')
unfolding modify_block
modify_block-Same g offset b s id cnt size nodes v l (k, e, room) lo =
    let f : Block → Block = g (entry_index offset) in
    let counted : ltb (entry_index offset) 4 ≡ true = ground arith in
    Runs-block_of b _ s _ l (
      rw (e, counted)
        (record {
          steady = (
            LevelInv-block 512 (s.ctx) b k (f k) v l e (id _ k) (cnt _ k),
            refl,
            λ r. (
              r.0,
              HasRoom-update (s.mapt_block_array) b (some (f k))
                  (omega (arith, room, size (entry_index offset) k)) (r.1),
            ),
          );
          cells = λ c j. elim (ℕ_discrete c b) [
            | yes q ↦
                ap (λ t. cell (changed s b (f k)) t j) q
                ∙ cell-changed_same s b (f k) j
                ∙ nodes (entry_index offset) k j
                ∙ sym (cell-some s b j k e)
                ∙ ap (λ t. cell s t j) (sym q)
            | no nq ↦ cell-changed_other s b (f k) c j nq
          ];
        }))
