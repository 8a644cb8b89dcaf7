-- ===== src/Table/Access.antt =====
-- Reads and writes of nodes that are there.
use openeuler_ummu.Base.{
  ℕ, ◌<◌, ◌/◌, ltb, true, ◌≡◌, refl, sym, ap, ◌∙◌, Option, none, some, List, arith,
}
use native.Mathlib.Decide.{ℕ_discrete}
use mathlib.Core.Option.{none-ne-some, some-injective}
use openeuler_ummu.Table.{
  State, Block, in_block, NodeRef, block_of, local, node_at, TableNode, update, update_same,
  update_other, load, store, M, ◌>>=◌, ◌>>◌,
}
use openeuler_ummu.Table.Run.{Runs, Runs-bind}
use openeuler_ummu.Table.LevelBlock.Inv.{LevelInv, LevelInv-block}

-- The pointer leads to a node with this content.
abbrev pub Holds : NodeRef → TableNode → State → Type 0
Holds local n s = s.root ≡ n
Holds (node_at b i) n s =
    (b < 512)
    × ((k : Block) × (s.mapt_block_array b ≡ some k) × (k.nodes i ≡ n) × (in_block k i ≡ true))

-- The bookkeeping is right, and the bitmap is this one.
abbrev pub Kept : ℕ → List ℕ → State → Type 0
Kept spare ws s = LevelInv spare (s.ctx) × (s.level_block_bitmap ≡ ws)

pub load-Holds : (p : NodeRef) (n : TableNode) (s : State) → Holds p n s → load p s ≡ some (n, s)
unfolding load
load-Holds local n s h = rw h refl
load-Holds (node_at b i) n s (l, (k, e, f, r)) = rw (e, r, f, load) refl

-- There is a block at this index.
abbrev pub Present : ℕ → State → Type 0
Present j s = (k : Block) × (s.mapt_block_array j ≡ some k)

pub store-Holds :
    (p : NodeRef) (n n' : TableNode) (s : State) (spare : ℕ) (ws : List ℕ)
    → Holds p n s
    → Kept spare ws s
    → Runs
        (store p n')
        s
        λ _ s'. Kept spare ws s' × Holds p n' s' × ((j : ℕ) → Present j s → Present j s')
unfolding store
store-Holds local n n' s spare ws h v = (v, refl, λ j e. e)
store-Holds (node_at b i) n n' s spare ws (l, (k, e, f, r)) v =
    let k' : Block = record k { nodes = update k.nodes i n' } in
    rw (e, r, store)
      (
        (LevelInv-block spare (s.ctx) b k k' v.0 l e refl refl, v.1),
        (l, (k', update_same (s.mapt_block_array) b (some k'), update_same k.nodes i n', r)),
        λ j m. elim (ℕ_discrete j b) [
          | yes q ↦ (
            k',
            ap (update (s.mapt_block_array) b (some k')) q
                ∙ update_same (s.mapt_block_array) b (some k'),
          )
          | no ne ↦ (m.0, update_other (s.mapt_block_array) b j (some k') ne ∙ m.1)
        ],
      )

-- Reading the array of blocks within its bounds.
pub Runs-block_of :
    {B : Type 0} (i : ℕ) (f : Option Block → M B) (s : State) (q : B → State → Type 0)
    → i < 512
    → Runs (f (s.mapt_block_array i)) s q
    → Runs (block_of i >>= f) s q
Runs-block_of i f s q l r =
    let bound : ltb i 512 ≡ true = ground arith in rw (block_of, ◌>>=◌, bound) r

-- A read goes on with what the node holds, a write with the node written.
module _ {B : Type 0} (p : NodeRef) (n : TableNode) (s : State) (q : B → State → Type 0) where
  pub Runs-load : (f : TableNode → M B) → Holds p n s → Runs (f n) s q → Runs (load p >>= f) s q
  Runs-load f h r = rw (load-Holds p n s h, ◌>>=◌) r

  pub Runs-store :
      (n' : TableNode) (k : M B) (spare : ℕ) (ws : List ℕ)
      → Holds p n s
      → Kept spare ws s
      → ((s' : State)
          → Kept spare ws s'
          → Holds p n' s'
          → ((j : ℕ) → Present j s → Present j s')
          → Runs k s' q)
      → Runs (store p n' >> k) s q
  Runs-store n' k spare ws h v r =
      Runs-bind _ q (store p n') (λ _. k) s (store-Holds p n n' s spare ws h v)
        (λ _ s' t. r s' t.0 t.1 t.2)

pub Holds-calls :
    (p : NodeRef) (n : TableNode) (s : State) (c : ℕ)
    → Holds p n s
    → Holds p n (record s { calls = c })
Holds-calls local n s c h = h
Holds-calls (node_at b i) n s c h = h

-- another entry of the array makes no difference
pub Holds-entry :
    (p : NodeRef) (n : TableNode) (s : State) (i cnt : ℕ) (ws : List ℕ) (o : Option Block)
    → Holds p n s
    → s.mapt_block_array i ≡ none
    → Holds p n (record s {
      ctx = record (s.ctx) {
        level_block_bitmap = ws;
        mapt_block_array = update (s.mapt_block_array) i o;
        block_cnt = cnt;
      };
    })
Holds-entry local n s i cnt ws o h free = h
Holds-entry (node_at b j) n s i cnt ws o (l, (k, e, f, r)) free = elim (ℕ_discrete b i) [
  | yes q ↦ absurd (none-ne-some k (sym free ∙ ap (s.mapt_block_array) (sym q) ∙ e))
  | no ne ↦ (l, (k, update_other (s.mapt_block_array) i b o ne ∙ e, f, r))
]

-- nor does a change of an entry that keeps its nodes
pub Holds-same_nodes :
    (p : NodeRef) (n : TableNode) (s : State) (i : ℕ) (ws : List ℕ) (k k' : Block)
    → Holds p n s
    → s.mapt_block_array i ≡ some k
    → k'.nodes ≡ k.nodes
    → k'.blk_size ≡ k.blk_size
    → Holds p n (record s {
      ctx = record (s.ctx) {
        level_block_bitmap = ws;
        mapt_block_array = update (s.mapt_block_array) i (some k');
      };
    })
Holds-same_nodes local n s i ws k k' h e same size = h
Holds-same_nodes (node_at b j) n s i ws k k' (l, (m, e', f, r)) e same size =
    elim (ℕ_discrete b i) [
      | yes q ↦
          let found : some k ≡ some m = sym e ∙ ap (s.mapt_block_array) (sym q) ∙ e' in
          let same_block : k ≡ m = some-injective k m found in
          (
            l,
            (
              k',
              ap (update (s.mapt_block_array) i (some k')) q
                  ∙ update_same (s.mapt_block_array) i (some k'),
              ap (λ g. g j) same ∙ ap (λ (x : Block). x.nodes j) same_block ∙ f,
              ap (λ z. ltb j (z / 32)) (size ∙ ap (λ (x : Block). x.blk_size) same_block) ∙ r,
            ),
          )
      | no ne ↦ (l, (m, update_other (s.mapt_block_array) i b (some k') ne ∙ e', f, r))
    ]
