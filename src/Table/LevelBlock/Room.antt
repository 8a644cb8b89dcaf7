-- ===== src/Table/LevelBlock/Room.antt =====
-- Whether each block of memory has room for its four level blocks (ummu_level_block.c): a block is mapped
-- with `blk_exp_size` bytes, and four level blocks of 512 nodes with 32 bytes each take 64K.
use openeuler_ummu.Base.{
  ℕ, ◌+◌, ◌/◌, ◌<◌, ◌≤◌, ◌≡◌, inl, inr, refl, sym, arith, true, Option, none, some, Option-cases,
  Bool-cases, enomem, leb, ltb, not, ◌==◌, ◌&&◌, ◌||◌,
}
use mathlib.Core.Path.{subst}
use native.Mathlib.Decide.{ℕ_discrete}
use openeuler_ummu.Table.{
  State, Block, in_block, TableNode, Kernel, NodeRef, local, node_at, M, pure, ◌>>=◌, ◌>>◌, update,
  update_same, update_other, load, store,
}
use openeuler_ummu.Table.Run.{Yields, Yields-bind}
use openeuler_ummu.Table.LevelBlock.{
  get_table_buf, calloc, add_block, ummu_alloc_new_mapt_block, block_for_level, take_level,
  ummu_alloc_level_block,
}
use openeuler_ummu.Common.{find_first_zero_bit}

abbrev pub HasRoom : Option Block → Type 0
HasRoom none = Unit
HasRoom (some k) = 0x1_0000 ≤ k.blk_size

-- Each block, and each that will be mapped, has 64K or more.
abbrev pub Roomy : State → Type 0
Roomy s = (0x1_0000 ≤ s.blk_exp_size) × ((c : ℕ) → HasRoom (s.mapt_block_array c))

pub HasRoom-in_block : (k : Block) (i : ℕ) → 0x1_0000 ≤ k.blk_size → i < 2048 → in_block k i ≡ true
HasRoom-in_block k i h l = ground (arith, h, l)

pub HasRoom-update :
    (f : ℕ → Option Block) (b : ℕ) (o : Option Block)
    → HasRoom o
    → ((c : ℕ) → HasRoom (f c))
    → (c : ℕ) → HasRoom (update f b o c)
HasRoom-update f b o h room c = elim (ℕ_discrete c b) [
  | yes e ↦
      subst (λ x. HasRoom (update f b o x)) (sym e) (subst HasRoom (sym (update_same f b o)) h)
  | no ne ↦ subst HasRoom (sym (update_other f b c o ne)) (room c)
]

pub store-Roomy :
    (p : NodeRef) (n : TableNode) (s : State) → Roomy s → Yields (store p n s) (λ _ s'. Roomy s')
unfolding store
store-Roomy local n s r = r
store-Roomy (node_at b i) n s r = elim (Option-cases (s.mapt_block_array b)) [
  | inl e ↦ rw (e, store) tt
  | inr (k, e) ↦ elim (Bool-cases (in_block k i)) [
    | inl m ↦
        rw (e, m, store)
          (r.0, HasRoom-update (s.mapt_block_array) b _ (subst HasRoom e (r.1 b)) (r.1))
    | inr m ↦ rw (e, m, store) tt
  ]
]

module _ {B : Type 0} (p : NodeRef) (s : State) (q : B → State → Type 0) where
  -- what holds for all that a read may find
  pub Yields-any :
      (f : TableNode → M B) → ((n : TableNode) → Yields (f n s) q) → Yields ((load p >>= f) s) q
  unfolding load
  Yields-any f h =
      Yields-bind (λ _ s'. s' ≡ s) q (load p) f s (same p)
        (λ n s' e. subst (λ x. Yields (f n x) q) (sym e) (h n))
    where
      same : (p : NodeRef) → Yields (load p s) (λ _ s'. s' ≡ s)
      same local = refl
      same (node_at b i) = elim (Option-cases (s.mapt_block_array b)) [
        | inl e ↦ rw (e, load) tt
        | inr (k, e) ↦ elim (Bool-cases (in_block k i)) [
          | inl m ↦ rw (e, m, load) refl
          | inr m ↦ rw (e, m, load) tt
        ]
      ]

module _ (kernel : Kernel) where
  -- the part of `ummu_alloc_new_mapt_block` behind `calloc`
  abbrev map_block : ℕ → ℕ → M ℕ
  map_block size index = do
    buf ← get_table_buf kernel size index
    elim buf [
      | none ↦ pure enomem
      | some nodes ↦ do
        add_block kernel index (record {
          nodes = nodes;
          blk_size = size;
          block_id = index;
          level_cnt = 0;
          level_entry_cnt = λ _. 0;
        })
        pure 0
    ]

  map_block-Roomy :
      (size index : ℕ) (s : State)
      → 0x1_0000 ≤ size
      → Roomy s
      → Yields (map_block size index s) (λ _ s'. Roomy s')
  unfolding get_table_buf add_block
  map_block-Roomy size index s h r = elim (Bool-cases (size == 0)) [
    | inl z ↦ rw (z, get_table_buf) r
    | inr z ↦ elim (Bool-cases (ltb size 0x4000 || ltb 0x20_0000 size)) [
      | inl w ↦ rw (z, w, get_table_buf) r
      | inr w ↦ elim (Option-cases (kernel.mmap s.calls size index)) [
        | inl g ↦ rw (z, w, g, get_table_buf) r
        | inr (nodes, g) ↦
            rw (z, w, g, get_table_buf)
              (r.0, HasRoom-update (s.mapt_block_array) index (some _) h (r.1))
      ]
    ]
  ]

  new_block-Roomy :
      (size index : ℕ) (s : State)
      → 0x1_0000 ≤ size
      → Roomy s
      → Yields (ummu_alloc_new_mapt_block kernel size index s) (λ _ s'. Roomy s')
  unfolding ummu_alloc_new_mapt_block calloc
  new_block-Roomy size index s h r = elim (Bool-cases (not (s.expan) && not (index == 0))) [
    | inl f ↦ rw f r
    | inr f ↦ elim (Bool-cases (kernel.calloc s.calls)) [
      | inr m ↦ rw (f, m) r
      | inl m ↦ rw (f, m) (map_block-Roomy size index (record s { calls = s.calls + 1 }) h r)
    ]
  ]

  block_for_level-Roomy :
      (index : ℕ) (pre_block : Option ℕ) (s : State)
      → Roomy s
      → Yields (block_for_level kernel index pre_block s) (λ _ s'. Roomy s')
  unfolding block_for_level
  block_for_level-Roomy index pre_block s r = elim (Option-cases (s.mapt_block_array index)) [
    | inr (b, e) ↦ rw (e, block_for_level) r
    | inl e ↦
        rw (e, block_for_level)
          (Yields-bind (λ _ s'. Roomy s') (λ _ s'. Roomy s')
            (ummu_alloc_new_mapt_block kernel (s.blk_exp_size) index) (λ ret. pure (ret, 1)) s
            (new_block-Roomy (s.blk_exp_size) index s r.0 r) (λ _ _ x. x))
  ]

  take_level-Roomy :
      (nr index : ℕ) (s : State)
      → Roomy s
      → Yields (take_level kernel nr index s) (λ _ s'. Roomy s')
  unfolding take_level
  take_level-Roomy nr index s r = elim (Option-cases (s.mapt_block_array index)) [
    | inl e ↦ rw (e, take_level) tt
    | inr (b, e) ↦
        rw (e, take_level)
          (r.0, HasRoom-update (s.mapt_block_array) index _ (subst HasRoom e (r.1 index)) (r.1))
  ]

  -- An allocation that does not fault leaves the blocks roomy.
  pub ummu_alloc_level_block-Roomy :
      (pre : NodeRef) (pre_block : Option ℕ) (s : State)
      → Roomy s
      → Yields (ummu_alloc_level_block kernel pre pre_block s) (λ _ s'. Roomy s')
  unfolding ummu_alloc_level_block
  ummu_alloc_level_block-Roomy pre pre_block s r =
      let nr = find_first_zero_bit (s.level_block_bitmap) 2048 in
      elim (Bool-cases (leb 2048 nr)) [
        | inl e ↦ rw e r
        | inr e ↦ rw e (
            Yields-any pre s _ _ λ n.
              Yields-bind (λ _ s'. Roomy s') _ (store pre _) _ s (store-Roomy pre _ s r)
                λ _ s1 r1.
                  Yields-bind (λ _ s'. Roomy s') _ (block_for_level kernel (nr / 4) pre_block) _ s1
                    (block_for_level-Roomy (nr / 4) pre_block s1 r1)
                    λ (ret, next) s2 r2. elim (Bool-cases (not (ret == 0))) [
                      | inl f ↦ rw f r2
                      | inr f ↦ rw f (
                          Yields-any pre s2 _ _ λ n.
                            Yields-bind (λ _ s'. Roomy s') _ (store pre _) _ s2
                              (store-Roomy pre _ s2 r2)
                              λ _ s3 r3.
                                Yields-bind (λ _ s'. Roomy s') _ (take_level kernel nr (nr / 4)) _
                                  s3 (take_level-Roomy nr (nr / 4) s3 r3) (λ _ _ x. x))
                    ])
      ]
