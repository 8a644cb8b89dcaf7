-- ===== src/Table/LevelBlock/Cells.antt =====
-- What an allocation of a level block does to the nodes of the table.
pub mod Node
pub mod Local
use openeuler_ummu.Base.{
  ℕ, ◌+◌, ◌*◌, ◌/◌, ◌%◌, ◌^◌, ◌≡◌, ◌≢◌, ◌⊎◌, inl, inr, refl, sym, ap, ◌∙◌, arith, Option, none,
  some, if◌then◌else◌, Option-cases, Bool-cases, enomem, leb, ltb, not, ◌==◌, ◌&&◌, ◌||◌,
}
use native.Mathlib.Decide.{ℕ_discrete}
use openeuler_ummu.Table.{
  State, Block, TableNode, Kernel, local, node_at, M, pure, ◌>>=◌, ◌>>◌, update, update_same,
  update_other, load, store,
}
use openeuler_ummu.Table.Run.{Yields, Yields-bind, Yields-weaken}
use openeuler_ummu.Table.LevelBlock.{
  LevelPtr, level_at, failed, get_table_buf, calloc, add_block, ummu_alloc_new_mapt_block,
  block_for_level, take_level, ummu_alloc_level_block,
}
use openeuler_ummu.Mapt.{lvl_offset_low, lvl_offset_high}
use openeuler_ummu.Common.{find_first_zero_bit}
use openeuler_ummu.Table.Walk.{of_entry, cell}
use openeuler_ummu.Table.Walk.Write.{Writes, store-yields, Yields-load}

-- The memory that the kernel maps for a block holds no node in use.
abbrev pub IsBlank : Kernel → Type 0
IsBlank kernel =
    (c size i : ℕ) (nodes : ℕ → TableNode)
    → kernel.mmap c size i ≡ some nodes
    → (j : ℕ) → (nodes j).valid ≡ 0

-- The same node, or neither in use: a walk makes no difference between them.
abbrev pub Alike : TableNode → TableNode → Type 0
Alike n n' = (n' ≡ n) ⊎ ((n.valid ≡ 0) × (n'.valid ≡ 0))

pub Alike-trans : (m n o : TableNode) → Alike m n → Alike n o → Alike m o
Alike-trans m n o (inl p) (inl q) = inl (q ∙ p)
Alike-trans m n o (inl p) (inr (x, y)) = inr (ap (λ (t : TableNode). t.valid) (sym p) ∙ x, y)
Alike-trans m n o (inr (x, y)) (inl q) = inr (x, ap (λ (t : TableNode). t.valid) q ∙ y)
Alike-trans m n o (inr (x, y)) (inr (z, w)) = inr (x, w)

-- Every node is alike.
abbrev pub AllAlike : State → State → Type 0
AllAlike s s' = (c j : ℕ) → Alike (cell s c j) (cell s' c j)

AllAlike-calls : (s : State) (n : ℕ) → AllAlike s (record s { calls = n })
unfolding cell
AllAlike-calls s n c j = inl refl

-- the node, with another link
abbrev pub Relinked : TableNode → TableNode → Type 0
Relinked n n' =
    (b i lo hi : ℕ) × (n' ≡ record n {
      next_block = b;
      next_lv_index = i;
      next_lv_offset_low = lo;
      next_lv_offset_high = hi;
    })

-- All nodes but the one given are alike, and that one keeps all but its link.
pub record Linked (b i : ℕ) (s s' : State) : Type 0 where
  pub relinked : Relinked (cell s b i) (cell s' b i)
  pub other : (c j : ℕ) → (c ≢ b) ⊎ (j ≢ i) → Alike (cell s c j) (cell s' c j)

module _ (kernel : Kernel) (blank : IsBlank kernel) where
  add_block-AllAlike :
      (i : ℕ) (block : Block) (s : State)
      → s.mapt_block_array i ≡ none
      → ((j : ℕ) → (block.nodes j).valid ≡ 0)
      → Yields (add_block kernel i block s) (λ _ s'. AllAlike s s')
  unfolding add_block cell
  add_block-AllAlike i block s free h c j = elim (ℕ_discrete c i) [
    | yes e ↦ inr (
      ap (λ (t : ℕ). (of_entry (s.mapt_block_array t) j).valid) e
          ∙ ap (λ o. (of_entry o j).valid) free,
      ap (λ (t : ℕ). (of_entry (update (s.mapt_block_array) i (some block) t) j).valid) e
          ∙ ap (λ o. (of_entry o j).valid) (update_same (s.mapt_block_array) i (some block))
          ∙ h j,
    )
    | no ne ↦ inl (ap (λ o. of_entry o j) (update_other (s.mapt_block_array) i c (some block) ne))
  ]

  -- the part of `ummu_alloc_new_mapt_block` behind `calloc`
  abbrev map_block : ℕ → ℕ → M ℕ
  map_block size index = do
    buf ← get_table_buf kernel size index
    elim buf [
      | none ↦ pure enomem
      | some nodes ↦ do
        add_block kernel index (record {
          nodes = nodes;
          blk_size = size;
          block_id = index;
          level_cnt = 0;
          level_entry_cnt = λ _. 0;
        })
        pure 0
    ]

  map_block-AllAlike :
      (size index : ℕ) (s : State)
      → s.mapt_block_array index ≡ none
      → Yields (map_block size index s) (λ _ s'. AllAlike s s')
  unfolding get_table_buf cell
  map_block-AllAlike size index s free = elim (Bool-cases (size == 0)) [
    | inl z ↦ rw (z, get_table_buf) (λ c j. inl refl)
    | inr z ↦ elim (Bool-cases (ltb size 0x4000 || ltb 0x20_0000 size)) [
      | inl w ↦ rw (z, w, get_table_buf) (λ c j. inl refl)
      | inr w ↦ elim (Option-cases (kernel.mmap s.calls size index)) [
        | inl g ↦ rw (z, w, g, get_table_buf) (λ c j. inl refl)
        | inr (nodes, g) ↦
            rw (z, w, g, get_table_buf)
              (Yields-bind (λ _ s'. AllAlike s s') (λ _ s'. AllAlike s s')
                (add_block kernel index _) (λ _. pure 0) _
                (add_block-AllAlike index _ _ free (blank s.calls size index nodes g))
                (λ _ s' a. a))
      ]
    ]
  ]

  new_block-AllAlike :
      (size index : ℕ) (s : State)
      → s.mapt_block_array index ≡ none
      → Yields (ummu_alloc_new_mapt_block kernel size index s) (λ _ s'. AllAlike s s')
  unfolding ummu_alloc_new_mapt_block calloc cell
  new_block-AllAlike size index s free = elim (Bool-cases (not (s.expan) && not (index == 0))) [
    | inl e ↦ rw e (λ c j. inl refl)
    | inr e ↦ elim (Bool-cases (kernel.calloc s.calls)) [
      | inr m ↦ rw (e, m) (λ c j. inl refl)
      | inl m ↦ rw (e, m) (map_block-AllAlike size index (record s { calls = s.calls + 1 }) free)
    ]
  ]

  pub block_for_level-AllAlike :
      (index : ℕ) (pre_block : Option ℕ) (s : State)
      → Yields (block_for_level kernel index pre_block s) (λ _ s'. AllAlike s s')
  unfolding block_for_level
  block_for_level-AllAlike index pre_block s = elim (Option-cases (s.mapt_block_array index)) [
    | inl e ↦
        rw (e, block_for_level)
          (Yields-bind (λ _ s'. AllAlike s s') (λ _ s'. AllAlike s s')
            (ummu_alloc_new_mapt_block kernel (s.blk_exp_size) index) (λ ret. pure (ret, 1)) s
            (new_block-AllAlike (s.blk_exp_size) index s e) (λ _ _ a. a))
    | inr (b, e) ↦ rw (e, block_for_level) (λ c j. inl refl)
  ]

  pub take_level-cells :
      (nr index : ℕ) (s : State)
      → Yields (take_level kernel nr index s) (λ _ s'. (c j : ℕ) → cell s' c j ≡ cell s c j)
  unfolding take_level cell
  take_level-cells nr index s = elim (Option-cases (s.mapt_block_array index)) [
    | inl e ↦ rw (e, take_level) tt
    | inr (b, e) ↦
        let b' : Block = record b { level_cnt = (b.level_cnt + 1) % 2 ^ 16 } in
        rw (e, take_level)
          (λ c j. elim (ℕ_discrete c index) [
            | yes q ↦
                ap (λ t. of_entry (update (s.mapt_block_array) index (some b') t) j) q
                ∙ ap (λ o. of_entry o j) (update_same (s.mapt_block_array) index (some b'))
                ∙ ap (λ o. of_entry o j) (sym e)
                ∙ ap (λ t. of_entry (s.mapt_block_array t) j) (sym q)
            | no ne ↦
                ap (λ o. of_entry o j) (update_other (s.mapt_block_array) index c (some b') ne)
          ])
  ]
