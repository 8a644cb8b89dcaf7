-- ===== src/Table/Walk/Taken.antt =====
-- A level block is taken for a node.
use openeuler_ummu.Base.{
  ℕ, zero, suc, ◌+◌, ◌*◌, ◌/◌, ◌%◌, ◌<◌, ◌≡◌, ◌≢◌, ◌⊎◌, inl, inr, refl, sym, ap, ◌∙◌, arith, none,
  List, ◌==◌, if◌then◌else◌,
}
use mathlib.Core.Path.{subst}
use native.Mathlib.Decide.{ℕ_discrete}
use openeuler_ummu.Common.Bitmap.{bit_at}
use openeuler_ummu.Table.{State, TableNode, update, update_same, update_other}
use openeuler_ummu.Table.LevelBlock.Inv.{LevelInv, BitSet}
use openeuler_ummu.Table.LevelBlock.Room.{Roomy}
use openeuler_ummu.Table.LevelBlock.Cells.{Alike, Linked}
use openeuler_ummu.Table.Walk.{span, walk}
use openeuler_ummu.Table.Walk.Shape.{
  used, node_of, walk_from, IsLinked, Shape, index_lt, read_node-unused,
}
use openeuler_ummu.Table.Walk.Step.{Step, apart_of}

-- A level block is taken for the node `i` of the level block `nr`, which is in use and does not link.
module _ (key : ℕ → ℕ) (s s' : State) (sh : Shape key s) (nr i fresh : ℕ) (l : nr < 2048)
    (li : i < 512) (u : used s nr ≡ 1) (lf : fresh < 2048) (free : used s fresh ≡ 0) (ws : List ℕ)
    (set : BitSet fresh 1 (s.level_block_bitmap) ws) (inv : LevelInv 512 (s'.ctx) × Roomy s')
    (bitmap : s'.level_block_bitmap ≡ ws) (k : Linked (nr / 4) (512 * (nr % 4) + i) s s')
    (leaf : (node_of s nr i).type_bit ≡ 1) where
  abbrev pub fresh_key : ℕ → ℕ
  fresh_key = update key fresh (512 * key nr + i)

  pub used_after : (x : ℕ) → used s' x ≡ (if x == fresh then 1 else used s x)
  used_after x = ap (λ w. bit_at w x) bitmap ∙ set x

  pub fresh_ne : (x : ℕ) → used s x ≡ 1 → x ≢ fresh
  fresh_ne x ux e = omega (arith, ux, free, ap (used s) e)

  pub taken_other :
      (x j : ℕ) → j < 512 → (x ≢ nr) ⊎ (j ≢ i) → Alike (node_of s x j) (node_of s' x j)
  taken_other x j lj h = k.other (x / 4) (512 * (x % 4) + j) (apart_of nr i x j li lj h)

  pub taken_leaf : (node_of s' nr i).type_bit ≡ 1
  taken_leaf = let (_, _, _, _, e) = k.relinked in ap (λ (t : TableNode). t.type_bit) e ∙ leaf

  pub fresh_blank : (j : ℕ) → j < 512 → (node_of s' fresh j).valid ≡ 0
  fresh_blank j lj = elim (taken_other fresh j lj (inl (λ e. fresh_ne nr u (sym e)))) [
    | inl e ↦ ap (λ (t : TableNode). t.valid) e ∙ sh.blank fresh j lf lj free
    | inr (a, b) ↦ b
  ]

  IsLinked-taken :
      (x j : ℕ) (n : TableNode)
      → used s x ≡ 1
      → IsLinked key (s.level_block_bitmap) x j n
      → IsLinked fresh_key (s'.level_block_bitmap) x j n
  IsLinked-taken x j n ux h v = (
    (h v).0,
    λ ty.
        let (t, lt, ut, ei, eo, ek) = (h v).1 ty in
        (
          t,
          lt,
          ground (arith, used_after t),
          ei,
          eo,
          update_other key fresh t _ (fresh_ne t ut)
              ∙ ek
              ∙ ap (λ y. 512 * y + j) (sym (update_other key fresh x _ (fresh_ne x ux))),
        ),
  )

  leaf_taken : IsLinked fresh_key (s'.level_block_bitmap) nr i (node_of s' nr i)
  leaf_taken v = (omega (arith, taken_leaf), λ ty. absurd (omega (arith, ty, taken_leaf)))

  links_old :
      (x j : ℕ)
      → x < 2048
      → j < 512
      → used s x ≡ 1
      → IsLinked fresh_key (s'.level_block_bitmap) x j (node_of s' x j)
  links_old x j lx lj ux = elim (same_or x j) [
    | inl (ex, ej) ↦
        subst (λ y. IsLinked fresh_key (s'.level_block_bitmap) x y (node_of s' x y)) (sym ej)
          (subst (λ y. IsLinked fresh_key (s'.level_block_bitmap) y i (node_of s' y i)) (sym ex)
            leaf_taken)
    | inr h ↦ elim (taken_other x j lj h) [
      | inl e ↦
          subst (IsLinked fresh_key (s'.level_block_bitmap) x j) (sym e)
            (IsLinked-taken x j (node_of s x j) ux (sh.links x j lx lj ux))
      | inr (a, b) ↦ λ v. absurd (omega (arith, v, b))
    ]
  ]
    where
      same_or : (x j : ℕ) → ((x ≡ nr) × (j ≡ i)) ⊎ ((x ≢ nr) ⊎ (j ≢ i))
      same_or x j = elim (ℕ_discrete x nr) [
        | no ne ↦ inr (inl ne)
        | yes e ↦ elim (ℕ_discrete j i) [ yes q ↦ inl (e, q) | no ne ↦ inr (inr ne) ]
      ]

  pub Shape-taken : Shape fresh_key s'
  Shape-taken = record {
    inv = inv.0;
    room = inv.1;
    links = λ x j lx lj ux. elim (ℕ_discrete x fresh) [
      | yes e ↦
          subst (λ y. IsLinked fresh_key (s'.level_block_bitmap) y j (node_of s' y j)) (sym e)
            (λ v. absurd (omega (arith, v, fresh_blank j lj)))
      | no ne ↦ links_old x j lx lj (ground (arith, used_after x))
    ];
    blank = λ x j lx lj ux.
        elim (taken_other x j lj (inl (λ e. ground (arith, used_after x, ap (used s) e)))) [
          | inl e ↦
              ap (λ (t : TableNode). t.valid) e ∙ sh.blank x j lx lj (ground (arith, used_after x))
          | inr (a, b) ↦ b
        ];
    keyed = λ x lx ux. elim (ℕ_discrete x fresh) [
      | yes e ↦
          omega (arith, ap fresh_key e, update_same key fresh (512 * key nr + i), sh.keyed nr l u)
      | no ne ↦ omega (
        arith,
        update_other key fresh x (512 * key nr + i) ne,
        sh.keyed x lx (ground (arith, used_after x)),
      )
    ];
  }

  pub grown_after : (x : ℕ) → x < 2048 → used s x ≡ 1 → used s' x ≡ 1
  grown_after x lx ux = ground (arith, used_after x)

  unfoldable pub step_taken : (touched : ℕ → Type 0) → touched (key nr) → Step key touched s s'
  step_taken touched m = record {
    key' = fresh_key;
    shape = Shape-taken;
    grown = grown_after;
    same_key = λ x lx ux. update_other key fresh x _ (fresh_ne x ux);
    away = λ x j lx lj ux n.
        taken_other x j lj (inl (λ e. n (subst (λ y. touched (key y)) (sym e) m)));
  }

-- A level block without a node in use holds nothing.
pub walk_blank :
    (s : State) (k nr a : ℕ)
    → ((j : ℕ) → j < 512 → (node_of s nr j).valid ≡ 0)
    → a < span k
    → walk_from s k nr a ≡ none
unfolding walk
walk_blank s zero nr a h l = refl
walk_blank s (suc k) nr a h l =
    read_node-unused (walk s k) (node_of s nr (a / span k)) (a % span k)
      (h (a / span k) (index_lt k a l))
