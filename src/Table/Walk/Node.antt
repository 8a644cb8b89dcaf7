-- ===== src/Table/Walk/Node.antt =====
-- Granting a range in one node of a level block: what the walks over that level block then find.
use openeuler_ummu.Base.{
  ℕ, suc, ◌+◌, ◌*◌, ◌/◌, ◌%◌, ◌^◌, ◌<◌, ◌≤◌, Option, none, some, List, ◌≡◌, ◌≢◌, ◌⊎◌, inl, inr,
  refl, sym, ap, ◌∙◌, arith, [], ◌∷◌, ◌==◌, if◌then◌else◌,
}
use mathlib.Core.Path.{subst, ap₂}
use openeuler_ummu.Mapt.{DataInfo, NodeWords}
use openeuler_ummu.Entry.{fill_words}
use openeuler_ummu.Table.{State, Block}
use openeuler_ummu.Table.Walk.Write.{Mapped}
use openeuler_ummu.Table.LevelBlock.Room.{HasRoom}
use openeuler_ummu.Table.LevelBlock.Inv.{BlockInv, used_levels, used_levels-positive}
use openeuler_ummu.Table.LevelBlock.Cells.{Alike}
use openeuler_ummu.Table.Walk.{Reading, reading, span, read_node, walk}
use openeuler_ummu.Table.Walk.Shape.{
  used, node_of, walk_from, Shape, Under, here, below, Under-le, IsSafe, walk_away, index_lt,
  rest_lt, read_node-Alike,
}
use openeuler_ummu.Table.Walk.Step.{Step}
use openeuler_ummu.Table.Walk.Range.{or_granted}

-- What a grant is to be read as.
abbrev pub granted : DataInfo → Reading
granted d = record {
  permission = d.perm % 2 ^ 6;
  e_bit = d.e_bit % 2;
  token_check = d.token_check % 2;
  held = if d.token_check == 1 then d.tokenval ∷ [] else [];
}

pub reading-fill :
    (w : NodeWords) (d : DataInfo) → d.token_check < 2 → reading (fill_words w d) ≡ granted d
unfolding fill_words
reading-fill w d h = ground arith

-- what `BlockInv` and the room say of an entry of the array
entry-Mapped :
    (ws : List ℕ) (i : ℕ) (o : Option Block)
    → BlockInv 512 ws i o
    → HasRoom o
    → 0 < used_levels ws i
    → (k : Block) × (o ≡ some k) × (0x1_0000 ≤ k.blk_size)
entry-Mapped ws i none h r u = absurd (omega (arith, h, u))
entry-Mapped ws i (some b) h r u = (b, refl, r)

-- A level block in use is there.
pub used-Mapped :
    (key : ℕ → ℕ) (s : State) (nr : ℕ) → Shape key s → nr < 2048 → used s nr ≡ 1 → Mapped (nr / 4) s
used-Mapped key s nr sh l u =
    entry-Mapped (s.level_block_bitmap) (nr / 4) _ (sh.inv.blocks (nr / 4) (omega arith))
      (sh.room.1 (nr / 4)) (used_levels-positive (s.level_block_bitmap) nr u)

-- the keys of the level block `κ` and of those below its node `i`
abbrev pub Touched : ℕ → ℕ → ℕ → Type 0
Touched κ i y = (y ≡ κ) ⊎ Under (512 * κ + i) y

-- the keys below another node of `κ`
abbrev pub Beside : ℕ → ℕ → ℕ → Type 0
Beside κ i y = (κ < y) × ¬ Under (512 * κ + i) y

pub Beside-IsSafe : (κ i : ℕ) → i < 512 → IsSafe (Touched κ i) (Beside κ i)
Beside-IsSafe κ i li = record {
  clear = λ y b t. elim t [ inl e ↦ omega (arith, e, b.0) | inr u ↦ b.1 u ];
  children = λ y c lc b. (
    omega (arith, b.0),
    λ u. elim u [
      | here _ e ↦ omega (arith, e, b.0)
      | below _ v ↦ b.1 (subst (Under (512 * κ + i)) (omega arith) v)
    ],
  );
}

pub Beside-child : (κ i j : ℕ) → 0 < κ → i < 512 → j < 512 → j ≢ i → Beside κ i (512 * κ + j)
Beside-child κ i j p li lj ne = (
  omega (arith, p),
  λ u. elim u [
    | here _ e ↦ ne (omega (arith, e))
    | below _ v ↦
        omega (arith, Under-le (512 * κ + i) κ (subst (Under (512 * κ + i)) (omega (arith)) v), p)
  ],
)

-- Node `i` of a level block now grants the range besides what it granted, and its other nodes are alike.
pub record NodeStep (d : DataInfo) (key : ℕ → ℕ) (k nr i base limit : ℕ) (s s' : State)
    : Type 0 where
  pub step : Step key (Touched (key nr) i) s s'
  pub others : (j : ℕ) → j < 512 → j ≢ i → Alike (node_of s nr j) (node_of s' nr j)
  pub result :
      (r : ℕ)
      → r < span k
      → read_node (walk s' k) (node_of s' nr i) r
        ≡ or_granted base limit (granted d) (read_node (walk s k) (node_of s nr i) r) r

module _ (d : DataInfo) (key : ℕ → ℕ) (k nr i base limit : ℕ) (s s' : State) (sh : Shape key s)
    (l : nr < 2048) (li : i < 512) (u : used s nr ≡ 1)
    (n : NodeStep d key k nr i base limit s s') where
  pub reads_here :
      (a : ℕ)
      → a < span (suc k)
      → a / span k ≡ i
      → walk_from s' (suc k) nr a
        ≡ or_granted base limit (granted d) (walk_from s (suc k) nr a) (a % span k)
  unfolding walk
  reads_here a la e =
      let r = a % span k in
      ap (λ x. read_node (walk s' k) (node_of s' nr x) r) e
      ∙ n.result r (rest_lt k a)
      ∙ ap (λ x. or_granted base limit (granted d) (read_node (walk s k) (node_of s nr x) r) r)
          (sym e)

  pub reads_beside :
      (a : ℕ)
      → a < span (suc k)
      → a / span k ≢ i
      → walk_from s' (suc k) nr a ≡ walk_from s (suc k) nr a
  unfolding walk
  reads_beside a la ne =
      let j = a / span k in
      let lj = index_lt k a la in
      sym (
        read_node-Alike (walk s k) (walk s' k) (node_of s nr j) (node_of s' nr j) (a % span k)
          (n.others j lj ne)
          λ v ty.
            let (t, lt, ut, ei, eo, ek) = (sh.links nr j l lj u (λ z. omega (arith, v, z))).1 ty in
            ap₂ (λ x y. walk s k x y (a % span k)) ei eo
            ∙ sym (
                walk_away key (Touched (key nr) i) (Beside (key nr) i) (Beside-IsSafe (key nr) i li)
                  s s' sh (n.step.away) k t (a % span k) (rest_lt k a) lt ut
                  (subst (Beside (key nr) i) (sym ek)
                    (Beside-child (key nr) i j (sh.keyed nr l u) li lj ne)))
            ∙ sym (ap₂ (λ x y. walk s' k x y (a % span k)) ei eo))
