-- ===== src/Table/Walk/Shape.antt =====
-- The shape of the table that a walk relies on. Each level block in use has a key: the indices that lead
-- to it, written as the digits of a number behind a leading 1. So a walk never reaches a level block that
-- another path leads to.
use openeuler_ummu.Base.{
  ℕ, zero, suc, ◌+◌, ◌*◌, ◌/◌, ◌%◌, ◌≤◌, ◌<◌, ◌≡◌, ◌≢◌, inl, inr, refl, sym, ap, ◌∙◌, arith, Option,
  none, List,
}
use mathlib.Core.Path.{subst, ap₂}
use native.Mathlib.Nat.{div-lt_iff_lt-mul, mod-lt}
use openeuler_ummu.Common.Bitmap.{bit_at}
use openeuler_ummu.Table.{State, TableNode, lvl_offset_of}
use openeuler_ummu.Table.LevelBlock.Inv.{LevelInv}
use openeuler_ummu.Table.LevelBlock.Room.{Roomy}
use openeuler_ummu.Table.LevelBlock.Cells.{Alike}
use openeuler_ummu.Table.Walk.{cell, Reading, span, read_node, walk}

-- whether a level block is in use
abbrev pub used : State → ℕ → ℕ
used s nr = bit_at (s.level_block_bitmap) nr

-- a node of a level block
abbrev pub node_of : State → ℕ → ℕ → TableNode
node_of s nr i = cell s (nr / 4) (512 * (nr % 4) + i)

abbrev pub walk_from : State → ℕ → ℕ → ℕ → Option Reading
walk_from s k nr a = walk s k (nr / 4) (512 * (nr % 4)) a

-- A node in use that links leads to a level block in use whose key says so.
abbrev pub IsLinked : (ℕ → ℕ) → List ℕ → ℕ → ℕ → TableNode → Type 0
IsLinked key ws nr i n =
    n.valid ≢ 0
    → (n.type_bit < 2)
      × (n.type_bit ≡ 0
          → (t : ℕ) × (t < 2048)
            × (bit_at ws t ≡ 1)
            × (n.next_lv_index ≡ t / 4)
            × (lvl_offset_of n ≡ 512 * (t % 4))
            × (key t ≡ 512 * key nr + i))

pub record Shape (key : ℕ → ℕ) (s : State) : Type 0 where
  pub inv : LevelInv 512 (s.ctx)
  pub room : Roomy s
  pub links :
      (nr i : ℕ)
      → nr < 2048
      → i < 512
      → used s nr ≡ 1
      → IsLinked key (s.level_block_bitmap) nr i (node_of s nr i)
  pub blank : (nr i : ℕ) → nr < 2048 → i < 512 → used s nr ≡ 0 → (node_of s nr i).valid ≡ 0
  pub keyed : (nr : ℕ) → nr < 2048 → used s nr ≡ 1 → 0 < key nr

-- `t` is a prefix of the key `y`.
pub data Under (t : ℕ) : ℕ → Type 0 where
  here : (y : ℕ) → y ≡ t → Under t y
  below : (y : ℕ) → Under t (y / 512) → Under t y

pub Under-le : (t y : ℕ) → Under t y → t ≤ y
Under-le t y (here _ e) = omega (arith, e)
Under-le t y (below _ u) = omega (arith, Under-le t (y / 512) u)

pub Under-child : (t i y : ℕ) → i < 512 → Under (512 * t + i) y → Under t y
Under-child t i y l (here _ e) = below y (here _ (omega (arith, e)))
Under-child t i y l (below _ u) = below y (Under-child t i (y / 512) l u)

-- Nodes of level blocks whose keys are not touched are alike.
abbrev pub Away : (ℕ → ℕ) → (ℕ → Type 0) → State → State → Type 0
Away key touched s s' =
    (nr i : ℕ)
    → nr < 2048
    → i < 512
    → used s nr ≡ 1
    → ¬ touched (key nr)
    → Alike (node_of s nr i) (node_of s' nr i)

pub read_node-ext :
    (f g : ℕ → ℕ → ℕ → Option Reading) (n : TableNode) (r : ℕ)
    → (n.valid ≡ 1
        → n.type_bit ≡ 0
        → f n.next_lv_index (lvl_offset_of n) r ≡ g n.next_lv_index (lvl_offset_of n) r)
    → read_node f n r ≡ read_node g n r
read_node-ext f g n r h = ground (arith, h)

pub read_node-unused :
    (f : ℕ → ℕ → ℕ → Option Reading) (n : TableNode) (r : ℕ) → n.valid ≡ 0 → read_node f n r ≡ none
read_node-unused f n r h = ground arith

pub read_node-Alike :
    (f g : ℕ → ℕ → ℕ → Option Reading) (n n' : TableNode) (r : ℕ)
    → Alike n n'
    → (n.valid ≡ 1
        → n.type_bit ≡ 0
        → f n.next_lv_index (lvl_offset_of n) r ≡ g n.next_lv_index (lvl_offset_of n) r)
    → read_node f n r ≡ read_node g n' r
read_node-Alike f g n n' r (inl e) h = read_node-ext f g n r h ∙ ap (λ t. read_node g t r) (sym e)
read_node-Alike f g n n' r (inr (x, y)) h =
    read_node-unused f n r x ∙ sym (read_node-unused g n' r y)

pub span_pos : (k : ℕ) → 0 < span k
span_pos zero = omega arith
span_pos (suc k) = omega (arith, span_pos k)

pub index_lt : (k a : ℕ) → a < span (suc k) → a / span k < 512
index_lt k a h =
    (div-lt_iff_lt-mul {k = span k} {x = a} {y = 512} (span_pos k)).1 (omega (arith, h))

pub rest_lt : (k a : ℕ) → a % span k < span k
rest_lt k a = mod-lt a (span_pos k)

-- Keys that no touched key lies below: closed under children.
pub record IsSafe (touched safe : ℕ → Type 0) : Type 0 where
  pub clear : (y : ℕ) → safe y → ¬ touched y
  pub children : (y c : ℕ) → c < 512 → safe y → safe (512 * y + c)

module _ (key : ℕ → ℕ) (touched safe : ℕ → Type 0) (ok : IsSafe touched safe) (s s' : State)
    (sh : Shape key s) (away : Away key touched s s') where
  read_away :
      (k nr i r : ℕ)
      → nr < 2048
      → i < 512
      → used s nr ≡ 1
      → safe (key nr)
      → ((t : ℕ) → t < 2048 → used s t ≡ 1 → safe (key t) → walk_from s' k t r ≡ walk_from s k t r)
      → read_node (walk s' k) (node_of s' nr i) r ≡ read_node (walk s k) (node_of s nr i) r
  read_away k nr i r l li u sf rest = sym (
      read_node-Alike (walk s k) (walk s' k) (node_of s nr i) (node_of s' nr i) r
        (away nr i l li u (ok.clear (key nr) sf))
        λ v ty.
          let (t, lt, ut, ei, eo, ek) = (sh.links nr i l li u (λ z. omega (arith, v, z))).1 ty in
          ap₂ (λ x y. walk s k x y r) ei eo
          ∙ sym (rest t lt ut (subst safe (sym ek) (ok.children (key nr) i li sf)))
          ∙ sym (ap₂ (λ x y. walk s' k x y r) ei eo))

  -- From a safe level block, a walk is as before.
  pub walk_away :
      (k nr a : ℕ)
      → a < span k
      → nr < 2048
      → used s nr ≡ 1
      → safe (key nr)
      → walk_from s' k nr a ≡ walk_from s k nr a
  unfolding walk
  walk_away zero nr a la l u sf = refl
  walk_away (suc k) nr a la l u sf =
      read_away k nr (a / span k) (a % span k) l (index_lt k a la) u sf
        (λ t lt ut st. walk_away k t (a % span k) (rest_lt k a) lt ut st)
