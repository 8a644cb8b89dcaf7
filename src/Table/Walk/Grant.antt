-- ===== src/Table/Walk/Grant.antt =====
-- The table of a tid and what it says of an address, from its creation on.
use openeuler_ummu.Base.{
  ℕ, ◌+◌, ◌*◌, ◌/◌, ◌%◌, ◌^◌, ◌≤◌, ◌<◌, ◌≡◌, inl, inr, refl, ap, ◌∙◌, arith, Bool, Option, none,
  some,
}
use openeuler_ummu.Mapt.{DataInfo, grant, table_lvl_offset}
use openeuler_ummu.Table.{Kernel, State, TableNode, local, zero_node, M, ◌>>◌}
use openeuler_ummu.Table.Run.{Runs, Ends, Ends-Yields, Ends-weaken, Ends-run, Yields-both}
use openeuler_ummu.Common.Bitmap.{bit_at}
use openeuler_ummu.Table.LevelBlock.{LevelPtr, level_at, failed}
use openeuler_ummu.Table.LevelBlock.Inv.{LevelInv}
use openeuler_ummu.Table.LevelBlock.Room.{Roomy, ummu_alloc_level_block-Roomy}
use openeuler_ummu.Table.LevelBlock.Cells.{IsBlank, AllAlike}
use openeuler_ummu.Table.LevelBlock.Cells.Local.{ummu_alloc_level_block-AllAlike}
use openeuler_ummu.Table.Create.{empty_ctx, Created, init_table-Created}
use openeuler_ummu.Table.Walk.Taken.{walk_blank}
use openeuler_ummu.Table.Fill.{ummu_table_fill_node_by_level}
use openeuler_ummu.Table.Op.{reset_local, ummu_table_op, init_table}
use openeuler_ummu.Table.Walk.{Reading, walk, cell}
use openeuler_ummu.Table.Walk.Shape.{used, Shape, walk_away}
use openeuler_ummu.Table.Walk.Range.{or_granted}
use openeuler_ummu.Table.Walk.Node.{granted}
use openeuler_ummu.Table.Walk.Fill.{fill_by_level-FillsBelow}
use openeuler_ummu.Table.Walk.FillAt.{Filled}

-- The table has the shape that a walk relies on, with blocks of 64K or more, and level block 0, where a walk
-- starts, is in use.
abbrev pub IsTable : State → Type 0
IsTable s = (key : ℕ → ℕ) × Shape key s × (used s 0 ≡ 1)

-- what the table says of an address
abbrev pub lookup : State → ℕ → Option Reading
lookup s a = walk s 4 0 0 a

-- The same table in another state: a table's shape and what it says do not depend on the local node.
module _ (s : State) (root : TableNode) (lvl calls : ℕ) where
  abbrev pub again : State
  again = record { ctx = s.ctx; root = root; lvl = lvl; calls = calls }

  pub Shape-again : (key : ℕ → ℕ) → Shape key s → Shape key again
  unfolding cell
  Shape-again key sh = record {
    inv = sh.inv;
    room = sh.room;
    links = sh.links;
    blank = sh.blank;
    keyed = sh.keyed;
  }

  pub IsTable-again : IsTable s → IsTable again
  IsTable-again (key, sh, u) = (key, Shape-again key sh, u)

  pub lookup-again : IsTable s → (a : ℕ) → a < 2 ^ 48 → lookup again a ≡ lookup s a
  unfolding cell
  lookup-again (key, sh, u) a l =
      walk_away key (λ _. ⊥) (λ _. Unit) (record { clear = λ y _ t. t; children = λ y c _ _. tt }) s
        again sh (λ nr i _ _ _ _. inl refl) 4 0 a l (omega arith) u tt

-- the first part of `ummu_table_op` for a grant
abbrev pub fill_table : Kernel → DataInfo → M ℕ
fill_table kernel d =
    reset_local >> ummu_table_fill_node_by_level kernel d 4 local d.data_base d.data_limit

abbrev pub Granted : Kernel → DataInfo → State → ℕ → State → Type 0
Granted kernel d s ret s' =
    ret ≡ 0
    → (ummu_table_op kernel d s ≡ some (0, s'))
      × IsTable s'
      × ((a : ℕ)
          → a < 2 ^ 48
          → lookup s' a ≡ or_granted d.data_base d.data_limit (granted d) (lookup s a) a)

op_of_fill :
    (kernel : Kernel) (d : DataInfo) (s s' : State)
    → d.op ≡ grant
    → fill_table kernel d s ≡ some (0, s')
    → ummu_table_op kernel d s ≡ some (0, s')
unfolding ummu_table_op
op_of_fill kernel d s s' op e = rw (op, e) refl

module _ (kernel : Kernel) (blank : IsBlank kernel) (d : DataInfo) (tok : d.token_check < 2)
    (op : d.op ≡ grant) (ordered : d.data_base ≤ d.data_limit) (small : d.data_limit < 2 ^ 48) where
  pub fill_table-Granted :
      (s : State) → IsTable s → Runs (fill_table kernel d) s (Granted kernel d s)
  unfolding table_lvl_offset
  fill_table-Granted s (key, sh, u) =
      let p : ℕ → State → Type 0 = λ ret s'.
        ret ≡ 0
        → Filled d key 4 0 d.data_base d.data_limit (again s zero_node (s.lvl) (s.calls)) s' in
      Ends-weaken _ _ (fill_table kernel d s)
        (Ends-run p (fill_table kernel d s) (
          fill_by_level-FillsBelow kernel blank d tok 4 (omega arith) key local zero_node 0
            d.data_base d.data_limit (again s zero_node (s.lvl) (s.calls))
            (Shape-again s zero_node (s.lvl) (s.calls) key sh) refl refl refl (omega arith) u
            ordered small))
        λ ret s' (h, run) z.
          let f = h z in
          (
            op_of_fill kernel d s s' op (run ∙ ap (λ r. some (r, s')) z),
            (f.step.key', f.step.shape, f.step.grown 0 (omega arith) u),
            λ a l.
                f.reads a l
                ∙ ap (λ o. or_granted d.data_base d.data_limit (granted d) o a)
                    (lookup-again s zero_node (s.lvl) (s.calls) (key, sh, u) a l),
          )

-- A walk over a table without a node in use finds nothing.
module _ (s : State) (inv : LevelInv 512 (s.ctx)) (room : Roomy s) (root : used s 0 ≡ 1)
    (free : (c j : ℕ) → (cell s c j).valid ≡ 0) where
  blank-IsTable : IsTable s
  blank-IsTable = (
    (λ _. 1),
    record {
      inv = inv;
      room = room;
      links = λ nr i l li u v. absurd (omega (arith, v, free (nr / 4) (512 * (nr % 4) + i)));
      blank = λ nr i l li u. free (nr / 4) (512 * (nr % 4) + i);
      keyed = λ nr l u. omega arith;
    },
    root,
  )

  blank-lookup : (a : ℕ) → a < 2 ^ 48 → lookup s a ≡ none
  blank-lookup a l = walk_blank s 4 0 a (λ j lj. free 0 (0 + j)) l

-- a fresh table, in which no address is granted
abbrev pub Fresh : LevelPtr → State → Type 0
Fresh (failed e) s = Unit
Fresh (level_at index offset) s = IsTable s × ((a : ℕ) → a < 2 ^ 48 → lookup s a ≡ none)

module _ (kernel : Kernel) (blank : IsBlank kernel) (n : TableNode) (expan : Bool) (size calls : ℕ)
    (room : 0x1_0000 ≤ size) where
  start : State
  start = record { ctx = empty_ctx expan size; root = n; lvl = 3; calls = calls }

  start_blank : (s : State) → AllAlike start s → (c j : ℕ) → (cell s c j).valid ≡ 0
  unfolding cell start
  start_blank s a c j = elim (a c j) [ inl e ↦ ap (λ (t : TableNode). t.valid) e | inr (x, y) ↦ y ]

  Created-Fresh : (r : LevelPtr) (s : State) → Created r s → AllAlike start s → Roomy s → Fresh r s
  Created-Fresh (failed e) s c a r = tt
  Created-Fresh (level_at index offset) s (_, _, (ws, v, bits), _, _) a r =
      let root : used s 0 ≡ 1 = ap (λ w. bit_at w 0) (v.1) ∙ bits 0 in
      (
        blank-IsTable s (v.0) r root (start_blank s a),
        blank-lookup s (v.0) r root (start_blank s a),
      )

  pub init_table-Fresh : Ends (init_table kernel n expan size calls) Fresh
  unfolding init_table start
  init_table-Fresh =
      Ends-weaken _ _ (init_table kernel n expan size calls)
        (Ends-Yields _ _ (init_table kernel n expan size calls)
          (init_table-Created kernel n expan size calls)
          (Yields-both (λ _ s. AllAlike start s) (λ _ s. Roomy s)
            (init_table kernel n expan size calls)
            (ummu_alloc_level_block-AllAlike kernel blank none start)
            (ummu_alloc_level_block-Roomy kernel local none start (room, λ c. tt))))
        (λ r s x. Created-Fresh r s (x.0) (x.1.0) (x.1.1))
