-- ===== src/Table/Walk/Descend.antt =====
-- A node in use gets a level block below it.
use openeuler_ummu.Base.{
  ℕ, ◌+◌, ◌*◌, ◌/◌, ◌%◌, ◌<◌, ◌≡◌, ◌≢◌, ◌⊎◌, inl, inr, refl, sym, ap, ◌∙◌, arith, Option, none,
  some, ◌==◌, not, Bool-cases,
}
use mathlib.Core.Path.{ap₂}
use openeuler_ummu.Common.Bitmap.{bit_at}
use openeuler_ummu.Mapt.{DataInfo}
use openeuler_ummu.Table.{
  Kernel, State, update_same, TableNode, node_at, M, pure, ◌>>=◌, ◌>>◌, load, store, lvl_offset_of,
}
use openeuler_ummu.Table.Run.{Runs, Runs-bind, Ends-Yields, Ends-weaken, Yields-both}
use openeuler_ummu.Table.LevelBlock.{LevelPtr, level_at, failed, ummu_alloc_level_block}
use openeuler_ummu.Table.LevelBlock.Alloc.{Taken, Allocated, ummu_alloc_level_block-Allocated}
use openeuler_ummu.Table.LevelBlock.Room.{Roomy, ummu_alloc_level_block-Roomy}
use openeuler_ummu.Table.LevelBlock.Cells.{IsBlank, Alike, Alike-trans, Linked}
use openeuler_ummu.Table.LevelBlock.Cells.Node.{LinkedIf, ummu_alloc_level_block-Linked}
use openeuler_ummu.Table.Fill.{descend}
use openeuler_ummu.Table.Walk.{Reading, span, read_node, walk}
use openeuler_ummu.Table.Walk.Write.{Writes, Steady, load-cell, store-Writes, cell-some, cell-Holds}
use openeuler_ummu.Table.Walk.Shape.{used, node_of, walk_from, IsLinked, Shape}
use openeuler_ummu.Table.Walk.Step.{Step, step_refl, step_trans, step_written, written_other}
use openeuler_ummu.Table.Walk.Taken.{step_taken, taken_other, fresh_blank, walk_blank}
use openeuler_ummu.Table.Walk.Node.{used-Mapped, Touched}
use openeuler_ummu.Table.Walk.Take.{pass_at}

-- Node `i` of a level block in use now links to a level block; what it is read as is as before.
pub record Descended (key : ℕ → ℕ) (k nr i : ℕ) (s s' : State) : Type 0 where
  pub step : Step key (Touched (key nr) i) s s'
  pub others : (j : ℕ) → j < 512 → j ≢ i → Alike (node_of s nr j) (node_of s' nr j)
  pub child : ℕ
  pub inside : child < 2048
  pub taken : used s' child ≡ 1
  pub valid : (node_of s' nr i).valid ≡ 1
  pub links : (node_of s' nr i).type_bit ≡ 0
  pub index : (node_of s' nr i).next_lv_index ≡ child / 4
  pub offset : lvl_offset_of (node_of s' nr i) ≡ 512 * (child % 4)
  pub child_key : step.key' child ≡ 512 * key nr + i
  pub same :
      (r : ℕ)
      → r < span k
      → read_node (walk s' k) (node_of s' nr i) r ≡ read_node (walk s k) (node_of s nr i) r

module _ (kernel : Kernel) (blank : IsBlank kernel) (key : ℕ → ℕ) (k nr i : ℕ) (s : State)
    (sh : Shape key s) (l : nr < 2048) (li : i < 512) (u : used s nr ≡ 1)
    (v : (node_of s nr i).valid ≡ 1) where
  -- it has one already
  linked-Descended : (node_of s nr i).type_bit ≢ 1 → Descended key k nr i s s
  unfolding step_refl
  linked-Descended ne =
      let (small, next) = sh.links nr i l li u (λ z. omega (arith, v, z)) in
      let ty : (node_of s nr i).type_bit ≡ 0 = omega (arith, small, ne) in
      let (t, lt, ut, ei, eo, ek) = next ty in
      record {
        step = step_refl key (Touched (key nr) i) s sh;
        others = λ j lj ne. inl refl;
        child = t;
        inside = lt;
        taken = ut;
        valid = v;
        links = ty;
        index = ei;
        offset = eo;
        child_key = ek;
        same = λ r lr. refl;
      }

  -- the node that links
  abbrev linking : State → TableNode
  linking s1 = record (node_of s1 nr i) { type_bit = 0 }

  module _ (s1 : State) (fresh : ℕ)
      (t : Taken
        (node_at (nr / 4) (512 * (nr % 4) + i))
        (node_of s nr i)
        (s.level_block_bitmap)
        fresh
        s1)
      (c : Linked (nr / 4) (512 * (nr % 4) + i) s s1) (room : Roomy s1)
      (leaf : (node_of s nr i).type_bit ≡ 1) where
    abbrev taken_step : Step key (Touched (key nr) i) s s1
    taken_step =
        step_taken key s s1 sh nr i fresh l li u t.inside t.free t.bitmap t.taken (t.kept.0, room)
          t.kept.1 c leaf (Touched (key nr) i) (inl refl)

    node_there : node_of s1 nr i ≡ t.node
    node_there =
        let (_, (m, e, f, _)) = t.there in cell-some s1 (nr / 4) (512 * (nr % 4) + i) m e ∙ f

    index_there : (node_of s1 nr i).next_lv_index ≡ fresh / 4
    index_there = ap (λ (n : TableNode). n.next_lv_index) node_there ∙ t.link_index

    offset_there : lvl_offset_of (node_of s1 nr i) ≡ 512 * (fresh % 4)
    offset_there = ap lvl_offset_of node_there ∙ t.link_offset

    valid_there : (node_of s1 nr i).valid ≡ 1
    valid_there = let (_, _, _, _, e) = c.relinked in ap (λ (n : TableNode). n.valid) e ∙ v

    fresh_used : used s1 fresh ≡ 1
    fresh_used = ground (arith, t.taken fresh, ap (λ w. bit_at w fresh) (t.kept.1))

    key_there : taken_step.key' fresh ≡ 512 * key nr + i
    unfolding step_taken
    key_there = update_same key fresh (512 * key nr + i)

    linking-IsLinked : IsLinked (taken_step.key') (s1.level_block_bitmap) nr i (linking s1)
    linking-IsLinked _ = (
      omega arith,
      λ _. (
        fresh,
        t.inside,
        fresh_used,
        index_there,
        offset_there,
        key_there ∙ ap (λ y. 512 * y + i) (sym (taken_step.same_key nr l u)),
      ),
    )

    linking_read :
        (f g : ℕ → ℕ → ℕ → Option Reading) (r : ℕ)
        → f ((node_of s1 nr i).next_lv_index) (lvl_offset_of (node_of s1 nr i)) r ≡ none
        → read_node f (linking s1) r ≡ read_node g (node_of s nr i) r
    linking_read f g r h = let (b, x, lo, hi, e) = c.relinked in ground (arith, h, v, leaf, e)

    module _ (s2 : State) (st : Steady s1 s2)
        (w : Writes (nr / 4) (512 * (nr % 4) + i) (linking s1) s1 s2) where
      abbrev linked_step : Step (taken_step.key') (Touched (key nr) i) s1 s2
      linked_step =
          step_written (taken_step.key') s1 s2 (taken_step.shape) st nr i (linking s1) l li
            (taken_step.grown nr l u) w linking-IsLinked (Touched (key nr) i)
            (inl (taken_step.same_key nr l u))

      still : (x j : ℕ) → j < 512 → (x ≢ nr) ⊎ (j ≢ i) → node_of s2 x j ≡ node_of s1 x j
      still =
          written_other (taken_step.key') s1 s2 (taken_step.shape) st nr i (linking s1) l li
            (taken_step.grown nr l u) w linking-IsLinked

      other_after :
          (x j : ℕ) → j < 512 → (x ≢ nr) ⊎ (j ≢ i) → Alike (node_of s x j) (node_of s1 x j)
      other_after =
          taken_other key s s1 sh nr i fresh l li u t.inside t.free t.bitmap t.taken
            (t.kept.0, room) t.kept.1 c leaf

      nothing_below : (r : ℕ) → r < span k → walk_from s2 k fresh r ≡ none
      nothing_below r lr =
          walk_blank s2 k fresh r
            (λ j lj.
              ap (λ (n : TableNode). n.valid)
                (still fresh j lj (inl (λ e. omega (arith, ap (used s) e, u, t.free))))
              ∙ fresh_blank key s s1 sh nr i fresh l li u t.inside t.free t.bitmap t.taken
                  (t.kept.0, room) t.kept.1 c leaf j lj)
            lr

      linked_now : Descended key k nr i s s2
      unfolding step_trans step_written
      linked_now = record {
        step = step_trans key (Touched (key nr) i) s s1 s2 taken_step linked_step;
        others = λ j lj ne.
            Alike-trans _ _ _ (other_after nr j lj (inr ne)) (inl (still nr j lj (inr ne)));
        child = fresh;
        inside = t.inside;
        taken = linked_step.grown fresh t.inside fresh_used;
        valid = ap (λ (n : TableNode). n.valid) (w.here) ∙ valid_there;
        links = ap (λ (n : TableNode). n.type_bit) (w.here);
        index = ap (λ (n : TableNode). n.next_lv_index) (w.here) ∙ index_there;
        offset = ap lvl_offset_of (w.here) ∙ offset_there;
        child_key = key_there;
        same = λ r lr.
            ap (λ n. read_node (walk s2 k) n r) (w.here)
            ∙ linking_read (walk s2 k) (walk s k) r
                (ap₂ (λ x y. walk s2 k x y r) index_there offset_there ∙ nothing_below r lr);
      }

    store-Descended :
        Runs
          (store (node_at (nr / 4) (512 * (nr % 4) + i)) (linking s1))
          s1
          (λ _ s2. Descended key k nr i s s2)
    store-Descended =
        Ends-weaken _ _ _
          (store-Writes (nr / 4) (512 * (nr % 4) + i) (linking s1) s1 (taken_step.shape.inv)
            (omega arith)
            (used-Mapped (taken_step.key') s1 nr (taken_step.shape) l (taken_step.grown nr l u))
            (omega arith))
          λ _ s2 x. linked_now s2 (x.0) (x.1)

  -- the part of `descend` behind the allocation
  abbrev link : LevelPtr → M ℕ
  link next = elim next [
    | failed errno ↦ pure errno
    | level_at _ _ ↦ do
      cur ← load (node_at (nr / 4) (512 * (nr % 4) + i))
      store (node_at (nr / 4) (512 * (nr % 4) + i)) (record cur { type_bit = 0 })
      pure 0
  ]

  link-Descended :
      (r : LevelPtr) (s1 : State)
      → (node_of s nr i).type_bit ≡ 1
      → Allocated
          (node_at (nr / 4) (512 * (nr % 4) + i))
          (node_of s nr i)
          (s.level_block_bitmap)
          r
          s1
      → LinkedIf kernel blank (nr / 4) (512 * (nr % 4) + i) (some (nr / 4)) s r s1
      → Roomy s1
      → Runs (link r) s1 (λ ret s2. ret ≡ 0 → Descended key k nr i s s2)
  link-Descended (failed e) s1 leaf (p, q, m) c room = λ z. absurd (omega (arith, p, z))
  link-Descended (level_at x o) s1 leaf (fresh, ex, eo, t) c room =
      rw
        (
          load-cell (nr / 4) (512 * (nr % 4) + i) s1
              (used-Mapped ((taken_step s1 fresh t c room leaf).key') s1 nr
                ((taken_step s1 fresh t c room leaf).shape) l
                ((taken_step s1 fresh t c room leaf).grown nr l u))
              (omega arith),
          ◌>>=◌,
        )
        (Runs-bind (λ _ s2. Descended key k nr i s s2) _
          (store (node_at (nr / 4) (512 * (nr % 4) + i)) (linking s1)) (λ _. pure {A = ℕ} 0) s1
          (store-Descended s1 fresh t c room leaf) (λ _ s2 dn _. dn))

  pub descend-Descended :
      (d : DataInfo) (base limit : ℕ)
      → Runs
          (descend kernel d (pass_at k nr base limit) i)
          s
          (λ ret s'. ret ≡ 0 → Descended key k nr i s s')
  unfolding descend
  descend-Descended d base limit =
      let there = used-Mapped key s nr sh l u in
      let ref = node_at (nr / 4) (512 * (nr % 4) + i) in
      rw (load-cell (nr / 4) (512 * (nr % 4) + i) s there (omega arith), ◌>>=◌)
        (elim (Bool-cases (not ((node_of s nr i).type_bit == 1))) [
          | inl e ↦ rw e (λ _. linked-Descended (ground arith))
          | inr e ↦ rw e (
              Runs-bind
                (λ r s1.
                  Allocated ref (node_of s nr i) (s.level_block_bitmap) r s1
                  × (LinkedIf kernel blank (nr / 4) (512 * (nr % 4) + i) (some (nr / 4)) s r s1
                      × Roomy s1))
                _ (ummu_alloc_level_block kernel ref (some (nr / 4))) link s
                (Ends-Yields _ _ _
                  (ummu_alloc_level_block-Allocated kernel ref (some (nr / 4)) (node_of s nr i)
                    (s.level_block_bitmap) s (sh.inv, refl)
                    (cell-Holds (nr / 4) (512 * (nr % 4) + i) s (omega arith) there (omega arith)))
                  (Yields-both _ _ _
                    (ummu_alloc_level_block-Linked kernel blank (nr / 4) (512 * (nr % 4) + i)
                      (some (nr / 4)) s v)
                    (ummu_alloc_level_block-Roomy kernel ref (some (nr / 4)) s (sh.room))))
                (λ r s1 x. link-Descended r s1 (ground arith) (x.0) (x.1.0) (x.1.1)))
        ])
