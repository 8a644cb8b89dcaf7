-- ===== src/Table/Walk/Take.antt =====
-- A node that is not in use takes its part of a range.
use openeuler_ummu.Base.{
  ℕ, ◌+◌, ◌-◌, ◌*◌, ◌/◌, ◌%◌, ◌^◌, ◌<◌, ◌≡◌, ◌≢◌, inl, inr, refl, sym, ap, ◌∙◌, arith, Option, none,
  some, if◌then◌else◌,
}
use mathlib.Core.Path.{ap₂}
use openeuler_ummu.Mapt.{DataInfo, table_addr_low, table_addr_high, addr_full}
use openeuler_ummu.Mapt.Addr.{table_addr_high-div, split_round_trips}
use openeuler_ummu.Entry.{fill_words}
use openeuler_ummu.Table.{
  Kernel, State, TableNode, node_at, ◌>>=◌, store, node_base_of, node_limit_of,
}
use openeuler_ummu.Table.Run.{Runs, Runs-bind}
use openeuler_ummu.Table.Node.{ummu_table_fill_node, modify_block, add_entry_cnt}
use openeuler_ummu.Table.Fill.{Pass, pass_of, node_base, node_limit, take_node}
use openeuler_ummu.Table.Walk.{Reading, reading, read_node, walk}
use openeuler_ummu.Table.Walk.Write.{load-cell, store-Writes, modify_block-Same}
use openeuler_ummu.Table.Walk.Shape.{used, node_of, IsLinked, Shape}
use openeuler_ummu.Table.Walk.Step.{step_trans, step_written, Step-same, written_other}
use openeuler_ummu.Table.Walk.Range.{within, or_granted}
use openeuler_ummu.Table.Walk.Node.{granted, reading-fill, used-Mapped, Touched, NodeStep}

-- the pass over a level block with `k` levels below it
abbrev pub pass_at : ℕ → ℕ → ℕ → ℕ → Pass
pass_at k nr base limit = pass_of (nr / 4) (512 * (nr % 4)) (3 - k) base limit

base-fill :
    (n : TableNode) (nb nl : ℕ) (d : DataInfo)
    → nb < 2 ^ 39
    → node_base_of (ummu_table_fill_node n nb nl d) ≡ nb
unfolding ummu_table_fill_node
base-fill n nb nl d h =
    let e : table_addr_high nb % 2 ^ 7 ≡ table_addr_high nb =
      omega (arith, table_addr_high-div nb) in
    ap (addr_full (table_addr_low nb)) e
    ∙ (split_round_trips 0 nb 0 (omega arith) h (omega arith)).1

limit-fill :
    (n : TableNode) (nb nl : ℕ) (d : DataInfo)
    → nl < 2 ^ 39
    → node_limit_of (ummu_table_fill_node n nb nl d) ≡ nl
unfolding ummu_table_fill_node
limit-fill n nb nl d h =
    let e : table_addr_high nl % 2 ^ 7 ≡ table_addr_high nl =
      omega (arith, table_addr_high-div nl) in
    ap (addr_full (table_addr_low nl)) e
    ∙ (split_round_trips 0 nl 0 (omega arith) h (omega arith)).1

read_leaf :
    (f : ℕ → ℕ → ℕ → Option Reading) (n : TableNode) (r : ℕ) (g : Reading)
    → n.valid ≡ 1
    → n.type_bit ≡ 1
    → reading n.words ≡ g
    → read_node f n r ≡ (if within (node_base_of n) (node_limit_of n) r then some g else none)
read_leaf f n r g v t e = ground (arith, ap some e)

read_none :
    (f : ℕ → ℕ → ℕ → Option Reading) (n : TableNode) (r : ℕ) → n.valid ≢ 1 → read_node f n r ≡ none
read_none f n r h = ground arith

read_fill :
    (f : ℕ → ℕ → ℕ → Option Reading) (n : TableNode) (nb nl r : ℕ) (d : DataInfo)
    → nb < 2 ^ 39
    → nl < 2 ^ 39
    → d.token_check < 2
    → read_node f (ummu_table_fill_node n nb nl d) r
      ≡ (if within nb nl r then some (granted d) else none)
unfolding ummu_table_fill_node fill_words
read_fill f n nb nl r d hb hl tok =
    read_leaf f (ummu_table_fill_node n nb nl d) r (granted d) refl refl
      (reading-fill n.words d tok)
    ∙ ap₂ (λ x y. if within x y r then some (granted d) else none) (base-fill n nb nl d hb)
        (limit-fill n nb nl d hl)

module _ (kernel : Kernel) (d : DataInfo) (tok : d.token_check < 2) (key : ℕ → ℕ)
    (k nr base limit i : ℕ) (s : State) (sh : Shape key s) (l : nr < 2048) (li : i < 512)
    (u : used s nr ≡ 1) where
  abbrev nb : ℕ
  nb = node_base (pass_at k nr base limit) i

  abbrev nl : ℕ
  nl = node_limit (pass_at k nr base limit) i

  abbrev filled : TableNode
  filled = ummu_table_fill_node (node_of s nr i) nb nl d

  pub take_node-NodeStep :
      nb < 2 ^ 39
      → nl < 2 ^ 39
      → (node_of s nr i).valid ≢ 1
      → Runs
          (take_node kernel d (pass_at k nr base limit) i)
          s
          (λ _ s'. NodeStep d key k nr i nb nl s s')
  unfolding take_node ummu_table_fill_node
  take_node-NodeStep hb hl free =
      let b = nr / 4 in
      let there = used-Mapped key s nr sh l u in
      rw (load-cell b (512 * (nr % 4) + i) s there (omega arith), ◌>>=◌)
        (Runs-bind _ _ (store (node_at b (512 * (nr % 4) + i)) filled) _ s
          (store-Writes b (512 * (nr % 4) + i) filled s sh.inv (omega arith) there (omega arith))
          λ _ s1 (st, w).
            let leaf : IsLinked key (s.level_block_bitmap) nr i filled =
              λ v. (omega arith, λ ty. absurd (omega (arith, ty))) in
            let a =
              step_written key s s1 sh st nr i filled l li u w leaf (Touched (key nr) i)
                (inl refl) in
            Runs-bind _ _ (modify_block add_entry_cnt (512 * (nr % 4)) b) _ s1
              (modify_block-Same add_entry_cnt (512 * (nr % 4)) b s1 (λ _ k. refl) (λ _ k. refl)
                (λ _ k. refl) (λ _ k j. refl) (st.0) (omega arith)
                (used-Mapped (a.key') s1 nr (a.shape) l (a.grown nr l u)) (omega arith))
              λ _ s2 c. record {
                step =
                    step_trans key (Touched (key nr) i) s s1 s2 a
                      (Step-same (a.key') s1 s2 (a.shape) (c.steady) c (Touched (key nr) i));
                others = λ j lj ne. inl (
                    c.cells _ _
                    ∙ written_other key s s1 sh st nr i filled l li u w leaf nr j lj (inr ne));
                result = λ r lr.
                    ap (λ n. read_node (walk s2 k) n r) (c.cells _ _ ∙ w.here)
                    ∙ read_fill (walk s2 k) (node_of s nr i) nb nl r d hb hl tok
                    ∙ sym (
                        ap (λ o. or_granted nb nl (granted d) o r)
                          (read_none (walk s k) (node_of s nr i) r free));
              })
