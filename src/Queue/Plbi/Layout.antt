-- ===== src/Queue/Plbi/Layout.antt =====
-- Where the queues lie in the mapped memory.
use openeuler_ummu.Base.{
  ℕ, zero, suc, ◌+◌, ◌*◌, ◌/◌, ◌%◌, ◌^◌, ◌≤◌, ◌<◌, ◌≡◌, refl, sym, ap, ◌∙◌, arith, List, [], ◌∷◌,
  wsub,
}
use mathlib.Core.Path.{subst}
use native.Mathlib.Nat.{pow-suc, one-le-pow, pow-le-pow_right, mul-le-mul, mod-eq_of_lt}
use openeuler_ummu.Base.Bits.{pow-add}
use openeuler_ummu.Queue.Command.{Sizes}
use openeuler_ummu.Queue.Plbi.{
  TidInfo, QueueArgs, ctz, page_shift, queue_args, queue_bytes, sizes_of,
}

-- The queues tile the memory from `start` to `end`: each has its command ring of 16-byte entries, then
-- its completion ring of 4-byte entries, then its control page.
abbrev pub Tiled : ℕ → Sizes → ℕ → ℕ → List QueueArgs → Type 0
Tiled page sizes start end [] = start ≡ end
Tiled page sizes start end (a ∷ args) =
    (a.cmd_entry ≡ start)
    × (a.cpl_entry ≡ start + 16 * 2 ^ sizes.cmd_que_pi_size)
    × (a.ctrl_page ≡ a.cpl_entry + 4 * 2 ^ sizes.cpl_que_size)
    × Tiled page sizes (a.ctrl_page + page) end args

ctz-pow : (n j : ℕ) → j < n → ctz n (2 ^ j) ≡ j
unfolding ctz
ctz-pow zero j h = absurd (omega arith)
ctz-pow (suc n) zero h = ground arith
ctz-pow (suc n) (suc j) h =
    let half : 2 ^ suc j / 2 ≡ 2 ^ j = omega (arith, pow-suc 2 j) in
    let even : 2 ^ suc j % 2 ≡ 0 = omega (arith, pow-suc 2 j) in
    rw (half, even, ctz-pow n j (omega arith)) (omega arith)

page_shift-pow : (j : ℕ) → j ≤ 8 → page_shift (4096 * 2 ^ j) ≡ 12 + j
unfolding page_shift
page_shift-pow j h =
    let small : 2 ^ j ≤ 2 ^ 8 = pow-le-pow_right {n = 2} (omega arith) {i = j} {j = 8} h in
    let e : 4096 * 2 ^ j / 0x1000 ≡ 2 ^ j = omega arith in
    let f : 2 ^ j % 2 ^ 32 ≡ 2 ^ j = omega arith in
    rw (e, f) (ground (arith, ctz-pow 32 j, one-le-pow j 2))

-- A ring of `2 ^ (order + page_shift - shift)` entries of `2 ^ shift` bytes fills its `2 ^ order` pages.
ring_bytes :
    (order j shift : ℕ)
    → j ≤ 8
    → order ≤ 15
    → shift ≤ 12
    → 2 ^ shift * 2 ^ wsub 16 (order + page_shift (4096 * 2 ^ j) % 2 ^ 8) shift
      ≡ 4096 * 2 ^ j * 2 ^ order
ring_bytes order j shift hj ho hs =
    let sum : shift + wsub 16 (order + (12 + j) % 2 ^ 8) shift ≡ 12 + j + order = omega arith in
    let shifted : page_shift (4096 * 2 ^ j) ≡ 12 + j = page_shift-pow j hj in
    rw shifted (
      sym (pow-add shift (wsub 16 (order + (12 + j) % 2 ^ 8) shift))
      ∙ ap (λ (t : ℕ). 2 ^ t) sum
      ∙ pow-add (12 + j) order
      ∙ ap (λ (t : ℕ). t * 2 ^ order) (pow-add 12 j))

below : (n : ℕ) → n ≤ 2 ^ 20 * 2 ^ 17 → n % 2 ^ 64 ≡ n
below n h = mod-eq_of_lt (omega arith)

-- The bounds keep the sizes below `2 ^ 64`.
queue_bytes-small :
    (j : ℕ)
    → (info : TidInfo) → j ≤ 8
    → info.pcmdq_order ≤ 15
    → info.pcplq_order ≤ 15
    → queue_bytes (4096 * 2 ^ j) info
      ≡ 4096 * 2 ^ j * (1 + 2 ^ info.pcmdq_order + 2 ^ info.pcplq_order)
queue_bytes-small j info hj hc hp =
    let pages : 2 ^ j ≤ 2 ^ 8 = pow-le-pow_right {n = 2} (omega arith) {i = j} {j = 8} hj in
    let cmds : 2 ^ info.pcmdq_order ≤ 2 ^ 15 =
      pow-le-pow_right {n = 2} (omega arith) {i = info.pcmdq_order} {j = 15} hc in
    let cpls : 2 ^ info.pcplq_order ≤ 2 ^ 15 =
      pow-le-pow_right {n = 2} (omega arith) {i = info.pcplq_order} {j = 15} hp in
    let page : 4096 * 2 ^ j ≤ 2 ^ 20 = omega arith in
    let count : 1 + 2 ^ info.pcmdq_order + 2 ^ info.pcplq_order ≤ 2 ^ 17 = omega arith in
    below _ (mul-le-mul page count)

-- The sums that `queue_args` forms, for a page of `p` bytes and rings of `c` and of `d` pages.
after_cpl : (start p c d : ℕ) → start + p * (c + d) ≡ start + p * c + p * d
after_cpl start p c d = grind arith

after_page : (start p c d : ℕ) → start + p * (1 + c + d) ≡ start + p * (c + d) + p
after_page start p c d = grind arith

rest_at :
    (page : ℕ)
    → (sizes : Sizes) → {start start' end end' : ℕ} → (args : List QueueArgs) → start ≡ start'
    → end ≡ end'
    → Tiled page sizes start end args
    → Tiled page sizes start' end' args
rest_at page sizes {start} {start'} {end} {end'} args e f t =
    subst (λ (s : ℕ). Tiled page sizes s end' args) e
      (subst (λ (s : ℕ). Tiled page sizes start s args) f t)

-- For pages of 4K to 1M (a power of two) and rings of at most 2^15 pages, the queues fill the mapped
-- memory without gap or overlap: each begins with a command ring of 16-byte entries, which ends where
-- the completion ring of 4-byte entries begins, which ends where the control page begins; the next
-- queue begins behind that page, and the last one ends with the memory.
pub queue_args-Tiled :
    (n j : ℕ)
    → (info : TidInfo) → (start : ℕ) → j ≤ 8
    → info.pcmdq_order ≤ 15
    → info.pcplq_order ≤ 15
    → Tiled
        (4096 * 2 ^ j)
        (sizes_of (4096 * 2 ^ j) info)
        start
        (start + n * queue_bytes (4096 * 2 ^ j) info)
        (queue_args n (4096 * 2 ^ j) (queue_bytes (4096 * 2 ^ j) info) info start)
unfolding queue_args
queue_args-Tiled zero j info start hj hc hp = omega arith
queue_args-Tiled (suc n) j info start hj hc hp =
    let cmds : 4096 * 2 ^ j * 2 ^ info.pcmdq_order
        ≡ 16 * 2 ^ wsub 16 (info.pcmdq_order + page_shift (4096 * 2 ^ j) % 2 ^ 8) 4 =
      sym (ring_bytes info.pcmdq_order j 4 hj hc (omega arith)) in
    let cpls : 4096 * 2 ^ j * 2 ^ info.pcplq_order
        ≡ 4 * 2 ^ wsub 16 (info.pcplq_order + page_shift (4096 * 2 ^ j) % 2 ^ 8) 2 =
      sym (ring_bytes info.pcplq_order j 2 hj hp (omega arith)) in
    let bytes : start + queue_bytes (4096 * 2 ^ j) info
        ≡ start + 4096 * 2 ^ j * (2 ^ info.pcmdq_order + 2 ^ info.pcplq_order) + 4096 * 2 ^ j =
      ap (λ (t : ℕ). start + t) (queue_bytes-small j info hj hc hp)
      ∙ after_page start (4096 * 2 ^ j) (2 ^ info.pcmdq_order) (2 ^ info.pcplq_order) in
    let rest = queue_args-Tiled n j info (start + queue_bytes (4096 * 2 ^ j) info) hj hc hp in
    let end : start + queue_bytes (4096 * 2 ^ j) info + n * queue_bytes (4096 * 2 ^ j) info
        ≡ start + suc n * queue_bytes (4096 * 2 ^ j) info =
      grind arith in
    (
      refl,
      ap (λ (t : ℕ). start + t) cmds,
      after_cpl start (4096 * 2 ^ j) (2 ^ info.pcmdq_order) (2 ^ info.pcplq_order)
          ∙ ap (λ (t : ℕ). start + 4096 * 2 ^ j * 2 ^ info.pcmdq_order + t) cpls,
      rest_at (4096 * 2 ^ j) (sizes_of (4096 * 2 ^ j) info)
          (queue_args n (4096 * 2 ^ j) (queue_bytes (4096 * 2 ^ j) info) info
            (start + queue_bytes (4096 * 2 ^ j) info))
          bytes end rest,
    )
