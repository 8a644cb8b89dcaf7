-- ===== src/Context/Allocate.antt =====
-- What `ummu_allocate_tid` does to the tids of the kernel and of the map.
use openeuler_ummu.Base.{
  ℕ, ◌*◌, ◌%◌, ◌^◌, ◌<◌, ◌≡◌, ◌⊎◌, refl, ◌==◌, Bool, true, not, Bool-cases, inl, inr, Option, none,
  some, Option-cases, List, [], enomem, bit_and,
}
use openeuler_ummu.Table.{State}
use openeuler_ummu.Table.Run.{Ends}
use openeuler_ummu.Table.Create.{init_table-Created}
use openeuler_ummu.Table.LevelBlock.{LevelPtr}
use openeuler_ummu.Table.Op.{init_table}
use openeuler_ummu.Queue.Command.{Queue}
use openeuler_ummu.Queue.Plbi.{
  TidInfo, QueueInfo, Request, sizes_of, queue_bytes, ummu_queue_create,
}
use openeuler_ummu.Queue.Plbi.Ends.{AllFit, Ready, DevicesFit, holds, ummu_queue_destroy-ends}
use openeuler_ummu.Context.{Base, no_base, MaptInfo, World}
use openeuler_ummu.Context.Create.{
  root_created, ummu_create_seg_mng, ummu_mapt_entry_init, ummu_mapt_table_ctx_init, mapt_mem,
  ummu_alloc_mapt_mem, mapt_init, ummu_mapt_create,
}

-- What the kernel promises of the queues for `info`: the completion queue has at most 2^15 entries,
-- the memory that it maps has indices that fit, and so do those that the devices write.
pub record QueuesFor (w : World) (info : TidInfo) : Type 0 where
  pub small : (sizes_of w.queue_kernel.page_size info).cpl_que_size < 16
  pub mapped :
      (size start : ℕ) (memory : List Queue)
      → w.queue_kernel.mmap size ≡ some (start, memory)
      → AllFit (sizes_of w.queue_kernel.page_size info) memory
  pub fits :
      (i t : ℕ)
      → (w.devices i).ucplq_pi t < 2 * 2 ^ (sizes_of w.queue_kernel.page_size info).cpl_que_size

Ends-some :
    (o : Option (LevelPtr × State)) (q : LevelPtr → State → Type 0)
    → Ends o q
    → (r : LevelPtr × State) × (o ≡ some r)
Ends-some none q h = absurd h
Ends-some (some r) q h = (r, refl)

table_ctx_init-ends :
    (w : World) (info : TidInfo) → (r : ℕ × Base) × (ummu_mapt_table_ctx_init w info ≡ some r)
unfolding ummu_mapt_table_ctx_init
table_ctx_init-ends w info =
    let expan : Bool = not (bit_and info.hw_cap 1 == 0) in
    let (r, run) =
      Ends-some (init_table w.table_kernel w.blank_node expan info.blk_exp_size 0) _
        (init_table-Created w.table_kernel w.blank_node expan info.blk_exp_size 0) in
    elim (Bool-cases w.malloc_table_ctx) [
      | inr e ↦ ((enomem, no_base), rw e refl)
      | inl e ↦ elim (Bool-cases ((ummu_create_seg_mng w).0 == 0)) [
        | inr n ↦ ((enomem, no_base), rw (e, n) refl)
        | inl n ↦ (root_created ((ummu_create_seg_mng w).1) r, rw (e, n, run) refl)
      ]
    ]

mapt_init-ends :
    (w : World) (info : TidInfo) (mode : ℕ) → (r : ℕ × Base) × (mapt_init w info mode ≡ some r)
unfolding mapt_init
mapt_init-ends w info mode = elim (Bool-cases (mode == 1)) [
  | inl e ↦ (ummu_mapt_entry_init w, rw e refl)
  | inr e ↦ let (r, run) = table_ctx_init-ends w info in (r, rw e run)
]

-- Queues that were created are in order.
abbrev pub InOrder : World → QueueInfo → Type 0
InOrder w q = Ready q × DevicesFit w.devices q

ummu_queue_create-InOrder :
    (w : World) (info : TidInfo) (q : QueueInfo)
    → QueuesFor w info
    → let (q', ret) = ummu_queue_create w.queue_kernel info q in (ret == 0) ≡ true → InOrder w q'
unfolding ummu_queue_create
ummu_queue_create-InOrder w info q f =
    let size = queue_bytes w.queue_kernel.page_size info * info.ummu_cnt % 2 ^ 64 in
    elim (Bool-cases (q.kcmd_plbi == 0)) [
      | inr k ↦ rw k (λ _. (inl k, λ u. cc))
      | inl u ↦ elim (Bool-cases w.queue_kernel.malloc) [
        | inr e ↦ rw (u, e) (λ ok. cc)
        | inl e ↦ elim (Bool-cases (size == 0)) [
          | inl z ↦ rw (u, e, z) (λ ok. cc)
          | inr z ↦ elim (Option-cases (w.queue_kernel.mmap size)) [
            | inl n ↦ rw (u, e, z, n) (λ ok. cc)
            | inr ((start, memory), n) ↦
                rw (u, e, z, n) (λ ok. (inr (f.small, f.mapped size start memory n), λ _. f.fits))
          ]
        ]
      ]
    ]

-- A creation ends and gives no tid back; a structure that it makes is in use, with its queues in order.
abbrev pub Made : World → Option (Option MaptInfo × List Request) → Type 0
Made w run =
    (created : Option MaptInfo) × (rs : List Request) × (run ≡ some (created, rs))
    × ((t : ℕ) (held : Bool) → holds rs t held ≡ held)
    × ((created ≡ none) ⊎ ((m : MaptInfo) × (created ≡ some m) × (m.valid ≡ 1) × InOrder w m.queue))

pub ummu_mapt_create-Made :
    (w : World) (fd : Option ℕ) (info : TidInfo)
    → QueuesFor w info
    → Made w (ummu_mapt_create w fd info)
unfolding ummu_mapt_create ummu_alloc_mapt_mem holds
ummu_mapt_create-Made w fd info f =
    let m : MaptInfo = mapt_mem info in
    let made = ummu_queue_create w.queue_kernel info m.queue in
    let ((status, base), run) = mapt_init-ends w info m.mode in
    elim (Bool-cases w.malloc_mapt) [
      | inr e ↦
          let alloc : ummu_alloc_mapt_mem w info ≡ none = rw (ummu_alloc_mapt_mem, e) refl in
          (none, [], rw (ummu_mapt_create, alloc) refl, λ t held. refl, inl refl)
      | inl e' ↦
          let e : ummu_alloc_mapt_mem w info ≡ some m = rw (ummu_alloc_mapt_mem, e') refl in
          elim (Bool-cases (made.1 == 0)) [
            | inr n ↦ (none, [], rw (ummu_mapt_create, e, n) refl, λ t held. refl, inl refl)
            | inl n ↦
                let order : InOrder w made.0 = ummu_queue_create-InOrder w info m.queue f n in
                elim (Bool-cases (status == 0)) [
                  | inl z ↦ (
                    some (record m { block_base = base; queue = made.0 }),
                    [],
                    rw (ummu_mapt_create, e, n, run, z) refl,
                    λ t held. refl,
                    inr (record m { block_base = base; queue = made.0 }, refl, refl, order),
                  )
                  | inr z ↦
                      let (q', rs, destroyed, ready, none_held) =
                        ummu_queue_destroy-ends w.devices fd made.0 (order.0) (order.1) in
                      (
                        none,
                        rs,
                        rw (ummu_mapt_create, e, n, run, z, destroyed) refl,
                        none_held,
                        inl refl,
                      )
                ]
          ]
    ]
