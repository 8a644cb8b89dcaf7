-- ===== src/Context/Create.antt =====
-- The creation of the structure of a tid (ummu_mapt.c), and the kernel's tids (ummu_resource.c).
use openeuler_ummu.Base.{
  ℕ, ◌%◌, ◌^◌, ◌==◌, if◌then◌else◌, Bool, not, Option, none, some, List, [], ◌∷◌, ◌>>=◌, enoent,
  enomem, bit_and,
}
use openeuler_ummu.Mapt.{mapt_mode_entry}
use openeuler_ummu.Table.{State}
use openeuler_ummu.Table.LevelBlock.{LevelPtr, failed, level_at}
use openeuler_ummu.Table.Op.{init_table}
use openeuler_ummu.Queue.Plbi.{
  TidInfo, Request, no_queue_ctx, put_tid, ummu_queue_create, ummu_queue_destroy,
}
use openeuler_ummu.SegMng.{SegTable}
use openeuler_ummu.Context.{Base, no_base, entry_block, table_ctx, MaptInfo, World}

abbrev pub hw_cap_expan : ℕ
hw_cap_expan = 1

abbrev pub hw_cap_double_plbi : ℕ
hw_cap_double_plbi = 2

abbrev pub hw_cap_kcmd_plbi : ℕ
hw_cap_kcmd_plbi = 4

-- The status and what the kernel wrote into `info`.
unfoldable pub ummu_get_tid : World → Option ℕ → TidInfo → ℕ × TidInfo
ummu_get_tid w none info = (enoent, info)
ummu_get_tid w (some fd) info = w.alloc_tid info

unfoldable pub ummu_put_tid : Option ℕ → ℕ → List Request
ummu_put_tid none tid = []
ummu_put_tid (some fd) tid = put_tid tid ∷ []

-- The status and `block_base`
unfoldable pub ummu_mapt_entry_init : World → ℕ × Base
ummu_mapt_entry_init w = elim w.mmap_entry [
  | none ↦ (enomem, no_base)
  | some node ↦
      (0, entry_block (record node { words = record (node.words) { valid = 0; nonce = 0 } }))
]

-- The segment manager; `none` stands for 0.
unfoldable pub ummu_create_seg_mng : World → ℕ × Option SegTable
ummu_create_seg_mng w = if w.new_seg_tree then (0, some []) else (enomem, none)

-- The root level block, or the error of its allocation.
unfoldable pub root_created : Option SegTable → LevelPtr × State → ℕ × Base
root_created mng (failed e, s) = (e, no_base)
root_created mng (level_at index offset, s) =
    (0, table_ctx (record { granted_addr_mng = mng; ctx = s.ctx }))

-- `none` is a fault. A failure leaves no structure behind, and its status is dropped by the caller.
unfoldable pub ummu_mapt_table_ctx_init : World → TidInfo → Option (ℕ × Base)
unfolding init_table ummu_create_seg_mng root_created
ummu_mapt_table_ctx_init w info =
    let (ret, mng) = ummu_create_seg_mng w in
    let expan : Bool = not (bit_and info.hw_cap hw_cap_expan == 0) in
    let first = init_table w.table_kernel w.blank_node expan info.blk_exp_size 0 in
    if not w.malloc_table_ctx
    then some (enomem, no_base)
    else if not (ret == 0)
    then some (enomem, no_base)
    else elim first [ none ↦ none | some root ↦ some (root_created mng root) ]

-- The zeroed structure with its first fields; the capabilities are stored in 8 bits.
abbrev pub mapt_mem : TidInfo → MaptInfo
mapt_mem info = record {
  block_base = no_base;
  valid = 1;
  mode = info.mode;
  queue = record {
    tid = info.tid;
    double_plbi = bit_and info.hw_cap hw_cap_double_plbi % 2 ^ 8;
    kcmd_plbi = bit_and info.hw_cap hw_cap_kcmd_plbi % 2 ^ 8;
    queue_ctx = no_queue_ctx;
  };
}

unfoldable pub ummu_alloc_mapt_mem : World → TidInfo → Option MaptInfo
ummu_alloc_mapt_mem w info = if w.malloc_mapt then some (mapt_mem info) else none

-- The table or the entry, by the mode.
unfoldable pub mapt_init : World → TidInfo → ℕ → Option (ℕ × Base)
unfolding ummu_mapt_entry_init ummu_mapt_table_ctx_init
mapt_init w info mode =
    if mode == mapt_mode_entry
    then some (ummu_mapt_entry_init w)
    else ummu_mapt_table_ctx_init w info

-- The structure, or `none` for a null pointer, and the requests made. The outer `none` is a fault, or a
-- wait that does not end.
unfoldable pub ummu_mapt_create :
    World → Option ℕ → TidInfo → Option (Option MaptInfo × List Request)
unfolding ummu_alloc_mapt_mem mapt_init ummu_queue_create
ummu_mapt_create w fd info = elim (ummu_alloc_mapt_mem w info) [
  | none ↦ some (none, [])
  | some m ↦
      let (q, ret) = ummu_queue_create w.queue_kernel info m.queue in
      let failing = ummu_queue_destroy w.devices fd q in
      let run = mapt_init w info m.mode in
      if not (ret == 0) then some (none, []) else (do
        (status, base) ← run
        if status == 0
            then some (some (record m { block_base = base; queue = q }), [])
            else (do (_, requests) ← failing; some (none, requests)))
]
