-- ===== src/Queue/Plbi.antt =====
-- The rest of ummu_queue.c: the queues of a tid, one for each UMMU, and the invalidation commands; and
-- `ummu_kcmd_plbi` of ummu_resource.c.
pub mod Layout
pub mod Range
pub mod Ends
pub mod EachSent
use openeuler_ummu.Base.{
  ℕ, zero, suc, ◌+◌, ◌-◌, ◌*◌, ◌/◌, ◌%◌, ◌^◌, ◌==◌, ltb, if◌then◌else◌, Bool, true, false, not,
  Option, none, some, List, [], ◌∷◌, ◌++◌, ◌>>=◌, enomem, bit_and, wsub,
}
use openeuler_ummu.Queue.Command.{CmdEntry, Device, Queue, Sizes, ummu_send_cmd}
use openeuler_ummu.Mapt.{DataInfo}

abbrev pub plbi_all_op : ℕ
plbi_all_op = 0x10

abbrev pub plbi_va_op : ℕ
plbi_va_op = 0x11

abbrev pub cmd_entry_shift : ℕ
cmd_entry_shift = 4

abbrev pub cpl_entry_shift : ℕ
cpl_entry_shift = 2

-- `struct ummu_tid_info`, less `dev` and `expan`, which the library does not read
pub record TidInfo : Type 0 where
  pub pcmdq_order : ℕ
  pub pcplq_order : ℕ
  pub blk_exp_size : ℕ
  pub tid : ℕ
  pub ummu_cnt : ℕ
  pub mode : ℕ
  pub hw_cap : ℕ
  pub va : ℕ
  pub size : ℕ

abbrev pub zero_tid_info : TidInfo
zero_tid_info = record {
  pcmdq_order = 0;
  pcplq_order = 0;
  blk_exp_size = 0;
  tid = 0;
  ummu_cnt = 0;
  mode = 0;
  hw_cap = 0;
  va = 0;
  size = 0;
}

-- `struct ummu_mapt_queue_args`: where in the mapped memory the three parts of a queue begin
pub record QueueArgs : Type 0 where
  pub cmd_entry : ℕ
  pub cpl_entry : ℕ
  pub ctrl_page : ℕ

-- `struct ummu_mapt_queue_ctx`. `memory` is what is at the addresses `queue`.
pub record QueueCtx : Type 0 where
  pub ummu_cnt : ℕ
  pub queue_size : ℕ
  pub sizes : Sizes
  pub queue : List QueueArgs
  pub memory : List Queue

abbrev pub no_queue_ctx : QueueCtx
no_queue_ctx = record {
  ummu_cnt = 0;
  queue_size = 0;
  sizes = record { cmd_que_pi_size = 0; cpl_que_size = 0 };
  queue = [];
  memory = [];
}

-- The fields of `struct ummu_mapt_info` that ummu_queue.c uses.
pub record QueueInfo : Type 0 where
  pub tid : ℕ
  pub double_plbi : ℕ
  pub kcmd_plbi : ℕ
  pub queue_ctx : QueueCtx

-- The requests to the kernel's device, in the order they are made: UMMU_IOCALLOC_TID with the tid it
-- answered, and UMMU_IOCPLBI_VA, UMMU_IOCPLBI_ALL and UMMU_IOCFREE_TID.
pub data Request : Type 0 where
  alloc_tid : ℕ → Request
  plbi_va : ℕ → ℕ → ℕ → Request
  plbi_all : ℕ → Request
  put_tid : ℕ → Request

-- PAGE_SHIFT; `ctz` is the builtin for an `unsigned int`.
pub ctz : ℕ → ℕ → ℕ
ctz zero word = 0
ctz (suc n) word = let rest = ctz n (word / 2) in if word % 2 == 1 then 0 else rest + 1

unfoldable pub page_shift : ℕ → ℕ
unfolding ctz
page_shift page_size =
    if ltb 0 (page_size / 0x1000) then 12 + ctz 32 (page_size / 0x1000 % 2 ^ 32) else 12

-- The loop over the queues, `n` of them from `start_addr` on.
pub queue_args : ℕ → ℕ → ℕ → TidInfo → ℕ → List QueueArgs
queue_args zero page_size size info start_addr = []
queue_args (suc n) page_size size info start_addr =
    let args : QueueArgs = record {
      cmd_entry = start_addr;
      cpl_entry = start_addr + page_size * 2 ^ info.pcmdq_order;
      ctrl_page = start_addr + page_size * (2 ^ info.pcmdq_order + 2 ^ info.pcplq_order);
    } in
    args ∷ queue_args n page_size size info (start_addr + size)

-- What the kernel answers: the page size, whether `malloc` succeeds, and what `mmap` maps for queues
-- of a size: the address and the queues there.
pub record QueueKernel : Type 0 where
  pub page_size : ℕ
  pub malloc : Bool
  pub mmap : ℕ → Option (ℕ × List Queue)

-- The size of one queue: the control page behind the two rings
abbrev pub queue_bytes : ℕ → TidInfo → ℕ
queue_bytes page_size info = page_size * (1 + 2 ^ info.pcmdq_order + 2 ^ info.pcplq_order) % 2 ^ 64

abbrev pub sizes_of : ℕ → TidInfo → Sizes
sizes_of page_size info = record {
  cmd_que_pi_size = wsub 16 (info.pcmdq_order + page_shift page_size % 2 ^ 8) cmd_entry_shift;
  cpl_que_size = wsub 16 (info.pcplq_order + page_shift page_size % 2 ^ 8) cpl_entry_shift;
}

-- `none` is for success with no queues, where the kernel is asked to invalidate.
unfoldable pub ummu_queue_create : QueueKernel → TidInfo → QueueInfo → QueueInfo × ℕ
unfolding queue_args
ummu_queue_create kernel info q =
    let size = queue_bytes kernel.page_size info in
    let queue_size = size * info.ummu_cnt % 2 ^ 64 in
    if not (q.kcmd_plbi == 0)
    then (q, 0)
    else if not kernel.malloc
    then (q, enomem)
    else if queue_size == 0
    then (q, enomem)
    else elim (kernel.mmap queue_size) [
      | none ↦ (q, enomem)
      | some (start_addr, memory) ↦ (
        record q {
          queue_ctx = record {
            ummu_cnt = info.ummu_cnt;
            queue_size = queue_size;
            sizes = sizes_of kernel.page_size info;
            queue = queue_args info.ummu_cnt kernel.page_size size info start_addr;
            memory = memory;
          };
        },
        0,
      )
    ]

-- The loop of `get_minist_log2size_range`, with at most `n` rounds, for a `uint64_t`
pub log2size_loop : ℕ → ℕ → ℕ
log2size_loop zero temp = 0
log2size_loop (suc n) temp =
    let rest = log2size_loop n (temp / 2) in if temp == 0 then 0 else rest + 1

unfoldable pub get_minist_log2size_range : ℕ → ℕ
unfolding log2size_loop
get_minist_log2size_range size = log2size_loop 64 (size - 1)

-- The requests of `ummu_kcmd_plbi`. `fd` is `none` for a descriptor below 0.
unfoldable pub ummu_kcmd_plbi : Option ℕ → TidInfo → ℕ → List Request
ummu_kcmd_plbi none info opcode = []
ummu_kcmd_plbi (some fd) info opcode =
    if opcode == plbi_va_op
    then plbi_va info.tid info.va info.size ∷ []
    else if opcode == plbi_all_op
    then plbi_all info.tid ∷ []
    else []

-- `ummu_send_cmd` to each queue; a status is dropped. `none` is a wait that does not end.
unfoldable pub send_to_all :
    (ℕ → Device) → Sizes → ℕ → CmdEntry → ℕ → List Queue → Option (List Queue)
send_to_all devices sizes plbi_num cmd i [] = some []
send_to_all devices sizes plbi_num cmd i (q ∷ qs) = do
  (_, q') ← ummu_send_cmd (devices i) sizes plbi_num cmd q
  qs' ← send_to_all devices sizes plbi_num cmd (i + 1) qs
  some (q' ∷ qs')

unfoldable pub ummu_send_plbi :
    (ℕ → Device) → Option ℕ → CmdEntry → QueueInfo → TidInfo → Option (QueueInfo × List Request)
unfolding send_to_all
ummu_send_plbi devices fd cmd q info =
    let plbi_num : ℕ = if q.double_plbi == 0 then 1 else 2 in
    let sent = send_to_all devices (q.queue_ctx.sizes) plbi_num cmd 0 (q.queue_ctx.memory) in
    if q.kcmd_plbi == 0
    then (do
      memory ← sent
      some (record q { queue_ctx = record (q.queue_ctx) { memory = memory } }, []))
    else some (q, ummu_kcmd_plbi fd info cmd.opcode)

unfoldable pub ummu_plbi_va_cmd :
    (ℕ → Device) → Option ℕ → QueueInfo → DataInfo → Option (QueueInfo × List Request)
unfolding ummu_send_plbi
ummu_plbi_va_cmd devices fd q d =
    let cmd : CmdEntry = record {
      opcode = plbi_va_op;
      cqe_en = 0;
      range = get_minist_log2size_range d.data_size % 2 ^ 6;
      addr = d.data_base;
    } in
    ummu_send_plbi devices fd cmd q
      (record zero_tid_info { tid = q.tid; va = d.data_base; size = d.data_size })

unfoldable pub ummu_send_user_all :
    (ℕ → Device) → Option ℕ → QueueInfo → Option (QueueInfo × List Request)
unfolding ummu_send_plbi
ummu_send_user_all devices fd q =
    ummu_send_plbi devices fd (record { opcode = plbi_all_op; cqe_en = 0; range = 0; addr = 0 }) q
      (record zero_tid_info { tid = q.tid })

-- After the invalidation the queues are unmapped and freed, if there are any.
unfoldable pub ummu_queue_destroy :
    (ℕ → Device) → Option ℕ → QueueInfo → Option (QueueInfo × List Request)
unfolding ummu_send_user_all
ummu_queue_destroy devices fd q = do
  (q', requests) ← ummu_send_user_all devices fd q
  some (
    if q'.kcmd_plbi == 0
        then record q' { queue_ctx = record (q'.queue_ctx) { queue = []; memory = [] } }
        else q',
    requests,
  )
