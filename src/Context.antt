-- ===== src/Context.antt =====
-- What the library keeps: the context, and for each tid its permission table and its queues
-- (`struct ummu_ctx_info` and `struct ummu_mapt_info` of ummu_mapt.h).
pub mod Create
pub mod Tid
pub mod Life
pub mod Fork
pub mod Held
pub mod Allocate
pub mod Tids
mod Tests
use openeuler_ummu.Base.{ℕ, ◌==◌, Bool, Option, none, some, List}
use openeuler_ummu.Common.Random.{Urandom}
use openeuler_ummu.Mapt.{EntryNode}
use openeuler_ummu.SegMng.{SegTable}
use openeuler_ummu.Table.{Kernel, TableNode, TableCtx}
use openeuler_ummu.Queue.Command.{Device}
use openeuler_ummu.Queue.Plbi.{QueueInfo, QueueKernel, TidInfo}

-- `struct ummu_mapt_table_ctx` with its field `granted_addr_mng`, which is `none` for 0.
pub record TableInfo : Type 0 where
  pub granted_addr_mng : Option SegTable
  pub ctx : TableCtx

-- `block_base`, with what it points to. `no_base` is a null pointer.
pub data Base : Type 0 where
  no_base : Base
  entry_block : EntryNode → Base
  table_ctx : TableInfo → Base

-- `struct ummu_mapt_info`
pub record MaptInfo : Type 0 where
  pub block_base : Base
  pub valid : ℕ
  pub mode : ℕ
  pub queue : QueueInfo
  pub open queue use *

-- `struct ummu_ctx_info`. Each structure of the map is held by its entry alone. `none` is a descriptor
-- below 0.
pub record CtxInfo : Type 0 where
  pub mapt_map : List (ℕ × MaptInfo)
  pub shared_fd : Option ℕ

-- What the kernel, the allocators and the devices answer to one call of the library.
pub record World : Type 0 where
  pub alloc_tid : TidInfo → ℕ × TidInfo
  pub queue_kernel : QueueKernel
  pub table_kernel : Kernel
  pub devices : ℕ → Device
  pub urandom : Urandom
  -- `mmap` of an entry
  pub mmap_entry : Option EntryNode
  -- whether the `malloc` of `struct ummu_mapt_info` succeeds, that of the table's context, the `new` of
  -- its segment tree, and the `calloc` of a segment
  pub malloc_mapt : Bool
  pub malloc_table_ctx : Bool
  pub new_seg_tree : Bool
  pub calloc_seg : Bool
  -- what is in local structures that the code does not initialise
  pub blank_node : TableNode
