-- ===== src/Resource.antt =====
-- ummu_resource.c and kernel_headers/ummu_core.h: what the library asks the kernel to map, and where the
-- kernel finds in the offset what is asked for.
pub mod Offset
mod Tests
use openeuler_ummu.Base.{
  ℕ, ◌+◌, ◌*◌, ◌%◌, ◌^◌, bit_or, ltb, ◌||◌, ◌==◌, if◌then◌else◌, Option, none, some,
}

-- `enum ummu_buf_mode`
pub data BufMode : Type 0 where
  base_mode_entry_block base_mode_table_block base_mode_queue : BufMode

abbrev pub mmap_type_block : ℕ
mmap_type_block = 1

abbrev pub mmap_type_mutiq : ℕ
mmap_type_mutiq = 2

abbrev pub block_size_4k : ℕ
block_size_4k = 0x1000

abbrev pub block_size_16k : ℕ
block_size_16k = 0x4000

abbrev pub block_size_2m : ℕ
block_size_2m = 0x20_0000

-- UMMU_OFFSET_BLK and UMMU_OFFSET_QUE, for a PAGE_SHIFT
pub ummu_offset_blk : ℕ → ℕ → ℕ → ℕ
ummu_offset_blk page_shift index tid =
    bit_or
      (bit_or (mmap_type_block * 2 ^ page_shift % 2 ^ 64) (index * 2 ^ (page_shift + 2) % 2 ^ 64))
      (tid * 2 ^ (page_shift + 2 + 10) % 2 ^ 64)

pub ummu_offset_que : ℕ → ℕ → ℕ
ummu_offset_que page_shift tid =
    bit_or (mmap_type_mutiq * 2 ^ page_shift % 2 ^ 64) (tid * 2 ^ (page_shift + 2) % 2 ^ 64)

-- The size and the offset of the `mmap`, if there is one.
unfoldable pub ummu_get_core_buf : ℕ → ℕ → BufMode → ℕ → ℕ → Option (ℕ × ℕ)
unfolding ummu_offset_blk ummu_offset_que
ummu_get_core_buf page_shift tid mode size idx =
    let request : Option (ℕ × ℕ) = elim mode [
      | base_mode_entry_block ↦ some (size, ummu_offset_blk page_shift 0 tid)
      | base_mode_table_block ↦
          if ltb size block_size_16k || ltb block_size_2m size
          then none
          else some (size, ummu_offset_blk page_shift idx tid)
      | base_mode_queue ↦ some (size, ummu_offset_que page_shift tid)
    ] in
    if size == 0 then none else request

-- The size of the `munmap`.
unfoldable pub ummu_free_core_buf : BufMode → ℕ → ℕ
ummu_free_core_buf base_mode_entry_block size = block_size_4k
ummu_free_core_buf base_mode_table_block size = size
ummu_free_core_buf base_mode_queue size = size
