-- ===== src/Lib.antt =====
-- Verification library of libummu, the user-mode library of the UMMU (memory permission unit).
-- The program grants devices access to ranges of memory under a token id (tid). The files
-- are named from the repository's root.
--
-- Parts, and the files here that model them:
--   Base         shared names, tests, lists, digit laws of `&` and `|`, error numbers.
--   Common       ummu_common.c, ummu_common.h: bit operations, bit searches, random tokens.
--   Queue        ummu_queue.c, ummu_queue.h: the indices of the queues (Index), sending a command
--                (Command), consuming completions (Completion), the queues of a tid and the
--                invalidations (Plbi), with ummu_kcmd_plbi of ummu_resource.c.
--   SegTree      ummu_seg_tree.cpp: the ordered map of granted ranges.
--   SegMng       ummu_seg_mng.c, table mode: what a request may do, and the segment records.
--   Mapt         ummu_mapt.h: node layouts and the macros on addresses.
--   Token        ummu_mapt.c: the tokens of a node.
--   Check        ummu_mapt.c: the checks of a request.
--   Entry        ummu_mapt.c and ummu_seg_mng.c: entry mode, one entry for each tid.
--   Table        ummu_mapt.c, ummu_level_block.c, ummu_resource.c: the radix table of table mode.
--   Log          ummu_log.h, and the log level of ummu_main.c.
--   Resource     ummu_resource.c, kernel_headers/ummu_core.h: the requests to map memory and their offsets.
--   TidMap       ummu_utils.cpp, ummu_map.c: the map from tids.
--   Context      ummu_main.c, ummu_resource.c and the life of a tid in ummu_mapt.c: creation (Create),
--                allocation and release (Tid), loading, unloading and fork (Life).
--   Grant        ummu_mapt.c: ummu_grant, ummu_ungrant and ummu_ungrant_by_token (Call).
-- `ummu_allocate_tid` asks the kernel for a tid, creates its queues and its entry or table (Queue, Entry,
-- Table) and enters it in the map (TidMap). `ummu_grant` and `ummu_ungrant` look it up, check the request
-- (Check), ask the segment manager or the entry for the operation (SegMng, Entry), run it on the entry or
-- the table (Entry, Table), record it in the segment manager (SegMng) and invalidate what the device may
-- have cached (Queue).
--
-- Conventions. A function keeps its C name. A status n stands for the return value -n. Bit-fields and
-- machine integers are natural numbers with the reduction of each store written out. An array of
-- words is a list; a `std::map` is the ordered list of its entries; the memory of a table block is a
-- function from node offsets, with the size of its mapping. Table operations are steps on an
-- explicit state that may fault. The
-- recursion over table levels counts the levels left (four at most), and each loop counts its
-- rounds: the argument is the bound that the code tests.
--
-- Of Table, LevelBlock has the allocation of level blocks, Node, Fill, Clear, Update and Op the
-- operations, Create and Uninit the two ends of a table's life; Run and Access carry the proofs, and
-- LevelBlock/Room the size of the blocks. Walk says what the table tells a device about an address, and
-- what a grant and a token update change of it. A load or store of a node outside of the bytes that its block was mapped with,
-- an index past the array of blocks, and a null pointer are faults. Blocks of 64K or more have room for their
-- four level blocks.
--
-- A call of the API is a function of the context and of a record (World) of what the kernel, the
-- allocators and the devices answer; its result has the requests made to the kernel. What a device writes
-- is a function of the number of times it was looked at. `none` is a fault, or a wait that does not end;
-- the loop of `ummu_get_cpl_psync`, which the code does not bound, has 2 * 2^size rounds, one for each
-- value of an index, which is enough.
--
-- Parameters: what `open`, `read`, `malloc`, `calloc`, `mmap`, `ioctl`, `snprintf` and `strtol` answer, and what devices write.
-- Not modelled: the calls of the log in the other functions (pure output), memory barriers and locks (calls
-- are taken one at a time), the registration of the fork handler, and the bodies of the system calls.
pub mod Base
pub mod Common
pub mod Queue
pub mod SegTree
pub mod Log
pub mod Mapt
pub mod Token
pub mod TidMap
pub mod Context
pub mod Resource
pub mod Grant
pub mod Check
pub mod SegMng
pub mod Entry
pub mod Table
