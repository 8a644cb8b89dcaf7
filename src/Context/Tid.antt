-- ===== src/Context/Tid.antt =====
-- Allocating and freeing a tid (ummu_mapt.c).
use openeuler_ummu.Base.{
  ℕ, ◌==◌, ◌||◌, if◌then◌else◌, Bool, not, Option, none, some, List, [], ◌∷◌, ◌++◌, ◌>>=◌, einval,
  enomem,
}
use openeuler_ummu.Check.{ummu_check_mode}
use openeuler_ummu.Mapt.{mapt_mode_entry, mapt_mode_table}
use openeuler_ummu.Table.Uninit.{ummu_mapt_table_ctx_uninit}
use openeuler_ummu.Queue.Plbi.{TidInfo, zero_tid_info, Request, alloc_tid, ummu_queue_destroy}
use openeuler_ummu.TidMap.{
  ummu_map_get, ummu_map_insert, ummu_map_del, hashmap_get, hashmap_insert, hashmap_del,
}
use openeuler_ummu.Context.{Base, no_base, table_ctx, MaptInfo, CtxInfo, World}
use openeuler_ummu.Context.Create.{ummu_get_tid, ummu_put_tid, ummu_mapt_create}

-- The blocks of memory that are left mapped; the segment manager is destroyed.
unfoldable pub ummu_mapt_table_ctx_uninit_base : Base → Base
unfolding ummu_mapt_table_ctx_uninit
ummu_mapt_table_ctx_uninit_base (table_ctx t) = table_ctx (record t {
  granted_addr_mng = none;
  ctx = record (t.ctx) {
    mapt_block_array =
        ummu_mapt_table_ctx_uninit (t.ctx.level_block_bitmap) (t.ctx.mapt_block_array);
  };
})
ummu_mapt_table_ctx_uninit_base base = base

-- What is left of the memory at `block_base`, and the requests made.
unfoldable pub ummu_mapt_destroy : World → Option ℕ → MaptInfo → Option (Base × List Request)
unfolding ummu_queue_destroy ummu_mapt_table_ctx_uninit_base
ummu_mapt_destroy w fd info =
    let left : Base =
      if info.mode == mapt_mode_entry
      then no_base
      else ummu_mapt_table_ctx_uninit_base info.block_base in
    let run = ummu_queue_destroy w.devices fd info.queue in
    if (info.mode == mapt_mode_entry) || (info.mode == mapt_mode_table)
    then (do (_, requests) ← run; some (left, requests))
    else some (info.block_base, [])

-- The status, the context, `*tid` where it is written, and the requests to the kernel.
abbrev pub Reply : Type 0
Reply = ℕ × CtxInfo × Option ℕ × List Request

-- `given` says whether the pointer to the tid is not null.
unfoldable pub ummu_check_input_param : ℕ → Bool → ℕ
ummu_check_input_param mode given =
    if not (ummu_check_mode mode == 0) then ummu_check_mode mode else if given then 0 else einval

-- The structure is entered in the map; if that fails it is destroyed and the tid given back.
unfoldable pub enter : World → CtxInfo → TidInfo → MaptInfo → Option Reply
unfolding ummu_mapt_destroy hashmap_insert
enter w ctx info m =
    let (map, ret) = ummu_map_insert ctx.mapt_map info.tid m in
    let undone = ummu_mapt_destroy w ctx.shared_fd m in
    if ret == 0 then some (0, record ctx { mapt_map = map }, some info.tid, []) else (do
      (_, requests) ← undone
      some (ret, ctx, none, requests ++ ummu_put_tid ctx.shared_fd info.tid))

-- The part of `ummu_allocate_tid` behind the kernel's answer.
unfoldable pub create_tid : World → CtxInfo → TidInfo → Option Reply
unfolding ummu_mapt_create enter
create_tid w ctx info = do
  (created, requests) ← ummu_mapt_create w ctx.shared_fd info
  elim created [
    | none ↦ some (enomem, ctx, none, requests ++ ummu_put_tid ctx.shared_fd info.tid)
    | some m ↦ do
      (status, ctx', tid, after) ← enter w ctx info m
      some (status, ctx', tid, requests ++ after)
  ]

unfoldable pub answered : World → CtxInfo → ℕ × TidInfo → Option Reply
answered w ctx (ret, info) =
    let rest = create_tid w ctx info in
    if not (ret == 0) then some (ret, ctx, none, []) else (do
      (status, ctx', tid, requests) ← rest
      some (status, ctx', tid, alloc_tid info.tid ∷ requests))

unfoldable pub ummu_allocate_tid : World → CtxInfo → ℕ → Bool → Option Reply
ummu_allocate_tid w ctx mode given =
    let ret = ummu_check_input_param mode given in
    let rest =
      answered w ctx (ummu_get_tid w ctx.shared_fd (record zero_tid_info { mode = mode })) in
    if ret == 0 then rest else some (ret, ctx, none, [])

unfoldable pub ummu_free_tid : World → CtxInfo → ℕ → Option Reply
unfolding hashmap_get hashmap_del ummu_mapt_destroy
ummu_free_tid w ctx tid = elim (ummu_map_get ctx.mapt_map tid) [
  | none ↦ some (einval, ctx, none, [])
  | some m ↦
      let destroyed = ummu_mapt_destroy w ctx.shared_fd m in
      if m.valid == 0 then some (einval, ctx, none, []) else (do
        (_, requests) ← destroyed
        some (
          0,
          record ctx { mapt_map = (ummu_map_del ctx.mapt_map tid).0 },
          none,
          requests ++ ummu_put_tid ctx.shared_fd tid,
        ))
]
