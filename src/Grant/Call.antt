-- ===== src/Grant/Call.antt =====
-- The requests of the API: `ummu_grant`, `ummu_ungrant` and `ummu_ungrant_by_token` of ummu_mapt.c. A
-- null context and a null `seg_attr` are refused before what is here.
use openeuler_ummu.Base.{
  ℕ, ◌+◌, ◌-◌, ◌%◌, ◌^◌, ◌==◌, ◌&&◌, if◌then◌else◌, Bool, true, false, not, Option, none, some,
  List, [], ◌>>=◌, einval, enomem, bit_and, wsub,
}
use openeuler_ummu.Common.{not64}
use openeuler_ummu.Mapt.{
  GrantOp, ungrant, op_end, DataInfo, mapt_mode_table, align_vpage_shift_check,
}
use openeuler_ummu.Token.{TokenInfo}
use openeuler_ummu.Check.{GrantArgs, ummu_check_data, ummu_perm_data_preproc}
use openeuler_ummu.Table.Level.{level_range_mask, max_level_index}
use openeuler_ummu.Queue.Plbi.{Request, ummu_plbi_va_cmd}
use openeuler_ummu.TidMap.{hashmap_write}
use openeuler_ummu.Context.{MaptInfo, CtxInfo, World}
use openeuler_ummu.Grant.{
  get_mapt_info_by_tid, ummu_grant_check, ummu_ungrant_check, ummu_ungrant_imp, ummu_grant_imp,
  record_op,
}

abbrev pub is_op_end : GrantOp → Bool
is_op_end op_end = true
is_op_end _ = false

-- `ummu_grant` behind its checks, for an operation `d.op`: the status, the structure, the requests.
unfoldable pub grant_op :
    World → Option ℕ → MaptInfo → DataInfo → Option (ℕ × MaptInfo × List Request)
unfolding ummu_grant_imp record_op
grant_op w fd m d = do
  (ret, m', requests) ← ummu_grant_imp w fd m d
  (ret', m'') ← record_op w d.op ret m' d
  some (ret', m'', requests)

unfoldable pub grant_checked :
    World → Option ℕ → MaptInfo → DataInfo → Option (ℕ × MaptInfo × List Request)
unfolding ummu_grant_check grant_op
grant_checked w fd m d = do
  op ← ummu_grant_check m d
  let run = grant_op w fd m (record d { op = op }) in
      if is_op_end op then some (einval, m, []) else run

-- The answer of the API: the status, the context, the caller's token, the requests to the kernel.
pub record Reply : Type 0 where
  pub status : ℕ
  pub ctx : CtxInfo
  pub token : Option TokenInfo
  pub requests : List Request

abbrev pub refused : ℕ → CtxInfo → Option TokenInfo → Reply
refused status ctx token = record { status = status; ctx = ctx; token = token; requests = [] }

abbrev pub done : CtxInfo → ℕ → Option TokenInfo → ℕ × MaptInfo × List Request → Reply
done ctx tid token (status, m, requests) = record {
  status = status;
  ctx = record ctx { mapt_map = hashmap_write ctx.mapt_map tid m };
  token = token;
  requests = requests;
}

-- `old` is what the local variable's `tokenval` held.
unfoldable pub ummu_grant : World → ℕ → CtxInfo → ℕ → GrantArgs → Option Reply
unfolding get_mapt_info_by_tid grant_checked
ummu_grant w old ctx tid args = elim (get_mapt_info_by_tid ctx tid) [
  | none ↦ some (refused einval ctx args.token)
  | some m ↦
      let (d, ret, token) = ummu_perm_data_preproc w.urandom old args in
      let run = grant_checked w ctx.shared_fd m d in
      if not (ummu_check_data args m.mode == 0)
      then some (refused einval ctx args.token)
      else if not (ret == 0)
      then some (refused einval ctx token)
      else (do reply ← run; some (done ctx tid token reply))
]

abbrev pub is_ungrant : GrantOp → Bool
is_ungrant ungrant = true
is_ungrant _ = false

-- The range to invalidate: where all of a segment went, it is widened to the part of the table that
-- the level `lvl` spans.
unfoldable pub widen : DataInfo → DataInfo
widen d =
    let lvl : ℕ = if d.lvl == 0 then 0 else d.lvl - 1 in
    let aligin_mask = level_range_mask lvl in
    let size = (d.data_size + bit_and d.data_base aligin_mask) % 2 ^ 64 in
    record d {
      lvl = lvl;
      data_base = bit_and d.data_base (not64 aligin_mask);
      data_size = bit_and ((size + aligin_mask) % 2 ^ 64) (not64 aligin_mask);
    }

unfoldable pub invalidated : GrantOp → DataInfo → DataInfo
unfolding widen
invalidated op d = if is_ungrant op then widen d else d

unfoldable pub ungrant_op :
    World → Option ℕ → MaptInfo → DataInfo → Option (ℕ × MaptInfo × List Request)
unfolding record_op invalidated ummu_plbi_va_cmd
ungrant_op w fd m d = do
  (ret, m', lvl) ← ummu_ungrant_imp w m d
  (ret', m'') ← record_op w d.op ret m' d
  (q, requests) ←
      ummu_plbi_va_cmd w.devices fd m''.queue (invalidated d.op (record d { lvl = lvl }))
  some (ret', record m'' { queue = q }, requests)

unfoldable pub ungrant_checked :
    World → Option ℕ → MaptInfo → DataInfo → Option (ℕ × MaptInfo × List Request)
unfolding ummu_ungrant_check ungrant_op
ungrant_checked w fd m d = do
  op ← ummu_ungrant_check m d
  let run = ungrant_op w fd m (record d { op = op }) in
      if is_op_end op then some (einval, m, []) else run

-- `local` is what the fields held that the code does not set.
unfoldable pub ummu_ungrant_data : World → DataInfo → CtxInfo → ℕ → ℕ → ℕ → ℕ → ℕ → Option Reply
unfolding get_mapt_info_by_tid ungrant_checked
ummu_ungrant_data w local ctx tid address size tokenval bytoken =
    elim (get_mapt_info_by_tid ctx tid) [
      | none ↦ some (refused (if size == 0 then enomem else einval) ctx none)
      | some m ↦
          let d : DataInfo = record local {
            lvl = max_level_index;
            data_size = size;
            tokenval = tokenval;
            bytoken = bytoken;
            data_base = address;
            data_limit = wsub 64 (address + size) 1;
          } in
          let run = ungrant_checked w ctx.shared_fd m d in
          if size == 0
          then some (refused enomem ctx none)
          else if (m.mode == mapt_mode_table) && not (align_vpage_shift_check address)
          then some (refused einval ctx none)
          else (do reply ← run; some (done ctx tid none reply))
    ]

unfoldable pub ummu_ungrant : World → DataInfo → CtxInfo → ℕ → ℕ → ℕ → Option Reply
unfolding ummu_ungrant_data
ummu_ungrant w local ctx tid address size = ummu_ungrant_data w local ctx tid address size 0 0

unfoldable pub ummu_ungrant_by_token : World → DataInfo → CtxInfo → ℕ → ℕ → ℕ → ℕ → Option Reply
unfolding ummu_ungrant_data
ummu_ungrant_by_token w local ctx tid address size token_val =
    ummu_ungrant_data w local ctx tid address size token_val 1
