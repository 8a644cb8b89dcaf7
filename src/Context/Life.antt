-- ===== src/Context/Life.antt =====
-- The context of the process (ummu_main.c): when the library is loaded and unloaded, and in the child
-- of a fork. `none` is a null pointer `g_ummu_ctx`.
use openeuler_ummu.Base.{
  ℕ, ◌==◌, if◌then◌else◌, Bool, Option, none, some, List, [], ◌∷◌, ◌++◌, ◌>>=◌, enomem, enodev,
}
use openeuler_ummu.Queue.Plbi.{Request}
use openeuler_ummu.Context.{MaptInfo, CtxInfo, World}
use openeuler_ummu.Context.Tid.{ummu_mapt_destroy}

-- What the system answers: whether `malloc` of the context succeeds, the descriptor that `open` gives,
-- and whether the map can be created.
pub record System : Type 0 where
  pub malloc_ctx : Bool
  pub open_device : Option ℕ
  pub create_map : Bool

-- `close`, of a descriptor that is not below 0
abbrev pub close : Option ℕ → List ℕ
close none = []
close (some fd) = fd ∷ []

-- The status, the context, and the descriptors closed
unfoldable pub ummu_ctx_init : System → ℕ × Option CtxInfo × List ℕ
ummu_ctx_init sys = elim sys.open_device [
  | none ↦ (enodev, none, [])
  | some fd ↦
      if sys.create_map
      then (0, some (record { mapt_map = []; shared_fd = some fd }), [])
      else (enomem, none, close (some fd))
]

-- `ummu_init` behind the log level and the registration of the handler, and the end of
-- `child_process_after_fork`: the context and the descriptors closed.
unfoldable pub ummu_init : System → Option CtxInfo × List ℕ
unfolding ummu_ctx_init
ummu_init sys =
    let (ret, ctx, closed) = ummu_ctx_init sys in
    if sys.malloc_ctx then (if ret == 0 then ctx else none, closed) else (none, [])

-- `hashmap_clear` with `ummu_mapt_info_destroy`: the requests made.
unfoldable pub hashmap_clear : World → Option ℕ → List (ℕ × MaptInfo) → Option (List Request)
unfolding ummu_mapt_destroy
hashmap_clear w fd [] = some []
hashmap_clear w fd ((key, m) ∷ map) = do
  (_, requests) ← ummu_mapt_destroy w fd m
  rest ← hashmap_clear w fd map
  some (requests ++ rest)

-- The child's context and the descriptors closed. The map is cleared without a destroyer, which frees
-- memory alone.
unfoldable pub child_process_after_fork : System → Option CtxInfo → Option CtxInfo × List ℕ
unfolding ummu_init
child_process_after_fork sys none = ummu_init sys
child_process_after_fork sys (some ctx) =
    let (child, closed) = ummu_init sys in (child, close ctx.shared_fd ++ closed)

-- The context, the descriptors closed, and the requests made before.
unfoldable pub ummu_uninit :
    World → Option CtxInfo → Option (Option CtxInfo × List ℕ × List Request)
unfolding hashmap_clear
ummu_uninit w none = some (none, [], [])
ummu_uninit w (some ctx) = do
  requests ← hashmap_clear w ctx.shared_fd ctx.mapt_map
  some (none, close ctx.shared_fd, requests)
