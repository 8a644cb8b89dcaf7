-- ===== src/Context/Fork.antt =====
-- The child of a fork, and its descriptors.
use openeuler_ummu.Base.{
  ℕ, ◌≡◌, ◌∙◌, ap, refl, if◌then◌else◌, Bool, false, Bool-cases, inl, inr, Option, none, some,
  Option-cases, List, [], ◌++◌,
}
use mathlib.Core.List.{append_assoc}
use openeuler_ummu.TidMap.{hashmap_get}
use openeuler_ummu.Context.{CtxInfo}
use openeuler_ummu.Context.Held.{has}
use openeuler_ummu.Context.Life.{System, close, ummu_ctx_init, ummu_init, child_process_after_fork}

-- the descriptors of a process
abbrev pub descriptors : Option CtxInfo → List ℕ
descriptors none = []
descriptors (some ctx) = close ctx.shared_fd

-- the descriptor that the initialisation opens, which it does once the memory is there
abbrev pub opened : System → List ℕ
opened sys = if sys.malloc_ctx then close sys.open_device else []

abbrev pub has_tid : Option CtxInfo → ℕ → Bool
has_tid none t = false
has_tid (some ctx) t = has ctx t

-- A new context has no tid, and the descriptor opened is either its own or closed again.
abbrev Fresh : List ℕ → Option CtxInfo × List ℕ → Type 0
Fresh fds (ctx, closed) = (closed ++ descriptors ctx ≡ fds) × ((t : ℕ) → has_tid ctx t ≡ false)

ummu_init-Fresh : (sys : System) → Fresh (opened sys) (ummu_init sys)
unfolding ummu_init hashmap_get
ummu_init-Fresh sys = elim (Bool-cases sys.malloc_ctx) [
  | inr m ↦ rw (ummu_init, m) (refl, λ t. refl)
  | inl m ↦ elim (Option-cases sys.open_device) [
    | inl o ↦ rw (ummu_init, ummu_ctx_init, m, o) (refl, λ t. refl)
    | inr (fd, o) ↦ elim (Bool-cases sys.create_map) [
      | inl c ↦ rw (ummu_init, ummu_ctx_init, m, o, c) (refl, λ t. refl)
      | inr c ↦ rw (ummu_init, ummu_ctx_init, m, o, c) (refl, λ t. refl)
    ]
  ]
]

-- After a fork the child has no tid of its parent, and every descriptor is accounted for: those closed
-- and that of the child's new context are those of the parent and the one opened, if any.
pub child_process_after_fork_lem :
    (sys : System) (parent : Option CtxInfo)
    → let (child, closed) = child_process_after_fork sys parent in
      (closed ++ descriptors child ≡ descriptors parent ++ opened sys)
      × ((t : ℕ) → has_tid child t ≡ false)
unfolding child_process_after_fork
child_process_after_fork_lem sys none = ummu_init-Fresh sys
child_process_after_fork_lem sys (some ctx) =
    let (fds, empty) = ummu_init-Fresh sys in
    (
      append_assoc (close ctx.shared_fd) (ummu_init sys).1 (descriptors (ummu_init sys).0)
          ∙ ap (λ (l : List ℕ). close ctx.shared_fd ++ l) fds,
      empty,
    )
